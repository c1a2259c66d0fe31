-- ===== src/Blockchain/Runs.antt =====
-- Witnesses for code/Blockchain.cpp: a tree of blocks of known depths.
use ohie.Base.{ℕ, ◌≡◌, refl, ◌∷◌, Option, some, All, ◌==◌, if◌then◌else◌}
use ohie.Blockchain.Links.{
  Links, null, block, addresses, children_of, max_depth_loop, find_max_depth,
}
use ohie.Blockchain.Links.Deepest.{AtMost, Among, find_max_depth-Among}

-- Two children, the second with a child of its own.
abbrev family : Links
family = block 0 (block 1 null (block 2 (block 3 null null) null)) null

abbrev depth : ℕ → Option ℕ
depth a = if a == 0 then some 0 else if a == 3 then some 2 else some 1

find_max_depth-Among_example :
    (child : Links) × (children_of family 0 ≡ some child)
    × (d : ℕ) × (depth 3 ≡ some d)
    × All (AtMost depth d) (0 ∷ addresses child)
    × Among 3 (0 ∷ addresses child)
unfolding find_max_depth max_depth_loop children_of
find_max_depth-Among_example = find_max_depth-Among depth family 0 0 3 refl refl
