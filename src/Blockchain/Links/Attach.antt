-- ===== src/Blockchain/Links/Attach.antt =====
-- code/Blockchain.cpp: the ways up when a whole child tree is put below a block, as for an incomplete
-- chain whose root has come.
use ohie.Base.{ℕ, ◌≡◌, refl, List, [], ◌∷◌, ◌++◌, append_assoc, arith}
use ohie.Blockchain.Links.{Links, null, block, append_sibling, add_child, ancestors}
use ohie.Blockchain.Links.Ancestors.{ancestors-absent}

-- The first list that is not empty.
abbrev first : List ℕ → List ℕ → List ℕ
first [] ys = ys
first (x ∷ xs) ys = x ∷ xs

-- A way up that goes on, if there is one, and if it arrives.
abbrev pub onto : List ℕ → List ℕ → List ℕ
onto [] up = []
onto (y ∷ ys) [] = []
onto (y ∷ ys) (x ∷ up) = (y ∷ ys) ++ x ∷ up

-- One step further up, for a way that is there.
abbrev snoc : List ℕ → ℕ → List ℕ
snoc [] a = []
snoc (x ∷ up) a = (x ∷ up) ++ a ∷ []

onto-snoc : (ys up : List ℕ) (a : ℕ) → snoc (onto ys up) a ≡ onto ys (snoc up a)
onto-snoc [] up a = refl
onto-snoc (y ∷ ys) [] a = refl
onto-snoc (y ∷ ys) (x ∷ up) a = append_assoc (y ∷ ys) (x ∷ up) (a ∷ [])

ancestors-append :
    (t n : Links) (q : ℕ) → ancestors (append_sibling t n) q ≡ first (ancestors t q) (ancestors n q)
unfolding ancestors append_sibling
ancestors-append null n q = refl
ancestors-append (block a c s) n q = ground (arith, ancestors-append s n q)

-- The way up from a block of the child tree stays when a tree without it is put below any block.
pub ancestors-add_child_tree_ne :
    (t n : Links) (p q : ℕ) → ancestors n q ≡ [] → ancestors (add_child t p n) q ≡ ancestors t q
unfolding ancestors add_child
ancestors-add_child_tree_ne null n p q e = refl
ancestors-add_child_tree_ne (block a c s) n p q e = ground (
  arith,
  e,
  ancestors-add_child_tree_ne c n p q e,
  ancestors-add_child_tree_ne s n p q e,
  ancestors-append c n q,
)

-- The way up from a block that was not in the child tree, after a tree is put below `p`: its way up in
-- that tree, and then the way up from `p`.
pub ancestors-add_child_tree :
    (t n : Links) (p q : ℕ)
    → ancestors t q ≡ []
    → ancestors (add_child t p n) q ≡ onto (ancestors n q) (ancestors t p)
unfolding ancestors add_child
ancestors-add_child_tree null n p q e = ground arith
ancestors-add_child_tree (block a c s) n p q e =
    let (ne, ec, es) = ancestors-absent a c s q e in
    ground (
      arith,
      ne,
      ec,
      es,
      ancestors-add_child_tree c n p q ec,
      ancestors-add_child_tree s n p q es,
      ancestors-append c n q,
      onto-snoc (ancestors n q) (ancestors c p) a,
    )
