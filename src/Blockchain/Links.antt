-- ===== src/Blockchain/Links.antt =====
-- code/Blockchain.cpp: the tree that the `child` and `sibling` links of the blocks of one chain
-- make. As a value a link is `null`, or a block with the list of its children and what stands
-- behind it in the list of its parent. The `parent` links are those of this tree: every place of the code
-- that sets one puts the block into the child list of that parent.
pub mod Ancestors
pub mod Attach
pub mod Deepest
use ohie.Base.{ℕ, ◌+◌, List, [], ◌∷◌, ◌++◌, Option, none, some, ◌==◌, if◌then◌else◌, ltb, ◌>>=◌}

pub data Links : Type 0 where
  null : Links
  block : ℕ → Links → Links → Links

-- `while (z->sibling != NULL) z = z->sibling; z->sibling = n`.
unfoldable pub append_sibling : Links → Links → Links
append_sibling null n = n
append_sibling (block a child sibling) n = block a child (append_sibling sibling n)

-- The new block becomes the last child of the block at address `p`.
unfoldable pub add_child : Links → ℕ → Links → Links
add_child null p n = null
add_child (block a child sibling) p n =
    if a == p
    then block a (append_sibling child n) sibling
    else block a (add_child child p n) (add_child sibling p n)

-- What the loop `while (t != NULL) t = t->parent` passes, from the block at `q` up to its root.
unfoldable pub ancestors : Links → ℕ → List ℕ
ancestors null q = []
ancestors (block a child sibling) q =
    if a == q
    then a ∷ []
    else elim (ancestors child q) [ [] ↦ ancestors sibling q | x ∷ up ↦ (x ∷ up) ++ a ∷ [] ]

-- `b->parent`.
unfoldable pub parent_of : Links → ℕ → Option ℕ
parent_of t q = elim (ancestors t q) [ x ∷ p ∷ up ↦ some p | _ ↦ none ]

-- `b->child`, if the block at that address is in the tree.
unfoldable pub children_of : Links → ℕ → Option Links
children_of null q = none
children_of (block a child sibling) q =
    if a == q
    then some child
    else elim (children_of child q) [ none ↦ children_of sibling q | some c ↦ some c ]

-- The addresses of a list of blocks and all below them, each block before its children.
unfoldable pub addresses : Links → List ℕ
addresses null = []
addresses (block a child sibling) = a ∷ (addresses child ++ addresses sibling)

-- The loop over the children: `n += find_number_of_nodes(c); c = c->sibling`.
unfoldable pub count_siblings : Links → ℕ
count_siblings null = 0
count_siblings (block a child sibling) = (1 + count_siblings child) + count_siblings sibling

unfoldable pub find_number_of_nodes : Links → ℕ
find_number_of_nodes null = 0
find_number_of_nodes (block a child sibling) = 1 + count_siblings child

-- The loop of `find_max_depth` over the children, `mx` the deepest block so far. A depth that cannot
-- be read, because `nb` is `NULL`, is a fault.
unfoldable pub max_depth_loop : (ℕ → Option ℕ) → ℕ → Links → Option ℕ
max_depth_loop depth mx null = some mx
max_depth_loop depth mx (block a child sibling) = do
  fm ← max_depth_loop depth a child
  fm_depth ← depth fm
  mx_depth ← depth mx
  max_depth_loop depth (if ltb mx_depth fm_depth then fm else mx) sibling

unfoldable pub find_max_depth : (ℕ → Option ℕ) → Links → ℕ → Option ℕ
find_max_depth depth t r = do child ← children_of t r; max_depth_loop depth r child
