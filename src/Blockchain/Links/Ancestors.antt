-- ===== src/Blockchain/Links/Ancestors.antt =====
-- code/Blockchain.cpp: the way from a block up to its root, when a block is added.
use ohie.Base.{
  ℕ, ◌≡◌, ◌≢◌, ◌⊎◌, inl, inr, refl, List, [], ◌∷◌, none, some, arith, ◌==◌, if◌then◌else◌, Option,
  ◌∙◌, ap,
}
use ohie.Blockchain.Links.{Links, null, block, append_sibling, add_child, ancestors, children_of}

-- A list is empty or it is not, with the equation kept.
List-cases : (l : List ℕ) → (l ≡ []) ⊎ ((x : ℕ) × (xs : List ℕ) × (l ≡ x ∷ xs))
List-cases [] = inl refl
List-cases (x ∷ xs) = inr (x, xs, refl)

ancestors-append_sibling :
    (t : Links) (n q : ℕ)
    → ancestors (append_sibling t (block n null null)) q
      ≡ (elim (ancestors t q) [ [] ↦ if n == q then n ∷ [] else [] | x ∷ up ↦ x ∷ up ])
unfolding ancestors append_sibling
ancestors-append_sibling null n q = ground arith
ancestors-append_sibling (block a c s) n q = ground (arith, ancestors-append_sibling s n q)

-- Every other block keeps its way up when a block is added below any block of the child tree.
pub ancestors-add_child_ne :
    (t : Links) (p n q : ℕ)
    → n ≢ q
    → ancestors (add_child t p (block n null null)) q ≡ ancestors t q
unfolding ancestors add_child
ancestors-add_child_ne null p n q h = refl
ancestors-add_child_ne (block a c s) p n q h = ground (
  arith,
  ancestors-add_child_ne c p n q h,
  ancestors-add_child_ne s p n q h,
  ancestors-append_sibling c n q,
)

pub ancestors-absent :
    (a : ℕ) (c s : Links) (q : ℕ)
    → ancestors (block a c s) q ≡ []
    → (a ≢ q) × (ancestors c q ≡ []) × (ancestors s q ≡ [])
unfolding ancestors
ancestors-absent a c s q e = ground arith

-- The way up from a new block: its parent's, with the block before it.
abbrev pub below : ℕ → List ℕ → List ℕ
below n [] = []
below n (x ∷ up) = n ∷ x ∷ up

-- The way up from a block that was not in the child tree, after it is added below `p`, is the
-- block and then the way up from `p`, and is empty where `p` is not in the tree.
pub ancestors-add_child_self :
    (t : Links) (p n : ℕ)
    → ancestors t n ≡ []
    → ancestors (add_child t p (block n null null)) n ≡ below n (ancestors t p)
unfolding ancestors add_child
ancestors-add_child_self null p n e = refl
ancestors-add_child_self (block a c s) p n e =
    let (ne, ec, es) = ancestors-absent a c s n e in
    ground (
      arith,
      ne,
      ancestors-add_child_self c p n ec,
      ancestors-add_child_self s p n es,
      ancestors-append_sibling c n n,
    )

children_of-absent : (t : Links) (q : ℕ) → ancestors t q ≡ [] → children_of t q ≡ none
unfolding children_of
children_of-absent null q e = refl
children_of-absent (block a c s) q e =
    let (ne, ec, es) = ancestors-absent a c s q e in
    ground (arith, ne, children_of-absent c q ec, children_of-absent s q es)

children_of-append_sibling :
    (t : Links) (n : ℕ)
    → ancestors t n ≡ []
    → children_of (append_sibling t (block n null null)) n ≡ some null
unfolding children_of append_sibling
children_of-append_sibling null n e = ground arith
children_of-append_sibling (block a c s) n e =
    let (ne, ec, es) = ancestors-absent a c s n e in
    ground (arith, ne, children_of-append_sibling s n es, children_of-absent c n ec)

-- The new block has no children, if its parent is in the tree.
abbrev none_or_leaf : List ℕ → Option Links
none_or_leaf [] = none
none_or_leaf (x ∷ up) = some null

children_of-add_child_self :
    (t : Links) (p n : ℕ)
    → ancestors t n ≡ []
    → children_of (add_child t p (block n null null)) n ≡ none_or_leaf (ancestors t p)
unfolding children_of add_child ancestors
children_of-add_child_self null p n e = refl
children_of-add_child_self (block a c s) p n e =
    let (ne, ec, es) = ancestors-absent a c s n e in
    ground (
      arith,
      ne,
      children_of-add_child_self c p n ec,
      children_of-add_child_self s p n es,
      children_of-append_sibling c n ec,
    )

pub children_of-add_child :
    (t : Links) (p n : ℕ) {x : ℕ} {up : List ℕ}
    → ancestors t n ≡ []
    → ancestors t p ≡ x ∷ up
    → children_of (add_child t p (block n null null)) n ≡ some null
children_of-add_child t p n e f = children_of-add_child_self t p n e ∙ ap none_or_leaf f
