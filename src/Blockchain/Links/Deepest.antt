-- ===== src/Blockchain/Links/Deepest.antt =====
-- code/Blockchain.cpp: what `find_max_depth` finds.
use ohie.Base.{
  ℕ, ◌≤◌, ◌<◌, ◌≡◌, ◌⊎◌, inl, inr, ◌∙◌, refl, sym, ap, List, [], ◌∷◌, ◌++◌, Option, some, arith,
  Holds, Holds-bind, Holds-some, Holds-mono, All, All-++, All-mono, Bool-cases, ltb, ltb→lt,
  if◌then◌else◌, >>=-eq-some, some-inj, subst,
}
use ohie.Blockchain.Links.{
  Links, null, block, addresses, children_of, max_depth_loop, find_max_depth,
}

-- A depth that can be read, and is at most `d`.
abbrev pub AtMost : (ℕ → Option ℕ) → ℕ → ℕ → Type 0
AtMost depth d a = (k : ℕ) × (depth a ≡ some k) × (k ≤ d)

abbrev pub Among : ℕ → List ℕ → Type 0
Among m [] = ⊥
Among m (x ∷ xs) = (m ≡ x) ⊎ Among m xs

Among-left : (m : ℕ) (xs ys : List ℕ) → Among m xs → Among m (xs ++ ys)
Among-left m [] ys h = elim h [ ]
Among-left m (x ∷ xs) ys (inl e) = inl e
Among-left m (x ∷ xs) ys (inr h) = inr (Among-left m xs ys h)

Among-right : (m : ℕ) (xs ys : List ℕ) → Among m ys → Among m (xs ++ ys)
Among-right m [] ys h = h
Among-right m (x ∷ xs) ys h = inr (Among-right m xs ys h)

module _ (depth : ℕ → Option ℕ) where
  -- The loop from `mx` over a list of siblings and all below: its result is `mx`, or the depth of
  -- `mx` was read; it is the deepest of all; and it is one of them.
  record Deepest (mx : ℕ) (xs : List ℕ) (m : ℕ) : Type 0 where
    read : (m ≡ mx) ⊎ ((x : ℕ) × (depth mx ≡ some x))
    most :
        (x : ℕ)
        → depth mx ≡ some x
        → (d : ℕ) × (depth m ≡ some d) × (x ≤ d) × All (AtMost depth d) xs
    one : (m ≡ mx) ⊎ Among m xs

  depth_of_start :
      (mx m fd : ℕ) (xs : List ℕ)
      → Deepest mx xs m
      → depth m ≡ some fd
      → (x : ℕ) × (depth mx ≡ some x)
  depth_of_start mx m fd xs h e = elim h.read [
    | inl same ↦ (fd, ap depth (sym same) ∙ e)
    | inr r ↦ r
  ]

  All-AtMost-le :
      (c d : ℕ) (xs : List ℕ) → c ≤ d → All (AtMost depth c) xs → All (AtMost depth d) xs
  All-AtMost-le c d xs le h = All-mono _ _ xs (λ a (k, e, l). (k, e, omega arith)) h

  -- The deepest below a sibling takes over.
  Deepest-descend :
      (mx a fm fd md m : ℕ) (below beside : List ℕ)
      → Deepest a below fm
      → depth fm ≡ some fd
      → depth mx ≡ some md
      → md < fd
      → Deepest fm beside m
      → Deepest mx (a ∷ (below ++ beside)) m
  Deepest-descend mx a fm fd md m below beside h ef em lt k =
      let (xa, ea) = depth_of_start a fm fd below h ef in
      let (c, ec, la, hb) = h.most xa ea in
      let (d, ed, ld, hs) = k.most fd ef in
      let q : c ≡ fd = some-inj (sym ec ∙ ef) in
      record {
        read = inr (md, em);
        most = λ x e.
            let r : x ≡ md = some-inj (sym e ∙ em) in
            (
              d,
              ed,
              omega arith,
              (
                (xa, ea, omega arith),
                All-++ _ below beside (All-AtMost-le c d below (omega arith) hb) hs,
              ),
            );
        one = inr (elim k.one [
          | inl same ↦ elim h.one [
            | inl top ↦ inl (same ∙ top)
            | inr low ↦ inr (Among-left m below beside (subst (λ u. Among u below) (sym same) low))
          ]
          | inr there ↦ inr (Among-right m below beside there)
        ]);
      }

  Deepest-stay :
      (mx a fm fd md m : ℕ) (below beside : List ℕ)
      → Deepest a below fm
      → depth fm ≡ some fd
      → depth mx ≡ some md
      → fd ≤ md
      → Deepest mx beside m
      → Deepest mx (a ∷ (below ++ beside)) m
  Deepest-stay mx a fm fd md m below beside h ef em le k =
      let (xa, ea) = depth_of_start a fm fd below h ef in
      let (c, ec, la, hb) = h.most xa ea in
      let (d, ed, ld, hs) = k.most md em in
      let q : c ≡ fd = some-inj (sym ec ∙ ef) in
      record {
        read = k.read;
        most = λ x e.
            let r : x ≡ md = some-inj (sym e ∙ em) in
            (
              d,
              ed,
              omega arith,
              (
                (xa, ea, omega arith),
                All-++ _ below beside (All-AtMost-le c d below (omega arith) hb) hs,
              ),
            );
        one = elim k.one [
          | inl same ↦ inl same
          | inr there ↦ inr (inr (Among-right m below beside there))
        ];
      }

  Deepest-step :
      (mx a fm fd md m : ℕ) (below beside : List ℕ)
      → Deepest a below fm
      → depth fm ≡ some fd
      → depth mx ≡ some md
      → Deepest (if ltb md fd then fm else mx) beside m
      → Deepest mx (a ∷ (below ++ beside)) m
  Deepest-step mx a fm fd md m below beside h ef em k = elim (Bool-cases (ltb md fd)) [
    | inl t ↦
        Deepest-descend mx a fm fd md m below beside h ef em (ltb→lt md fd t)
          (subst (λ b. Deepest (if b then fm else mx) beside m) t k)
    | inr t ↦
        Deepest-stay mx a fm fd md m below beside h ef em (ground arith)
          (subst (λ b. Deepest (if b then fm else mx) beside m) t k)
  ]

  max_depth_loop-Deepest :
      (mx : ℕ) (t : Links) → Holds (Deepest mx (addresses t)) (max_depth_loop depth mx t)
  unfolding max_depth_loop addresses
  max_depth_loop-Deepest mx null = record {
    read = inl refl;
    most = λ x e. (x, e, omega arith, tt);
    one = inl refl;
  }
  max_depth_loop-Deepest mx (block a child sibling) =
      Holds-bind _ (max_depth_loop depth a child) _ λ fm e. Holds-bind _ (depth fm) _ λ fd ef.
        Holds-bind _ (depth mx) _ λ md em.
          Holds-mono _ _ (max_depth_loop depth (if ltb md fd then fm else mx) sibling)
            (λ m k.
              Deepest-step mx a fm fd md m (addresses child) (addresses sibling)
                (Holds-some _ _ e (max_depth_loop-Deepest a child)) ef em k)
            (max_depth_loop-Deepest (if ltb md fd then fm else mx) sibling)

-- If the depth of the block it starts from can be read, the block that `find_max_depth` returns
-- is that block or one below it, and the depth of each of these can be read and is not greater
-- than its own.
pub find_max_depth-Among :
    (depth : ℕ → Option ℕ) (t : Links) (r x m : ℕ)
    → depth r ≡ some x
    → find_max_depth depth t r ≡ some m
    → (child : Links) × (children_of t r ≡ some child)
      × (d : ℕ) × (depth m ≡ some d)
      × All (AtMost depth d) (r ∷ addresses child)
      × Among m (r ∷ addresses child)
unfolding find_max_depth
find_max_depth-Among depth t r x m er e =
    let (child, ec, f) = >>=-eq-some (children_of t r) _ e in
    let k = Holds-some _ _ f (max_depth_loop-Deepest depth r child) in
    let (d, ed, l, h) = k.most x er in (child, ec, d, ed, ((x, er, l), h), k.one)
