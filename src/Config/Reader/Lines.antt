-- ===== src/Config/Reader/Lines.antt =====
-- code/configuration.cpp: the lines that `set_configuration` understands.
use ohie.Base.{
  ℕ, ◌<◌, ◌≡◌, ◌⊎◌, ◌≢◌, refl, ap, List, [], ◌∷◌, ◌++◌, map, Bool, true, false, ◌&&◌, ◌||◌, ◌==◌,
  leb, ltb, ◌^◌, Option, some, ◌>>=◌, fun_ext, All, All-++, All-mono, arith,
}
use ohie.Text.{Text, eq_of_text_eq}
use ohie.Text.Number.{digit_value, to_string, safe_stoull, AllDigits, to_digits-AllDigits}
use ohie.Text.Split.{split, join, Without, split-join}
use ohie.Requests.Numbers.{safe_stoull-to_string, to_string_nonempty}
use ohie.Config.Reader.{known_vars, is_known, assign_variable, set_tokens, set_configuration}

-- `isspace` of the C locale, by which `trim` of Boost goes: a blank, and the bytes 9 to 13.
abbrev pub is_space : ℕ → Bool
is_space c = c == 32 || (leb 9 c && leb c 13)

abbrev pub Space : Text → Type 0
Space t = All (λ c. is_space c ≡ true) t

abbrev pub Solid : Text → Type 0
Solid t = All (λ c. is_space c ≡ false) t

visible : (c : ℕ) → 32 < c → is_space c ≡ false
visible c h = ground (arith, h)

-- A line that sets a variable, with white space around the name and the value, or any other line.
pub data ConfigLine : Type 0 where
  setting : Text → Text → Text → Text → ℕ → Text → ConfigLine
  other : Text → ConfigLine

unfoldable pub text_of : ConfigLine → Text
text_of (setting a vname b c v d) = (a ++ vname ++ b) ++ b'=' ∷ (c ++ to_string v ++ d)
text_of (other l) = l

-- What the lines set, in their order.
unfoldable pub settings_of : List ConfigLine → List (Text × ℕ)
settings_of [] = []
settings_of (setting a vname b c v d ∷ ls) = (vname, v) ∷ settings_of ls
settings_of (other l ∷ ls) = settings_of ls

unfoldable pub apply_settings : List (Text × ℕ) → List (Text × ℕ) → Option (List (Text × ℕ))
apply_settings [] s = some s
apply_settings ((vname, v) ∷ rest) s = do s' ← assign_variable vname v s; apply_settings rest s'

-- A line without exactly one `=`, with a name that is not known or a value that is no number.
abbrev pub IsIgnored : (Text → Text) → List Text → Type 0
IsIgnored trim (vname ∷ text ∷ []) =
    ((safe_stoull (trim text) true).1 ≡ false) ⊎ (is_known (trim vname) known_vars ≡ false)
IsIgnored trim _ = Unit

abbrev pub IsLine : (Text → Text) → ConfigLine → Type 0
IsLine trim (setting a vname b c v d) =
    Space a × Space b × Space c × Space d × (is_known vname known_vars ≡ true) × v < 2 ^ 64
IsLine trim (other l) = IsIgnored trim (split l b'=')

-- Letters and underscores stand behind 64.
above : Text → Bool
above [] = true
above (c ∷ cs) = ltb 64 c && above cs

all_above : List Text → Bool
all_above [] = true
all_above (t ∷ ts) = above t && all_above ts

above_lem : (t : Text) → above t ≡ true → All (λ c. 64 < c) t
unfolding above
above_lem [] h = tt
above_lem (c ∷ t) h = ground (arith, above_lem t)

known_above :
    (vname : Text) (xs : List Text)
    → all_above xs ≡ true
    → is_known vname xs ≡ true
    → above vname ≡ true
unfolding all_above is_known
known_above vname [] h k = cc
known_above vname (x ∷ xs) h k = ground (arith, known_above vname xs, eq_of_text_eq vname x)

known-All : (vname : Text) → is_known vname known_vars ≡ true → All (λ c. 64 < c) vname
unfolding is_known all_above above
known-All vname h = above_lem vname (known_above vname known_vars refl h)

digits_range : (t : Text) → AllDigits 10 t → All (λ c. (47 < c) × (c < 58)) t
unfolding digit_value
digits_range [] h = tt
digits_range (c ∷ t) ((d, e), h) = ((ground arith, ground arith), digits_range t h)

to_string_range : (n : ℕ) → All (λ c. (47 < c) × (c < 58)) (to_string n)
unfolding to_string
to_string_range n =
    digits_range (to_string n) (to_digits-AllDigits 10 20 n (omega arith) (omega arith))

append_nonempty : (a t b : Text) → t ≢ [] → a ++ t ++ b ≢ []
append_nonempty [] [] b h e = h refl
append_nonempty [] (x ∷ t) b h e = cc
append_nonempty (x ∷ a) t b h e = cc

Space-Without : (t : Text) → Space t → Without b'=' t
Space-Without t h = All-mono _ _ t (λ x l e. ground (arith, l, e)) h

module _ (trim : Text → Text)
    (trim_ends : (a t b : Text) → Space a → Solid t → Space b → trim (a ++ t ++ b) ≡ t) where
  split-setting :
      (a vname b c : Text) (v : ℕ) (d : Text)
      → IsLine trim (setting a vname b c v d)
      → split (text_of (setting a vname b c v d)) b'='
        ≡ (a ++ vname ++ b) ∷ (c ++ to_string v ++ d) ∷ []
  unfolding text_of join
  split-setting a vname b c v d (sa, sb, sc, sd, k, lt) =
      let n : Without b'=' vname = All-mono _ _ vname (λ x l e. omega arith) (known-All vname k) in
      let m : Without b'=' (to_string v) =
        All-mono _ _ (to_string v) (λ x (l, u) e. omega arith) (to_string_range v) in
      split-join b'=' ((a ++ vname ++ b) ∷ (c ++ to_string v ++ d) ∷ []) (
        All-++ _ (a ++ vname) b (All-++ _ a vname (Space-Without a sa) n) (Space-Without b sb),
        (
          All-++ _ (c ++ to_string v) d (All-++ _ c (to_string v) (Space-Without c sc) m)
              (Space-Without d sd),
          append_nonempty c (to_string v) d (to_string_nonempty v),
        ),
      )

  set_tokens-setting :
      (a vname b c : Text) (v : ℕ) (d : Text) (s : List (Text × ℕ))
      → IsLine trim (setting a vname b c v d)
      → set_tokens trim ((a ++ vname ++ b) ∷ (c ++ to_string v ++ d) ∷ []) s
        ≡ assign_variable vname v s
  unfolding set_tokens
  set_tokens-setting a vname b c v d s (sa, sb, sc, sd, k, lt) =
      let n : Solid vname =
        All-mono _ _ vname (λ x l. visible x (omega (arith, l))) (known-All vname k) in
      let m : Solid (to_string v) =
        All-mono _ _ (to_string v) (λ x (l, u). visible x (omega (arith, l))) (to_string_range v) in
      rw
        (
          trim_ends a vname b sa n sb,
          trim_ends c (to_string v) d sc m sd,
          safe_stoull-to_string v true lt,
          k,
        )
        refl

  set_tokens_ignored :
      (ts : List Text) (s : List (Text × ℕ)) → IsIgnored trim ts → set_tokens trim ts s ≡ some s
  unfolding set_tokens
  set_tokens_ignored [] s h = refl
  set_tokens_ignored (vname ∷ []) s h = refl
  set_tokens_ignored (vname ∷ text ∷ []) s h = ground (arith, h)
  set_tokens_ignored (vname ∷ text ∷ u ∷ ts) s h = refl

  -- A configuration file of lines `name=value`, with a known name, a number below 2^64 and any
  -- blanks and bytes 9 to 13 around them, and of other lines, which have no single `=`, no number
  -- or no known name, has the effect of the assignments of the first in their order. It is
  -- assumed that `trim` takes such white space off both ends of a text with none inside.
  pub set_configuration-text_of :
      (ls : List ConfigLine) (s : List (Text × ℕ))
      → All (IsLine trim) ls
      → set_configuration trim (map text_of ls) s ≡ apply_settings (settings_of ls) s
  unfolding set_configuration settings_of apply_settings text_of
  set_configuration-text_of [] s h = refl
  set_configuration-text_of (setting a vname b c v d ∷ ls) s h =
      rw (split-setting a vname b c v d h.0, set_tokens-setting a vname b c v d s h.0)
        (ap (◌>>=◌ (assign_variable vname v s)) (fun_ext λ s'. set_configuration-text_of ls s' h.1))
  set_configuration-text_of (other l ∷ ls) s h =
      rw (set_tokens_ignored (split l b'=') s h.0) (set_configuration-text_of ls s h.1)
