-- ===== src/Config/Reader/Examples.antt =====
-- Witnesses for code/configuration.cpp: a file that sets two variables.
use ohie.Base.{
  ◌≡◌, refl, ap, List, [], ◌∷◌, ◌++◌, map, if◌then◌else◌, arith, ◌∙◌, append-nil, append_assoc, inr,
}
use ohie.Text.{Text, codes, text_eq}
use ohie.Text.Split.{split}
use ohie.Config.Reader.{default_settings, is_known, set_configuration}
use ohie.Config.Reader.Lines.{
  ConfigLine, setting, other, is_space, Space, Solid, text_of, settings_of, apply_settings,
  set_configuration-text_of,
}

-- All white space goes, which for a name or a number is what stands at its ends.
abbrev no_space : Text → Text
no_space [] = []
no_space (c ∷ cs) = let rest = no_space cs in if is_space c then rest else c ∷ rest

no_space-Space : (a t : Text) → Space a → no_space (a ++ t) ≡ no_space t
no_space-Space [] t h = refl
no_space-Space (c ∷ a) t h = ground (arith, h.0, no_space-Space a t h.1)

no_space-Solid : (t b : Text) → Solid t → no_space (t ++ b) ≡ t ++ no_space b
no_space-Solid [] b h = refl
no_space-Solid (c ∷ t) b h = ground (arith, h.0, no_space-Solid t b h.1)

no_space_empty : (b : Text) → Space b → no_space b ≡ []
no_space_empty [] h = refl
no_space_empty (c ∷ b) h = ground (arith, h.0, no_space_empty b h.1)

no_space_ends : (a t b : Text) → Space a → Solid t → Space b → no_space (a ++ t ++ b) ≡ t
no_space_ends a t b h k l =
    ap no_space (append_assoc a t b)
    ∙ no_space-Space a (t ++ b) h
    ∙ no_space-Solid t b k
    ∙ ap (◌++◌ t) (no_space_empty b l)
    ∙ append-nil t

abbrev file : List ConfigLine
file =
    setting [] (codes "CHAINS") (codes " ") (codes " ") 7 []
    ∷ other (codes "# no setting")
    ∷ other (codes "MAX_PEER = 3")
    ∷ setting (codes " ") (codes "AT") [] [] 960 (codes " ")
    ∷ []

set_configuration-text_of_example :
    set_configuration no_space (map text_of file) default_settings
    ≡ apply_settings (settings_of file) default_settings
unfolding split is_known text_eq
set_configuration-text_of_example =
    set_configuration-text_of no_space no_space_ends file default_settings (
      (tt, (refl, tt), (refl, tt), tt, refl, omega arith),
      (tt, (inr refl, (((refl, tt), tt, tt, (refl, tt), refl, omega arith), tt))),
    )
