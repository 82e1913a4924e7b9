-- ===== src/AscDesc/Texts.antt =====
-- Texts as lists of bytes, the operations on `str` that the parsers use, and the literals.
use milli.Base.{ℕ, Bool, true, false, ◌&&◌, List, [], ◌∷◌, Option, none, some, ◌==◌, if◌then◌else◌}

abbrev pub Text : Type 0
Text = List ℕ

unfoldable pub text_eq : Text → Text → Bool
text_eq [] [] = true
text_eq (a ∷ more) (b ∷ bs) = let rest = text_eq more bs in (a == b) && rest
text_eq _ _ = false

-- `strip_prefix`: what follows the prefix.
unfoldable pub strip_prefix : Text → Text → Option Text
strip_prefix text [] = some text
strip_prefix [] (p ∷ prefix) = none
strip_prefix (c ∷ text) (p ∷ prefix) =
    let rest = strip_prefix text prefix in if c == p then rest else none

unfoldable pub starts_with : Text → Text → Bool
unfolding strip_prefix
starts_with text prefix = elim (strip_prefix text prefix) [ none ↦ false | some rest ↦ true ]

-- `strip_suffix`: what precedes the suffix.
unfoldable pub strip_suffix : Text → Text → Option Text
unfolding text_eq
strip_suffix [] suffix = if text_eq [] suffix then some [] else none
strip_suffix (c ∷ text) suffix =
    let rest = strip_suffix text suffix in
    if text_eq (c ∷ text) suffix
    then some []
    else elim rest [ none ↦ none | some front ↦ some (c ∷ front) ]

unfoldable pub split_once : ℕ → Text → Option (Text × Text)
split_once sep [] = none
split_once sep (c ∷ text) =
    let rest = split_once sep text in
    if c == sep
    then some ([], text)
    else elim rest [ none ↦ none | some (left, right) ↦ some (c ∷ left, right) ]

-- `rsplit_once`: the last separator counts.
unfoldable pub rsplit_once : ℕ → Text → Option (Text × Text)
rsplit_once sep [] = none
rsplit_once sep (c ∷ text) = elim (rsplit_once sep text) [
  | some (left, right) ↦ some (c ∷ left, right)
  | none ↦ if c == sep then some ([], text) else none
]

abbrev pub geo : Text
geo = b'_' ∷ b'g' ∷ b'e' ∷ b'o' ∷ []

abbrev pub geo_distance : Text
geo_distance =
    b'_' ∷ b'g' ∷ b'e' ∷ b'o' ∷ b'D' ∷ b'i' ∷ b's' ∷ b't' ∷ b'a' ∷ b'n' ∷ b'c' ∷ b'e' ∷ []

abbrev pub geo_point : Text
geo_point = b'_' ∷ b'g' ∷ b'e' ∷ b'o' ∷ b'P' ∷ b'o' ∷ b'i' ∷ b'n' ∷ b't' ∷ []

abbrev pub geo_radius : Text
geo_radius = b'_' ∷ b'g' ∷ b'e' ∷ b'o' ∷ b'R' ∷ b'a' ∷ b'd' ∷ b'i' ∷ b'u' ∷ b's' ∷ []

abbrev pub geo_point_open : Text
geo_point_open = b'_' ∷ b'g' ∷ b'e' ∷ b'o' ∷ b'P' ∷ b'o' ∷ b'i' ∷ b'n' ∷ b't' ∷ b'(' ∷ []

abbrev pub geo_radius_open : Text
geo_radius_open = b'_' ∷ b'g' ∷ b'e' ∷ b'o' ∷ b'R' ∷ b'a' ∷ b'd' ∷ b'i' ∷ b'u' ∷ b's' ∷ b'(' ∷ []

abbrev pub asc_text : Text
asc_text = b'a' ∷ b's' ∷ b'c' ∷ []

abbrev pub desc_text : Text
desc_text = b'd' ∷ b'e' ∷ b's' ∷ b'c' ∷ []

abbrev pub words_text : Text
words_text = b'w' ∷ b'o' ∷ b'r' ∷ b'd' ∷ b's' ∷ []

abbrev pub typo_text : Text
typo_text = b't' ∷ b'y' ∷ b'p' ∷ b'o' ∷ []

abbrev pub proximity_text : Text
proximity_text = b'p' ∷ b'r' ∷ b'o' ∷ b'x' ∷ b'i' ∷ b'm' ∷ b'i' ∷ b't' ∷ b'y' ∷ []

abbrev pub attribute_text : Text
attribute_text = b'a' ∷ b't' ∷ b't' ∷ b'r' ∷ b'i' ∷ b'b' ∷ b'u' ∷ b't' ∷ b'e' ∷ []

abbrev pub sort_text : Text
sort_text = b's' ∷ b'o' ∷ b'r' ∷ b't' ∷ []

abbrev pub exactness_text : Text
exactness_text = b'e' ∷ b'x' ∷ b'a' ∷ b'c' ∷ b't' ∷ b'n' ∷ b'e' ∷ b's' ∷ b's' ∷ []
