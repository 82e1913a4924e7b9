-- ===== src/AscDesc.antt =====
-- Sort expressions (milli/src/asc_desc.rs), ranking rules (milli/src/criterion.rs) and the fields
-- that a facet covers (`is_faceted_by` of milli/src/lib.rs). A text is the list of its bytes.
pub mod Texts
pub mod Points
pub mod RoundTrip
pub mod Facets
mod Examples
use milli.Base.{
  ℕ, Bool, true, false, not, ◌&&◌, ◌||◌, List, [], ◌∷◌, ◌++◌, Option, none, some, leb,
  if◌then◌else◌,
}
use milli.Base.Results.{Result, ok, err, ◌>>=◌}
use Points.{lat_min, lat_max, lng_min, lng_max}
use Texts.{
  Text, text_eq, starts_with, strip_prefix, strip_suffix, split_once, rsplit_once, geo,
  geo_distance, geo_point, geo_radius, geo_point_open, geo_radius_open, asc_text, desc_text,
  words_text, typo_text, proximity_text, attribute_text, sort_text, exactness_text,
}

-- `str::parse::<f64>`, which gives the 64 bits of a globally ordered f64, and `trim`.
pub record Floats : Type 0 where
  pub parse : Text → Option ℕ
  pub trim : Text → Text

pub data AscDescError : Type 0 where
  invalid_latitude invalid_longitude : AscDescError
  invalid_syntax reserved_keyword : Text → AscDescError

pub data CriterionError : Type 0 where
  invalid_name reserved_name reserved_name_for_sort reserved_name_for_filter : Text → CriterionError

pub data SortError : Type 0 where
  invalid_latitude invalid_longitude : SortError
  bad_geo_point_usage invalid_name reserved_name reserved_name_for_settings
        reserved_name_for_filter :
      Text → SortError

unfoldable pub is_reserved_keyword : Text → Bool
is_reserved_keyword keyword =
    text_eq keyword geo
    || (text_eq keyword geo_distance || (text_eq keyword geo_point || text_eq keyword geo_radius))

-- `From<AscDescError> for CriterionError`.
unfoldable pub to_criterion_error : AscDescError → CriterionError
to_criterion_error AscDescError.invalid_latitude = CriterionError.reserved_name_for_sort geo_point
to_criterion_error AscDescError.invalid_longitude = CriterionError.reserved_name_for_sort geo_point
to_criterion_error (AscDescError.invalid_syntax name) = CriterionError.invalid_name name
to_criterion_error (AscDescError.reserved_keyword name) =
    if starts_with name geo_point
    then CriterionError.reserved_name_for_sort geo_point
    else if starts_with name geo_radius
    then CriterionError.reserved_name_for_filter geo_radius
    else CriterionError.reserved_name name

-- `From<AscDescError> for SortError`.
unfoldable pub to_sort_error : AscDescError → SortError
to_sort_error AscDescError.invalid_latitude = SortError.invalid_latitude
to_sort_error AscDescError.invalid_longitude = SortError.invalid_longitude
to_sort_error (AscDescError.invalid_syntax name) = SortError.invalid_name name
to_sort_error (AscDescError.reserved_keyword name) =
    if starts_with name geo_point
    then SortError.bad_geo_point_usage name
    else if text_eq name geo
    then SortError.reserved_name_for_settings name
    else if starts_with name geo_radius
    then SortError.reserved_name_for_filter geo_radius
    else SortError.reserved_name name

abbrev or_error {ℓ} : {A E : Type ℓ} → E → Option A → Result E A
or_error e none = err e
or_error e (some a) = ok a

module _ (floats : Floats) where
  open floats use {parse, trim}

  pub data Member : Type 0 where
    field : Text → Member
    geo_member : ℕ → ℕ → Member

  pub data AscDesc : Type 0 where
    asc desc : Member → AscDesc

  pub data Criterion : Type 0 where
    words typo proximity attribute sort exactness : Criterion
    asc_field desc_field : Text → Criterion

  check_point : ℕ → ℕ → Result AscDescError Member
  check_point lat lng =
      if not (leb lat_min lat && leb lat lat_max)
      then err AscDescError.invalid_latitude
      else if not (leb lng_min lng && leb lng lng_max)
      then err AscDescError.invalid_longitude
      else ok (geo_member lat lng)

  -- The branch of a text between `_geoPoint(` and `)`.
  parse_point : Text → Text → Result AscDescError Member
  unfolding check_point
  parse_point text point =
      let reserved = AscDescError.reserved_keyword text in
      or_error reserved (split_once b',' point) >>= λ parts.
      or_error reserved (parse (trim parts.0)) >>= λ lat.
      or_error reserved (parse (trim parts.1)) >>= λ lng. check_point lat lng

  parse_field : Text → Result AscDescError Member
  parse_field text =
      if is_reserved_keyword text || starts_with text geo_radius_open
      then err (AscDescError.reserved_keyword text)
      else ok (field text)

  -- `text.strip_prefix("_geoPoint(").and_then(|text| text.strip_suffix(")"))`.
  unfoldable pub point_of : Text → Option Text
  point_of text = elim (strip_prefix text geo_point_open) [
    | none ↦ none
    | some rest ↦ strip_suffix rest (b')' ∷ [])
  ]

  member_of : Text → Option Text → Result AscDescError Member
  unfolding parse_point parse_field
  member_of text (some point) = parse_point text point
  member_of text none = parse_field text

  -- `Member::from_str`.
  unfoldable pub member_from_str : Text → Result AscDescError Member
  unfolding member_of point_of
  member_from_str text = member_of text (point_of text)

  direction : Text → Option (Text × Text) → Result AscDescError AscDesc
  unfolding member_from_str
  direction text none = err (AscDescError.invalid_syntax text)
  direction text (some (left, right)) =
      if text_eq right asc_text
      then (member_from_str left >>= λ m. ok (asc m))
      else if text_eq right desc_text
      then (member_from_str left >>= λ m. ok (desc m))
      else err (AscDescError.invalid_syntax text)

  -- `AscDesc::from_str`.
  unfoldable pub asc_desc_from_str : Text → Result AscDescError AscDesc
  unfolding direction
  asc_desc_from_str text = direction text (rsplit_once b':' text)

  criterion_of : Result AscDescError AscDesc → Result CriterionError Criterion
  criterion_of (err e) = err (to_criterion_error e)
  criterion_of (ok (asc (field name))) = ok (asc_field name)
  criterion_of (ok (desc (field name))) = ok (desc_field name)
  criterion_of (ok (asc (geo_member lat lng))) =
      err (CriterionError.reserved_name_for_sort geo_point)
  criterion_of (ok (desc (geo_member lat lng))) =
      err (CriterionError.reserved_name_for_sort geo_point)

  -- `Criterion::from_str`.
  unfoldable pub criterion_from_str : Text → Result CriterionError Criterion
  unfolding criterion_of asc_desc_from_str
  criterion_from_str text =
      if text_eq text words_text
      then ok words
      else if text_eq text typo_text
      then ok typo
      else if text_eq text proximity_text
      then ok proximity
      else if text_eq text attribute_text
      then ok attribute
      else if text_eq text sort_text
      then ok sort
      else if text_eq text exactness_text
      then ok exactness
      else criterion_of (asc_desc_from_str text)

  -- `Display for Criterion`.
  unfoldable pub print_criterion : Criterion → Text
  print_criterion words = words_text
  print_criterion typo = typo_text
  print_criterion proximity = proximity_text
  print_criterion attribute = attribute_text
  print_criterion sort = sort_text
  print_criterion exactness = exactness_text
  print_criterion (asc_field name) = name ++ b':' ∷ asc_text
  print_criterion (desc_field name) = name ++ b':' ∷ desc_text

  unfoldable pub field_name : Criterion → Option Text
  field_name (asc_field name) = some name
  field_name (desc_field name) = some name
  field_name _ = none

  unfoldable pub default_criteria : List Criterion
  default_criteria = words ∷ typo ∷ proximity ∷ attribute ∷ sort ∷ exactness ∷ []

  -- `Member::field` and `Member::geo_point`, `AscDesc::member` and `AscDesc::field`.
  unfoldable pub member_field : Member → Option Text
  member_field (field name) = some name
  member_field (geo_member lat lng) = none

  unfoldable pub member_geo_point : Member → Option (ℕ × ℕ)
  member_geo_point (geo_member lat lng) = some (lat, lng)
  member_geo_point (field name) = none

  unfoldable pub member : AscDesc → Member
  member (asc m) = m
  member (desc m) = m

  unfoldable pub asc_desc_field : AscDesc → Option Text
  unfolding member member_field
  asc_desc_field a = member_field (member a)
