-- ===== src/AscDesc/Examples.antt =====
-- Runs of the parsers, with numbers that the lengths of texts give.
use milli.Base.{true, [], ◌∷◌, some, length, ◌++◌, ◌+◌, ◌^◌, ◌≡◌, ◌↔◌, refl}
use milli.Base.Results.{ok}
use milli.AscDesc.Texts.{Text, geo_point_open, text_eq, starts_with, strip_prefix}
use milli.AscDesc.{
  Floats, asc_field, is_reserved_keyword, point_of, member_from_str, criterion_from_str,
  print_criterion,
}
use milli.AscDesc.RoundTrip.{IsMember, criterion_from_str-print_criterion, member_from_str-IsMember}
use milli.AscDesc.Facets.{is_faceted_by, Below, is_faceted_by_iff}

-- The number that a text gives is as many numbers above zero as the text has bytes.
abbrev lengths : Floats
lengths = record { parse = λ t. some (2 ^ 63 + length t); trim = λ t. t }

-- `_geoPoint(4,5)`
abbrev point : Text
point = geo_point_open ++ b'4' ∷ b',' ∷ b'5' ∷ b')' ∷ []

abbrev price : Text
price = b'p' ∷ b'r' ∷ b'i' ∷ b'c' ∷ b'e' ∷ []

criterion_from_str-print_criterion_example :
    criterion_from_str lengths (print_criterion lengths (asc_field price)) ≡ ok (asc_field price)
unfolding is_reserved_keyword text_eq starts_with strip_prefix point_of
criterion_from_str-print_criterion_example =
    criterion_from_str-print_criterion lengths (asc_field price) (refl, refl)

member_from_str-IsMember_example : IsMember lengths point (member_from_str lengths point)
member_from_str-IsMember_example = member_from_str-IsMember lengths point

is_faceted_by_iff_example : (is_faceted_by price price ≡ true) ↔ Below price price
is_faceted_by_iff_example = is_faceted_by_iff price price
