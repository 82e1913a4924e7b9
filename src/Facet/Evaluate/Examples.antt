-- ===== src/Facet/Evaluate/Examples.antt =====
-- Filters over a field of prices. A token is a text, one digit is a number, and `i` is infinity.
use milli.Base.{ℕ, ◌+◌, List, [], ◌∷◌, Option, none, some, ◌≡◌, refl, ◌==◌, if◌then◌else◌}
use milli.Base.Results.{ok, err}
use milli.Bitmap.Sample.{sample}
use milli.AscDesc.Texts.{Text, strip_prefix}
use milli.AscDesc.Facets.{is_faceted, is_faceted_by}
use milli.Filter.{lower_than, FilterCondition, condition, or, greater_than, equal}
use milli.Bitmap.Sample.{listed}
use milli.Bitmap.Numbers.{dedup, sort}
use milli.Facet.{f64_max, is_void, explore}
use milli.Facet.Build.{compute_facet_number_levels}
use milli.Facet.Evaluate.{
  encoding, Texts, Index, evaluate, range_docids, explore_from, search_range, ordered_docids,
  biggest_level, equal_docids, number_docids, on_field, evaluate_operator, parse,
}
use milli.Facet.Evaluate.Admissible.{is_ok, is_admissible}
use milli.Facet.Evaluate.Outcome.{is_ok-evaluate}
use milli.Facet.Examples.{one, two, three, prices}

abbrev digit : Text → Option ℕ
digit (c ∷ []) =
    if c == b'1'
    then some one
    else if c == b'2'
    then some two
    else if c == b'3'
    then some three
    else if c == b'i'
    then some (f64_max + 1)
    else none
digit _ = none

abbrev tokens : Texts Text
tokens = record { lexeme = λ w. w; value = λ w. w; parse_f64 = digit; to_lowercase = λ w. w }

abbrev price : Text
price = b'p' ∷ []

abbrev index : Index sample
index = record {
  filterable_fields = price ∷ [];
  field_id = λ w. some 0;
  numbers_db = λ field. compute_facet_number_levels sample 2 1 prices;
  strings_db = λ field w. none;
  number_faceted_documents_ids = λ field. 7 ∷ 8 ∷ 9 ∷ [];
  string_faceted_documents_ids = λ field. [];
  geo_faceted_documents_ids = [];
  geo_rtree = none;
}

-- price > 2 OR price = 1
abbrev request : FilterCondition Text
request = or (condition price (greater_than (b'2' ∷ []))) (condition price (equal (b'1' ∷ [])))

is_ok-evaluate_example :
    is_ok (evaluate sample tokens index request) ≡ is_admissible sample tokens index request
is_ok-evaluate_example = is_ok-evaluate sample tokens index request

abbrev found : List ℕ
found = 9 ∷ 7 ∷ []

-- price = inf has no key to look for, and price < inf is every price.
infinite :
    (evaluate sample tokens index (condition price (equal (b'i' ∷ []))) ≡ err encoding)
    × (evaluate sample tokens index (condition price (lower_than (b'i' ∷ [])))
        ≡ ok (7 ∷ 8 ∷ 9 ∷ []))
unfolding evaluate is_faceted is_faceted_by strip_prefix on_field evaluate_operator parse
    range_docids explore_from search_range ordered_docids is_void biggest_level equal_docids
    number_docids compute_facet_number_levels explore listed dedup sort
infinite = (refl, refl)
