-- ===== src/Filter/Examples.antt =====
-- Filters over numbers for tokens: field 0 has the value 7, field 1 the values 1 and 9.
use milli.Base.{ℕ, zero, suc, ◌≡◌, refl, List, [], ◌∷◌, Option, none, some, ltb}
use milli.Base.Results.{Result, ok, err}
use milli.Filter.{
  greater_than, between, FilterCondition, condition, or, and, geo_lower_than, token_at_depth,
}
use milli.Filter.Meaning.{View}
use milli.Filter.Request.{
  Entry, left, right, from_array, and_entries, entry_filter, or_rules, from_str, check_depth,
  join_or, join_and,
}
use milli.Filter.Request.Combined.{says, all_say, from_array-says}

abbrev stored : ℕ → List ℕ
stored zero = 7 ∷ []
stored (suc zero) = 1 ∷ 9 ∷ []
stored (suc (suc n)) = []

abbrev numbers : View ℕ
numbers = record {
  Value = ℕ;
  value = λ t. t;
  less = ltb;
  values = stored;
  near = λ lat lng radius. ltb (lat) radius;
}

abbrev in_range : FilterCondition ℕ
in_range = and (condition 0 (between 5 8)) (geo_lower_than 1 2 3)

-- A parser on rules that are numbers: 0 is blank, 1 fails, other rules compare a field.
abbrev parse : ℕ → Result ℕ (Option (FilterCondition ℕ))
parse zero = ok none
parse (suc zero) = err 0
parse (suc (suc n)) = ok (some (condition 0 (greater_than n)))

abbrev rules : List (Entry ℕ)
rules = left (2 ∷ 0 ∷ 12 ∷ []) ∷ right 3 ∷ left (0 ∷ []) ∷ []

abbrev joined : FilterCondition ℕ
joined =
    and (or (condition 0 (greater_than 0)) (condition 0 (greater_than 10)))
      (condition 0 (greater_than 1))

from_array-rules : from_array parse rules ≡ ok (some joined)
unfolding from_array and_entries entry_filter or_rules from_str check_depth join_or join_and
    token_at_depth
from_array-rules = refl

from_array-says_example : says parse numbers (some joined) ≡ all_say parse numbers rules
from_array-says_example = from_array-says parse numbers rules (some joined) from_array-rules
