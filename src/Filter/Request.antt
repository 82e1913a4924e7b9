-- ===== src/Filter/Request.antt =====
-- The filter of a search request (milli/src/search/facet/filter.rs, `Filter::from_array` and
-- `Filter::from_str`). `parse` stands for `FilterCondition::parse` of the filter parser: it takes any
-- rule to a tree, to nothing for a blank rule, or to a rendered error.
pub mod Combined
use milli.Base.{ℕ, List, [], ◌∷◌, Option, none, some}
use milli.Base.Results.{Result, ok, err, ◌>>=◌}
use milli.Filter.{FilterCondition, or, and, token_at_depth}

abbrev pub max_filter_depth : ℕ
max_filter_depth = 2000

-- `too_deep` carries the token that `as_external_error` puts the error at.
pub data Error (T E : Type 0) : Type 0 where
  too_deep : T → Error T E
  invalid_filter : E → Error T E

-- `Either::Left` of rules that are joined by `or`, or `Either::Right` of one rule.
pub data Entry (R : Type 0) : Type 0 where
  left : List R → Entry R
  right : R → Entry R

abbrev pub Checked : Type 0 → Type 0 → Type 0
Checked T E = Result (Error T E) (Option (FilterCondition T))

module _ {T E : Type 0} where
  check_token : FilterCondition T → Option T → Checked T E
  check_token f (some token) = err (too_deep token)
  check_token f none = ok (some f)

  unfoldable pub check_depth : Option (FilterCondition T) → Checked T E
  unfolding check_token
  check_depth none = ok none
  check_depth (some f) = check_token f (token_at_depth f max_filter_depth)

  check_parsed : Result E (Option (FilterCondition T)) → Checked T E
  check_parsed (ok f) = check_depth f
  check_parsed (err e) = err (invalid_filter e)

module _ {T : Type 0} where
  unfoldable pub join_or :
      Option (FilterCondition T) → Option (FilterCondition T) → Option (FilterCondition T)
  join_or ors none = ors
  join_or none (some f) = some f
  join_or (some g) (some f) = some (or g f)

  unfoldable pub join_and :
      Option (FilterCondition T) → Option (FilterCondition T) → Option (FilterCondition T)
  join_and ands none = ands
  join_and none (some f) = some f
  join_and (some g) (some f) = some (and g f)

module _ {T E R : Type 0} (parse : R → Result E (Option (FilterCondition T))) where
  unfoldable pub from_str : R → Checked T E
  unfolding check_parsed check_depth
  from_str rule = check_parsed (parse rule)

  -- The loop over the rules of a `Left`.
  unfoldable pub or_rules : List R → Option (FilterCondition T) → Checked T E
  unfolding join_or
  or_rules [] ors = ok ors
  or_rules (rule ∷ rules) ors = from_str rule >>= λ f. or_rules rules (join_or ors f)

  -- One round of the loop over the array.
  unfoldable pub entry_filter : Entry R → Checked T E
  entry_filter (left rules) = or_rules rules none
  entry_filter (right rule) = from_str rule

  unfoldable pub and_entries : List (Entry R) → Option (FilterCondition T) → Checked T E
  unfolding join_and
  and_entries [] ands = ok ands
  and_entries (entry ∷ entries) ands =
      entry_filter entry >>= λ f. and_entries entries (join_and ands f)

  unfoldable pub from_array : List (Entry R) → Checked T E
  unfolding check_depth
  from_array array = and_entries array none >>= check_depth
