-- ===== src/Filter.antt =====
-- Filter expressions (filter-parser/src/lib.rs and condition.rs): the tree, its negation and its
-- depth; and the filter of a search request (milli/src/search/facet/filter.rs, lines 60 to 160).
-- A token is any type `T`: the tree never looks into one.
pub mod Request
pub mod Meaning
pub mod Depth
mod Examples
use milli.Base.{ℕ, zero, suc, ◌-◌, ◌==◌, Option, none, some, if◌then◌else◌}

pub data Condition (T : Type 0) : Type 0 where
  greater_than : T → Condition T
  greater_than_or_equal : T → Condition T
  equal : T → Condition T
  not_equal : T → Condition T
  lower_than : T → Condition T
  lower_than_or_equal : T → Condition T
  between : T → T → Condition T

pub data FilterCondition (T : Type 0) : Type 0 where
  condition : T → Condition T → FilterCondition T
  or : FilterCondition T → FilterCondition T → FilterCondition T
  and : FilterCondition T → FilterCondition T → FilterCondition T
  geo_lower_than : T → T → T → FilterCondition T
  geo_greater_than : T → T → T → FilterCondition T

module _ {T : Type 0} where
  -- `Condition::negate`: two conditions where a range is negated.
  unfoldable pub negate_condition : Condition T → Condition T × Option (Condition T)
  negate_condition (greater_than n) = (lower_than_or_equal n, none)
  negate_condition (greater_than_or_equal n) = (lower_than n, none)
  negate_condition (equal s) = (not_equal s, none)
  negate_condition (not_equal s) = (equal s, none)
  negate_condition (lower_than n) = (greater_than_or_equal n, none)
  negate_condition (lower_than_or_equal n) = (greater_than n, none)
  negate_condition (between from to) = (lower_than from, some (greater_than to))

  join_negated : T → Condition T × Option (Condition T) → FilterCondition T
  join_negated fid (op, none) = condition fid op
  join_negated fid (a, some b) = or (condition fid a) (condition fid b)

  unfoldable pub negate : FilterCondition T → FilterCondition T
  unfolding join_negated
  negate (condition fid op) = join_negated fid (negate_condition op)
  negate (or a b) = and (negate a) (negate b)
  negate (and a b) = or (negate a) (negate b)
  negate (geo_lower_than lat lng radius) = geo_greater_than lat lng radius
  negate (geo_greater_than lat lng radius) = geo_lower_than lat lng radius

  abbrev or_else : Option T → Option T → Option T
  or_else none second = second
  or_else (some t) second = some t

  -- `depth.saturating_sub(1)` is subtraction on ℕ. The right branch is asked first.
  unfoldable pub token_at_depth : FilterCondition T → ℕ → Option T
  token_at_depth (condition fid op) depth = if depth == 0 then some fid else none
  token_at_depth (or left right) depth =
      or_else (token_at_depth right (depth - 1)) (token_at_depth left (depth - 1))
  token_at_depth (and left right) depth =
      or_else (token_at_depth right (depth - 1)) (token_at_depth left (depth - 1))
  token_at_depth (geo_lower_than lat lng radius) depth = if depth == 0 then some lat else none
  token_at_depth (geo_greater_than lat lng radius) depth = if depth == 0 then some lat else none
