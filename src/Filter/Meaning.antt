-- ===== src/Filter/Meaning.antt =====
-- A reading of filters for documents that have a list of values for each field, of one kind: a range
-- holds if some value lies in it, an equality if some value is equal, and an inequality if there is a
-- value and none is equal. What a filter finds in an index, where only numbers are in a range and
-- `>` may take in its bound, is in Facet/Evaluate/Meaning.antt.
use milli.Base.{Bool, true, false, not, ◌&&◌, ◌||◌, List, [], ◌∷◌, any}
use milli.Filter.{
  Condition, greater_than, greater_than_or_equal, equal, not_equal, lower_than, lower_than_or_equal,
  between, FilterCondition, condition, or, and, geo_lower_than, geo_greater_than,
}

-- Documents as a filter sees them: the field that a token names, the value that it denotes, a strict
-- order on values, and the test for a point within a radius. Two values are equal if neither is
-- less.
pub record View (T : Type 0) : Type 1 where
  pub Value : Type 0
  pub value : T → Value
  pub less : Value → Value → Bool
  pub values : T → List Value
  pub near : T → T → T → Bool

module _ {T : Type 0} (d : View T) where
  open d use {Value, value, less, values, near}

  abbrev pub same : Value → Value → Bool
  same a b = not (less a b) && not (less b a)

  abbrev pub is_empty : List Value → Bool
  is_empty [] = true
  is_empty (v ∷ vs) = false

  unfoldable pub meets : Condition T → List Value → Bool
  meets (greater_than n) vs = any (λ v. less (value n) v) vs
  meets (greater_than_or_equal n) vs = any (λ v. not (less v (value n))) vs
  meets (equal n) vs = any (λ v. same v (value n)) vs
  meets (not_equal n) vs = not (is_empty vs) && not (any (λ v. same v (value n)) vs)
  meets (lower_than n) vs = any (λ v. less v (value n)) vs
  meets (lower_than_or_equal n) vs = any (λ v. not (less (value n) v)) vs
  meets (between from to) vs = any (λ v. not (less v (value from)) && not (less (value to) v)) vs

  unfoldable pub matches : FilterCondition T → Bool
  unfolding meets
  matches (condition fid op) = meets op (values fid)
  matches (or a b) = matches a || matches b
  matches (and a b) = matches a && matches b
  matches (geo_lower_than lat lng radius) = near lat lng radius
  matches (geo_greater_than lat lng radius) = not (near lat lng radius)
