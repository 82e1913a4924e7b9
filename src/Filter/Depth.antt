-- ===== src/Filter/Depth.antt =====
-- The depth test of a filter tree, and how negation changes the depth.
use milli.Base.{ℕ, suc, ◌-◌, ◌≤◌, ◌<◌, max, ◌≡◌, ◌↔◌, none, arith}
use milli.Filter.{
  Condition, between, greater_than, FilterCondition, condition, or, and, geo_lower_than,
  geo_greater_than, negate, negate_condition, token_at_depth,
}

module _ {T : Type 0} where
  -- The number of `or` and `and` nodes on the longest way to a leaf.
  abbrev pub height : FilterCondition T → ℕ
  height (condition fid op) = 0
  height (or a b) = suc (max (height a) (height b))
  height (and a b) = suc (max (height a) (height b))
  height (geo_lower_than lat lng radius) = 0
  height (geo_greater_than lat lng radius) = 0

  -- A leaf lies at depth `depth` or below exactly if a token is found, so a tree passes the test at
  -- a depth exactly if its height is less.
  pub token_at_depth-none :
      (f : FilterCondition T) (depth : ℕ) → (token_at_depth f depth ≡ none) ↔ (height f < depth)
  unfolding token_at_depth
  token_at_depth-none (condition fid op) depth = ground arith
  token_at_depth-none (or a b) depth =
      ground (arith, token_at_depth-none a (depth - 1), token_at_depth-none b (depth - 1))
  token_at_depth-none (and a b) depth =
      ground (arith, token_at_depth-none a (depth - 1), token_at_depth-none b (depth - 1))
  token_at_depth-none (geo_lower_than lat lng radius) depth = ground arith
  token_at_depth-none (geo_greater_than lat lng radius) depth = ground arith

module _ {T : Type 0} where
  height-negate_condition : (fid : T) (op : Condition T) → height (negate (condition fid op)) ≤ 1
  unfolding negate negate_condition
  height-negate_condition fid (between from to) = omega arith
  height-negate_condition fid (greater_than n) = omega arith
  height-negate_condition fid _ = omega arith

  -- Negation makes a tree at most one level deeper, where a range becomes two conditions, and never
  -- shallower.
  pub height-negate :
      (f : FilterCondition T)
      → (height f ≤ height (negate f)) × (height (negate f) ≤ suc (height f))
  unfolding negate
  height-negate (condition fid op) = (omega arith, height-negate_condition fid op)
  height-negate (or a b) = omega (arith, height-negate a, height-negate b)
  height-negate (and a b) = omega (arith, height-negate a, height-negate b)
  height-negate (geo_lower_than lat lng radius) = omega arith
  height-negate (geo_greater_than lat lng radius) = omega arith
