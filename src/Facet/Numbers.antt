-- ===== src/Facet/Numbers.antt =====
-- Numbers that are not finite in a request (milli/src/search/facet/facet_number.rs and
-- milli/src/facet/value_encoding.rs): a token may say `inf` or `nan`, and no key can hold
-- these. The infinities are the neighbours of `f64::MIN` and `f64::MAX`, and NaN is what lies beyond.
use milli.Base.{ℕ, ◌+◌, ◌-◌, Bool, true, false, not, ◌&&◌, ◌||◌, ltb, leb, ◌==◌}
use milli.Facet.{f64_min, f64_max, Bound, included, excluded, unbounded}

abbrev pub is_nan : ℕ → Bool
is_nan n = ltb n (f64_min - 1) || ltb (f64_max + 1) n

abbrev pub is_finite_number : ℕ → Bool
is_finite_number n = leb f64_min n && leb n f64_max

-- `<`, `<=` and `==` of f64, which are false of NaN.
abbrev pub less_than : ℕ → ℕ → Bool
less_than a b = not (is_nan a || is_nan b) && ltb a b

abbrev pub at_most : ℕ → ℕ → Bool
at_most a b = not (is_nan a || is_nan b) && leb a b

abbrev pub same_number : ℕ → ℕ → Bool
same_number a b = not (is_nan a || is_nan b) && (a == b)

abbrev pub has_nan : Bound → Bool
has_nan (included b) = is_nan b
has_nan (excluded b) = is_nan b
has_nan unbounded = false

-- `FacetNumberRange::new` can write the key of its left bound: `f64_into_bytes` gives bytes.
abbrev pub encodes : Bound → Bool
encodes (included b) = is_finite_number b
encodes (excluded b) = is_finite_number b
encodes unbounded = true

abbrev pub is_ordered : Bound → Bound → Bool
is_ordered left right = not (has_nan left || has_nan right)
