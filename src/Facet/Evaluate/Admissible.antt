-- ===== src/Facet/Evaluate/Admissible.antt =====
-- The requests that can be answered.
use milli.Base.{
  ℕ, zero, suc, List, [], ◌∷◌, not, ◌||◌, ltb, Bool, true, false, ◌&&◌, Option, none, some, any,
  leb,
}
use milli.Base.Results.{Result, ok, err}
use milli.Bitmap.{Roaring}
use milli.AscDesc.Texts.{text_eq, geo}
use milli.AscDesc.Facets.{is_faceted}
use milli.Filter.{
  Condition, greater_than, greater_than_or_equal, equal, not_equal, lower_than, lower_than_or_equal,
  between, FilterCondition, condition, or, and, geo_lower_than, geo_greater_than,
}
use milli.Facet.Evaluate.{Texts, Index}
use milli.AscDesc.Points.{lat_min, lat_max, lng_min, lng_max}
use milli.Facet.{f64_min}
use milli.Facet.Numbers.{is_nan, is_finite_number}

abbrev pub is_ok : {E A : Type 0} → Result E A → Bool
is_ok (ok a) = true
is_ok (err e) = false

abbrev pub is_nil : {A : Type 0} → List A → Bool
is_nil [] = true
is_nil (a ∷ more) = false

abbrev pub is_some : {A : Type 0} → Option A → Bool
is_some none = false
is_some (some a) = true

abbrev pub some_within : ℕ → ℕ → Option ℕ → Bool
some_within low high none = false
some_within low high (some n) = leb low n && leb n high

-- No number, or one that passes the test.
abbrev pub none_or : (ℕ → Bool) → Option ℕ → Bool
none_or p none = true
none_or p (some n) = p n

-- A number that passes the test.
abbrev pub on_number : (ℕ → Bool) → Option ℕ → Bool
on_number p none = false
on_number p (some n) = p n

-- One of the levels below has an entry.
unfoldable pub has_numbers : {D : Type 0} → (ℕ → List D) → ℕ → Bool
has_numbers db zero = false
has_numbers db (suc level) = not (is_nil (db level)) || has_numbers db level

module _ (r : Roaring) {T : Type 0} (t : Texts T) (index : Index r) where
  open t use {lexeme, value, parse_f64}
  open index use {filterable_fields, field_id, numbers_db}
  open r use {Bitmap}

  abbrev pub number : T → Option ℕ
  number token = parse_f64 (lexeme token)

  abbrev pub is_number : T → Bool
  is_number token = is_some (number token)

  -- The tokens that a condition compares numbers with are numbers. On a field that has numbers, a
  -- range does not start with `nan` or `-inf`, or with `inf` for a range up to `inf` or `nan`, and
  -- no number is equal to one that is not finite.
  abbrev pub are_numbers : Bool → Condition T → Bool
  are_numbers stored (greater_than val) =
      on_number (λ n. not (stored && (is_nan n || ltb n f64_min))) (number val)
  are_numbers stored (greater_than_or_equal val) =
      on_number (λ n. not (stored && (is_nan n || ltb n f64_min))) (number val)
  are_numbers stored (lower_than val) = is_number val
  are_numbers stored (lower_than_or_equal val) = is_number val
  are_numbers stored (between from to) =
      on_number
        (λ a.
          on_number
            (λ b. not (stored && (not (is_finite_number a) && (is_nan a || (is_nan b || leb a b)))))
            (number to))
        (number from)
  are_numbers stored (equal val) = none_or is_finite_number (number val)
  are_numbers stored (not_equal val) = none_or is_finite_number (number val)

  abbrev pub on_known : Condition T → Option ℕ → Bool
  on_known op none = true
  on_known op (some field) = are_numbers (has_numbers (numbers_db field) 256) op

  abbrev pub is_point : T → T → T → Bool
  is_point lat lng radius =
      some_within lat_min lat_max (parse_f64 (lexeme lat))
      && (some_within lng_min lng_max (parse_f64 (lexeme lng)) && is_number radius)

  -- The request can be answered: each field is filterable, a field that the index knows is compared
  -- with numbers, and a point and its radius are numbers in range.
  abbrev pub is_admissible : FilterCondition T → Bool
  is_admissible (condition fid op) =
      is_faceted (value fid) filterable_fields && on_known op (field_id (value fid))
  is_admissible (or a b) = is_admissible a && is_admissible b
  is_admissible (and a b) = is_admissible a && is_admissible b
  is_admissible (geo_lower_than lat lng radius) =
      any (λ field. text_eq field geo) filterable_fields && is_point lat lng radius
  is_admissible (geo_greater_than lat lng radius) =
      any (λ field. text_eq field geo) filterable_fields && is_point lat lng radius
