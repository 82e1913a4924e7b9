-- ===== src/Facet/Evaluate/Outcome.antt =====
-- When an evaluation succeeds.
use milli.Base.{
  ℕ, zero, suc, List, not, ◌||◌, inl, inr, Bool, true, false, ◌&&◌, Option, none, some, any, leb,
  if◌then◌else◌, ◌≡◌, refl, ◌∙◌, arith,
}
use milli.Base.Results.{Result, ok, err, ◌>>=◌}
use milli.Bitmap.{Roaring}
use milli.AscDesc.Texts.{text_eq, geo}
use milli.AscDesc.Facets.{is_faceted}
use milli.Filter.{
  Condition, greater_than, greater_than_or_equal, equal, not_equal, lower_than, lower_than_or_equal,
  between, FilterCondition, condition, or, and, geo_lower_than, geo_greater_than,
}
use milli.Facet.Evaluate.{
  Texts, Index, FilterError, number_or, parse, within_bounds, on_field, evaluate_operator,
  evaluate_geo, evaluate, unfilterable, encoding, biggest_level, ordered_docids, search_range,
  explore_from, range_docids, number_docids, equal_docids,
}
use milli.AscDesc.Points.{lat_min, lat_max, lng_min, lng_max}
use milli.Facet.{f64_min, f64_max, Bound, included, excluded, Entry, is_void}
use milli.Facet.Numbers.{is_finite_number, encodes, is_ordered}
use milli.Facet.Evaluate.Levels.{List-cases}
use milli.Facet.Evaluate.Admissible.{
  is_ok, is_some, some_within, on_number, none_or, has_numbers, number, is_number, are_numbers,
  on_known, is_point, is_admissible,
}

module _ (r : Roaring) {T : Type 0} (t : Texts T) (index : Index r) where
  open t use {lexeme, value, parse_f64}
  open index use {filterable_fields, field_id, numbers_db}
  open r use {Bitmap}

  is_ok-then :
      {A B : Type 0} (first : Result (FilterError T) A) (rest : A → Result (FilterError T) B)
      (a b : Bool)
      → is_ok first ≡ a
      → ((x : A) → first ≡ ok x → is_ok (rest x) ≡ b)
      → is_ok (first >>= rest) ≡ a && b
  is_ok-then (ok x) rest a b e h = h x refl ∙ ground arith
  is_ok-then (err y) rest a b e h = ground arith

  is_ok-parse : (token : T) → is_ok (parse r t index token) ≡ is_number r t index token
  unfolding parse
  is_ok-parse token = of_number (parse_f64 (lexeme token))
    where
      of_number : (o : Option ℕ) → is_ok (number_or r t index token o) ≡ is_some o
      of_number none = refl
      of_number (some n) = refl

  is_ok-done :
      {A B : Type 0} (first : Result (FilterError T) A) (f : A → B)
      → is_ok (first >>= λ x. ok (f x)) ≡ is_ok first
  is_ok-done (ok x) f = refl
  is_ok-done (err y) f = refl

  is_ok-if :
      {A : Type 0} (c : Bool) (result : Result (FilterError T) A) (bad : FilterError T) (b : Bool)
      → is_ok result ≡ b
      → is_ok (if c then result else err bad) ≡ c && b
  is_ok-if true result bad b e = e
  is_ok-if false result bad b e = refl

  any_number : (o : Option ℕ) → on_number (λ n. true) o ≡ is_some o
  any_number none = refl
  any_number (some n) = refl

  is_ok-number :
      {A : Type 0} (token : T) (o : Option ℕ) (rest : ℕ → Result (FilterError T) A) (p : ℕ → Bool)
      → ((n : ℕ) → is_ok (rest n) ≡ p n)
      → is_ok (number_or r t index token o >>= rest) ≡ on_number p o
  is_ok-number token none rest p h = refl
  is_ok-number token (some n) rest p h = h n

  -- A search succeeds unless the key of its left bound is needed and cannot be written.
  abbrev searches : Bound → Bound → Bool
  searches left right = encodes left || (is_ordered left right && is_void left right)

  is_ok-search_range :
      (field level : ℕ) (left right : Bound)
      → is_ok (search_range r t index field level left right) ≡ searches left right
  unfolding search_range
  is_ok-search_range field level left right =
      is_ok-if (searches left right) (ok (ordered_docids r t index field level left right)) encoding
        true refl
      ∙ ground arith

  is_some-biggest_level :
      (db : ℕ → List (Entry Bitmap)) (k : ℕ)
      → is_some (biggest_level r t index db k) ≡ has_numbers db k
  unfolding biggest_level has_numbers
  is_some-biggest_level db zero = refl
  is_some-biggest_level db (suc k) = elim (List-cases (db k)) [
    | inl nothing ↦ rw (nothing, biggest_level) (is_some-biggest_level db k)
    | inr (f, fs, full) ↦ rw (full, biggest_level) refl
  ]

  is_ok-explore_from :
      (field : ℕ) (o : Option ℕ) (left right : Bound)
      → is_ok (explore_from r t index field o left right)
        ≡ not (is_some o && not (searches left right))
  unfolding explore_from
  is_ok-explore_from field none left right = refl
  is_ok-explore_from field (some level) left right =
      is_ok-search_range field level left right ∙ ground arith

  is_ok-range_docids :
      (field : ℕ) (left right : Bound) (bad : Bool)
      → not (searches left right) ≡ bad
      → is_ok (range_docids r t index field left right)
        ≡ not (has_numbers (numbers_db field) 256 && bad)
  unfolding range_docids
  is_ok-range_docids field left right bad h =
      is_ok-explore_from field (biggest_level r t index (numbers_db field) 256) left right
      ∙ rw (h, is_some-biggest_level (numbers_db field) 256) refl

  is_ok-equal_docids :
      (field : ℕ) (val : T)
      → is_ok (equal_docids r t index field val) ≡ none_or is_finite_number (number r t index val)
  unfolding equal_docids number_docids
  is_ok-equal_docids field val =
      is_ok-done (number_docids r t index field (number r t index val)) _
      ∙ of_number (number r t index val)
    where
      of_number :
          (o : Option ℕ) → is_ok (number_docids r t index field o) ≡ none_or is_finite_number o
      of_number none = refl
      of_number (some n) = is_ok-search_range field 0 (included n) (included n) ∙ ground arith

  is_ok-evaluate_operator :
      (field : ℕ) (op : Condition T)
      → is_ok (evaluate_operator r t index field op)
        ≡ are_numbers r t index (has_numbers (numbers_db field) 256) op
  unfolding evaluate_operator parse
  is_ok-evaluate_operator field (greater_than val) =
      is_ok-number val (number r t index val) _ _
        (λ n. is_ok-range_docids field (excluded n) (included f64_max) _ (ground arith))
  is_ok-evaluate_operator field (greater_than_or_equal val) =
      is_ok-number val (number r t index val) _ _
        (λ n. is_ok-range_docids field (included n) (included f64_max) _ (ground arith))
  is_ok-evaluate_operator field (lower_than val) =
      is_ok-number val (number r t index val) _ (λ n. true)
        (λ n. is_ok-range_docids field (included f64_min) (excluded n) false refl ∙ ground arith)
      ∙ any_number (number r t index val)
  is_ok-evaluate_operator field (lower_than_or_equal val) =
      is_ok-number val (number r t index val) _ (λ n. true)
        (λ n. is_ok-range_docids field (included f64_min) (included n) false refl ∙ ground arith)
      ∙ any_number (number r t index val)
  is_ok-evaluate_operator field (between from to) =
      is_ok-number from (number r t index from) _ _ λ a.
        is_ok-number to (number r t index to) _ _
          λ b. is_ok-range_docids field (included a) (included b) _ (ground arith)
  is_ok-evaluate_operator field (equal val) = is_ok-equal_docids field val
  is_ok-evaluate_operator field (not_equal val) =
      is_ok-done (equal_docids r t index field val) _ ∙ is_ok-equal_docids field val

  is_ok-on_field :
      (op : Condition T) (o : Option ℕ) → is_ok (on_field r t index op o) ≡ on_known r t index op o
  unfolding on_field
  is_ok-on_field op none = refl
  is_ok-on_field op (some field) = is_ok-evaluate_operator field op

  is_ok-within :
      (low high n : ℕ) (error : ℕ → FilterError T)
      → is_ok (within_bounds r t index low high n error) ≡ leb low n && leb n high
  unfolding within_bounds
  is_ok-within low high n error =
      is_ok-if (leb low n && leb n high) (ok n) (error n) true refl ∙ ground arith

  -- Numbers that are read before they are compared.
  is_ok-point :
      {B : Type 0} (lat lng radius : T) (o p q : Option ℕ) (f g : ℕ → FilterError T)
      (result : ℕ → ℕ → ℕ → B)
      → is_ok (
          number_or r t index lat o >>= λ a. number_or r t index lng p >>= λ b.
          within_bounds r t index lat_min lat_max a f >>= λ _.
          within_bounds r t index lng_min lng_max b g >>= λ _.
          number_or r t index radius q >>= λ m. ok (result a b m))
        ≡ some_within lat_min lat_max o && (some_within lng_min lng_max p && is_some q)
  is_ok-point lat lng radius none p q f g result = refl
  is_ok-point lat lng radius (some a) none q f g result = ground arith
  is_ok-point lat lng radius (some a) (some b) q f g result =
      is_ok-then (within_bounds r t index lat_min lat_max a f) _ (leb lat_min a && leb a lat_max)
        (some_within lng_min lng_max (some b) && is_some q) (is_ok-within lat_min lat_max a f)
        (λ x h.
          is_ok-then (within_bounds r t index lng_min lng_max b g) _
            (leb lng_min b && leb b lng_max) (is_some q) (is_ok-within lng_min lng_max b g)
            (λ y k. radius_ok q a b))
    where
      radius_ok :
          (q : Option ℕ) (a b : ℕ)
          → is_ok (number_or r t index radius q >>= λ m. ok (result a b m)) ≡ is_some q
      radius_ok none a b = refl
      radius_ok (some m) a b = refl

  is_ok-evaluate_geo :
      (lat lng radius : T)
      → is_ok (evaluate_geo r t index lat lng radius)
        ≡ any (λ field. text_eq field geo) filterable_fields && is_point r t index lat lng radius
  unfolding evaluate_geo parse
  is_ok-evaluate_geo lat lng radius =
      is_ok-if (any (λ field. text_eq field geo) filterable_fields) _ _
        (is_point r t index lat lng radius)
        (is_ok-point lat lng radius (parse_f64 (lexeme lat)) (parse_f64 (lexeme lng))
          (parse_f64 (lexeme radius)) _ _ _)

  -- An evaluation succeeds exactly for the requests that can be answered.
  pub is_ok-evaluate :
      (f : FilterCondition T) → is_ok (evaluate r t index f) ≡ is_admissible r t index f
  unfolding evaluate
  is_ok-evaluate (condition fid op) =
      is_ok-if (is_faceted (value fid) filterable_fields)
        (on_field r t index op (field_id (value fid))) (unfilterable r t index fid)
        (on_known r t index op (field_id (value fid))) (is_ok-on_field op (field_id (value fid)))
  is_ok-evaluate (or a b) =
      is_ok-then (evaluate r t index a) _ (is_admissible r t index a) (is_admissible r t index b)
        (is_ok-evaluate a) (λ x h. is_ok-done (evaluate r t index b) _ ∙ is_ok-evaluate b)
  is_ok-evaluate (and a b) =
      is_ok-then (evaluate r t index a) _ (is_admissible r t index a) (is_admissible r t index b)
        (is_ok-evaluate a) (λ x h. is_ok-done (evaluate r t index b) _ ∙ is_ok-evaluate b)
  is_ok-evaluate (geo_lower_than lat lng radius) = is_ok-evaluate_geo lat lng radius
  is_ok-evaluate (geo_greater_than lat lng radius) =
      is_ok-done (evaluate_geo r t index lat lng radius) _ ∙ is_ok-evaluate_geo lat lng radius
