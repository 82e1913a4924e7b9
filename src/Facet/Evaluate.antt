-- ===== src/Facet/Evaluate.antt =====
-- The evaluation of a filter (`evaluate_operator` and `evaluate` of
-- milli/src/search/facet/filter.rs). The index is given by what the search reads from it. Parsing a
-- text as f64, lower case, and the r-tree with the distances between points, which are no NaN, are
-- not part of the repository; an f64 is given as in Facet.antt and Facet/Numbers.antt.
pub mod Meaning
pub mod Levels
pub mod Operator
pub mod Geo
pub mod Documents
pub mod Negation
pub mod Admissible
pub mod Outcome
mod Examples
use milli.Base.{
  ℕ, zero, suc, Bool, true, false, not, ◌&&◌, ◌||◌, List, [], ◌∷◌, Option, none, some, map, any,
  ltb, leb, if◌then◌else◌,
}
use milli.Base.Results.{Result, ok, err, ◌>>=◌}
use milli.Bitmap.{Roaring}
use milli.AscDesc.Texts.{Text, text_eq, starts_with, geo, geo_point, geo_point_open, geo_distance}
use milli.AscDesc.Facets.{is_faceted}
use milli.Filter.{
  Condition, greater_than, greater_than_or_equal, equal, not_equal, lower_than, lower_than_or_equal,
  between, FilterCondition, condition, or, and, geo_lower_than, geo_greater_than,
}
use milli.AscDesc.Points.{lat_min, lat_max, lng_min, lng_max}
use milli.Facet.{f64_min, f64_max, Bound, included, excluded, Entry, is_void, explore}
use milli.Facet.Numbers.{is_nan, encodes, is_ordered}

-- The errors carry the token that they point at; `encoding` is the error of the storage for a key
-- that cannot be written.
pub data FilterError (T : Type 0) : Type 0 where
  attribute_not_filterable : T → Text → List Text → FilterError T
  bad_geo : T → Text → FilterError T
  bad_geo_lat bad_geo_lng : T → ℕ → FilterError T
  reserved : T → Text → FilterError T
  not_a_number : T → FilterError T
  encoding : FilterError T

-- What the library and the token types give.
pub record Texts (T : Type 0) : Type 0 where
  pub lexeme : T → Text
  pub value : T → Text
  pub parse_f64 : Text → Option ℕ
  pub to_lowercase : Text → Text

-- The index. `geo_rtree` gives the points by their distance from a latitude and a longitude: the
-- document and the distance to it.
pub record Index (r : Roaring) : Type 0 where
  pub filterable_fields : List Text
  pub field_id : Text → Option ℕ
  pub numbers_db : ℕ → ℕ → List (Entry r.Bitmap)
  pub strings_db : ℕ → Text → Option r.Bitmap
  pub number_faceted_documents_ids : ℕ → r.Bitmap
  pub string_faceted_documents_ids : ℕ → r.Bitmap
  pub geo_faceted_documents_ids : r.Bitmap
  pub geo_rtree : Option (ℕ → ℕ → List (ℕ × ℕ))

abbrev pub take_near : ℕ → List (ℕ × ℕ) → List ℕ
take_near radius [] = []
take_near radius ((id, distance) ∷ points) =
    let rest = take_near radius points in
    if not (is_nan radius) && ltb distance radius then id ∷ rest else []

module _ (r : Roaring) {T : Type 0} (t : Texts T) (index : Index r) where
  open r use {Bitmap, new, union, intersection, difference, extend}
  open t use {lexeme, value, parse_f64, to_lowercase}
  open index use {
    filterable_fields, field_id, numbers_db, strings_db, number_faceted_documents_ids,
    string_faceted_documents_ids, geo_faceted_documents_ids, geo_rtree,
  }

  abbrev pub Evaluated : Type 0
  Evaluated = Result (FilterError T) Bitmap

  abbrev pub number_or : T → Option ℕ → Result (FilterError T) ℕ
  number_or token none = err (not_a_number token)
  number_or token (some n) = ok n

  -- `Token::parse`.
  unfoldable pub parse : T → Result (FilterError T) ℕ
  parse token = number_or token (parse_f64 (lexeme token))

  abbrev pub or_default : Option Bitmap → Bitmap
  or_default none = new
  or_default (some docids) = docids

  -- The greatest level below `levels` that has an entry: the last key of the field has it.
  unfoldable pub biggest_level : (ℕ → List (Entry Bitmap)) → ℕ → Option ℕ
  biggest_level db zero = none
  biggest_level db (suc level) =
      let rest = biggest_level db level in elim (db level) [ [] ↦ rest | e ∷ entries ↦ some level ]

  -- The search of a range: with a NaN the guards are false, and every range that ends with it is
  -- empty.
  unfoldable pub ordered_docids : ℕ → ℕ → Bound → Bound → Bitmap
  ordered_docids field level left right =
      if is_ordered left right then explore r (numbers_db field) level left right new else new

  -- The key of the left bound is written first, but for the requests without a result. The ranges
  -- below have the same left bound, or one that is a key's.
  unfoldable pub search_range : ℕ → ℕ → Bound → Bound → Evaluated
  unfolding is_void ordered_docids
  search_range field level left right =
      if encodes left || (is_ordered left right && is_void left right)
      then ok (ordered_docids field level left right)
      else err encoding

  unfoldable pub explore_from : ℕ → Option ℕ → Bound → Bound → Evaluated
  unfolding search_range
  explore_from field (some level) left right = search_range field level left right
  explore_from field none left right = ok new

  unfoldable pub range_docids : ℕ → Bound → Bound → Evaluated
  unfolding biggest_level explore_from
  range_docids field left right =
      explore_from field (biggest_level (numbers_db field) 256) left right

  unfoldable pub number_docids : ℕ → Option ℕ → Evaluated
  unfolding search_range
  number_docids field none = ok new
  number_docids field (some n) = search_range field 0 (included n) (included n)

  unfoldable pub equal_docids : ℕ → T → Evaluated
  unfolding number_docids
  equal_docids field val = number_docids field (parse_f64 (lexeme val)) >>= λ numbers.
      ok (union (or_default (strings_db field (to_lowercase (value val)))) numbers)

  unfoldable pub evaluate_operator : ℕ → Condition T → Evaluated
  unfolding parse range_docids equal_docids
  evaluate_operator field (greater_than val) =
      parse val >>= λ n. range_docids field (excluded n) (included f64_max)
  evaluate_operator field (greater_than_or_equal val) =
      parse val >>= λ n. range_docids field (included n) (included f64_max)
  evaluate_operator field (lower_than val) =
      parse val >>= λ n. range_docids field (included f64_min) (excluded n)
  evaluate_operator field (lower_than_or_equal val) =
      parse val >>= λ n. range_docids field (included f64_min) (included n)
  evaluate_operator field (between from to) =
      parse from >>= λ a. parse to >>= λ b. range_docids field (included a) (included b)
  evaluate_operator field (equal val) = equal_docids field val
  evaluate_operator field (not_equal val) = equal_docids field val >>= λ docids. ok (
      difference (union (number_faceted_documents_ids field) (string_faceted_documents_ids field))
        docids)

  -- The error for a field that is not filterable.
  unfoldable pub unfilterable : T → FilterError T
  unfolding text_eq starts_with
  unfilterable fid =
      if text_eq (lexeme fid) geo
      then bad_geo fid geo
      else if starts_with (lexeme fid) geo_point_open
      then bad_geo fid geo_point
      else if text_eq (lexeme fid) geo_distance
      then reserved fid geo_distance
      else attribute_not_filterable fid (lexeme fid) filterable_fields

  unfoldable pub on_field : Condition T → Option ℕ → Evaluated
  unfolding evaluate_operator
  on_field op none = ok new
  on_field op (some field) = evaluate_operator field op

  unfoldable pub within_bounds : ℕ → ℕ → ℕ → (ℕ → FilterError T) → Result (FilterError T) ℕ
  within_bounds low high n error = if leb low n && leb n high then ok n else err (error n)

  unfoldable pub near_docids : ℕ → ℕ → ℕ → Option (ℕ → ℕ → List (ℕ × ℕ)) → Bitmap
  near_docids lat lng radius none = new
  near_docids lat lng radius (some rtree) = extend new (take_near radius (rtree lat lng))

  -- The arm of `GeoLowerThan`.
  unfoldable pub evaluate_geo : T → T → T → Evaluated
  unfolding parse text_eq within_bounds near_docids
  evaluate_geo lat lng radius =
      if any (λ field. text_eq field geo) filterable_fields
      then (parse lat >>= λ a. parse lng >>= λ b.
          within_bounds lat_min lat_max a (bad_geo_lat lat) >>= λ _.
          within_bounds lng_min lng_max b (bad_geo_lng lng) >>= λ _.
          parse radius >>= λ meters. ok (near_docids a b meters geo_rtree))
      else err (attribute_not_filterable lat geo filterable_fields)

  unfoldable pub evaluate : FilterCondition T → Evaluated
  unfolding is_faceted unfilterable on_field evaluate_geo
  evaluate (condition fid op) =
      if is_faceted (value fid) filterable_fields
      then on_field op (field_id (value fid))
      else err (unfilterable fid)
  evaluate (or lhs rhs) = evaluate lhs >>= λ a. evaluate rhs >>= λ b. ok (union a b)
  evaluate (and lhs rhs) = evaluate lhs >>= λ a. evaluate rhs >>= λ b. ok (intersection a b)
  evaluate (geo_lower_than lat lng radius) = evaluate_geo lat lng radius
  evaluate (geo_greater_than lat lng radius) =
      evaluate_geo lat lng radius >>= λ result. ok (difference geo_faceted_documents_ids result)
