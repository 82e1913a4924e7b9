-- ===== src/Facet/Evaluate/Negation.antt =====
-- A filter and its negation (filter-parser/src/lib.rs, condition.rs) on an index.
use milli.Base.{ℕ, true, false, some, ◌≡◌, ◌⊎◌}
use milli.Bitmap.{Roaring, IsRoaring}
use milli.Filter.{
  Condition, greater_than, greater_than_or_equal, equal, not_equal, lower_than, lower_than_or_equal,
  between, FilterCondition, condition, or, and, geo_lower_than, geo_greater_than, negate,
}
use milli.Facet.Numbers.{is_nan}
use milli.Facet.Evaluate.{Texts, Index}
use milli.Facet.Evaluate.Operator.{Over}
use milli.Facet.Evaluate.Meaning.{Number}
use milli.Facet.Evaluate.Documents.{Holds}

module _ (r : Roaring) (laws : IsRoaring r) {T : Type 0} (t : Texts T) (index : Index r) where
  open r use {Bitmap, contains, union, intersection}
  open t use {value}
  open index use {
    field_id, numbers_db, number_faceted_documents_ids, geo_faceted_documents_ids, geo_rtree,
  }

  -- A token that says a number.
  abbrev Says : T → Type 0
  Says token = (n : ℕ) × Number r laws t index token n × (is_nan n ≡ false)

  abbrev SayNumbers : Condition T → Type 0
  SayNumbers (greater_than val) = Says val
  SayNumbers (greater_than_or_equal val) = Says val
  SayNumbers (lower_than val) = Says val
  SayNumbers (lower_than_or_equal val) = Says val
  SayNumbers (between from to) = Says from × Says to
  SayNumbers (equal val) = Unit
  SayNumbers (not_equal val) = Unit

  -- The index has a number of the document for each field that the filter names, and its point for
  -- a distance; the filter compares with numbers.
  abbrev pub IsPresent : FilterCondition T → ℕ → Type 0
  IsPresent (condition fid op) d =
      SayNumbers op
      × ((field : ℕ) × (field_id (value fid) ≡ some field)
          × (contains (number_faceted_documents_ids field) d ≡ true)
          × Over r laws t index field (λ v. true) d)
  IsPresent (or a b) d = IsPresent a d × IsPresent b d
  IsPresent (and a b) d = IsPresent a d × IsPresent b d
  IsPresent (geo_lower_than lat lng radius) d = contains geo_faceted_documents_ids d ≡ true
  IsPresent (geo_greater_than lat lng radius) d = contains geo_faceted_documents_ids d ≡ true

  -- A range or its negation holds.
  abbrev Either : FilterCondition T → ℕ → Type 0
  Either f d = Holds r laws t index false f d ⊎ Holds r laws t index false (negate f) d
