-- ===== src/Facet/Evaluate/Documents.antt =====
-- The documents that a whole filter finds.
use milli.Base.{ℕ, Bool, true, some, ◌≡◌, ◌⊎◌}
use milli.Bitmap.{Roaring, IsRoaring}
use milli.Filter.{FilterCondition, condition, or, and, geo_lower_than, geo_greater_than}
use milli.Facet.Evaluate.{Texts, Index}
use milli.Facet.Evaluate.Meaning.{Meets}
use milli.Facet.Evaluate.Geo.{Near}

module _ (r : Roaring) (laws : IsRoaring r) {T : Type 0} (t : Texts T) (index : Index r) where
  open r use {Bitmap, contains, new, union, intersection, difference}
  open t use {value}
  open index use {filterable_fields, field_id, numbers_db, geo_faceted_documents_ids, geo_rtree}

  -- The filter holds for the document; a loose reading takes `>` for `>=`.
  abbrev pub Holds : Bool → FilterCondition T → ℕ → Type 0
  Holds loose (condition fid op) d =
      (field : ℕ) × (field_id (value fid) ≡ some field) × Meets r laws t index loose field op d
  Holds loose (or a b) d = Holds loose a d ⊎ Holds loose b d
  Holds loose (and a b) d = Holds loose a d × Holds loose b d
  Holds loose (geo_lower_than lat lng radius) d = Near r laws t index lat lng radius d
  Holds loose (geo_greater_than lat lng radius) d =
      (contains geo_faceted_documents_ids d ≡ true) × (Near r laws t index lat lng radius d → ⊥)
