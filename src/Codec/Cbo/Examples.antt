-- ===== src/Codec/Cbo/Examples.antt =====
-- Runs of the codec on small bitmaps, kept as lists.
use milli.Base.{ℕ, false, List, [], ◌∷◌, some, map, ◌≡◌}
use milli.Bitmap.Sample.{sample, sample-IsRoaring}
use milli.Codec.Cbo.{serialize_into, merge_into}
use milli.Codec.Cbo.Laws.{Decodes, deserialize-serialize_into}
use milli.Codec.Cbo.Merge.{encode, in_any, merge_into-Decodes}

abbrev small : List ℕ
small = 7 ∷ 3 ∷ []

abbrev large : List ℕ
large = 1 ∷ 2 ∷ 3 ∷ 4 ∷ 5 ∷ 6 ∷ 7 ∷ 8 ∷ 9 ∷ []

deserialize-serialize_into_example :
    Decodes sample sample-IsRoaring false
      (serialize_into sample false small [])
      (sample.contains small)
deserialize-serialize_into_example = deserialize-serialize_into sample sample-IsRoaring false small

merge_into-Decodes_example :
    (bytes : List ℕ) × (merge_into sample false
        (map (encode sample sample-IsRoaring false) (small ∷ large ∷ []))
        []
      ≡ some bytes)
    × Decodes sample sample-IsRoaring false bytes
        (in_any sample sample-IsRoaring false (small ∷ large ∷ []))
merge_into-Decodes_example = merge_into-Decodes sample sample-IsRoaring false (small ∷ large ∷ [])
