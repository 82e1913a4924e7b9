-- ===== src/Facet/Examples.antt =====
-- Tests and witnesses for the levels of numbers and the filters that search them.
use milli.Base.{ℕ, ◌^◌, ◌≤◌, ◌<◌, true, List, [], ◌∷◌, ◌≡◌, refl, sym, subst, arith, inl, ◌∙◌}
use milli.Bitmap.Sample.{sample, sample-IsRoaring, listed}
use milli.Bitmap.Numbers.{sort, dedup}
use milli.Facet.{Entry, included, excluded, explore}
use milli.Facet.Range.{In}
use milli.Facet.Build.{
  highest_level, compute_facet_number_levels, level_entries, count_levels, is_level, write_groups,
}
use milli.Facet.Build.Groups.{IsLevelZero}
use milli.Facet.Build.Index.{compute_facet_number_levels-IsIndex}
use milli.Facet.Explore.Excluded.{explore-gives_excluded_bound}

-- 1.0, 2.0 and 3.0.
abbrev pub one : ℕ
one = 0xBFF0000000000000

abbrev pub two : ℕ
two = 0xC000000000000000

abbrev pub three : ℕ
three = 0xC008000000000000

abbrev entry : ℕ → ℕ → Entry (List ℕ)
entry number document = record { left = number; right = number; docids = document ∷ [] }

abbrev pub prices : List (Entry (List ℕ))
prices = entry one 7 ∷ entry two 8 ∷ entry three 9 ∷ []

one_document : (d : ℕ) → d < 2 ^ 32 → (n : ℕ) × (sample.contains (d ∷ []) n ≡ true)
one_document d h = (d, sample-IsRoaring.contains-insert [] d d h ∙ ground arith)

pub prices-IsLevelZero : IsLevelZero sample sample-IsRoaring prices
prices-IsLevelZero = (
  refl,
  (omega arith, omega arith, omega arith),
  one_document 7 (omega arith),
  (omega arith, (omega arith, tt)),
  (
    refl,
    (omega arith, omega arith, omega arith),
    one_document 8 (omega arith),
    (omega arith, tt),
    (refl, (omega arith, omega arith, omega arith), one_document 9 (omega arith), tt, tt),
  ),
)

two_levels : highest_level sample 2 1 prices ≡ 1
unfolding highest_level count_levels is_level
two_levels = refl

abbrev made : ℕ → List (Entry (List ℕ))
made = compute_facet_number_levels sample 2 1 prices

abbrev cheap : Entry (List ℕ)
cheap = record { left = one; right = two; docids = 7 ∷ 8 ∷ [] }

has_level : 1 ≤ highest_level sample 2 1 prices
has_level = omega (arith, two_levels)

made_one : made 1 ≡ cheap ∷ entry three 9 ∷ []
unfolding compute_facet_number_levels highest_level count_levels is_level level_entries write_groups
    listed dedup sort
made_one = refl

-- A search of the numbers above 1.0, up to 3.0, from level 1.
explore-gives_excluded_bound_example :
    sample.contains (explore sample made 1 (excluded one) (included three) []) 7 ≡ true
unfolding compute_facet_number_levels one_document
explore-gives_excluded_bound_example =
    explore-gives_excluded_bound sample sample-IsRoaring made (highest_level sample 2 1 prices)
      (compute_facet_number_levels-IsIndex sample sample-IsRoaring 2 1 prices prices-IsLevelZero) 0
      cheap three 7 [] has_level (subst (In cheap) (sym made_one) (inl refl)) (omega arith)
      (omega arith) (entry one 7, inl refl, refl, (one_document 7 (omega arith)).1)
