-- ===== src/Facet/Build/Index.antt =====
-- The levels that are made from level 0 as an index of it, and a search through them.
use milli.Base.{
  ℕ, zero, suc, ◌^◌, ◌≤◌, ◌<◌, true, false, List, [], ◌∷◌, leb, ◌≡◌, refl, sym, subst, arith, All,
  Bool-cases, inl, inr, le→leb, leb→le,
}
use milli.Bitmap.{Roaring, IsRoaring}
use milli.Facet.{Entry}
use milli.Facet.Range.{In, Disjoint, apart}
use milli.Facet.Explore.{covers, IsIndex}
use milli.Facet.Build.{highest_level, compute_facet_number_levels}
use milli.Facet.Build.Groups.{Has, covered_by, IsLevelZero}
use milli.Facet.Build.Loop.{IsLevelOf, level_entries-IsLevelOf}

no_positive : (m : ℕ) → leb zero m ≡ false → ⊥
no_positive m h = ground arith

module _ (r : Roaring) (laws : IsRoaring r) where
  open r use {Bitmap, contains, new}

  IsLevelZero-single :
      (zs : List (Entry Bitmap))
      → IsLevelZero r laws zs
      → (z : Entry Bitmap) → In z zs
      → z.right ≡ z.left
  IsLevelZero-single [] v z h = elim h [ ]
  IsLevelZero-single (y ∷ zs) v z (inl same) =
      subst (λ (k : Entry Bitmap). k.right ≡ k.left) (sym same) v.0
  IsLevelZero-single (y ∷ zs) v z (inr later) = IsLevelZero-single zs v.4 z later

  All-right :
      (zs : List (Entry Bitmap)) (k : ℕ) (y : Entry Bitmap)
      → y.right ≡ y.left
      → All (λ z. y.left < z.left) zs
      → All (λ z. y.right < z.left) zs
  All-right [] k y e a = tt
  All-right (z ∷ zs) k y e a = (omega arith, All-right zs k y e a.1)

  IsLevelZero-Disjoint : (zs : List (Entry Bitmap)) → IsLevelZero r laws zs → Disjoint zs
  IsLevelZero-Disjoint [] v = tt
  IsLevelZero-Disjoint (z ∷ zs) v = (v.1, All-right zs 0 z v.0 v.3, IsLevelZero-Disjoint zs v.4)

  -- Level 0 is a level of itself.
  IsLevelZero-IsLevelOf :
      (zs : List (Entry Bitmap)) → IsLevelZero r laws zs → IsLevelOf r laws zs zs
  IsLevelZero-IsLevelOf zs v = record {
    disjoint = d;
    covered = λ y at. (y, at, at_self y at);
    held = λ e at n. ((λ h. (e, at, at_self e at, h)), (λ h. same_entry e at n h));
  }
    where
      d : Disjoint zs
      d = IsLevelZero-Disjoint zs v

      at_self : (y : Entry Bitmap) → In y zs → covers y y.left ≡ true
      at_self y at = ground (arith, IsLevelZero-single zs v y at)

      same_entry :
          (e : Entry Bitmap)
          → In e zs
          → (n : ℕ) → Has r laws (λ y. In y zs) (covered_by r laws e) n
          → contains e.docids n ≡ true
      same_entry e at n (y, y_at, c, has) = elim (apart e y zs d at y_at) [
        | inl same ↦ subst (λ (k : Entry Bitmap). contains k.docids n ≡ true) (sym same) has
        | inr (inl before) ↦ absurd (ground arith)
        | inr (inr after) ↦ let single = IsLevelZero-single zs v y y_at in absurd (ground arith)
      ]

  module _ (group_size min_level_size : ℕ) (zs : List (Entry Bitmap))
      (valid : IsLevelZero r laws zs) where
    abbrev top : ℕ
    top = highest_level r group_size min_level_size zs

    abbrev db : ℕ → List (Entry Bitmap)
    db = compute_facet_number_levels r group_size min_level_size zs

    levels : (level : ℕ) → level ≤ top → IsLevelOf r laws zs (db level)
    unfolding compute_facet_number_levels
    levels zero h = IsLevelZero-IsLevelOf zs valid
    levels (suc level) h =
        let made : leb (suc level) top ≡ true = le→leb (suc level) top h in
        rw made (level_entries-IsLevelOf r laws (group_size ^ suc level) zs valid)

    pub no_level : (level : ℕ) → leb level top ≡ false → db level ≡ []
    unfolding compute_facet_number_levels
    no_level zero h = absurd (no_positive top h)
    no_level (suc level) h = rw h refl

    -- The levels that are made are an index of level 0.
    pub compute_facet_number_levels-IsIndex : IsIndex r laws db top
    unfolding compute_facet_number_levels
    compute_facet_number_levels-IsIndex = record {
      single = IsLevelZero-single zs valid;
      disjoint = λ level. elim (Bool-cases (leb level top)) [
        | inl made ↦ (levels level (leb→le level top made)).disjoint
        | inr over ↦ subst Disjoint (sym (no_level level over)) tt
      ];
      held = λ level e at n. elim (Bool-cases (leb level top)) [
        | inl made ↦ (levels level (leb→le level top made)).held e at n
        | inr over ↦ absurd (subst (In e) (no_level level over) at)
      ];
      covered = λ level h z at. (levels level h).covered z at;
    }
