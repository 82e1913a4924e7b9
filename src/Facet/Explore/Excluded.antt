-- ===== src/Facet/Explore/Excluded.antt =====
-- An excluded left bound above level 0.
use milli.Base.{ℕ, suc, ◌≤◌, ◌<◌, true, false, List, Option, none, some, ◌==◌, ◌≡◌, arith}
use milli.Bitmap.{Roaring, IsRoaring}
use milli.Facet.{
  f64_min, Bound, included, excluded, Entry, starts, must_be_returned, number_range, found_bounds,
  is_exact, is_void, union_all, explore, refine, refine_left,
}
use milli.Facet.Range.{In, Fits, Fits-In, number_range-In}
use milli.Facet.Explore.{covers, Held, Held-mono, IsIndex, Explores, contains-union_all-In}
use milli.Facet.Explore.Levels.{explore-Explores, refine_left-Explores, refine_right-Explores}

module _ (r : Roaring) (laws : IsRoaring r) (db : ℕ → List (Entry r.Bitmap)) (top : ℕ)
    (index : IsIndex r laws db top) where
  open r use {Bitmap, contains}

  starts_at :
      (level : ℕ) (e : Entry Bitmap)
      → f64_min < e.right
      → starts (suc level) (excluded e.left) e ≡ true
  unfolding starts
  starts_at level e h = ground arith

  keeps :
      (level : ℕ) (left right : Bound) (o : Option (ℕ × ℕ)) (out : Bitmap) (n : ℕ)
      → level ≤ top
      → contains out n ≡ true
      → contains (refine r db (explore r db level) left right o out) n ≡ true
  unfolding refine
  keeps level left right none out n le h =
      (explore-Explores r laws db top index level left right out le n).1 h
  keeps level left right (some (lf, rf)) out n le h =
      let deeper : (l k : Bound)
          → (o : Bitmap) → Explores r laws db top index l k o (explore r db level l k o) =
        λ l k o. explore-Explores r laws db top index level l k o le in
      (refine_right-Explores r laws db top index (explore r db level) right rf
          (refine_left r db (explore r db level) left lf out) deeper n).1
        ((refine_left-Explores r laws db top index (explore r db level) left lf out deeper n).1 h)

  full : (l right : ℕ) → l < right → is_void (excluded l) (included right) ≡ false
  unfolding is_void
  full l right h = ground arith

  -- A search above level 0 for the numbers greater than the left bound of a group, up to a bound
  -- that is not below the group, also gives the documents that have the bound itself.
  pub explore-gives_excluded_bound :
      (level : ℕ) (e : Entry Bitmap) (right n : ℕ) (out : Bitmap)
      → suc level ≤ top
      → In e (db (suc level))
      → e.left < e.right
      → e.right ≤ right
      → Held r laws (db 0) (λ v. v == e.left) n
      → contains (explore r db (suc level) (excluded e.left) (included right) out) n ≡ true
  unfolding explore is_exact must_be_returned
  explore-gives_excluded_bound level e right n out le at wide fits held =
      let f : Fits e = Fits-In e (db (suc level)) (index.disjoint (suc level)) at in
      let found = number_range db (suc level) (excluded e.left) (included right) in
      let here : In e found =
        number_range-In db (suc level) (excluded e.left) (included right) e
          (index.disjoint (suc level)) at (starts_at level e (omega arith)) (ground arith) in
      let has : contains e.docids n ≡ true =
        (index.held (suc level) e at n).1
          (Held-mono r laws (db 0) (λ v. v == e.left) (covers e) n (λ v h. ground arith) held) in
      rw (full e.left right (omega arith), explore)
        (keeps level (excluded e.left) (included right) (found_bounds found) (union_all r out found)
          n (omega arith) (contains-union_all-In r laws out found e n here has))
