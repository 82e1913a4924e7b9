-- ===== src/Facet/Explore.antt =====
-- The search of a range through the levels, and the documents that have a number in a range.
pub mod Levels
pub mod Excluded
use milli.Base.{
  ℕ, zero, suc, ◌≤◌, ◌<◌, Bool, true, false, ◌&&◌, ◌||◌, List, [], ◌∷◌, Option, none, some, ltb,
  leb, ◌==◌, if◌then◌else◌, ◌≡◌, refl, sym, subst, ◌∙◌, arith, any, Bool-cases, Option-cases, ◌⊎◌,
  inl, inr, ◌↔◌,
}
use milli.Bitmap.{Roaring, IsRoaring}
use milli.Facet.{
  f64_min, f64_max, Bound, included, excluded, unbounded, Entry, starts, must_be_returned,
  number_range, found_bounds, is_exact, is_void, is_included, union_all, explore_level_zero,
  refine_left, refine_right, refine, explore,
}
use milli.Facet.Range.{
  In, Fits, Disjoint, Fits-In, In-number_range, number_range-In, found_bounds-some, between-In,
}

-- The numbers of a request; a loose one takes an excluded left bound for an included one.
abbrev pub above : Bool → Bound → ℕ → Bool
above loose (included l) v = leb l v
above true (excluded l) v = leb l v
above false (excluded l) v = ltb l v
above loose unbounded v = true

abbrev pub below : Bound → ℕ → Bool
below (included r) v = leb v r
below (excluded r) v = ltb v r
below unbounded v = true

abbrev pub within : Bool → Bound → Bound → ℕ → Bool
within loose left right v = above loose left v && below right v

abbrev pub covers : {D : Type 0} → Entry D → ℕ → Bool
covers e v = leb e.left v && leb v e.right

module _ {D : Type 0} where
  pub above-starts :
      (level : ℕ) (left : Bound) (e : Entry D) (v : ℕ)
      → starts level left e ≡ true
      → e.left ≤ v
      → above true left v ≡ true
  unfolding starts
  above-starts level (included l) e v h le = ground arith
  above-starts level (excluded l) e v h le = ground arith
  above-starts level unbounded e v h le = refl

  pub below-must_be_returned :
      (right : Bound) (e : Entry D) (v : ℕ)
      → must_be_returned right e ≡ true
      → v ≤ e.right
      → below right v ≡ true
  unfolding must_be_returned
  below-must_be_returned (included r) e v h le = ground arith
  below-must_be_returned (excluded r) e v h le = ground arith
  below-must_be_returned unbounded e v h le = refl

  -- At level 0 the range is exact.
  starts-above :
      (left : Bound) (e : Entry D)
      → Fits e
      → above false left e.left ≡ true
      → starts 0 left e ≡ true
  unfolding starts
  starts-above (included l) e h a = ground arith
  starts-above (excluded l) e h a = ground arith
  starts-above unbounded e h a = ground arith

  must_be_returned-below :
      (right : Bound) (e : Entry D) → below right e.right ≡ true → must_be_returned right e ≡ true
  unfolding must_be_returned
  must_be_returned-below (included r) e h = h
  must_be_returned-below (excluded r) e h = h
  must_be_returned-below unbounded e h = refl

pub within-is_void :
    (left right : Bound) (v : ℕ) → is_void left right ≡ true → within false left right v ≡ true → ⊥
unfolding is_void
within-is_void (included l) (included r) v h w = ground arith
within-is_void (included l) (excluded r) v h w = ground arith
within-is_void (included l) unbounded v h w = cc
within-is_void (excluded l) (included r) v h w = ground arith
within-is_void (excluded l) (excluded r) v h w = ground arith
within-is_void (excluded l) unbounded v h w = cc
within-is_void unbounded (included r) v h w = cc
within-is_void unbounded (excluded r) v h w = cc
within-is_void unbounded unbounded v h w = cc

module _ (r : Roaring) (laws : IsRoaring r) where
  open r use {Bitmap, contains, union}

  -- A document of level 0 has a number that passes the test.
  abbrev pub Held : List (Entry Bitmap) → (ℕ → Bool) → ℕ → Type 0
  Held level_zero p n =
      (z : Entry Bitmap) × In z level_zero × (p z.left ≡ true) × (contains z.docids n ≡ true)

  -- The entries of all levels up to the highest: they are disjoint and in order, each has the
  -- documents of the numbers between its bounds, and together they cover level 0.
  pub record IsIndex (db : ℕ → List (Entry Bitmap)) (top : ℕ) : Type 0 where
    pub single : (z : Entry Bitmap) → In z (db 0) → z.right ≡ z.left
    pub disjoint : (level : ℕ) → Disjoint (db level)
    pub held :
        (level : ℕ) (e : Entry Bitmap)
        → In e (db level)
        → (n : ℕ) → (contains e.docids n ≡ true) ↔ Held (db 0) (covers e) n
    pub covered :
        (level : ℕ)
        → level ≤ top
        → (z : Entry Bitmap) → In z (db 0)
        → (e : Entry Bitmap) × In e (db level) × (covers e z.left ≡ true)

  pub Held-mono :
      (zs : List (Entry Bitmap)) (p q : ℕ → Bool) (n : ℕ)
      → ((v : ℕ) → p v ≡ true → q v ≡ true)
      → Held zs p n
      → Held zs q n
  Held-mono zs p q n h (z, at, test, has) = (z, at, h z.left test, has)

  pub contains-union_all-out :
      (out : Bitmap) (found : List (Entry Bitmap)) (n : ℕ)
      → contains out n ≡ true
      → contains (union_all r out found) n ≡ true
  unfolding union_all
  contains-union_all-out out [] n h = h
  contains-union_all-out out (e ∷ found) n h =
      contains-union_all-out (union out e.docids) found n
        (ground (arith, laws.contains-union out e.docids n))

  pub contains-union_all-In :
      (out : Bitmap) (found : List (Entry Bitmap)) (e : Entry Bitmap) (n : ℕ)
      → In e found
      → contains e.docids n ≡ true
      → contains (union_all r out found) n ≡ true
  unfolding union_all
  contains-union_all-In out [] e n at h = elim at [ ]
  contains-union_all-In out (f ∷ found) e n (inl same) h =
      contains-union_all-out (union out f.docids) found n (
        laws.contains-union out f.docids n
        ∙ ground (arith, subst (λ (k : Entry Bitmap). contains k.docids n ≡ true) same h))
  contains-union_all-In out (f ∷ found) e n (inr later) h =
      contains-union_all-In (union out f.docids) found e n later h

  pub union_all-contains :
      (out : Bitmap) (found : List (Entry Bitmap)) (n : ℕ)
      → contains (union_all r out found) n ≡ true
      → (contains out n ≡ true) ⊎ ((e : Entry Bitmap) × In e found × (contains e.docids n ≡ true))
  unfolding union_all
  union_all-contains out [] n h = inl h
  union_all-contains out (e ∷ found) n h =
      elim (union_all-contains (union out e.docids) found n h) [
        | inr (f, at, has) ↦ inr (f, inr at, has)
        | inl old ↦ elim (Bool-cases (contains out n)) [
          | inl here ↦ inl here
          | inr gone ↦ inr (e, inl refl, ground (arith, laws.contains-union out e.docids n))
        ]
      ]

  module _ (db : ℕ → List (Entry Bitmap)) (top : ℕ) (index : IsIndex db top) where
    -- What a search makes of the documents it starts with: it adds documents with a number of the
    -- loose request, and all with a number of the request.
    abbrev pub Explores : Bound → Bound → Bitmap → Bitmap → Type 0
    Explores left right out result =
        (n : ℕ)
        → (contains result n ≡ true
            → (contains out n ≡ true) ⊎ Held (db 0) (within true left right) n)
          × (contains out n ≡ true → contains result n ≡ true)
          × (Held (db 0) (within false left right) n → contains result n ≡ true)

    pub Held-found :
        (level : ℕ) (left right : Bound) (e : Entry Bitmap) (n : ℕ)
        → In e (number_range db level left right)
        → contains e.docids n ≡ true
        → Held (db 0) (within true left right) n
    Held-found level left right e n at has =
        let (e_in, start, ret) = In-number_range db level left right e at in
        Held-mono (db 0) (covers e) (within true left right) n
          (λ v c.
            ground (arith, above-starts level left e v start, below-must_be_returned right e v ret))
          ((index.held level e e_in n).0 has)

    pub explore_level_zero-Explores :
        (left right : Bound) (out : Bitmap)
        → Explores left right out (explore_level_zero r db left right out)
    unfolding explore_level_zero
    explore_level_zero-Explores left right out n = elim (Bool-cases (is_void left right)) [
      | inl void ↦
          rw void
            (λ h. inl h, λ h. h, λ held. absurd (within-is_void left right held.0.left void held.2))
      | inr full ↦
          let found = number_range db 0 left right in
          rw full (
            λ h. elim (union_all-contains out found n h) [
              | inl old ↦ inl old
              | inr (e, at, has) ↦ inr (Held-found 0 left right e n at has)
            ],
            λ h. contains-union_all-out out found n h,
            λ held. exact_hit held,
          )
    ]
      where
        exact_hit :
            Held (db 0) (within false left right) n
            → contains (union_all r out (number_range db 0 left right)) n ≡ true
        exact_hit (z, at, test, has) =
            let same : z.right ≡ z.left = index.single z at in
            contains-union_all-In out (number_range db 0 left right) z n
              (number_range-In db 0 left right z (index.disjoint 0) at
                (starts-above left z (Fits-In z (db 0) (index.disjoint 0) at) (ground arith))
                (must_be_returned-below right z
                  (subst (λ v. below right v ≡ true) (sym same) (ground arith))))
              has
