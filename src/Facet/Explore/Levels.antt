-- ===== src/Facet/Explore/Levels.antt =====
-- The induction over the levels.
use milli.Base.{
  ℕ, zero, suc, ◌≤◌, ◌<◌, true, false, List, Option, none, some, ltb, ◌≡◌, refl, subst, arith,
  Bool-cases, ◌⊎◌, inl, inr,
}
use milli.Bitmap.{Roaring, IsRoaring}
use milli.Facet.{
  Bound, included, excluded, unbounded, Entry, number_range, found_bounds, is_exact, is_void,
  is_included, union_all, refine_left, refine_right, refine, explore,
}
use milli.Facet.Range.{In, Fits, Fits-In, In-number_range, found_bounds-some, between-In}
use milli.Facet.Explore.{
  above, below, within, above-starts, below-must_be_returned, within-is_void, Held, IsIndex,
  Held-mono, contains-union_all-out, contains-union_all-In, union_all-contains, Explores,
  Held-found, explore_level_zero-Explores,
}

module _ (r : Roaring) (laws : IsRoaring r) (db : ℕ → List (Entry r.Bitmap)) (top : ℕ)
    (index : IsIndex r laws db top) where
  open r use {Bitmap, contains}

  -- A search that does nothing where no number can be in the request.
  Explores-nothing :
      (left right : Bound) (out : Bitmap)
      → ((v : ℕ) → within false left right v ≡ true → ⊥)
      → Explores r laws db top index left right out out
  Explores-nothing left right out never n =
      (λ h. inl h, λ h. h, λ held. absurd (never held.0.left held.2))

  -- Two searches in turn, for parts of one request.
  Explores-then :
      (left right l₁ r₁ l₂ r₂ : Bound) (out mid result : Bitmap)
      → ((v : ℕ) → within true l₁ r₁ v ≡ true → within true left right v ≡ true)
      → ((v : ℕ) → within true l₂ r₂ v ≡ true → within true left right v ≡ true)
      → Explores r laws db top index l₁ r₁ out mid
      → Explores r laws db top index l₂ r₂ mid result
      → (n : ℕ)
      → (contains result n ≡ true
          → (contains out n ≡ true) ⊎ Held r laws (db 0) (within true left right) n)
        × (contains out n ≡ true → contains result n ≡ true)
        × (Held r laws (db 0) (within false l₁ r₁) n ⊎ Held r laws (db 0) (within false l₂ r₂) n
            → contains result n ≡ true)
  Explores-then left right l₁ r₁ l₂ r₂ out mid result first second a b n =
      let (a_from, a_keep, a_hit) = a n in
      let (b_from, b_keep, b_hit) = b n in
      (
        λ h. elim (b_from h) [
          | inr held ↦
              inr
                (Held-mono r laws (db 0) (within true l₂ r₂) (within true left right) n second held)
          | inl before ↦ elim (a_from before) [
            | inl old ↦ inl old
            | inr held ↦
                inr (
                  Held-mono r laws (db 0) (within true l₁ r₁) (within true left right) n first held)
          ]
        ],
        λ h. b_keep (a_keep h),
        λ h. elim h [ inl held ↦ b_keep (a_hit held) | inr held ↦ b_hit held ],
      )

  -- What is known of the search in the level below.
  abbrev Deeper : (Bound → Bound → Bitmap → Bitmap) → Type 0
  Deeper deeper =
      (left right : Bound) (out : Bitmap)
      → Explores r laws db top index left right out (deeper left right out)

  not_included :
      (left : Bound) (found v : ℕ)
      → is_included left found ≡ true
      → above false left v ≡ true
      → v < found
      → ⊥
  unfolding is_included
  not_included (included l) found v h a lt = ground arith
  not_included (excluded l) found v h a lt = cc
  not_included unbounded found v h a lt = cc

  not_included_right :
      (right : Bound) (found v : ℕ)
      → is_included right found ≡ true
      → below right v ≡ true
      → found < v
      → ⊥
  unfolding is_included
  not_included_right (included l) found v h a lt = ground arith
  not_included_right (excluded l) found v h a lt = cc
  not_included_right unbounded found v h a lt = cc

  pub refine_left-Explores :
      (deeper : Bound → Bound → Bitmap → Bitmap) (left : Bound) (found : ℕ) (out : Bitmap)
      → Deeper deeper
      → Explores r laws db top index left
          (excluded found)
          out
          (refine_left r db deeper left found out)
  unfolding refine_left
  refine_left-Explores deeper left found out ih = elim (Bool-cases (is_included left found)) [
    | inl met ↦
        rw (met, refine_left)
          (Explores-nothing left (excluded found) out
            (λ v w. not_included left found v met (ground arith) (ground arith)))
    | inr missed ↦ rw (missed, refine_left) (ih left (excluded found) out)
  ]

  pub refine_right-Explores :
      (deeper : Bound → Bound → Bitmap → Bitmap) (right : Bound) (found : ℕ) (out : Bitmap)
      → Deeper deeper
      → Explores r laws db top index
          (excluded found)
          right
          out
          (refine_right r db deeper right found out)
  unfolding refine_right
  refine_right-Explores deeper right found out ih = elim (Bool-cases (is_included right found)) [
    | inl met ↦
        rw (met, refine_right)
          (Explores-nothing (excluded found) right out
            (λ v w. not_included_right right found v met (ground arith) (ground arith)))
    | inr missed ↦ rw (missed, refine_right) (ih (excluded found) right out)
  ]

  -- The numbers of a request lie left of what was found, right of it, or in an entry that was found.
  sides :
      (level : ℕ) (left right : Bound) (f g : Entry Bitmap) (out : Bitmap) (n : ℕ)
      → level ≤ top
      → In f (number_range db level left right)
      → In g (number_range db level left right)
      → Held r laws (db 0) (within false left right) n
      → (contains (union_all r out (number_range db level left right)) n ≡ true)
        ⊎ (Held r laws (db 0) (within false left (excluded f.left)) n
            ⊎ Held r laws (db 0) (within false (excluded g.right) right) n)
  sides level left right f g out n le f_at g_at (z, at, test, has) =
      elim (Bool-cases (ltb z.left f.left)) [
        | inl before ↦ inr (inl (z, at, ground arith, has))
        | inr from ↦ elim (Bool-cases (ltb g.right z.left)) [
          | inl behind ↦ inr (inr (z, at, ground arith, has))
          | inr to ↦
              let (e, e_at, c) = index.covered level le z at in
              inl (
                contains-union_all-In r laws out (number_range db level left right) e n
                  (between-In db level left right f g e z.left (index.disjoint level) f_at g_at e_at
                    (ground arith) (ground arith) (ground arith) (ground arith))
                  ((index.held level e e_at n).1 (z, at, c, has)))
        ]
      ]

  union_found :
      (level : ℕ) (left right : Bound) (out : Bitmap) (n : ℕ)
      → contains (union_all r out (number_range db level left right)) n ≡ true
      → (contains out n ≡ true) ⊎ Held r laws (db 0) (within true left right) n
  union_found level left right out n h =
      elim (union_all-contains r laws out (number_range db level left right) n h) [
        | inl old ↦ inl old
        | inr (e, at, has) ↦ inr (Held-found r laws db top index level left right e n at has)
      ]

  pub refine-Explores :
      (deeper : Bound → Bound → Bitmap → Bitmap) (level : ℕ) (left right : Bound)
      (o : Option (ℕ × ℕ)) (out : Bitmap)
      → Deeper deeper
      → level ≤ top
      → found_bounds (number_range db level left right) ≡ o
      → Explores r laws db top index left right out
          (refine r db deeper left right o (union_all r out (number_range db level left right)))
  unfolding refine
  refine-Explores deeper level left right none out ih le e n =
      let found = number_range db level left right in
      let (from, keep, hit) = ih left right (union_all r out found) n in
      (
        λ h. elim (from h) [
          | inr held ↦ inr held
          | inl before ↦ union_found level left right out n before
        ],
        λ h. keep (contains-union_all-out r laws out found n h),
        hit,
      )
  refine-Explores deeper level left right (some (lf, rf)) out ih le e n =
      let found = number_range db level left right in
      let first = union_all r out found in
      let (f, g, f_at, g_at, f_same, g_same) = found_bounds-some found lf rf e in
      let (f_in, f_start, f_ret) = In-number_range db level left right f f_at in
      let (g_in, g_start, g_ret) = In-number_range db level left right g g_at in
      let f_fits : Fits f = Fits-In f (db level) (index.disjoint level) f_in in
      let g_fits : Fits g = Fits-In g (db level) (index.disjoint level) g_in in
      let (from, keep, hit) =
        Explores-then left right left (excluded lf) (excluded rf) right first
          (refine_left r db deeper left lf first)
          (refine_right r db deeper right rf (refine_left r db deeper left lf first))
          (λ v w. ground (arith, below-must_be_returned right f v f_ret))
          (λ v w. ground (arith, above-starts level left g v g_start))
          (refine_left-Explores deeper left lf first ih)
          (refine_right-Explores deeper right rf (refine_left r db deeper left lf first) ih) n in
      (
        λ h. elim (from h) [
          | inr held ↦ inr held
          | inl before ↦ union_found level left right out n before
        ],
        λ h. keep (contains-union_all-out r laws out found n h),
        λ held. elim (sides level left right f g out n le f_at g_at held) [
          | inl here ↦ keep here
          | inr (inl before) ↦ hit (
              inl
                (subst (λ k. Held r laws (db 0) (within false left (excluded k)) n) f_same before))
          | inr (inr behind) ↦ hit (
              inr
                (subst (λ k. Held r laws (db 0) (within false (excluded k) right) n) g_same behind))
        ],
      )

  -- A search that starts in any level up to the highest keeps the documents it is given, adds every
  -- document with a number of the request, and adds no other but those that have the number of an
  -- excluded left bound.
  pub explore-Explores :
      (level : ℕ) (left right : Bound) (out : Bitmap)
      → level ≤ top
      → Explores r laws db top index left right out (explore r db level left right out)
  unfolding explore
  explore-Explores zero left right out le =
      explore_level_zero-Explores r laws db top index left right out
  explore-Explores (suc level) left right out le = elim (Bool-cases (is_exact left right)) [
    | inl exact ↦
        rw (exact, explore) (explore_level_zero-Explores r laws db top index left right out)
    | inr wide ↦ elim (Bool-cases (is_void left right)) [
      | inl void ↦
          rw (wide, void, explore)
            (Explores-nothing left right out (λ v w. within-is_void left right v void w))
      | inr full ↦
          rw (wide, full, explore)
            (refine-Explores (explore r db level) (suc level) left right
              (found_bounds (number_range db (suc level) left right)) out
              (λ l k o. explore-Explores level l k o (omega arith)) le refl)
    ]
  ]
