-- ===== src/Facet/Build/Loop.antt =====
-- The loop that writes the groups of a level.
use milli.Base.{
  ℕ, suc, ◌%◌, ◌≤◌, ◌<◌, true, false, List, [], ◌∷◌, ◌==◌, ◌≡◌, refl, sym, subst, arith, Bool-cases,
  ◌⊎◌, inl, inr, ◌↔◌,
}
use milli.Bitmap.{Roaring, IsRoaring}
use milli.Bitmap.Laws.{len-new, len-contains}
use milli.Facet.{Entry}
use milli.Facet.Range.{In, Disjoint}
use milli.Facet.Explore.{covers}
use milli.Facet.Build.{number_entry, write_groups, level_entries}
use milli.Facet.Build.Groups.{
  Has, covered_by, IsLevelZero, Pending, Written, All-left, All-behind, All-In, Pending-one,
  Pending-more,
}

module _ (r : Roaring) (laws : IsRoaring r) where
  open r use {Bitmap, contains, new, len, union}

  -- The group that is written is an entry of its own.
  Written-one :
      (ps : List (Entry Bitmap)) (left right : ℕ) (group : Bitmap)
      → Pending r laws ps [] left right group
      → Written r laws ps [] left (number_entry r left right group ∷ [])
  Written-one ps left right group p = record {
    disjoint = ((p.ordered, p.from, p.to), tt, tt);
    above = (omega arith, tt);
    covered = λ y at. elim at [
      | inl here ↦ (number_entry r left right group, inl refl, ground (arith, p.between y here))
      | inr none_left ↦ absurd none_left
    ];
    held = λ e at n. elim at [
      | inl same ↦
          subst
            (λ (k : Entry Bitmap).
              (contains k.docids n ≡ true)
              ↔ Has r laws (λ y. In y ps ⊎ In y []) (covered_by r laws k) n)
            (sym same) (forth n, back n)
      | inr none_left ↦ absurd none_left
    ];
  }
    where
      forth :
          (n : ℕ)
          → contains group n ≡ true
          → Has r laws
              (λ y. In y ps ⊎ In y [])
              (covered_by r laws (number_entry r left right group))
              n
      forth n h =
          let (y, at, t, has) = (p.held n).0 h in (y, inl at, ground (arith, p.between y at), has)

      back :
          (n : ℕ)
          → Has r laws
              (λ y. In y ps ⊎ In y [])
              (covered_by r laws (number_entry r left right group))
              n
          → contains group n ≡ true
      back n (y, inl at, t, has) = (p.held n).1 (y, at, refl, has)
      back n (y, inr none_left, t, has) = absurd none_left

  -- An entry in front of those that are written for the rest.
  Written-more :
      (ps zs : List (Entry Bitmap)) (z : Entry Bitmap) (left right : ℕ) (group : Bitmap)
      (out : List (Entry Bitmap))
      → Pending r laws ps (z ∷ zs) left right group
      → IsLevelZero r laws (z ∷ zs)
      → Written r laws (z ∷ []) zs z.left out
      → Written r laws ps (z ∷ zs) left (number_entry r left right group ∷ out)
  Written-more ps zs z left right group out p valid w = record {
    disjoint = (
      (p.ordered, p.from, p.to),
      All-behind r laws right z.left out p.behind.0 w.above,
      w.disjoint,
    );
    above = (
      omega arith,
      All-left r laws left z.left out (omega (arith, p.ordered, p.behind.0)) w.above,
    );
    covered = λ y at. elim at [
      | inl here ↦ (number_entry r left right group, inl refl, ground (arith, p.between y here))
      | inr rest ↦ let (e, e_at, c) = w.covered y (shift y rest) in (e, inr e_at, c)
    ];
    held = λ e at n. elim at [
      | inl same ↦
          subst
            (λ (k : Entry Bitmap).
              (contains k.docids n ≡ true)
              ↔ Has r laws (λ y. In y ps ⊎ In y (z ∷ zs)) (covered_by r laws k) n)
            (sym same) (forth n, back n)
      | inr later ↦
          (λ h. widen e n ((w.held e later n).0 h), λ h. (w.held e later n).1 (narrow e n later h))
    ];
  }
    where
      shift : (y : Entry Bitmap) → In y (z ∷ zs) → In y (z ∷ []) ⊎ In y zs
      shift y (inl same) = inl (inl same)
      shift y (inr rest) = inr rest

      unshift : (y : Entry Bitmap) → In y (z ∷ []) ⊎ In y zs → In y (z ∷ zs)
      unshift y (inl (inl same)) = inl same
      unshift y (inl (inr none_left)) = absurd none_left
      unshift y (inr rest) = inr rest

      forth :
          (n : ℕ)
          → contains group n ≡ true
          → Has r laws
              (λ y. In y ps ⊎ In y (z ∷ zs))
              (covered_by r laws (number_entry r left right group))
              n
      forth n h =
          let (y, at, t, has) = (p.held n).0 h in (y, inl at, ground (arith, p.between y at), has)

      past : (y : Entry Bitmap) → In y (z ∷ zs) → right < y.left
      past y at = All-In r laws (λ k. right < k.left) y (z ∷ zs) p.behind at

      back :
          (n : ℕ)
          → Has r laws
              (λ y. In y ps ⊎ In y (z ∷ zs))
              (covered_by r laws (number_entry r left right group))
              n
          → contains group n ≡ true
      back n (y, inl at, t, has) = (p.held n).1 (y, at, refl, has)
      back n (y, inr at, t, has) = let b : right < y.left = past y at in absurd (ground arith)

      widen :
          (e : Entry Bitmap) (n : ℕ)
          → Has r laws (λ y. In y (z ∷ []) ⊎ In y zs) (covered_by r laws e) n
          → Has r laws (λ y. In y ps ⊎ In y (z ∷ zs)) (covered_by r laws e) n
      widen e n (y, at, t, has) = (y, inr (unshift y at), t, has)

      narrow :
          (e : Entry Bitmap) (n : ℕ)
          → In e out
          → Has r laws (λ y. In y ps ⊎ In y (z ∷ zs)) (covered_by r laws e) n
          → Has r laws (λ y. In y (z ∷ []) ⊎ In y zs) (covered_by r laws e) n
      narrow e n e_at (y, inr at, t, has) = (y, shift y at, t, has)
      narrow e n e_at (y, inl at, t, has) =
          let low : z.left ≤ e.left = All-In r laws (λ k. z.left ≤ k.left) e out w.above e_at in
          let (a, b) = p.between y at in absurd (ground (arith, p.behind.0))

  -- The entries of the group and of the rest, the next entry moved to the group.
  Written-moved :
      (ps zs : List (Entry Bitmap)) (z : Entry Bitmap) (left : ℕ) (out : List (Entry Bitmap))
      → Written r laws (z ∷ ps) zs left out
      → Written r laws ps (z ∷ zs) left out
  Written-moved ps zs z left out w = record {
    disjoint = w.disjoint;
    above = w.above;
    covered = λ y at. w.covered y (into y at);
    held = λ e at n. (
      λ h. let (y, y_at, t, has) = (w.held e at n).0 h in (y, out_of y y_at, t, has),
      λ h. (w.held e at n).1 (h.0, into h.0 h.1, h.2, h.3),
    );
  }
    where
      into : (y : Entry Bitmap) → In y ps ⊎ In y (z ∷ zs) → In y (z ∷ ps) ⊎ In y zs
      into y (inl at) = inl (inr at)
      into y (inr (inl same)) = inl (inl same)
      into y (inr (inr at)) = inr at

      out_of : (y : Entry Bitmap) → In y (z ∷ ps) ⊎ In y zs → In y ps ⊎ In y (z ∷ zs)
      out_of y (inl (inl same)) = inr (inl same)
      out_of y (inl (inr at)) = inl at
      out_of y (inr at) = inr (inr at)

  write_groups-Written :
      (size i left right : ℕ) (group : Bitmap) (ps zs : List (Entry Bitmap))
      → (i == 0) ≡ false
      → Pending r laws ps zs left right group
      → IsLevelZero r laws zs
      → Written r laws ps zs left (write_groups r size i left right group zs)
  unfolding write_groups
  write_groups-Written size i left right group ps [] started p valid =
      let (n, h) = p.nonempty in
      let some_doc : (len group == 0) ≡ false = len-contains r laws group n h in
      rw some_doc (Written-one ps left right group p)
  write_groups-Written size i left right group ps (z ∷ zs) started p valid =
      elim (Bool-cases (i % size == 0)) [
        | inl full ↦
            rw (started, full, write_groups)
              (Written-more ps zs z left right group
                (write_groups r size (suc i) z.left z.left (union new z.docids) zs) p valid
                (write_groups-Written size (suc i) z.left z.left (union new z.docids) (z ∷ []) zs
                  (ground arith) (Pending-one r laws z zs new laws.contains-new valid) valid.4))
        | inr room ↦
            rw (started, room, write_groups)
              (Written-moved ps zs z left
                (write_groups r size (suc i) left z.left (union group z.docids) zs)
                (write_groups-Written size (suc i) left z.left (union group z.docids) (z ∷ ps) zs
                  (ground arith) (Pending-more r laws ps zs z left right group p valid) valid.4))
      ]

  -- A level that is made from level 0: its groups are disjoint, hold the documents of what they
  -- cover, and cover level 0.
  pub record IsLevelOf (zs out : List (Entry Bitmap)) : Type 0 where
    pub disjoint : Disjoint out
    pub covered :
        (y : Entry Bitmap) → In y zs → (e : Entry Bitmap) × In e out × (covers e y.left ≡ true)
    pub held :
        (e : Entry Bitmap)
        → In e out
        → (n : ℕ) → (contains e.docids n ≡ true) ↔ Has r laws (λ y. In y zs) (covered_by r laws e) n

  pub level_entries-IsLevelOf :
      (size : ℕ) (zs : List (Entry Bitmap))
      → IsLevelZero r laws zs
      → IsLevelOf zs (level_entries r size zs)
  unfolding level_entries write_groups
  level_entries-IsLevelOf size [] valid =
      rw (len-new r laws)
        (record { disjoint = tt; covered = λ y at. absurd at; held = λ e at n. absurd at })
  level_entries-IsLevelOf size (z ∷ zs) valid =
      let w =
        write_groups-Written size 1 z.left z.left (union new z.docids) (z ∷ []) zs refl
          (Pending-one r laws z zs new laws.contains-new valid) valid.4 in
      let moved =
        Written-moved [] zs z z.left (write_groups r size 1 z.left z.left (union new z.docids) zs)
          w in
      record {
        disjoint = moved.disjoint;
        covered = λ y at. moved.covered y (inr at);
        held = λ e at n. (
          λ h. let (y, y_at, t, has) = (moved.held e at n).0 h in (y, only y y_at, t, has),
          λ h. (moved.held e at n).1 (h.0, inr h.1, h.2, h.3),
        );
      }
    where
      only : (y : Entry Bitmap) → In y [] ⊎ In y (z ∷ zs) → In y (z ∷ zs)
      only y (inl none_left) = absurd none_left
      only y (inr at) = at
