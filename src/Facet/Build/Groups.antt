-- ===== src/Facet/Build/Groups.antt =====
-- The groups of a level, and the documents of what they cover.
use milli.Base.{
  ℕ, ◌≤◌, ◌<◌, Bool, true, false, List, [], ◌∷◌, ◌≡◌, refl, sym, subst, ◌∙◌, arith, All, Bool-cases,
  ◌⊎◌, inl, inr, ◌↔◌,
}
use milli.Bitmap.{Roaring, IsRoaring}
use milli.Facet.{f64_min, f64_max, Entry}
use milli.Facet.Range.{In, Fits, Disjoint}
use milli.Facet.Explore.{covers}

module _ (r : Roaring) (laws : IsRoaring r) where
  open r use {Bitmap, contains, new, len, iter, union}

  -- A document that one of the entries has.
  abbrev pub Has : (Entry Bitmap → Type 0) → (Entry Bitmap → Bool) → ℕ → Type 0
  Has member p n = (y : Entry Bitmap) × member y × (p y ≡ true) × (contains y.docids n ≡ true)

  abbrev pub every : Entry Bitmap → Bool
  every y = true

  abbrev pub covered_by : Entry Bitmap → Entry Bitmap → Bool
  covered_by e y = covers e y.left

  -- Entries of level 0: finite numbers in order, each with a document.
  abbrev pub IsLevelZero : List (Entry Bitmap) → Type 0
  IsLevelZero [] = Unit
  IsLevelZero (z ∷ zs) =
      (z.right ≡ z.left)
      × Fits z
      × ((n : ℕ) × (contains z.docids n ≡ true))
      × All (λ y. z.left < y.left) zs
      × IsLevelZero zs

  -- The entries of the group that is gathered, in front of the rest of level 0.
  pub record Pending (ps zs : List (Entry Bitmap)) (left right : ℕ) (group : Bitmap) : Type 0 where
    pub ordered : left ≤ right
    pub from : f64_min ≤ left
    pub to : right ≤ f64_max
    pub between : (y : Entry Bitmap) → In y ps → (left ≤ y.left) × (y.left ≤ right)
    pub behind : All (λ y. right < y.left) zs
    pub held : (n : ℕ) → (contains group n ≡ true) ↔ Has (λ y. In y ps) every n
    pub nonempty : (n : ℕ) × (contains group n ≡ true)

  -- What holds of the entries that are written for the group and the rest.
  pub record Written (ps zs : List (Entry Bitmap)) (left : ℕ) (out : List (Entry Bitmap))
      : Type 0 where
    pub disjoint : Disjoint out
    pub above : All (λ e. left ≤ e.left) out
    pub covered :
        (y : Entry Bitmap)
        → In y ps ⊎ In y zs
        → (e : Entry Bitmap) × In e out × (covers e y.left ≡ true)
    pub held :
        (e : Entry Bitmap)
        → In e out
        → (n : ℕ) → (contains e.docids n ≡ true) ↔ Has (λ y. In y ps ⊎ In y zs) (covered_by e) n

  pub behind-left :
      (z : Entry Bitmap) (l : ℕ) (zs : List (Entry Bitmap))
      → l < z.left
      → All (λ y. z.left < y.left) zs
      → All (λ y. l < y.left) zs
  behind-left z l [] h a = tt
  behind-left z l (y ∷ zs) h a = (omega arith, behind-left z l zs h a.1)

  pub All-left :
      (l k : ℕ) (es : List (Entry Bitmap))
      → l ≤ k
      → All (λ e. k ≤ e.left) es
      → All (λ e. l ≤ e.left) es
  All-left l k [] h a = tt
  All-left l k (e ∷ es) h a = (omega arith, All-left l k es h a.1)

  pub All-behind :
      (l k : ℕ) (es : List (Entry Bitmap))
      → l < k
      → All (λ e. k ≤ e.left) es
      → All (λ e. l < e.left) es
  All-behind l k [] h a = tt
  All-behind l k (e ∷ es) h a = (omega arith, All-behind l k es h a.1)

  pub All-In :
      (P : Entry Bitmap → Type 0) (e : Entry Bitmap) (es : List (Entry Bitmap))
      → All P es
      → In e es
      → P e
  All-In P e [] a h = elim h [ ]
  All-In P e (f ∷ es) a (inl same) = subst P (sym same) a.0
  All-In P e (f ∷ es) a (inr later) = All-In P e es a.1 later

  -- A group of one entry.
  pub Pending-one :
      (z : Entry Bitmap) (zs : List (Entry Bitmap)) (b : Bitmap)
      → ((n : ℕ) → contains b n ≡ false)
      → IsLevelZero (z ∷ zs)
      → Pending (z ∷ []) zs z.left z.left (union b z.docids)
  Pending-one z zs b empty (single, fits, (n, has), later, rest) = record {
    ordered = omega arith;
    from = fits.1;
    to = omega arith;
    between = λ y at. elim at [
      | inl same ↦ (
        subst (λ (k : Entry Bitmap). z.left ≤ k.left) (sym same) (omega arith),
        subst (λ (k : Entry Bitmap). k.left ≤ z.left) (sym same) (omega arith),
      )
      | inr none_left ↦ absurd none_left
    ];
    behind = later;
    held = λ m. (
      λ h. (z, inl refl, refl, ground (arith, laws.contains-union b z.docids m, empty m)),
      λ h. one m h,
    );
    nonempty = (n, laws.contains-union b z.docids n ∙ ground arith);
  }
    where
      one : (m : ℕ) → Has (λ y. In y (z ∷ [])) every m → contains (union b z.docids) m ≡ true
      one m (y, inl same, t, h) =
          let h' : contains z.docids m ≡ true =
            subst (λ (k : Entry Bitmap). contains k.docids m ≡ true) same h in
          laws.contains-union b z.docids m ∙ ground arith
      one m (y, inr none_left, t, h) = absurd none_left

  -- The group grows by the next entry.
  pub Pending-more :
      (ps zs : List (Entry Bitmap)) (z : Entry Bitmap) (left right : ℕ) (group : Bitmap)
      → Pending ps (z ∷ zs) left right group
      → IsLevelZero (z ∷ zs)
      → Pending (z ∷ ps) zs left z.left (union group z.docids)
  Pending-more ps zs z left right group p (single, fits, some_doc, later, rest) = record {
    ordered = omega (arith, p.ordered, p.behind.0);
    from = p.from;
    to = omega arith;
    between = λ y at. elim at [
      | inl same ↦ (
        subst (λ (k : Entry Bitmap). left ≤ k.left) (sym same)
            (omega (arith, p.ordered, p.behind.0)),
        subst (λ (k : Entry Bitmap). k.left ≤ z.left) (sym same) (omega arith),
      )
      | inr old ↦ let (a, b) = p.between y old in (a, omega (arith, p.behind.0))
    ];
    behind = later;
    held = λ m. (λ h. grown m h, λ h. known m h);
    nonempty = let (m, h) = p.nonempty in (m, laws.contains-union group z.docids m ∙ ground arith);
  }
    where
      grown : (m : ℕ) → contains (union group z.docids) m ≡ true → Has (λ y. In y (z ∷ ps)) every m
      grown m h = elim (Bool-cases (contains group m)) [
        | inl old ↦ let (y, at, t, has) = (p.held m).0 old in (y, inr at, t, has)
        | inr fresh ↦ (z, inl refl, refl, ground (arith, laws.contains-union group z.docids m))
      ]

      known : (m : ℕ) → Has (λ y. In y (z ∷ ps)) every m → contains (union group z.docids) m ≡ true
      known m (y, inl same, t, h) =
          let h' : contains z.docids m ≡ true =
            subst (λ (k : Entry Bitmap). contains k.docids m ≡ true) same h in
          ground (arith, laws.contains-union group z.docids m)
      known m (y, inr old, t, h) =
          let h' : contains group m ≡ true = (p.held m).1 (y, old, t, h) in
          laws.contains-union group z.docids m ∙ ground arith
