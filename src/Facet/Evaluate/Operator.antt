-- ===== src/Facet/Evaluate/Operator.antt =====
-- What a condition on one field finds.
use milli.Base.{
  ℕ, ◌≤◌, ◌<◌, Bool, true, false, List, [], Option, none, some, ◌&&◌, ◌||◌, if◌then◌else◌, ◌≡◌,
  refl, sym, subst, ◌∙◌, arith, Bool-cases, ◌⊎◌, inl, inr, ◌↔◌,
}
use milli.Bitmap.{Roaring, IsRoaring}
use milli.Base.Results.{ok, err, >>=-eq-ok}
use milli.Facet.{f64_min, f64_max, Bound, included, Entry, is_void}
use milli.Facet.Numbers.{same_number, encodes, is_ordered}
use milli.Facet.Range.{Fits, Fits-In}
use milli.Facet.Explore.{within, Held, IsIndex}
use milli.Facet.Explore.Levels.{explore-Explores}
use milli.Facet.Evaluate.Levels.{biggest_level-some, biggest_level-none}
use milli.Facet.Evaluate.{
  Texts, Index, Evaluated, encoding, or_default, biggest_level, ordered_docids, search_range,
  explore_from, range_docids, number_docids, equal_docids,
}

-- The tests of a range that are passed, which with a NaN are none.
abbrev pub ordered_within : Bool → Bound → Bound → ℕ → Bool
ordered_within loose left right v = is_ordered left right && within loose left right v

module _ (r : Roaring) (laws : IsRoaring r) {T : Type 0} (t : Texts T) (index : Index r) where
  open r use {Bitmap, contains, new, union, difference}
  open t use {lexeme, value, parse_f64, to_lowercase}
  open index use {
    numbers_db, strings_db, number_faceted_documents_ids, string_faceted_documents_ids,
  }

  -- The levels of a field: an index of its level 0, and no entry above its highest level.
  pub record IsNumbers (db : ℕ → List (Entry Bitmap)) : Type 0 where
    pub top : ℕ
    pub levels : IsIndex r laws db top
    pub over : (level : ℕ) → top < level → db level ≡ []

  -- A document with a number of the field that passes the test.
  abbrev pub Over : ℕ → (ℕ → Bool) → ℕ → Type 0
  Over field p n = Held r laws (numbers_db field 0) p n

  Over-Fits :
      (field : ℕ) (p q : ℕ → Bool) (n : ℕ)
      → IsNumbers (numbers_db field)
      → ((v : ℕ) → f64_min ≤ v → v ≤ f64_max → p v ≡ true → q v ≡ true)
      → Over field p n
      → Over field q n
  Over-Fits field p q n valid h (z, at, test, has) =
      let fits : Fits z = Fits-In z (numbers_db field 0) (valid.levels.disjoint 0) at in
      (z, at, h z.left fits.1 (omega (arith, fits.0, fits.2)) test, has)

  -- What a result holds for a document, between a strict and a loose reading.
  abbrev pub Between : Type 0 → Type 0 → Bitmap → ℕ → Type 0
  Between strict loose b d = (contains b d ≡ true → loose) × (strict → contains b d ≡ true)

  pub ok-injective : (a b : Bitmap) → ◌≡◌ {A = Evaluated r t index} (ok a) (ok b) → a ≡ b
  ok-injective a b e = cc

  searched :
      (c : Bool) (a b : Bitmap)
      → ◌≡◌ {A = Evaluated r t index} (if c then ok a else err encoding) (ok b)
      → a ≡ b
  searched true a b e = ok-injective a b e
  searched false a b e = cc

  ordered_docids-Over :
      (field level : ℕ) (left right : Bound) (n : ℕ) (valid : IsNumbers (numbers_db field))
      → level ≤ valid.top
      → Between
          (Over field (ordered_within false left right) n)
          (Over field (ordered_within true left right) n)
          (ordered_docids r t index field level left right)
          n
  unfolding ordered_docids
  ordered_docids-Over field level left right n valid le =
      elim (Bool-cases (is_ordered left right)) [
        | inr nan ↦ rw nan (
          λ h. let fresh : contains new n ≡ false = laws.contains-new n in cc,
          λ held. absurd (let test = held.2 in cc),
        )
        | inl ordered ↦
            let (from, keep, hit) =
              explore-Explores r laws (numbers_db field) valid.top valid.levels level left right new
                le n in
            rw ordered (
              λ h. elim (from h) [
                | inl old ↦ let fresh : contains new n ≡ false = laws.contains-new n in cc
                | inr held ↦ held
              ],
              hit,
            )
      ]

  -- A search that succeeds, between two tests.
  search_range-Over :
      (field level : ℕ) (left right : Bound) (strict loose : ℕ → Bool) (b : Bitmap) (n : ℕ)
      (valid : IsNumbers (numbers_db field))
      → level ≤ valid.top
      → ((v : ℕ)
          → f64_min ≤ v
          → v ≤ f64_max
          → ordered_within true left right v ≡ true
          → loose v ≡ true)
      → ((v : ℕ)
          → f64_min ≤ v
          → v ≤ f64_max
          → strict v ≡ true
          → ordered_within false left right v ≡ true)
      → search_range r t index field level left right ≡ ok b
      → Between (Over field strict n) (Over field loose n) b n
  unfolding search_range
  search_range-Over field level left right strict loose b n valid le out inside e =
      let same : ordered_docids r t index field level left right ≡ b =
        searched (encodes left || (is_ordered left right && is_void left right)) _ b e in
      let (from, hit) = ordered_docids-Over field level left right n valid le in
      (
        λ h.
            Over-Fits field (ordered_within true left right) loose n valid out
              (from (subst (λ k. contains k n ≡ true) (sym same) h)),
        λ held.
            subst (λ k. contains k n ≡ true) same
              (hit (Over-Fits field strict (ordered_within false left right) n valid inside held)),
      )

  nothing-Over :
      (field : ℕ) (strict loose : ℕ → Bool) (b : Bitmap) (n : ℕ)
      → new ≡ b
      → numbers_db field 0 ≡ []
      → Between (Over field strict n) (Over field loose n) b n
  nothing-Over field strict loose b n same none_there = (
    λ h. let fresh : contains new n ≡ false = laws.contains-new n in cc,
    λ held. absurd (subst (λ es. Held r laws es strict n) none_there held).1,
  )

  -- A range of numbers between two tests.
  pub range_docids-Over :
      (field : ℕ) (left right : Bound) (strict loose : ℕ → Bool) (b : Bitmap) (n : ℕ)
      → IsNumbers (numbers_db field)
      → ((v : ℕ)
          → f64_min ≤ v
          → v ≤ f64_max
          → ordered_within true left right v ≡ true
          → loose v ≡ true)
      → ((v : ℕ)
          → f64_min ≤ v
          → v ≤ f64_max
          → strict v ≡ true
          → ordered_within false left right v ≡ true)
      → range_docids r t index field left right ≡ ok b
      → Between (Over field strict n) (Over field loose n) b n
  unfolding range_docids explore_from
  range_docids-Over field left right strict loose b n valid out inside e =
      from_level (biggest_level r t index (numbers_db field) 256) refl e
    where
      from_level :
          (o : Option ℕ)
          → biggest_level r t index (numbers_db field) 256 ≡ o
          → explore_from r t index field o left right ≡ ok b
          → Between (Over field strict n) (Over field loose n) b n
      from_level none at e =
          nothing-Over field strict loose b n (ok-injective new b e)
            (biggest_level-none r t index (numbers_db field) 255 at)
      from_level (some level) at e =
          search_range-Over field level left right strict loose b n valid
            (biggest_level-some r t index (numbers_db field) valid.top 256 level valid.over at) out
            inside e

  -- The documents with a string or a number that is equal.
  abbrev pub Equals : ℕ → T → ℕ → Type 0
  Equals field val n =
      (contains (or_default r t index (strings_db field (to_lowercase (value val)))) n ≡ true)
      ⊎ ((m : ℕ) × (parse_f64 (lexeme val) ≡ some m) × Over field (λ v. same_number v m) n)

  number_docids-Over :
      (field : ℕ) (o : Option ℕ) (b : Bitmap) (n : ℕ)
      → IsNumbers (numbers_db field)
      → number_docids r t index field o ≡ ok b
      → (contains b n ≡ true) ↔ ((m : ℕ) × (o ≡ some m) × Over field (λ v. same_number v m) n)
  unfolding number_docids
  number_docids-Over field none b n valid e =
      let same : new ≡ b = ok-injective new b e in
      let fresh : contains new n ≡ false = laws.contains-new n in
      (λ h. cc, λ h. absurd (let bad = h.1 in cc))
  number_docids-Over field (some m) b n valid e =
      let (from, hit) =
        search_range-Over field 0 (included m) (included m) (λ v. same_number v m)
          (λ v. same_number v m) b n valid (omega arith) (λ v l h w. ground arith)
          (λ v l h w. ground arith) e in
      (
        λ h. (m, refl, from h),
        λ h.
            let same : m ≡ h.0 = (let e = h.1 in cc) in
            hit (subst (λ k. Over field (λ v. same_number v k) n) (sym same) h.2),
      )

  pub equal_docids-Equals :
      (field : ℕ) (val : T) (b : Bitmap) (n : ℕ)
      → IsNumbers (numbers_db field)
      → equal_docids r t index field val ≡ ok b
      → (contains b n ≡ true) ↔ Equals field val n
  unfolding equal_docids
  equal_docids-Equals field val b n valid e =
      let strings = or_default r t index (strings_db field (to_lowercase (value val))) in
      let (numbers, read, last) =
        >>=-eq-ok (number_docids r t index field (parse_f64 (lexeme val))) _ e in
      let same : union strings numbers ≡ b = ok-injective (union strings numbers) b last in
      let (from, hit) = number_docids-Over field (parse_f64 (lexeme val)) numbers n valid read in
      let both : contains b n ≡ contains strings n || contains numbers n =
        subst (λ k. contains k n ≡ contains strings n || contains numbers n) same
          (laws.contains-union strings numbers n) in
      (
        λ h. elim (Bool-cases (contains strings n)) [
          | inl here ↦ inl here
          | inr missing ↦ inr (from (ground arith))
        ],
        λ h. elim h [
          | inl here ↦ both ∙ ground arith
          | inr num ↦ let there : contains numbers n ≡ true = hit num in both ∙ ground arith
        ],
      )
