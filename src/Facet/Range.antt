-- ===== src/Facet/Range.antt =====
-- What the range iterator finds in a level whose entries are disjoint and in order.
use milli.Base.{
  ℕ, ◌≤◌, ◌<◌, Bool, true, false, ◌&&◌, List, [], ◌∷◌, none, some, if◌then◌else◌, ◌≡◌, refl, arith,
  All, Bool-cases, ◌⊎◌, inl, inr, subst, sym, ◌∙◌,
}
use milli.Facet.{
  f64_min, f64_max, Bound, included, excluded, unbounded, Entry, filter, take_while, starts, ends,
  must_be_returned, number_range, last_right, found_bounds,
}

module _ {D : Type 0} where
  -- `e` is one of the entries.
  abbrev pub In : Entry D → List (Entry D) → Type 0
  In e [] = ⊥
  In e (f ∷ entries) = (e ≡ f) ⊎ In e entries

  abbrev pub Fits : Entry D → Type 0
  Fits e = (e.left ≤ e.right) × (f64_min ≤ e.left) × (e.right ≤ f64_max)

  -- Intervals of finite numbers, each behind the one before it.
  abbrev pub Disjoint : List (Entry D) → Type 0
  Disjoint [] = Unit
  Disjoint (e ∷ entries) = Fits e × All (λ f. e.right < f.left) entries × Disjoint entries

  abbrev pub is_found : ℕ → Bound → Entry D → Bool
  is_found level left e = starts level left e && ends level e

  All-In :
      (P : Entry D → Type 0) (e : Entry D) (entries : List (Entry D))
      → All P entries
      → In e entries
      → P e
  All-In P e [] a h = elim h [ ]
  All-In P e (f ∷ entries) a (inl same) = subst P (sym same) a.0
  All-In P e (f ∷ entries) a (inr later) = All-In P e entries a.1 later

  pub Fits-In : (e : Entry D) (entries : List (Entry D)) → Disjoint entries → In e entries → Fits e
  Fits-In e [] d h = elim h [ ]
  Fits-In e (f ∷ entries) d (inl same) = subst Fits (sym same) d.0
  Fits-In e (f ∷ entries) d (inr later) = Fits-In e entries d.2 later

  -- Two entries are the same, or one lies before the other.
  pub apart :
      (e f : Entry D) (entries : List (Entry D))
      → Disjoint entries
      → In e entries
      → In f entries
      → (e ≡ f) ⊎ ((e.right < f.left) ⊎ (f.right < e.left))
  apart e f [] d h k = elim h [ ]
  apart e f (g ∷ entries) d (inl a) (inl b) = inl (a ∙ sym b)
  apart e f (g ∷ entries) d (inl a) (inr b) = inr (
      inl (
        subst (λ (k : Entry D). k.right < f.left) (sym a)
          (All-In (λ k. g.right < k.left) f entries d.1 b)))
  apart e f (g ∷ entries) d (inr a) (inl b) = inr (
      inr (
        subst (λ (k : Entry D). k.right < e.left) (sym b)
          (All-In (λ k. g.right < k.left) e entries d.1 a)))
  apart e f (g ∷ entries) d (inr a) (inr b) = apart e f entries d.2 a b

  starts-later :
      (level : ℕ) (left : Bound) (e f : Entry D)
      → starts level left e ≡ true
      → e.left < f.left
      → starts level left f ≡ true
  unfolding starts
  starts-later level (included l) e f h lt = ground arith
  starts-later level (excluded l) e f h lt = ground arith
  starts-later level unbounded e f h lt = ground arith

  must_be_returned-earlier :
      (right : Bound) (e f : Entry D)
      → must_be_returned right f ≡ true
      → e.right ≤ f.right
      → must_be_returned right e ≡ true
  unfolding must_be_returned
  must_be_returned-earlier (included r) e f h le = ground arith
  must_be_returned-earlier (excluded r) e f h le = ground arith
  must_be_returned-earlier unbounded e f h le = refl

  ends-Fits : (level : ℕ) (e : Entry D) → Fits e → ends level e ≡ true
  unfolding ends
  ends-Fits level e h = ground arith

  -- One step of a filter, and of a prefix that passes a test.
  In-kept :
      (p : Entry D → Bool) (e f : Entry D) (b : Bool) (rest other entries : List (Entry D))
      → p f ≡ b
      → (In e rest → In e entries × (p e ≡ true))
      → (In e other → In e entries × (p e ≡ true))
      → In e (if b then f ∷ rest else other)
      → In e (f ∷ entries) × (p e ≡ true)
  In-kept p e f true rest other entries test h k (inl same) =
      (inl same, subst (λ g. p g ≡ true) (sym same) test)
  In-kept p e f true rest other entries test h k (inr later) = let (a, b) = h later in (inr a, b)
  In-kept p e f false rest other entries test h k later = let (a, b) = k later in (inr a, b)

  In-filter :
      (p : Entry D → Bool) (e : Entry D) (entries : List (Entry D))
      → In e (filter p entries)
      → In e entries × (p e ≡ true)
  In-filter p e [] h = elim h [ ]
  In-filter p e (f ∷ entries) h =
      In-kept p e f (p f) (filter p entries) (filter p entries) entries refl (In-filter p e entries)
        (In-filter p e entries) h

  In-take_while :
      (p : Entry D → Bool) (e : Entry D) (entries : List (Entry D))
      → In e (take_while p entries)
      → In e entries × (p e ≡ true)
  In-take_while p e [] h = elim h [ ]
  In-take_while p e (f ∷ entries) h =
      In-kept p e f (p f) (take_while p entries) [] entries refl (In-take_while p e entries)
        (λ n. absurd n) h

  -- What is found is an entry of the level within both bounds of the request.
  pub In-number_range :
      (db : ℕ → List (Entry D)) (level : ℕ) (left right : Bound) (e : Entry D)
      → In e (number_range db level left right)
      → In e (db level) × (starts level left e ≡ true) × (must_be_returned right e ≡ true)
  unfolding number_range
  In-number_range db level left right e h =
      let (a, ret) =
        In-take_while (must_be_returned right) e (filter (is_found level left) (db level)) h in
      let (b, start) = In-filter (is_found level left) e (db level) a in (b, ground arith, ret)

  In-scan :
      (level : ℕ) (left right : Bound) (e : Entry D) (entries : List (Entry D))
      → Disjoint entries
      → In e entries
      → starts level left e ≡ true
      → must_be_returned right e ≡ true
      → In e (take_while (must_be_returned right) (filter (is_found level left) entries))
  In-scan level left right e [] d at start ret = elim at [ ]
  In-scan level left right e (f ∷ entries) d (inl same) start ret =
      let here : is_found level left f ≡ true =
        subst (λ g. is_found level left g ≡ true) same
          (ground (arith, ends-Fits level e (subst Fits (sym same) d.0))) in
      let kept : must_be_returned right f ≡ true =
        subst (λ g. must_be_returned right g ≡ true) same ret in
      rw here (rw kept (inl same))
  In-scan level left right e (f ∷ entries) d (inr later) start ret =
      elim (Bool-cases (is_found level left f)) [
        | inr out ↦ rw out (In-scan level left right e entries d.2 later start ret)
        | inl here ↦
            let behind : f.right < e.left = All-In (λ g. f.right < g.left) e entries d.1 later in
            let fits : Fits e = Fits-In e entries d.2 later in
            let kept : must_be_returned right f ≡ true =
              must_be_returned-earlier right f e ret (omega arith) in
            rw here (rw kept (inr (In-scan level left right e entries d.2 later start ret)))
      ]

  -- An entry of the level within both bounds is found.
  pub number_range-In :
      (db : ℕ → List (Entry D)) (level : ℕ) (left right : Bound) (e : Entry D)
      → Disjoint (db level)
      → In e (db level)
      → starts level left e ≡ true
      → must_be_returned right e ≡ true
      → In e (number_range db level left right)
  unfolding number_range
  number_range-In db level left right e d at start ret =
      In-scan level left right e (db level) d at start ret

  -- The last of the entries that were found.
  last_entry :
      (e : Entry D) (found : List (Entry D))
      → (f : Entry D) × In f (e ∷ found) × (f.right ≡ last_right e found)
  unfolding last_right
  last_entry e [] = (e, inl refl, refl)
  last_entry e (f ∷ found) = let (g, at, same) = last_entry f found in (g, inr at, same)

  -- The bounds that were found are those of two entries that were found.
  pub found_bounds-some :
      (found : List (Entry D)) (lf rf : ℕ)
      → found_bounds found ≡ some (lf, rf)
      → (f g : Entry D) × In f found × In g found × (f.left ≡ lf) × (g.right ≡ rf)
  unfolding found_bounds
  found_bounds-some [] lf rf e = cc
  found_bounds-some (f ∷ found) lf rf e =
      let (g, at, same) = last_entry f found in (f, g, inl refl, at, cc, same ∙ (cc))

  pub found_bounds-none :
      (found : List (Entry D)) (e : Entry D) → found_bounds found ≡ none → In e found → ⊥
  unfolding found_bounds
  found_bounds-none [] e h at = at
  found_bounds-none (f ∷ found) e h at = cc

  -- An entry of the level with a number between the bounds that were found is found.
  pub between-In :
      (db : ℕ → List (Entry D)) (level : ℕ) (left right : Bound) (f g e : Entry D) (v : ℕ)
      → Disjoint (db level)
      → In f (number_range db level left right)
      → In g (number_range db level left right)
      → In e (db level)
      → f.left ≤ v
      → v ≤ g.right
      → e.left ≤ v
      → v ≤ e.right
      → In e (number_range db level left right)
  between-In db level left right f g e v d f_at g_at at fv vg ev ve =
      let (f_in, f_start, f_ret) = In-number_range db level left right f f_at in
      let (g_in, g_start, g_ret) = In-number_range db level left right g g_at in
      let f_fits : Fits f = Fits-In f (db level) d f_in in
      let g_fits : Fits g = Fits-In g (db level) d g_in in
      elim (apart e f (db level) d at f_in) [
        | inl same ↦ subst (λ k. In k (number_range db level left right)) (sym same) f_at
        | inr (inl before) ↦ absurd (omega arith)
        | inr (inr after) ↦ elim (apart e g (db level) d at g_in) [
          | inl same ↦ subst (λ k. In k (number_range db level left right)) (sym same) g_at
          | inr (inr past) ↦ absurd (omega arith)
          | inr (inl before) ↦
              number_range-In db level left right e d at
                (starts-later level left f e f_start (omega arith))
                (must_be_returned-earlier right e g g_ret (omega arith))
        ]
      ]
