-- ===== src/Matches/Interval/Fits.antt =====
-- The interval that is found, against the size of the crop.
use milli.Base.{
  ℕ, zero, suc, ◌+◌, ◌-◌, ◌≤◌, ◌<◌, List, [], ◌∷◌, some, All, drop, length, ltb, leb, ◌≡◌, refl,
  sym, ap, subst, ◌∙◌, arith, Bool-cases, inl, inr,
}
use milli.Matches.{Match, get_elem?}
use milli.Matches.Interval.{
  Search, interval, word_at, keep_best, advance, next_interval, intervals, search_start,
  best_search, find_best_match_interval, score_gtb, match_interval_score,
}

-- Word positions grow.
abbrev pub Grows : List Match → Type 0
Grows [] = Unit
Grows (m ∷ ms) = All (λ n. m.word_position < n.word_position) ms × Grows ms

-- An interval of matches, less than the crop apart.
abbrev pub FitsCrop : ℕ → List Match → ℕ → ℕ → Type 0
FitsCrop crop_size matches first last =
    (first ≤ last)
    × (last < length matches)
    × (word_at last matches < word_at first matches + crop_size)

abbrev IsSearch : ℕ → List Match → ℕ → Search → Type 0
IsSearch crop_size matches index s =
    FitsCrop crop_size matches s.best_first s.best_last
    × FitsCrop crop_size matches s.interval_first s.interval_last
    × (suc s.interval_last ≡ index)

keep_best-IsSearch :
    (crop_size : ℕ) (matches : List Match) (index : ℕ) (s : Search)
    → IsSearch crop_size matches index s
    → IsSearch crop_size matches index (keep_best matches s)
unfolding keep_best
keep_best-IsSearch crop_size matches index s h =
    elim (Bool-cases (
      score_gtb (match_interval_score (interval s.interval_first s.interval_last matches))
        s.best_score)) [ inl better ↦ rw better (h.1, h.1, h.2) | inr worse ↦ rw worse h ]

get_elem?-drop : (n j : ℕ) (ms : List Match) → get_elem? (drop n ms) j ≡ get_elem? ms (n + j)
get_elem?-drop zero j ms = subst (λ k. get_elem? ms j ≡ get_elem? ms k) (omega arith) refl
get_elem?-drop (suc n) j [] = refl
get_elem?-drop (suc n) j (m ∷ ms) =
    let one : suc (n + j) ≡ suc n + j = omega arith in
    get_elem?-drop n j ms ∙ subst (λ k. get_elem? ms (n + j) ≡ get_elem? (m ∷ ms) k) one refl

drop-cons :
    (n : ℕ) (ms : List Match) (x : Match) (xs : List Match)
    → drop n ms ≡ x ∷ xs
    → (get_elem? ms n ≡ some x) × (drop (suc n) ms ≡ xs)
drop-cons zero [] x xs e = cc
drop-cons zero (m ∷ ms) x xs e = (cc, cc)
drop-cons (suc n) [] x xs e = cc
drop-cons (suc n) (m ∷ ms) x xs e = drop-cons n ms x xs e

pub get_elem?-length :
    (n : ℕ) (ms : List Match) (x : Match) → get_elem? ms n ≡ some x → n < length ms
get_elem?-length n [] x e = cc
get_elem?-length zero (m ∷ ms) x e = omega arith
get_elem?-length (suc n) (m ∷ ms) x e = omega (arith, get_elem?-length n ms x e)

-- The start advances to a match that is near enough, at most to the next match itself.
advance_lem :
    (crop_size first d : ℕ) (next_match : Match) (ms : List Match)
    → 0 < crop_size
    → get_elem? ms d ≡ some next_match
    → (j : ℕ) × (advance crop_size next_match.word_position first ms ≡ first + j)
      × (j ≤ d)
      × (next_match.word_position < word_at j ms + crop_size)
unfolding advance word_at
advance_lem crop_size first d next_match [] h at = cc
advance_lem crop_size first zero next_match (m ∷ ms) h at =
    elim (Bool-cases (leb crop_size (next_match.word_position - m.word_position))) [
      | inl far ↦
          let same : m ≡ next_match = cc in
          let near : m.word_position ≡ next_match.word_position =
            ap (λ (k : Match). k.word_position) same in
          absurd (ground arith)
      | inr near ↦ rw (near, advance) (0, omega arith, omega arith, ground arith)
    ]
advance_lem crop_size first (suc d) next_match (m ∷ ms) h at =
    elim (Bool-cases (leb crop_size (next_match.word_position - m.word_position))) [
      | inl far ↦
          let (j, same, le, near) = advance_lem crop_size (suc first) d next_match ms h at in
          rw (far, advance) (suc j, same ∙ omega arith, omega arith, near)
      | inr near ↦ rw (near, advance) (0, omega arith, omega arith, ground arith)
    ]

word_at-drop : (n j : ℕ) (ms : List Match) → word_at j (drop n ms) ≡ word_at (n + j) ms
unfolding word_at
word_at-drop n j ms = rw (get_elem?-drop n j ms) refl

pub word_at-some :
    (i : ℕ) (ms : List Match) (m : Match) → get_elem? ms i ≡ some m → word_at i ms ≡ m.word_position
unfolding word_at
word_at-some i ms m e = rw e refl

only_match : (ms : List Match) → 0 < length ms → length ms ≤ 1 → ms ≡ interval 0 0 ms
unfolding interval
only_match [] h k = absurd (omega arith)
only_match (m ∷ []) h k = refl
only_match (m ∷ n ∷ ms) h k = absurd (omega arith)

module _ (crop_size : ℕ) (matches : List Match) (positive : 0 < crop_size) where
  next_interval-IsSearch :
      (index : ℕ) (next_match : Match) (s : Search)
      → get_elem? matches index ≡ some next_match
      → IsSearch crop_size matches index s
      → IsSearch crop_size matches (suc index) (next_interval crop_size matches index next_match s)
  unfolding next_interval
  next_interval-IsSearch index next_match s at h =
      elim (Bool-cases
        (leb crop_size (next_match.word_position - word_at s.interval_first matches))) [
          | inl far ↦
              let kept = keep_best-IsSearch crop_size matches index s h in
              let first = s.interval_first in
              let here : get_elem? (drop first matches) (index - first) ≡ some next_match =
                get_elem?-drop first (index - first) matches
                ∙ subst (λ k. get_elem? matches k ≡ some next_match) (omega (arith, h.1.0, h.2))
                    at in
              let (j, same, le, near) =
                advance_lem crop_size first (index - first) next_match (drop first matches) positive
                  here in
              let moved : word_at j (drop first matches) ≡ word_at (first + j) matches =
                word_at-drop first j matches in
              rw far (
                kept.0,
                subst (λ k. FitsCrop crop_size matches k index) (sym same)
                    (
                      omega (arith, le, h.1.0, h.2),
                      get_elem?-length index matches next_match at,
                      last_word index at
                          (subst (λ k. next_match.word_position < k + crop_size) moved near),
                    ),
                refl,
              )
          | inr near ↦ rw near (
            h.0,
            (
              omega (arith, h.1.0, h.2),
              get_elem?-length index matches next_match at,
              last_word index at (ground arith),
            ),
            refl,
          )
        ]
    where
      last_word :
          {bound : ℕ} (i : ℕ)
          → get_elem? matches i ≡ some next_match
          → next_match.word_position < bound
          → word_at i matches < bound
      last_word {bound} i e lt =
          subst (λ k. k < bound) (sym (word_at-some i matches next_match e)) lt

  intervals-IsSearch :
      (rest : List Match) (index : ℕ) (s : Search)
      → drop index matches ≡ rest
      → IsSearch crop_size matches index s
      → FitsCrop crop_size matches
          (intervals crop_size matches index rest s).best_first
          (intervals crop_size matches index rest s).best_last
        × FitsCrop crop_size matches
            (intervals crop_size matches index rest s).interval_first
            (intervals crop_size matches index rest s).interval_last
  unfolding intervals
  intervals-IsSearch [] index s e h = (h.0, h.1)
  intervals-IsSearch (next_match ∷ rest) index s e h =
      let (at, behind) = drop-cons index matches next_match rest e in
      intervals-IsSearch rest (suc index) (next_interval crop_size matches index next_match s)
        behind (next_interval-IsSearch index next_match s at h)

  best_search-FitsCrop :
      0 < length matches
      → FitsCrop crop_size matches
          (best_search crop_size matches).best_first
          (best_search crop_size matches).best_last
  unfolding best_search search_start
  best_search-FitsCrop some_match =
      let start : IsSearch crop_size matches 1 (search_start matches) =
        ((omega arith, some_match, omega arith), (omega arith, some_match, omega arith), refl) in
      let (best, current) =
        intervals-IsSearch (drop 1 matches) 1 (search_start matches) refl start in
      let s = intervals crop_size matches 1 (drop 1 matches) (search_start matches) in
      (keep_best-IsSearch crop_size matches (suc s.interval_last) s (best, current, refl)).0

  -- For a crop of at least one word and a text with matches: the interval that is found is a run of
  -- the matches with at least one of them, and its last match is less than the crop size of words
  -- behind its first.
  pub find_best_match_interval-FitsCrop :
      0 < length matches
      → (first last : ℕ) × (find_best_match_interval crop_size matches
          ≡ interval first last matches)
        × FitsCrop crop_size matches first last
  unfolding find_best_match_interval
  find_best_match_interval-FitsCrop some_match = elim (Bool-cases (ltb 1 (length matches))) [
    | inl more ↦
        let s = best_search crop_size matches in
        (s.best_first, s.best_last, rw more refl, best_search-FitsCrop some_match)
    | inr one ↦ (
      0,
      0,
      rw one (only_match matches some_match (ground arith)),
      (omega arith, some_match, omega arith),
    )
  ]
