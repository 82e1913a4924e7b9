-- ===== src/Matches/Crop/Best.antt =====
-- The crop around the best interval of the matches of a text.
use milli.Base.{
  ℕ, zero, suc, ◌+◌, ◌-◌, ◌≤◌, ◌<◌, List, [], ◌∷◌, some, All, take, drop, length, ◌≡◌, refl, ap,
  subst, arith,
}
use milli.QueryTree.{Word}
use milli.QueryTree.Matching.{MatchingWord, Entry}
use milli.QueryTree.Matching.Tokens.{Distance}
use milli.Matches.{TextToken, Match, get_elem?}
use milli.Matches.Find.{compute_matches}
use milli.Matches.Find.Order.{Place, place, places, Ascending}
use milli.Matches.Find.Places.{IsWordAt, compute_matches-Ascending}
use milli.Matches.Interval.{interval, find_best_match_interval}
use milli.Matches.Interval.Fits.{FitsCrop, word_at-some, find_best_match_interval-FitsCrop}
use milli.Matches.Crop.{first_position, last_position, crop_bounds}
use milli.Matches.Crop.Words.{IsSpan, IsCrop, crop_bounds-IsSpan}

get_elem?-some : (n : ℕ) (ms : List Match) → n < length ms → (m : Match) × (get_elem? ms n ≡ some m)
get_elem?-some n [] h = absurd (omega arith)
get_elem?-some zero (m ∷ ms) h = (m, refl)
get_elem?-some (suc n) (m ∷ ms) h = get_elem?-some n ms (omega arith)

first-interval :
    (f : Match → ℕ) (first k : ℕ) (ms : List Match) (m : Match)
    → get_elem? ms first ≡ some m
    → first_position f (take (suc k) (drop first ms)) ≡ f m
first-interval f first k [] m e = cc
first-interval f zero k (x ∷ ms) m e = ap f (cc)
first-interval f (suc first) k (x ∷ ms) m e = first-interval f first k ms m e

last-take :
    (f : Match → ℕ) (k : ℕ) (ms : List Match) (m : Match)
    → get_elem? ms k ≡ some m
    → last_position f (take (suc k) ms) ≡ f m
last-take f k [] m e = cc
last-take f zero (x ∷ ms) m e = ap f (cc)
last-take f (suc k) (x ∷ []) m e = cc
last-take f (suc k) (x ∷ y ∷ ms) m e = last-take f k (y ∷ ms) m e

last-interval :
    (f : Match → ℕ) (first k : ℕ) (ms : List Match) (m : Match)
    → get_elem? ms (first + k) ≡ some m
    → last_position f (take (suc k) (drop first ms)) ≡ f m
last-interval f zero k ms m e =
    last-take f k ms m (subst (λ n. get_elem? ms n ≡ some m) (omega arith) e)
last-interval f (suc first) k [] m e = cc
last-interval f (suc first) k (x ∷ ms) m e =
    let one : suc first + k ≡ suc (first + k) = omega arith in
    last-interval f first k ms m (subst (λ n. get_elem? (x ∷ ms) n ≡ some m) one e)

All-place :
    (P : Place → Type 0) (n : ℕ) (ms : List Match) (m : Match)
    → get_elem? ms n ≡ some m
    → All P (places ms)
    → P (place m)
All-place P n [] m e a = cc
All-place P zero (x ∷ ms) m e a = let same : x ≡ m = cc in subst (λ k. P (place k)) same a.0
All-place P (suc n) (x ∷ ms) m e a = All-place P n ms m e a.1

-- A later match stands no earlier.
Ascending-le :
    (a b : ℕ) (ms : List Match) (m n : Match)
    → a ≤ b
    → get_elem? ms a ≡ some m
    → get_elem? ms b ≡ some n
    → Ascending (places ms)
    → m.token_position ≤ n.token_position
Ascending-le a b [] m n le e h asc = cc
Ascending-le zero zero (x ∷ ms) m n le e h asc =
    let same : m ≡ n = cc in
    subst (λ (k : Match). m.token_position ≤ k.token_position) same (omega arith)
Ascending-le zero (suc b) (x ∷ ms) m n le e h asc =
    let same : x ≡ m = cc in
    let later : x.token_position < n.token_position =
      (All-place (λ q. (x.token_position < q.0) × (x.word_position < q.1)) b ms n h asc.0).0 in
    subst (λ (k : Match). k.token_position ≤ n.token_position) same (omega arith)
Ascending-le (suc a) zero (x ∷ ms) m n le e h asc = absurd (omega arith)
Ascending-le (suc a) (suc b) (x ∷ ms) m n le e h asc =
    Ascending-le a b ms m n (omega arith) e h asc.1

-- An interval of matches that fits the crop spans as many words.
interval-IsSpan :
    (crop_size first last : ℕ) (tokens : List TextToken) (ms : List Match)
    → Ascending (places ms)
    → All (IsWordAt tokens) (places ms)
    → FitsCrop crop_size ms first last
    → IsSpan crop_size tokens
        (first_position (λ m. m.token_position) (interval first last ms))
        (last_position (λ m. m.token_position) (interval first last ms))
        (first_position (λ m. m.word_position) (interval first last ms))
        (last_position (λ m. m.word_position) (interval first last ms))
unfolding interval
interval-IsSpan crop_size first last tokens ms asc words (le, bound, near) =
    let (m, m_at) = get_elem?-some first ms (omega arith) in
    let (n, n_at) = get_elem?-some last ms bound in
    let k = last - first in
    let whole : suc last - first ≡ suc k = omega arith in
    let n_at' : get_elem? ms (first + k) ≡ some n =
      let e : last ≡ first + k = omega arith in subst (λ i. get_elem? ms i ≡ some n) e n_at in
    let (t, t_at, t_word, t_count) = All-place (IsWordAt tokens) first ms m m_at words in
    let (u, u_at, u_word, u_count) = All-place (IsWordAt tokens) last ms n n_at words in
    let i = first-interval (λ m. m.token_position) first k ms m m_at in
    let j = last-interval (λ m. m.token_position) first k ms n n_at' in
    let p = first-interval (λ m. m.word_position) first k ms m m_at in
    let q = last-interval (λ m. m.word_position) first k ms n n_at' in
    rw (whole, i, j, p, q)
      (
        Ascending-le first last ms m n le m_at n_at asc,
        t_count,
        u_count,
        omega (arith, near, word_at-some first ms m m_at, word_at-some last ms n n_at),
      )

module _ (eval : MatchingWord → Word → Distance) (matching_words : List Entry) where
  best-IsSpan :
      (crop_size : ℕ) (tokens : List TextToken) (ms : List Match)
      → 0 < crop_size
      → Ascending (places ms)
      → All (IsWordAt tokens) (places ms)
      → IsSpan crop_size tokens
          (first_position (λ m. m.token_position) (find_best_match_interval crop_size ms))
          (last_position (λ m. m.token_position) (find_best_match_interval crop_size ms))
          (first_position (λ m. m.word_position) (find_best_match_interval crop_size ms))
          (last_position (λ m. m.word_position) (find_best_match_interval crop_size ms))
  unfolding find_best_match_interval
  best-IsSpan crop_size tokens [] h asc words = (omega arith, refl, refl, omega arith)
  best-IsSpan crop_size tokens (m ∷ ms) h asc words =
      let (first, last, same, fits) =
        find_best_match_interval-FitsCrop crop_size (m ∷ ms) h (omega arith) in
      rw same (interval-IsSpan crop_size first last tokens (m ∷ ms) asc words fits)

  -- The bounds of a crop of at least one word, around the best matches of a text, lie between tokens:
  -- the tokens between them have exactly as many words as the crop asks for, or they are all tokens of
  -- the text and have no more.
  pub crop_bounds-IsCrop :
      (text_len crop_size : ℕ) (tokens : List TextToken)
      → 0 < crop_size
      → IsCrop text_len crop_size tokens (
          crop_bounds text_len tokens
            (find_best_match_interval crop_size (compute_matches eval matching_words tokens))
            crop_size)
  crop_bounds-IsCrop text_len crop_size tokens h =
      let (asc, words) = compute_matches-Ascending eval matching_words tokens in
      crop_bounds-IsSpan text_len crop_size tokens
        (find_best_match_interval crop_size (compute_matches eval matching_words tokens))
        (best-IsSpan crop_size tokens (compute_matches eval matching_words tokens) h asc words)
