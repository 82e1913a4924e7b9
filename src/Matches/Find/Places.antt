-- ===== src/Matches/Find/Places.antt =====
-- Where the words of a text stand, and the matches among them.
use milli.Base.{
  ℕ, suc, ◌+◌, ◌≤◌, false, List, [], ◌∷◌, ◌++◌, some, All, take, length, if◌then◌else◌, ◌≡◌, refl,
  ap, subst, ◌∙◌, arith, Bool-cases, inl, inr, append_assoc, length-append,
}
use milli.QueryTree.{Word}
use milli.QueryTree.Matching.{MatchingWord, Entry}
use milli.QueryTree.Matching.Tokens.{Distance}
use milli.Matches.{TextToken, is_separator, get_elem?}
use milli.Matches.Find.{WordToken, words_positions, compute_matches}
use milli.Matches.Find.Order.{
  Place, places, word_places, Ascending, Ascending-Sub, All-Sub, find_matches-Sub,
}

-- How many of the tokens are words.
abbrev pub word_count : List TextToken → ℕ
word_count [] = 0
word_count (t ∷ tokens) = (if is_separator t then 0 else 1) + word_count tokens

-- A place of a word: the words before it are counted.
abbrev pub IsWordAt : List TextToken → Place → Type 0
IsWordAt tokens (i, k) =
    (t : TextToken) × (get_elem? tokens i ≡ some t)
    × (is_separator t ≡ false)
    × (word_count (take i tokens) ≡ k)

word_places-above :
    (i k : ℕ) (tokens : List TextToken)
    → All (λ q. (i ≤ q.0) × (k ≤ q.1)) (word_places (words_positions i k tokens))
unfolding words_positions
word_places-above i k [] = tt
word_places-above i k (t ∷ tokens) = elim (Bool-cases (is_separator t)) [
  | inl sep ↦
      rw (sep, words_positions)
        (weaken k (word_places (words_positions (suc i) k tokens)) (omega arith)
          (word_places-above (suc i) k tokens))
  | inr plain ↦
      rw (plain, words_positions)
        (
          (omega arith, omega arith),
          weaken (suc k) (word_places (words_positions (suc i) (suc k) tokens)) (omega arith)
              (word_places-above (suc i) (suc k) tokens),
        )
]
  where
    weaken :
        (l : ℕ) (ps : List Place)
        → k ≤ l
        → All (λ q. (suc i ≤ q.0) × (l ≤ q.1)) ps
        → All (λ q. (i ≤ q.0) × (k ≤ q.1)) ps
    weaken l [] le a = tt
    weaken l (p ∷ ps) le a = ((omega (arith, a.0.0), omega (arith, a.0.1)), weaken l ps le a.1)

words_positions-Ascending :
    (i k : ℕ) (tokens : List TextToken) → Ascending (word_places (words_positions i k tokens))
unfolding words_positions
words_positions-Ascending i k [] = tt
words_positions-Ascending i k (t ∷ tokens) = elim (Bool-cases (is_separator t)) [
  | inl sep ↦ rw (sep, words_positions) (words_positions-Ascending (suc i) k tokens)
  | inr plain ↦
      rw (plain, words_positions)
        (word_places-above (suc i) (suc k) tokens, words_positions-Ascending (suc i) (suc k) tokens)
]

pub word_count-append :
    (front back : List TextToken) → word_count (front ++ back) ≡ word_count front + word_count back
word_count-append [] back = ground arith
word_count-append (t ∷ front) back = omega (arith, word_count-append front back)

get_elem?-front :
    (front back : List TextToken) (t : TextToken)
    → get_elem? (front ++ t ∷ back) (length front) ≡ some t
get_elem?-front [] back t = refl
get_elem?-front (s ∷ front) back t = get_elem?-front front back t

take-front : (front back : List TextToken) → take (length front) (front ++ back) ≡ front
take-front [] back = refl
take-front (t ∷ front) back = ap (λ k. t ∷ k) (take-front front back)

words_positions-IsWordAt :
    (front back : List TextToken)
    → All
        (IsWordAt (front ++ back))
        (word_places (words_positions (length front) (word_count front) back))
unfolding words_positions
words_positions-IsWordAt front [] = tt
words_positions-IsWordAt front (t ∷ back) = elim (Bool-cases (is_separator t)) [
  | inl sep ↦
      let count : word_count (front ++ t ∷ []) ≡ word_count front =
        word_count-append front (t ∷ []) ∙ ground arith in
      rw (sep, words_positions)
        (rest (words_positions-IsWordAt (front ++ t ∷ []) back) (word_count front) count)
  | inr plain ↦
      let count : word_count (front ++ t ∷ []) ≡ suc (word_count front) =
        word_count-append front (t ∷ []) ∙ ground arith in
      rw (plain, words_positions)
        (
          (t, get_elem?-front front back t, plain, ap word_count (take-front front (t ∷ back))),
          rest (words_positions-IsWordAt (front ++ t ∷ []) back) (suc (word_count front)) count,
        )
]
  where
    rest :
        All (IsWordAt ((front ++ t ∷ []) ++ back)) (
          word_places
            (words_positions (length (front ++ t ∷ [])) (word_count (front ++ t ∷ [])) back))
        → (k : ℕ) → word_count (front ++ t ∷ []) ≡ k
        → All
            (IsWordAt (front ++ t ∷ back))
            (word_places (words_positions (suc (length front)) k back))
    rest ih k count =
        let one : length (front ++ t ∷ []) ≡ suc (length front) =
          length-append front (t ∷ []) ∙ omega arith in
        subst
          (λ j.
            All (IsWordAt (front ++ t ∷ back))
              (word_places (words_positions (suc (length front)) j back)))
          count
          (subst
            (λ n.
              All (IsWordAt (front ++ t ∷ back))
                (word_places (words_positions n (word_count (front ++ t ∷ [])) back)))
            one
            (subst
              (λ ts. All (IsWordAt ts) (
                word_places
                  (words_positions (length (front ++ t ∷ [])) (word_count (front ++ t ∷ [])) back)))
              (append_assoc front (t ∷ []) back) ih))

-- Each word stands at its token position.
pub words_positions-tokens :
    (k : ℕ) (front back : List TextToken)
    → All
        (λ (w : WordToken). get_elem? (front ++ back) w.token_position ≡ some w.token)
        (words_positions (length front) k back)
unfolding words_positions
words_positions-tokens k front [] = tt
words_positions-tokens k front (t ∷ back) = elim (Bool-cases (is_separator t)) [
  | inl sep ↦ rw (sep, words_positions) (shift k (words_positions-tokens k (front ++ t ∷ []) back))
  | inr plain ↦
      rw (plain, words_positions)
        (
          get_elem?-front front back t,
          shift (suc k) (words_positions-tokens (suc k) (front ++ t ∷ []) back),
        )
]
  where
    shift :
        (l : ℕ)
        → All
            (λ (w : WordToken).
              get_elem? ((front ++ t ∷ []) ++ back) w.token_position ≡ some w.token)
            (words_positions (length (front ++ t ∷ [])) l back)
        → All
            (λ (w : WordToken). get_elem? (front ++ t ∷ back) w.token_position ≡ some w.token)
            (words_positions (suc (length front)) l back)
    shift l ih =
        let one : length (front ++ t ∷ []) ≡ suc (length front) =
          length-append front (t ∷ []) ∙ omega arith in
        subst
          (λ n.
            All (λ (w : WordToken). get_elem? (front ++ t ∷ back) w.token_position ≡ some w.token)
              (words_positions n l back))
          one
          (subst
            (λ ts.
              All (λ (w : WordToken). get_elem? ts w.token_position ≡ some w.token)
                (words_positions (length (front ++ t ∷ [])) l back))
            (append_assoc front (t ∷ []) back) ih)

module _ (eval : MatchingWord → Word → Distance) (matching_words : List Entry) where
  -- The matches stand at words of the text, each further than the one before, and the word position
  -- of a match is the number of words before it.
  pub compute_matches-Ascending :
      (tokens : List TextToken)
      → Ascending (places (compute_matches eval matching_words tokens))
        × All (IsWordAt tokens) (places (compute_matches eval matching_words tokens))
  unfolding compute_matches
  compute_matches-Ascending tokens =
      let words = words_positions 0 0 tokens in
      let sub = find_matches-Sub eval matching_words (length words) words in
      let found = places (compute_matches eval matching_words tokens) in
      (
        Ascending-Sub found (word_places words) sub (words_positions-Ascending 0 0 tokens),
        All-Sub (IsWordAt tokens) found (word_places words) sub
            (words_positions-IsWordAt [] tokens),
      )
