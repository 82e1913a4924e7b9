-- ===== src/Matches/Find/Greedy.antt =====
-- Which matches are found: at each word of the text those of the first entry all of whose words
-- match there, and the search goes on behind them.
use milli.Base.{
  ℕ, zero, suc, ◌≤◌, List, [], ◌∷◌, ◌++◌, Option, none, some, length, length-append, Option-cases,
  ◌≡◌, refl, sym, subst, ap, ◌∙◌, arith, inl, inr,
}
use milli.QueryTree.{Word}
use milli.QueryTree.Matching.{MatchingWord, Entry}
use milli.QueryTree.Matching.Tokens.{
  Distance, match_word, match_token, match_partial, proceed, proceed_if,
}
use milli.Matches.{TextToken, Match}
use milli.Matches.Find.{
  WordToken, words_positions, match_at, with_ids, compute_partial_match, match_word_token,
  find_matches, compute_matches,
}
use milli.Matches.Find.Order.{match_word_token-Advances}

-- Matched words with their lengths, and the words behind them.
abbrev Taken : Type 0
Taken = List (WordToken × ℕ) × List WordToken

abbrev cons_taken : WordToken × ℕ → Option Taken → Option Taken
cons_taken pair none = none
cons_taken pair (some (pairs, behind)) = some (pair ∷ pairs, behind)

abbrev matched : List ℕ → List (WordToken × ℕ) → Option Taken → Option (List Match × List WordToken)
matched ids before none = none
matched ids before (some (pairs, behind)) = some (with_ids ids (before ++ pairs), behind)

abbrev or_nothing :
    List WordToken → Option (List Match × List WordToken) → List Match × List WordToken
or_nothing words none = ([], words)
or_nothing words (some found) = found

append_assoc :
    {A : Type 0} → (xs : List A) (x : A) (ys : List A) → xs ++ x ∷ [] ++ ys ≡ xs ++ (x ∷ ys)
append_assoc [] x ys = refl
append_assoc (z ∷ xs) x ys = ap (λ k. z ∷ k) (append_assoc xs x ys)

with_ids-append :
    (ids : List ℕ) (potential : List (WordToken × ℕ)) (w : WordToken) (len : ℕ)
    → with_ids ids potential ++ match_at len ids w ∷ [] ≡ with_ids ids (potential ++ (w, len) ∷ [])
with_ids-append ids [] w len = refl
with_ids-append ids ((v, n) ∷ potential) w len =
    ap (λ k. match_at n ids v ∷ k) (with_ids-append ids potential w len)

module _ (eval : MatchingWord → Word → Distance) where
  -- Words that match the words of the text one after the other.
  unfoldable pub take_words : List MatchingWord → List WordToken → Option Taken
  take_words [] words = some ([], words)
  take_words (m ∷ ms) [] = none
  take_words (m ∷ ms) (w ∷ words) = elim (match_word eval m w.token.token) [
    | none ↦ none
    | some len ↦ cons_taken (w, len) (take_words ms words)
  ]

  -- The matches of the first entry that matches here; an entry without words, on which the code
  -- panics, is left out.
  unfoldable pub first_entry : List Entry → List WordToken → Option (List Match × List WordToken)
  unfolding take_words
  first_entry [] words = none
  first_entry (([], ids) ∷ entries) words = first_entry entries words
  first_entry ((m ∷ ms, ids) ∷ entries) words = elim (take_words (m ∷ ms) words) [
    | none ↦ first_entry entries words
    | some (pairs, behind) ↦ some (with_ids ids pairs, behind)
  ]

  -- The matches of a text, from the first word to the last.
  pub data Finds (entries : List Entry) : List WordToken → List Match → Type 0 where
    ended : Finds entries [] []
    taken :
        (w : WordToken) (words behind : List WordToken) (ms ns : List Match)
        → first_entry entries (w ∷ words) ≡ some (ms, behind)
        → Finds entries behind ns
        → Finds entries (w ∷ words) (ms ++ ns)
    skipped :
        (w : WordToken) (words : List WordToken) (ns : List Match)
        → first_entry entries (w ∷ words) ≡ none
        → Finds entries words ns
        → Finds entries (w ∷ words) ns

  module _ (entries : List Entry) where
    matched-cons_taken :
        (ids : List ℕ) (before : List (WordToken × ℕ)) (pair : WordToken × ℕ) (o : Option Taken)
        → matched ids (before ++ pair ∷ []) o ≡ matched ids before (cons_taken pair o)
    matched-cons_taken ids before pair none = refl
    matched-cons_taken ids before pair (some (pairs, behind)) =
        ap (λ k. some (with_ids ids k, behind)) (append_assoc before pair pairs)

    compute_partial_match-take_words :
        (m : MatchingWord) (ms : List MatchingWord) (ids : List ℕ) (before : List (WordToken × ℕ))
        (words : List WordToken)
        → compute_partial_match eval entries (m ∷ ms) ids before words
          ≡ matched ids before (take_words (m ∷ ms) words)
    unfolding compute_partial_match take_words match_partial proceed_if proceed
    compute_partial_match-take_words m ms ids before [] = refl
    compute_partial_match-take_words m [] ids before (w ∷ words) =
        elim (Option-cases (match_word eval m w.token.token)) [
          | inl missed ↦ rw (missed, compute_partial_match, take_words) refl
          | inr (len, hit) ↦
              rw (hit, compute_partial_match, take_words)
                (ap (λ k. some (k, words)) (with_ids-append ids before w len))
        ]
    compute_partial_match-take_words m (v ∷ vs) ids before (w ∷ words) =
        elim (Option-cases (match_word eval m w.token.token)) [
          | inl missed ↦ rw (missed, compute_partial_match, take_words) refl
          | inr (len, hit) ↦
              let more = before ++ (w, len) ∷ [] in
              rw (hit, compute_partial_match, take_words)
                (compute_partial_match-take_words v vs ids more words
                  ∙ matched-cons_taken ids before (w, len) (take_words (v ∷ vs) words))
        ]

    first_entry-skip :
        (m : MatchingWord) (ms : List MatchingWord) (ids : List ℕ) (rest : List Entry)
        (words : List WordToken)
        → take_words (m ∷ ms) words ≡ none
        → first_entry ((m ∷ ms, ids) ∷ rest) words ≡ first_entry rest words
    unfolding first_entry
    first_entry-skip m ms ids rest words e = rw (e, first_entry) refl

    first_entry-take :
        (m : MatchingWord) (ms : List MatchingWord) (ids : List ℕ) (rest : List Entry)
        (words behind : List WordToken) (pairs : List (WordToken × ℕ))
        → take_words (m ∷ ms) words ≡ some (pairs, behind)
        → first_entry ((m ∷ ms, ids) ∷ rest) words ≡ some (with_ids ids pairs, behind)
    unfolding first_entry
    first_entry-take m ms ids rest words behind pairs e = rw (e, first_entry) refl

    -- One round of the loop takes what the first entry that matches gives.
    match_word_token-first_entry :
        (rest : List Entry) (w : WordToken) (words : List WordToken)
        → match_word_token eval entries w words (match_token eval rest w.token.token)
          ≡ or_nothing words (first_entry rest (w ∷ words))
    unfolding match_word_token match_token first_entry take_words match_partial proceed_if proceed
    match_word_token-first_entry [] w words = refl
    match_word_token-first_entry (([], ids) ∷ rest) w words =
        match_word_token-first_entry rest w words
    match_word_token-first_entry ((m ∷ [], ids) ∷ rest) w words =
        elim (Option-cases (match_word eval m w.token.token)) [
          | inl missed ↦
              rw (missed, match_token, first_entry) (match_word_token-first_entry rest w words)
          | inr (len, hit) ↦ rw (hit, match_token, first_entry) refl
        ]
    match_word_token-first_entry ((m ∷ v ∷ vs, ids) ∷ rest) w words =
        elim (Option-cases (match_word eval m w.token.token)) [
          | inl missed ↦
              rw (missed, match_token, first_entry) (match_word_token-first_entry rest w words)
          | inr (len, hit) ↦
              let partial = compute_partial_match-take_words v vs ids ((w, len) ∷ []) words in
              elim (Option-cases (take_words (v ∷ vs) words)) [
                | inl short ↦
                    rw (hit, short, match_token, first_entry)
                      (rw (partial ∙ ap (matched ids ((w, len) ∷ [])) short)
                        (match_word_token-first_entry rest w words))
                | inr ((pairs, behind), all) ↦
                    rw (hit, all, match_token, first_entry)
                      (rw (partial ∙ ap (matched ids ((w, len) ∷ [])) all) refl)
              ]
        ]

    find_matches-Finds :
        (rounds : ℕ) (words : List WordToken)
        → length words ≤ rounds
        → Finds entries words (find_matches eval entries rounds words)
    unfolding find_matches
    find_matches-Finds zero [] h = ended
    find_matches-Finds (suc rounds) [] h = ended
    find_matches-Finds zero (w ∷ words) h = absurd (omega arith)
    find_matches-Finds (suc rounds) (w ∷ words) h =
        let types = match_token eval entries w.token.token in
        let result = match_word_token eval entries w words types in
        let (seen, split, sub) = match_word_token-Advances eval entries w words types in
        let shorter : length result.1 ≤ rounds =
          omega (arith, h, ap length split ∙ length-append seen result.1) in
        round (first_entry entries (w ∷ words)) refl result
          (match_word_token-first_entry entries w words)
          (find_matches-Finds rounds result.1 shorter)
      where
        round :
            (o : Option (List Match × List WordToken))
            → first_entry entries (w ∷ words) ≡ o
            → (result : List Match × List WordToken)
            → result ≡ or_nothing words (first_entry entries (w ∷ words))
            → Finds entries result.1 (find_matches eval entries rounds result.1)
            → Finds entries (w ∷ words) (result.0 ++ find_matches eval entries rounds result.1)
        round none at result e rest =
            let same : ([], words) ≡ result = sym (e ∙ ap (or_nothing words) at) in
            subst
              (λ (k : List Match × List WordToken).
                Finds entries k.1 (find_matches eval entries rounds k.1)
                → Finds entries (w ∷ words) (k.0 ++ find_matches eval entries rounds k.1))
              same (λ more. skipped w words _ at more) rest
        round (some (ms, behind)) at result e rest =
            let same : (ms, behind) ≡ result = sym (e ∙ ap (or_nothing words) at) in
            subst
              (λ (k : List Match × List WordToken).
                Finds entries k.1 (find_matches eval entries rounds k.1)
                → Finds entries (w ∷ words) (k.0 ++ find_matches eval entries rounds k.1))
              same (λ more. taken w words behind ms _ at more) rest

    -- The matches of a text are found from its first word to its last: at a word they are those of
    -- the first entry all of whose words match the words from there on, one with the length of each,
    -- and the search goes on behind these words; at a word where no entry matches there is none.
    pub compute_matches-Finds :
        (tokens : List TextToken)
        → Finds entries (words_positions 0 0 tokens) (compute_matches eval entries tokens)
    unfolding compute_matches
    compute_matches-Finds tokens =
        let words = words_positions 0 0 tokens in
        find_matches-Finds (length words) words (omega arith)
