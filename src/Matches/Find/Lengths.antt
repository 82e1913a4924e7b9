-- ===== src/Matches/Find/Lengths.antt =====
-- The lengths of the matches.
use milli.Base.{
  ℕ, zero, suc, List, [], ◌∷◌, ◌++◌, Option, none, some, All, length, ◌≡◌, refl, sym, subst, ◌∙◌,
  Option-cases, inl, inr, All-append,
}
use milli.QueryTree.{Word}
use milli.QueryTree.Matching.{MatchingWord, Entry}
use milli.QueryTree.Matching.Tokens.{
  Token, Distance, MatchType, full, partial, match_word, proceed, proceed_if, match_partial,
  match_token, match_word-original_length,
}
use milli.Matches.{TextToken, Match, get_elem?}
use milli.Matches.Find.{
  WordToken, words_positions, match_at, with_ids, compute_partial_match, complete, match_word_token,
  find_matches, compute_matches,
}
use milli.Matches.Find.Order.{match_word_token-Advances}
use milli.Matches.Find.Places.{words_positions-tokens}

-- A length that the token gives.
abbrev pub IsLength : Token → ℕ → Type 0
IsLength token len = (n : ℕ) × (len ≡ token.original_length n)

-- The length of a match is one that its token gives.
abbrev pub HasLength : List TextToken → Match → Type 0
HasLength tokens m =
    (t : TextToken) × (get_elem? tokens m.token_position ≡ some t) × IsLength t.token m.match_len

abbrev IsTypeOf : Token → MatchType → Type 0
IsTypeOf token (full len ids) = IsLength token len
IsTypeOf token (partial words ids len) = IsLength token len

module _ (eval : MatchingWord → Word → Distance) (matching_words : List Entry) where
  proceed-IsTypeOf :
      (rest : List MatchingWord) (ids : List ℕ) (token : Token) (len : ℕ)
      → IsLength token len
      → IsTypeOf token (proceed eval rest ids len)
  unfolding proceed
  proceed-IsTypeOf [] ids token len h = h
  proceed-IsTypeOf (w ∷ rest) ids token len h = h

  match_partial-IsTypeOf :
      (words : List MatchingWord) (ids : List ℕ) (token : Token) (found : MatchType)
      → match_partial eval words ids token ≡ some found
      → IsTypeOf token found
  unfolding match_partial proceed_if
  match_partial-IsTypeOf [] ids token found e = cc
  match_partial-IsTypeOf (w ∷ rest) ids token found e =
      elim (Option-cases (match_word eval w token)) [
        | inl missed ↦
            let over : match_partial eval (w ∷ rest) ids token ≡ none = rw missed refl in cc
        | inr (len, h) ↦
            let made : match_partial eval (w ∷ rest) ids token ≡ some (proceed eval rest ids len) =
              rw h refl in
            let same : proceed eval rest ids len ≡ found = cc in
            subst (IsTypeOf token) same
              (proceed-IsTypeOf rest ids token len (match_word-original_length eval w token len h))
      ]

  match_token-IsTypeOf :
      (entries : List Entry) (token : Token) → All (IsTypeOf token) (match_token eval entries token)
  unfolding match_token
  match_token-IsTypeOf [] token = tt
  match_token-IsTypeOf ((words, ids) ∷ entries) token =
      elim (Option-cases (match_partial eval words ids token)) [
        | inl missed ↦ rw (missed, match_token) (match_token-IsTypeOf entries token)
        | inr (found, h) ↦
            rw (h, match_token)
              (match_partial-IsTypeOf words ids token found h, match_token-IsTypeOf entries token)
      ]

  module _ (tokens : List TextToken) where
    abbrev IsHere : WordToken → Type 0
    IsHere w = get_elem? tokens w.token_position ≡ some w.token

    abbrev IsPotential : WordToken × ℕ → Type 0
    IsPotential (w, len) = IsHere w × IsLength w.token.token len

    with_ids-HasLength :
        (ids : List ℕ) (potential : List (WordToken × ℕ))
        → All IsPotential potential
        → All (HasLength tokens) (with_ids ids potential)
    with_ids-HasLength ids [] a = tt
    with_ids-HasLength ids ((w, len) ∷ potential) a =
        ((w.token, a.0.0, a.0.1), with_ids-HasLength ids potential a.1)

    compute_partial_match-HasLength :
        (rest : List MatchingWord) (ids : List ℕ) (potential : List (WordToken × ℕ))
        (words : List WordToken) (result : List Match × List WordToken)
        → All IsPotential potential
        → All IsHere words
        → compute_partial_match eval matching_words rest ids potential words ≡ some result
        → All (HasLength tokens) result.0
    unfolding compute_partial_match
    compute_partial_match-HasLength rest ids potential [] result a b e = cc
    compute_partial_match-HasLength rest ids potential (w ∷ words) result a b e =
        step
          (λ rest' ids' potential' c h.
            compute_partial_match-HasLength rest' ids' potential' words result c b.1 h)
          (match_partial eval rest ids w.token.token) refl
      where
        step :
            ((rest' : List MatchingWord) (ids' : List ℕ) (potential' : List (WordToken × ℕ))
              → All IsPotential potential'
              → compute_partial_match eval matching_words rest' ids' potential' words ≡ some result
              → All (HasLength tokens) result.0)
            → (o : Option MatchType) → match_partial eval rest ids w.token.token ≡ o
            → All (HasLength tokens) result.0
        step ih none h =
            let over : compute_partial_match eval matching_words rest ids potential (w ∷ words)
                ≡ none =
              rw (h, compute_partial_match) refl in
            cc
        step ih (some (partial rest' ids' len)) h =
            let more : compute_partial_match eval matching_words rest ids potential (w ∷ words)
                ≡ compute_partial_match eval matching_words rest' ids' (potential ++ (w, len) ∷ [])
                    words =
              rw (h, compute_partial_match) refl in
            ih rest' ids' (potential ++ (w, len) ∷ [])
              (All-append IsPotential potential ((w, len) ∷ []) a (
                (b.0, match_partial-IsTypeOf rest ids w.token.token (partial rest' ids' len) h),
                tt,
              ))
              (sym more ∙ e)
        step ih (some (full len ids')) h =
            let done : compute_partial_match eval matching_words rest ids potential (w ∷ words)
                ≡ some (with_ids ids' potential ++ match_at len ids' w ∷ [], words) =
              rw (h, compute_partial_match) refl in
            let same : (with_ids ids' potential ++ match_at len ids' w ∷ [], words) ≡ result = cc in
            subst (λ (k : List Match × List WordToken). All (HasLength tokens) k.0) same
              (All-append (HasLength tokens) (with_ids ids' potential) (match_at len ids' w ∷ [])
                (with_ids-HasLength ids' potential a)
                (
                  (w.token, b.0, match_partial-IsTypeOf rest ids w.token.token (full len ids') h),
                  tt,
                ))

    complete-HasLength :
        (o : Option (List Match × List WordToken)) (other : List Match × List WordToken)
        → ((result : List Match × List WordToken)
            → o ≡ some result
            → All (HasLength tokens) result.0)
        → All (HasLength tokens) other.0
        → All (HasLength tokens) (complete eval matching_words o other).0
    complete-HasLength none other h k = k
    complete-HasLength (some found) other h k = h found refl

    match_word_token-HasLength :
        (w : WordToken) (words : List WordToken) (types : List MatchType)
        → IsHere w
        → All IsHere words
        → All (IsTypeOf w.token.token) types
        → All (HasLength tokens) (match_word_token eval matching_words w words types).0
    unfolding match_word_token
    match_word_token-HasLength w words [] here rest a = tt
    match_word_token-HasLength w words (full len ids ∷ types) here rest a =
        ((w.token, here, a.0), tt)
    match_word_token-HasLength w words (partial more ids len ∷ types) here rest a =
        complete-HasLength
          (compute_partial_match eval matching_words more ids ((w, len) ∷ []) words)
          (match_word_token eval matching_words w words types)
          (λ result e.
            compute_partial_match-HasLength more ids ((w, len) ∷ []) words result ((here, a.0), tt)
              rest e)
          (match_word_token-HasLength w words types here rest a.1)

    All-behind : (seen behind : List WordToken) → All IsHere (seen ++ behind) → All IsHere behind
    All-behind [] behind a = a
    All-behind (w ∷ seen) behind a = All-behind seen behind a.1

    find_matches-HasLength :
        (rounds : ℕ) (words : List WordToken)
        → All IsHere words
        → All (HasLength tokens) (find_matches eval matching_words rounds words)
    unfolding find_matches
    find_matches-HasLength zero words a = tt
    find_matches-HasLength (suc rounds) [] a = tt
    find_matches-HasLength (suc rounds) (w ∷ words) a =
        let types = match_token eval matching_words w.token.token in
        let result = match_word_token eval matching_words w words types in
        let (seen, split, sub) = match_word_token-Advances eval matching_words w words types in
        All-append (HasLength tokens) result.0 (find_matches eval matching_words rounds result.1)
          (match_word_token-HasLength w words types a.0 a.1
            (match_token-IsTypeOf matching_words w.token.token))
          (find_matches-HasLength rounds result.1
            (All-behind seen result.1 (subst (All IsHere) split a.1)))

    pub compute_matches-HasLength :
        All (HasLength tokens) (compute_matches eval matching_words tokens)
    unfolding compute_matches
    compute_matches-HasLength =
        let words = words_positions 0 0 tokens in
        find_matches-HasLength (length words) words (words_positions-tokens 0 [] tokens)
