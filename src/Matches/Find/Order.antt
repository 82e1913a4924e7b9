-- ===== src/Matches/Find/Order.antt =====
-- The matches of a text among its words.
use milli.Base.{
  ℕ, zero, suc, ◌<◌, List, [], ◌∷◌, ◌++◌, Option, none, some, All, ◌≡◌, refl, sym, ap, subst, ◌∙◌,
  ◌⊎◌, inl, inr, append_assoc,
}
use milli.QueryTree.Matching.{MatchingWord, Entry}
use milli.QueryTree.{Word}
use milli.QueryTree.Matching.Tokens.{Distance, MatchType, full, partial, match_token, match_partial}
use milli.Matches.{Match}
use milli.Matches.Find.{
  WordToken, match_at, with_ids, compute_partial_match, complete, match_word_token, find_matches,
}

abbrev pub Place : Type 0
Place = ℕ × ℕ

-- The token position and the word position.
abbrev pub place : Match → Place
place m = (m.token_position, m.word_position)

abbrev pub word_place : WordToken → Place
word_place w = (w.token_position, w.word_position)

abbrev pub places : List Match → List Place
places [] = []
places (m ∷ ms) = place m ∷ places ms

abbrev pub word_places : List WordToken → List Place
word_places [] = []
word_places (w ∷ ws) = word_place w ∷ word_places ws

abbrev potential_places : List (WordToken × ℕ) → List Place
potential_places [] = []
potential_places ((w, match_len) ∷ potential) = word_place w ∷ potential_places potential

-- The first list leaves out items of the second.
abbrev pub Sub : List Place → List Place → Type 0
Sub [] ys = Unit
Sub (x ∷ xs) [] = ⊥
Sub (x ∷ xs) (y ∷ ys) = ((x ≡ y) × Sub xs ys) ⊎ Sub (x ∷ xs) ys

Sub-refl : (xs : List Place) → Sub xs xs
Sub-refl [] = tt
Sub-refl (x ∷ xs) = inl (refl, Sub-refl xs)

Sub-behind : (xs front back : List Place) → Sub xs back → Sub xs (front ++ back)
Sub-behind [] front back h = tt
Sub-behind (x ∷ xs) [] back h = h
Sub-behind (x ∷ xs) (y ∷ front) back h = inr (Sub-behind (x ∷ xs) front back h)

Sub-append :
    (xs ys back rest : List Place) → Sub xs ys → Sub back rest → Sub (xs ++ back) (ys ++ rest)
Sub-append [] ys back rest h k = Sub-behind back ys rest k
Sub-append (x ∷ xs) [] back rest h k = absurd h
Sub-append (x ∷ xs) (y ∷ ys) back rest (inl (same, h)) k =
    inl (same, Sub-append xs ys back rest h k)
Sub-append (x ∷ xs) (y ∷ ys) back rest (inr h) k = inr (Sub-append (x ∷ xs) ys back rest h k)

places-append : (xs ys : List Match) → places (xs ++ ys) ≡ places xs ++ places ys
places-append [] ys = refl
places-append (x ∷ xs) ys = ap (λ k. place x ∷ k) (places-append xs ys)

word_places-append :
    (xs ys : List WordToken) → word_places (xs ++ ys) ≡ word_places xs ++ word_places ys
word_places-append [] ys = refl
word_places-append (x ∷ xs) ys = ap (λ k. word_place x ∷ k) (word_places-append xs ys)

potential_places-append :
    (xs ys : List (WordToken × ℕ))
    → potential_places (xs ++ ys) ≡ potential_places xs ++ potential_places ys
potential_places-append [] ys = refl
potential_places-append ((w, n) ∷ xs) ys =
    ap (λ k. word_place w ∷ k) (potential_places-append xs ys)

places-with_ids :
    (ids : List ℕ) (xs : List (WordToken × ℕ)) → places (with_ids ids xs) ≡ potential_places xs
places-with_ids ids [] = refl
places-with_ids ids ((w, n) ∷ xs) = ap (λ k. word_place w ∷ k) (places-with_ids ids xs)

module _ (eval : MatchingWord → Word → Distance) (matching_words : List Entry) where
  -- A completed match takes the words that were seen, one after the other.
  abbrev Takes : List Place → List WordToken → List Match × List WordToken → Type 0
  Takes before words (found, behind) =
      (seen : List WordToken) × (words ≡ seen ++ behind)
      × (places found ≡ before ++ word_places seen)

  compute_partial_match-Takes :
      (rest : List MatchingWord) (ids : List ℕ) (potential : List (WordToken × ℕ))
      (words : List WordToken) (result : List Match × List WordToken)
      → compute_partial_match eval matching_words rest ids potential words ≡ some result
      → Takes (potential_places potential) words result
  unfolding compute_partial_match
  compute_partial_match-Takes rest ids potential [] result e = cc
  compute_partial_match-Takes rest ids potential (w ∷ words) result e =
      step
        (λ rest' ids' potential' h.
          compute_partial_match-Takes rest' ids' potential' words result h)
        (match_partial eval rest ids w.token.token) refl
    where
      step :
          ((rest' : List MatchingWord) (ids' : List ℕ) (potential' : List (WordToken × ℕ))
            → compute_partial_match eval matching_words rest' ids' potential' words ≡ some result
            → Takes (potential_places potential') words result)
          → (o : Option MatchType) → match_partial eval rest ids w.token.token ≡ o
          → Takes (potential_places potential) (w ∷ words) result
      step ih none h =
          let over : compute_partial_match eval matching_words rest ids potential (w ∷ words)
              ≡ none =
            rw (h, compute_partial_match) refl in
          cc
      step ih (some (partial rest' ids' char_len)) h =
          let more : compute_partial_match eval matching_words rest ids potential (w ∷ words)
              ≡ compute_partial_match eval matching_words rest' ids'
                  (potential ++ (w, char_len) ∷ []) words =
            rw (h, compute_partial_match) refl in
          let (seen, split, found) =
            ih rest' ids' (potential ++ (w, char_len) ∷ []) (sym more ∙ e) in
          (
            w ∷ seen,
            ap (λ k. w ∷ k) split,
            found
                ∙ ap (λ k. k ++ word_places seen)
                    (potential_places-append potential ((w, char_len) ∷ []))
                ∙ append_assoc (potential_places potential) (word_place w ∷ []) (word_places seen),
          )
      step ih (some (full char_len ids')) h =
          let done : compute_partial_match eval matching_words rest ids potential (w ∷ words)
              ≡ some (with_ids ids' potential ++ match_at char_len ids' w ∷ [], words) =
            rw (h, compute_partial_match) refl in
          let same : (with_ids ids' potential ++ match_at char_len ids' w ∷ [], words) ≡ result =
            cc in
          subst (Takes (potential_places potential) (w ∷ words)) same (
            w ∷ [],
            refl,
            places-append (with_ids ids' potential) (match_at char_len ids' w ∷ [])
                ∙ ap (λ k. k ++ word_place w ∷ []) (places-with_ids ids' potential),
          )

  -- The matches of one word, and of those that complete it, are among the words that were taken.
  abbrev pub Advances : WordToken → List WordToken → List Match × List WordToken → Type 0
  Advances w words (found, behind) =
      (seen : List WordToken) × (words ≡ seen ++ behind)
      × Sub (places found) (word_place w ∷ word_places seen)

  Advances-complete :
      (w : WordToken) (words : List WordToken) (o : Option (List Match × List WordToken))
      (other : List Match × List WordToken)
      → ((result : List Match × List WordToken)
          → o ≡ some result
          → Takes (word_place w ∷ []) words result)
      → Advances w words other
      → Advances w words (complete eval matching_words o other)
  Advances-complete w words none other h k = k
  Advances-complete w words (some found) other h k =
      let (seen, split, same) = h found refl in
      (
        seen,
        split,
        subst (λ xs. Sub xs (word_place w ∷ word_places seen)) (sym same)
            (Sub-refl (word_place w ∷ word_places seen)),
      )

  pub match_word_token-Advances :
      (w : WordToken) (words : List WordToken) (types : List MatchType)
      → Advances w words (match_word_token eval matching_words w words types)
  unfolding match_word_token
  match_word_token-Advances w words [] = ([], refl, tt)
  match_word_token-Advances w words (full char_len ids ∷ types) = ([], refl, inl (refl, tt))
  match_word_token-Advances w words (partial rest ids char_len ∷ types) =
      Advances-complete w words
        (compute_partial_match eval matching_words rest ids ((w, char_len) ∷ []) words)
        (match_word_token eval matching_words w words types)
        (compute_partial_match-Takes rest ids ((w, char_len) ∷ []) words)
        (match_word_token-Advances w words types)

  pub find_matches-Sub :
      (rounds : ℕ) (words : List WordToken)
      → Sub (places (find_matches eval matching_words rounds words)) (word_places words)
  unfolding find_matches
  find_matches-Sub zero words = tt
  find_matches-Sub (suc rounds) [] = tt
  find_matches-Sub (suc rounds) (w ∷ words) =
      let types = match_token eval matching_words w.token.token in
      let result = match_word_token eval matching_words w words types in
      let (seen, split, sub) = match_word_token-Advances w words types in
      let rest = find_matches eval matching_words rounds result.1 in
      subst (λ k. Sub k (word_place w ∷ word_places words)) (sym (places-append result.0 rest))
        (subst (λ k. Sub (places result.0 ++ places rest) (word_place w ∷ k))
          (sym (ap word_places split ∙ word_places-append seen result.1))
          (Sub-append (places result.0) (word_place w ∷ word_places seen) (places rest)
            (word_places result.1) sub (find_matches-Sub rounds result.1)))

-- Places that follow one another.
abbrev pub Ascending : List Place → Type 0
Ascending [] = Unit
Ascending (p ∷ ps) = All (λ q. (p.0 < q.0) × (p.1 < q.1)) ps × Ascending ps

pub All-Sub : (P : Place → Type 0) (xs ys : List Place) → Sub xs ys → All P ys → All P xs
All-Sub P [] ys h a = tt
All-Sub P (x ∷ xs) [] h a = absurd h
All-Sub P (x ∷ xs) (y ∷ ys) (inl (same, h)) a = (subst P (sym same) a.0, All-Sub P xs ys h a.1)
All-Sub P (x ∷ xs) (y ∷ ys) (inr h) a = All-Sub P (x ∷ xs) ys h a.1

pub Ascending-Sub : (xs ys : List Place) → Sub xs ys → Ascending ys → Ascending xs
Ascending-Sub [] ys h a = tt
Ascending-Sub (x ∷ xs) [] h a = absurd h
Ascending-Sub (x ∷ xs) (y ∷ ys) (inl (same, h)) a = (
  subst (λ (k : Place). All (λ q. (k.0 < q.0) × (k.1 < q.1)) xs) (sym same)
      (All-Sub (λ q. (y.0 < q.0) × (y.1 < q.1)) xs ys h a.0),
  Ascending-Sub xs ys h a.1,
)
Ascending-Sub (x ∷ xs) (y ∷ ys) (inr h) a = Ascending-Sub (x ∷ xs) ys h a.1
