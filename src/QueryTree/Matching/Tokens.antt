-- ===== src/QueryTree/Matching/Tokens.antt =====
-- Matching one token after the other (milli/src/search/matches/matching_words.rs): `match_token` of
-- a word, of the list of entries and of a partial match, and `bytes_to_highlight`.
pub mod Highlight
use milli.Base.{
  ℕ, zero, suc, Bool, true, false, ◌&&◌, ◌≡◌, refl, Option-cases, inl, inr, List, [], ◌∷◌, Option,
  none, some, length, ltb, leb, if◌then◌else◌,
}
use milli.QueryTree.{Word}
use milli.QueryTree.Matching.{MatchingWord, Entry}
use Highlight.{bytes_to_highlight, byte_len}

-- A token of the tokenizer: its lemma, and the first part of `original_lengths` at a number of bytes.
pub record Token : Type 0 where
  pub lemma : Word
  pub original_length : ℕ → ℕ

-- `Distance` of the automaton's library.
pub data Distance : Type 0 where
  exact_distance : ℕ → Distance
  at_least : ℕ → Distance

pub data MatchType : Type 0 where
  full : ℕ → List ℕ → MatchType
  partial : List MatchingWord → List ℕ → ℕ → MatchType

-- `eval` is the automaton of a word on a lemma.
module _ (eval : MatchingWord → Word → Distance) where
  matched_length : MatchingWord → Token → ℕ
  matched_length w token =
      token.original_length
        (if w.prefix then bytes_to_highlight token.lemma w.word else byte_len token.lemma)

  within : Distance → MatchingWord → Token → Option ℕ
  unfolding matched_length
  within (exact_distance t) w token = if leb t w.typo then some (matched_length w token) else none
  within (at_least t) w token = none

  -- `MatchingWord::match_token`.
  unfoldable pub match_word : MatchingWord → Token → Option ℕ
  unfolding within
  match_word w token = within (eval w token.lemma) w token

  matched_if :
      (b : Bool) (w : MatchingWord) (token : Token) (len : ℕ)
      → (if b then some (matched_length w token) else none) ≡ some len
      → (n : ℕ) × (len ≡ token.original_length n)
  unfolding matched_length
  matched_if true w token len e =
      (if w.prefix then bytes_to_highlight token.lemma w.word else byte_len token.lemma, cc)
  matched_if false w token len e = cc

  within-original_length :
      (d : Distance) (w : MatchingWord) (token : Token) (len : ℕ)
      → within d w token ≡ some len
      → (n : ℕ) × (len ≡ token.original_length n)
  unfolding within
  within-original_length (exact_distance t) w token len e = matched_if (leb t w.typo) w token len e
  within-original_length (at_least t) w token len e = cc

  -- The length of a match is one that the token gives.
  pub match_word-original_length :
      (w : MatchingWord) (token : Token) (len : ℕ)
      → match_word w token ≡ some len
      → (n : ℕ) × (len ≡ token.original_length n)
  unfolding match_word
  match_word-original_length w token len e =
      within-original_length (eval w token.lemma) w token len e

  -- What a match of the first word makes of an entry whose other words are `rest`.
  unfoldable pub proceed : List MatchingWord → List ℕ → ℕ → MatchType
  proceed [] ids char_len = full char_len ids
  proceed (w ∷ rest) ids char_len = partial (w ∷ rest) ids char_len

  unfoldable pub proceed_if : List MatchingWord → List ℕ → Option ℕ → Option MatchType
  unfolding proceed
  proceed_if rest ids none = none
  proceed_if rest ids (some char_len) = some (proceed rest ids char_len)

  -- `PartialMatch::match_token`; `none` also stands for the panic on a match without words.
  unfoldable pub match_partial : List MatchingWord → List ℕ → Token → Option MatchType
  unfolding proceed_if
  match_partial [] ids token = none
  match_partial (w ∷ rest) ids token = proceed_if rest ids (match_word w token)

  -- All items of `MatchesIter`, from `MatchingWords::match_token`.
  unfoldable pub match_token : List Entry → Token → List MatchType
  unfolding match_partial
  match_token [] token = []
  match_token ((words, ids) ∷ entries) token = elim (match_partial words ids token) [
    | none ↦ match_token entries token
    | some found ↦ found ∷ match_token entries token
  ]

  -- The tokens that follow, matched one by one against a match that is not complete.
  unfoldable pub match_rest : MatchType → List Token → Option MatchType
  match_rest found [] = some found
  match_rest (full char_len ids) (token ∷ tokens) = none
  match_rest (partial words ids char_len) (token ∷ tokens) = elim (match_partial words ids token) [
    | none ↦ none
    | some found ↦ match_rest found tokens
  ]

  -- Each token matches its word, and there are as many.
  abbrev pub is_some {ℓ} : {A : Type ℓ} → Option A → Bool
  is_some none = false
  is_some (some a) = true

  unfoldable pub all_match : List MatchingWord → List Token → Bool
  all_match [] [] = true
  all_match (w ∷ words) (token ∷ tokens) =
      let rest = all_match words tokens in is_some (match_word w token) && rest
  all_match _ _ = false

  abbrev pub is_full : Option MatchType → Bool
  is_full none = false
  is_full (some (full char_len ids)) = true
  is_full (some (partial words ids char_len)) = false

  is_full-match_rest :
      (w : MatchingWord) (words : List MatchingWord) (ids : List ℕ) (char_len : ℕ)
      (tokens : List Token)
      → is_full (match_rest (partial (w ∷ words) ids char_len) tokens)
        ≡ all_match (w ∷ words) tokens
  unfolding match_rest all_match match_partial proceed_if proceed
  is_full-match_rest w words ids char_len [] = refl
  is_full-match_rest w words ids char_len (token ∷ tokens) =
      elim (Option-cases (match_word w token)) [
        | inl missed ↦ rw (missed, match_rest) refl
        | inr (len, found) ↦
            rw (found, match_rest)
              (go words len tokens (λ v vs. is_full-match_rest v vs ids len tokens))
      ]
    where
      go :
          (words : List MatchingWord) (len : ℕ) (tokens : List Token)
          → ((v : MatchingWord) (vs : List MatchingWord)
              → is_full (match_rest (partial (v ∷ vs) ids len) tokens) ≡ all_match (v ∷ vs) tokens)
          → is_full (match_rest (proceed words ids len) tokens) ≡ all_match words tokens
      go [] len [] ih = refl
      go [] len (t ∷ ts) ih = refl
      go (v ∷ vs) len ts ih = ih v vs

  -- Tokens that are matched one after the other against the words of an entry complete the match
  -- exactly if there are as many tokens as words and each matches its word.
  pub is_full-match_partial :
      (w : MatchingWord) (words : List MatchingWord) (ids : List ℕ) (tokens : List Token)
      → is_full (match_rest (partial (w ∷ words) ids 0) tokens) ≡ all_match (w ∷ words) tokens
  is_full-match_partial w words ids tokens = is_full-match_rest w words ids 0 tokens
