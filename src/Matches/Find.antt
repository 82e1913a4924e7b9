-- ===== src/Matches/Find.antt =====
-- The matches of a text: `compute_matches` and `matches`.
pub mod Order
pub mod Places
pub mod Lengths
pub mod Greedy
use milli.Base.{
  ℕ, zero, suc, ◌+◌, ◌-◌, Bool, true, false, not, ◌&&◌, ◌||◌, List, [], ◌∷◌, ◌++◌, Option, none,
  some, map, length, ◌==◌, if◌then◌else◌,
}
use milli.QueryTree.Matching.{MatchingWord, Entry}
use milli.QueryTree.{Word}
use milli.QueryTree.Matching.Tokens.{Distance, MatchType, full, partial, match_token, match_partial}
use milli.Matches.{TextToken, is_separator, Match, MatchBounds, get_elem?}

-- An item of `words_positions`.
pub record WordToken : Type 0 where
  pub token_position : ℕ
  pub word_position : ℕ
  pub token : TextToken

-- The scan over all tokens, without the separators.
unfoldable pub words_positions : ℕ → ℕ → List TextToken → List WordToken
words_positions token_position word_position [] = []
words_positions token_position word_position (t ∷ tokens) =
    let next =
      words_positions (suc token_position)
        (if is_separator t then word_position else suc word_position) tokens in
    if is_separator t
    then next
    else record { token_position = token_position; word_position = word_position; token = t } ∷ next

abbrev pub match_at : ℕ → List ℕ → WordToken → Match
match_at match_len ids w = record {
  match_len = match_len;
  ids = ids;
  word_position = w.word_position;
  token_position = w.token_position;
}

-- Potential matches have their words and lengths.
abbrev pub with_ids : List ℕ → List (WordToken × ℕ) → List Match
with_ids ids [] = []
with_ids ids ((w, match_len) ∷ potential) = match_at match_len ids w ∷ with_ids ids potential

module _ (eval : MatchingWord → Word → Distance) (matching_words : List Entry) where
  -- `compute_partial_match`: the matches of a match that is completed, with the words behind it.
  unfoldable pub compute_partial_match :
      List MatchingWord
      → List ℕ
      → List (WordToken × ℕ)
      → List WordToken
      → Option (List Match × List WordToken)
  compute_partial_match rest ids potential [] = none
  compute_partial_match rest ids potential (w ∷ words) =
      elim (match_partial eval rest ids w.token.token) [
        | none ↦ none
        | some (partial rest' ids' char_len) ↦
            compute_partial_match rest' ids' (potential ++ (w, char_len) ∷ []) words
        | some (full char_len ids') ↦
            some (with_ids ids' potential ++ match_at char_len ids' w ∷ [], words)
      ]

  abbrev pub complete :
      Option (List Match × List WordToken)
      → List Match × List WordToken
      → List Match × List WordToken
  complete none other = other
  complete (some found) other = found

  -- The loop over the match types of one word.
  unfoldable pub match_word_token :
      WordToken → List WordToken → List MatchType → List Match × List WordToken
  unfolding compute_partial_match
  match_word_token w words [] = ([], words)
  match_word_token w words (full char_len ids ∷ types) = (match_at char_len ids w ∷ [], words)
  match_word_token w words (partial rest ids char_len ∷ types) =
      complete (compute_partial_match rest ids ((w, char_len) ∷ []) words)
        (match_word_token w words types)

  -- The loop over the words, in at most so many rounds.
  unfoldable pub find_matches : ℕ → List WordToken → List Match
  unfolding match_word_token
  find_matches zero words = []
  find_matches (suc rounds) [] = []
  find_matches (suc rounds) (w ∷ words) =
      let (found, behind) =
        match_word_token w words (match_token eval matching_words w.token.token) in
      found ++ find_matches rounds behind

  unfoldable pub compute_matches : List TextToken → List Match
  unfolding words_positions find_matches
  compute_matches tokens =
      let words = words_positions 0 0 tokens in find_matches (length words) words

abbrev byte_start_of : Option TextToken → ℕ
byte_start_of none = 0
byte_start_of (some t) = t.byte_start

-- `matches`, once they are computed; a token position out of range, where the code would panic,
-- gives 0.
unfoldable pub matches : List TextToken → List Match → List MatchBounds
matches tokens [] = []
matches tokens (m ∷ ms) =
    record { start = byte_start_of (get_elem? tokens m.token_position); length = m.match_len }
    ∷ matches tokens ms
