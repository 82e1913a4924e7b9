-- ===== src/Matches/Examples.antt =====
-- Runs on the text "ab cd ab", with "ab" and "cd" as words to match.
use milli.Base.{
  ℕ, ◌+◌, true, false, List, [], ◌∷◌, none, some, All, ◌≡◌, refl, arith, if◌then◌else◌,
}
use milli.QueryTree.{Word}
use milli.QueryTree.Matching.{MatchingWord, Entry}
use milli.QueryTree.Matching.Tokens.{Distance, exact_distance, at_least}
use milli.AscDesc.Texts.{text_eq}
use milli.Matches.{soft, TextToken, Match, slice}
use milli.Matches.Find.{words_positions, compute_matches}
use milli.Matches.Find.Order.{places, Ascending}
use milli.Matches.Find.Places.{IsWordAt, compute_matches-Ascending}
use milli.Matches.Find.Greedy.{Finds, compute_matches-Finds}
use milli.Matches.Interval.{interval, find_best_match_interval}
use milli.Matches.Interval.Fits.{FitsCrop, find_best_match_interval-FitsCrop}
use milli.Matches.Crop.{crop_bounds, crop_window, expand, expand_once, expand_both}
use milli.Matches.Crop.Best.{crop_bounds-IsCrop}
use milli.Matches.Crop.Words.{IsCrop}
use milli.Matches.Format.{format}
use milli.Matches.Format.Text.{bare, shown_end}
use milli.Matches.Format.Whole.{AreTokens, format-text}
use milli.Matches.Format.Cropped.{best_matches, format-crop}

abbrev ab : List ℕ
ab = b'a' ∷ b'b' ∷ []

abbrev cd : List ℕ
cd = b'c' ∷ b'd' ∷ []

abbrev text : List ℕ
text = b'a' ∷ b'b' ∷ b' ' ∷ b'c' ∷ b'd' ∷ b' ' ∷ b'a' ∷ b'b' ∷ []

abbrev word : List ℕ → ℕ → TextToken
word w start = record {
  token = record { lemma = w; original_length = λ n. 2 };
  separator_kind = none;
  byte_start = start;
  byte_end = start + 2;
}

abbrev blank : ℕ → TextToken
blank start = record {
  token = record { lemma = b' ' ∷ []; original_length = λ n. 1 };
  separator_kind = some soft;
  byte_start = start;
  byte_end = start + 1;
}

abbrev tokens : List TextToken
tokens = word ab 0 ∷ blank 2 ∷ word cd 3 ∷ blank 5 ∷ word ab 6 ∷ []

abbrev equal : MatchingWord → Word → Distance
equal w lemma = if text_eq w.word lemma then exact_distance 0 else at_least 1

abbrev as_word : List ℕ → MatchingWord
as_word w = record { word = w; typo = 0; prefix = false }

abbrev words : List Entry
words = (as_word ab ∷ [], 0 ∷ []) ∷ (as_word cd ∷ [], 1 ∷ []) ∷ []

tokens-AreTokens : AreTokens text 0 tokens
tokens-AreTokens = (
  omega arith,
  (omega arith, refl, λ n. omega arith),
  (
    omega arith,
    (omega arith, refl, λ n. omega arith),
    (
      omega arith,
      (omega arith, refl, λ n. omega arith),
      (
        omega arith,
        (omega arith, refl, λ n. omega arith),
        (omega arith, (omega arith, refl, λ n. omega arith), omega arith),
      ),
    ),
  ),
)

compute_matches-Ascending_example :
    Ascending (places (compute_matches equal words tokens))
    × All (IsWordAt tokens) (places (compute_matches equal words tokens))
compute_matches-Ascending_example = compute_matches-Ascending equal words tokens

-- "ab cd" is matched before its words.
abbrev pairs : List Entry
pairs = (as_word ab ∷ as_word cd ∷ [], 0 ∷ 1 ∷ []) ∷ words

compute_matches-Finds_example :
    Finds equal pairs (words_positions 0 0 tokens) (compute_matches equal pairs tokens)
compute_matches-Finds_example = compute_matches-Finds equal pairs tokens

abbrev found : ℕ → Match
found n = record { match_len = 2; ids = n ∷ []; word_position = n; token_position = n + n }

find_best_match_interval-FitsCrop_example :
    (first last : ℕ) × (find_best_match_interval 2 (found 0 ∷ found 1 ∷ found 2 ∷ [])
      ≡ interval first last (found 0 ∷ found 1 ∷ found 2 ∷ []))
    × FitsCrop 2 (found 0 ∷ found 1 ∷ found 2 ∷ []) first last
find_best_match_interval-FitsCrop_example =
    find_best_match_interval-FitsCrop 2 (found 0 ∷ found 1 ∷ found 2 ∷ []) (omega arith)
      (omega arith)

crop_bounds-IsCrop_example :
    IsCrop 8 2 tokens
      (crop_bounds 8 tokens (find_best_match_interval 2 (compute_matches equal words tokens)) 2)
crop_bounds-IsCrop_example = crop_bounds-IsCrop equal words 8 2 tokens (omega arith)

format-text_example :
    format equal words bare text tokens (record { highlight = true; crop = none }) ≡ text
format-text_example =
    format-text text equal words tokens (record { highlight = true; crop = none }) tokens-AreTokens
      refl

format-crop_example :
    format equal words bare text tokens (record { highlight = true; crop = some 2 })
    ≡ slice
        (crop_bounds 8 tokens (best_matches text equal words tokens 2) 2).0
        (shown_end text tokens true
          (crop_bounds 8 tokens (best_matches text equal words tokens 2) 2)
          (best_matches text equal words tokens 2))
        text
format-crop_example = format-crop text equal words tokens true 2 tokens-AreTokens (omega arith)

-- Two words with no separator between them, the second a match: a crop of one word keeps the first.
abbrev adjacent : List TextToken
adjacent = word cd 0 ∷ word ab 2 ∷ []

crop_beside_match :
    crop_bounds 4 adjacent
      (record { match_len = 2; ids = 0 ∷ []; word_position = 1; token_position = 1 } ∷ [])
      1
    ≡ (0, 2)
unfolding crop_bounds crop_window expand expand_once expand_both
crop_beside_match = refl
