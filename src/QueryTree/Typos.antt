-- ===== src/QueryTree/Typos.antt =====
-- How many typos a word may have: `typos` and `TypoConfig`.
use milli.Base.{
  ℕ, ◌≤◌, ◌<◌, min, Bool, true, false, not, ◌&&◌, Option, none, some, length, ltb, if◌then◌else◌,
  ◌≡◌, ◌↔◌, arith,
}
use milli.QueryTree.{Word, QueryKind, tolerant, exact, typo, kind_word}

pub record TypoConfig : Type 0 where
  pub max_typos : ℕ
  pub word_len_one_typo : ℕ
  pub word_len_two_typo : ℕ
  pub exact_words : Option (Word → Bool)

abbrev pub is_exact_word : Option (Word → Bool) → Word → Bool
is_exact_word none word = false
is_exact_word (some contains) word = contains word

-- The inner chain of `typos`; `count` is a u8.
kind_by_length : ℕ → Word → TypoConfig → QueryKind
kind_by_length count word config =
    if ltb count config.word_len_one_typo
    then exact word
    else if ltb count config.word_len_two_typo
    then tolerant (min 1 config.max_typos) word
    else tolerant (min 2 config.max_typos) word

unfoldable pub typos : Word → Bool → TypoConfig → QueryKind
unfolding kind_by_length
typos word authorize_typos config =
    if authorize_typos && not (is_exact_word config.exact_words word)
    then kind_by_length (min (length word) 255) word config
    else exact word

module _ (word : Word) (authorize : Bool) (config : TypoConfig) where
  -- The kind keeps the word, and allows at most the configured number of typos and at most 2.
  pub typos_bounds :
      (kind_word (typos word authorize config) ≡ word)
      × (typo (typos word authorize config) ≤ config.max_typos)
      × (typo (typos word authorize config) ≤ 2)
  unfolding typos
  typos_bounds = ground arith

  pub typo-typos_unauthorized : authorize ≡ false → typos word authorize config ≡ exact word
  unfolding typos
  typo-typos_unauthorized e = rw e

  -- A word takes a typo exactly if typos are authorized, it is no exact word, its length, counted up
  -- to 255, reaches the first threshold, and some typo is configured. The second threshold adds
  -- the second typo.
  pub typos_iff :
      ((0 < typo (typos word authorize config)) ↔ (
        (authorize ≡ true)
        × (is_exact_word config.exact_words word ≡ false)
        × (config.word_len_one_typo ≤ min (length word) 255)
        × (0 < config.max_typos)))
      × ((1 < typo (typos word authorize config)) ↔ (
          (authorize ≡ true)
          × (is_exact_word config.exact_words word ≡ false)
          × (config.word_len_one_typo ≤ min (length word) 255)
          × (config.word_len_two_typo ≤ min (length word) 255)
          × (1 < config.max_typos)))
  unfolding typos
  typos_iff = (ground arith, ground arith)
