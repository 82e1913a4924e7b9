-- ===== src/Matches.antt =====
-- Which parts of a text match the query, and the text cropped and highlighted around them
-- (milli/src/search/matches/mod.rs). A text is the list of its UTF-8 bytes; a slice of it is taken by
-- byte positions. The tokens of the text come from the tokenizer and are a parameter.
pub mod Find
pub mod Interval
pub mod Crop
pub mod Format
mod Examples
use milli.Base.{
  ℕ, zero, suc, ◌+◌, ◌-◌, Bool, true, false, not, ◌&&◌, ◌||◌, List, [], ◌∷◌, Option, none, some,
  take, drop, length, ◌==◌, if◌then◌else◌,
}
use milli.QueryTree.Matching.Tokens.{Token as Lemma}

-- `SeparatorKind`.
pub data SeparatorKind : Type 0 where
  hard soft : SeparatorKind

-- A token with its place in the text; a word has no separator kind.
pub record TextToken : Type 0 where
  pub token : Lemma
  pub separator_kind : Option SeparatorKind
  pub byte_start : ℕ
  pub byte_end : ℕ

abbrev pub is_separator : TextToken → Bool
is_separator t = elim t.separator_kind [ none ↦ false | some k ↦ true ]

pub record Match : Type 0 where
  pub match_len : ℕ
  pub ids : List ℕ
  pub word_position : ℕ
  pub token_position : ℕ

pub record MatchBounds : Type 0 where
  pub start : ℕ
  pub length : ℕ

pub record FormatOptions : Type 0 where
  pub highlight : Bool
  pub crop : Option ℕ

abbrev or_else : {A : Type 0} → Option A → Option A → Option A
or_else none second = second
or_else (some a) second = some a

unfoldable pub merge : FormatOptions → FormatOptions → FormatOptions
merge self other = record {
  highlight = self.highlight || other.highlight;
  crop = or_else self.crop other.crop;
}

abbrev pub get_elem? {ℓ} : {A : Type ℓ} → List A → ℕ → Option A
get_elem? [] n = none
get_elem? (x ∷ xs) zero = some x
get_elem? (x ∷ xs) (suc n) = get_elem? xs n

-- `&text[from..to]`.
abbrev pub slice : ℕ → ℕ → List ℕ → List ℕ
slice from to text = take (to - from) (drop from text)
