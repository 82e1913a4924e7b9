-- ===== src/Matches/Crop.antt =====
-- The part of a text that a crop keeps: `crop_bounds`.
pub mod Expand
pub mod Words
pub mod Best
use milli.Base.{
  ℕ, zero, suc, ◌+◌, ◌-◌, Bool, true, false, List, [], ◌∷◌, ◌++◌, Option, none, some, take, drop,
  length, ltb, ◌==◌, if◌then◌else◌,
}
use milli.Matches.{SeparatorKind, hard, soft, TextToken, Match}

abbrev pub reverse : List TextToken → List TextToken
reverse [] = []
reverse (t ∷ tokens) = reverse tokens ++ t ∷ []

-- `remaining_words` and what is left of both iterators.
pub record Window : Type 0 where
  pub remaining_words : ℕ
  pub before_tokens : List TextToken
  pub after_tokens : List TextToken

abbrev pub window : ℕ → List TextToken → List TextToken → Window
window remaining before after = record {
  remaining_words = remaining;
  before_tokens = before;
  after_tokens = after;
}

abbrev pub same_kind : SeparatorKind → SeparatorKind → Bool
same_kind hard hard = true
same_kind soft soft = true
same_kind _ _ = false

abbrev pub is_hard : SeparatorKind → Bool
is_hard hard = true
is_hard soft = false

-- A token on both sides: `b` before and `a` after.
unfoldable pub expand_both :
    ℕ
    → Option SeparatorKind
    → Option SeparatorKind
    → TextToken
    → List TextToken
    → TextToken
    → List TextToken
    → Window
expand_both remaining (some k) (some l) b before a after =
    if same_kind k l
    then window remaining before (if ltb 1 remaining then after else a ∷ after)
    else if is_hard k
    then window remaining (b ∷ before) after
    else window remaining before (a ∷ after)
expand_both remaining none (some l) b before a after = window (remaining - 1) before (a ∷ after)
expand_both remaining (some k) none b before a after = window (remaining - 1) (b ∷ before) after
expand_both remaining none none b before a after =
    if ltb 0 (remaining - 1)
    then window (remaining - 1 - 1) before after
    else window (remaining - 1) before (a ∷ after)

abbrev pub minus_word : Option SeparatorKind → ℕ → ℕ
minus_word none remaining = remaining - 1
minus_word (some k) remaining = remaining

-- One round with a token on some side.
unfoldable pub expand_once : ℕ → List TextToken → List TextToken → Window
unfolding expand_both
expand_once remaining [] [] = window remaining [] []
expand_once remaining (b ∷ before) [] = window (minus_word b.separator_kind remaining) before []
expand_once remaining [] (a ∷ after) = window (minus_word a.separator_kind remaining) [] after
expand_once remaining (b ∷ before) (a ∷ after) =
    expand_both remaining b.separator_kind a.separator_kind b before a after

-- The loop, in at most so many rounds.
unfoldable pub expand : ℕ → ℕ → List TextToken → List TextToken → Window
unfolding expand_once
expand zero remaining before after = window remaining before after
expand (suc rounds) remaining before after =
    let next = expand_once remaining before after in
    let rest = expand rounds next.remaining_words next.before_tokens next.after_tokens in
    if remaining == 0 then window remaining before after else rest

abbrev pub first_position : (Match → ℕ) → List Match → ℕ
first_position f [] = 0
first_position f (m ∷ ms) = f m

abbrev pub last_position : (Match → ℕ) → List Match → ℕ
last_position f [] = 0
last_position f (m ∷ []) = f m
last_position f (m ∷ n ∷ ms) = last_position f (n ∷ ms)

abbrev pub end_of : List TextToken → ℕ
end_of [] = 0
end_of (t ∷ tokens) = t.byte_end

abbrev pub start_of : ℕ → List TextToken → ℕ
start_of text_len [] = text_len
start_of text_len (t ∷ tokens) = t.byte_start

-- The window after the loop; each token is taken in at most one round.
unfoldable pub crop_window : List TextToken → List Match → ℕ → Window
unfolding expand
crop_window tokens matches crop_size =
    expand (length tokens + length tokens)
      (crop_size
        + first_position (λ m. m.word_position) matches
        - last_position (λ m. m.word_position) matches)
      (reverse (take (first_position (λ m. m.token_position) matches) tokens))
      (drop (last_position (λ m. m.token_position) matches) tokens)

unfoldable pub crop_bounds : ℕ → List TextToken → List Match → ℕ → ℕ × ℕ
unfolding crop_window
crop_bounds text_len tokens matches crop_size =
    let w = crop_window tokens matches crop_size in
    (end_of w.before_tokens, start_of text_len w.after_tokens)
