-- ===== src/Matches/Crop/Expand.antt =====
-- What the loop takes on both sides.
use milli.Base.{
  ℕ, zero, suc, ◌+◌, ◌-◌, ◌<◌, List, [], ◌∷◌, ◌++◌, Option, none, some, ltb, ◌==◌, ◌≡◌, refl, sym,
  ap, ◌∙◌, arith, Bool-cases, inl, inr, append_assoc,
}
use milli.Matches.{SeparatorKind, TextToken}
use milli.Matches.Find.Places.{word_count, word_count-append}
use milli.Matches.Crop.{
  Window, window, same_kind, is_hard, expand_both, minus_word, expand_once, expand,
}

-- Tokens are taken from the fronts of both lists, and their words are counted off.
pub record Takes (remaining : ℕ) (before after : List TextToken) (w : Window) : Type 0 where
  pub left : List TextToken
  pub right : List TextToken
  pub before_lem : before ≡ left ++ w.before_tokens
  pub after_lem : after ≡ right ++ w.after_tokens
  pub words : word_count left + word_count right + w.remaining_words ≡ remaining

Takes-window :
    (remaining : ℕ) (before after : List TextToken)
    → Takes remaining before after (window remaining before after)
Takes-window remaining before after = record {
  left = [];
  right = [];
  before_lem = refl;
  after_lem = refl;
  words = omega arith;
}

word_count-word : (t : TextToken) → t.separator_kind ≡ none → word_count (t ∷ []) ≡ 1
word_count-word t e = rw e (omega arith)

word_count-separator :
    (t : TextToken) (k : SeparatorKind) → t.separator_kind ≡ some k → word_count (t ∷ []) ≡ 0
word_count-separator t k e = rw e (omega arith)

module _ (remaining next : ℕ) (b a : TextToken) (before after : List TextToken) where
  Takes-before :
      word_count (b ∷ []) + next ≡ remaining
      → Takes remaining (b ∷ before) after (window next before after)
  Takes-before h = record {
    left = b ∷ [];
    right = [];
    before_lem = refl;
    after_lem = refl;
    words = omega (arith, h);
  }

  Takes-after :
      word_count (a ∷ []) + next ≡ remaining
      → Takes remaining before (a ∷ after) (window next before after)
  Takes-after h = record {
    left = [];
    right = a ∷ [];
    before_lem = refl;
    after_lem = refl;
    words = omega (arith, h);
  }

  Takes-both :
      word_count (b ∷ []) + word_count (a ∷ []) + next ≡ remaining
      → Takes remaining (b ∷ before) (a ∷ after) (window next before after)
  Takes-both h = record {
    left = b ∷ [];
    right = a ∷ [];
    before_lem = refl;
    after_lem = refl;
    words = h;
  }

expand_both-Takes :
    (remaining : ℕ) (k l : Option SeparatorKind) (b : TextToken) (before : List TextToken)
    (a : TextToken) (after : List TextToken)
    → b.separator_kind ≡ k
    → a.separator_kind ≡ l
    → 0 < remaining
    → Takes remaining (b ∷ before) (a ∷ after) (expand_both remaining k l b before a after)
unfolding expand_both
expand_both-Takes remaining (some k) (some l) b before a after bk ak h =
    let b_none = word_count-separator b k bk in
    let a_none = word_count-separator a l ak in
    elim (Bool-cases (same_kind k l)) [
      | inl same ↦ elim (Bool-cases (ltb 1 remaining)) [
        | inl more ↦
            rw (same, more)
              (Takes-both remaining remaining b a before after (omega (arith, b_none, a_none)))
        | inr last ↦
            rw (same, last)
              (Takes-before remaining remaining b a before (a ∷ after) (omega (arith, b_none)))
      ]
      | inr other ↦ elim (Bool-cases (is_hard k)) [
        | inl far ↦
            rw (other, far)
              (Takes-after remaining remaining b a (b ∷ before) after (omega (arith, a_none)))
        | inr near ↦
            rw (other, near)
              (Takes-before remaining remaining b a before (a ∷ after) (omega (arith, b_none)))
      ]
    ]
expand_both-Takes remaining none (some l) b before a after bk ak h =
    Takes-before remaining (remaining - 1) b a before (a ∷ after)
      (omega (arith, word_count-word b bk))
expand_both-Takes remaining (some k) none b before a after bk ak h =
    Takes-after remaining (remaining - 1) b a (b ∷ before) after
      (omega (arith, word_count-word a ak))
expand_both-Takes remaining none none b before a after bk ak h =
    let b_one = word_count-word b bk in
    let a_one = word_count-word a ak in
    elim (Bool-cases (ltb 0 (remaining - 1))) [
      | inl more ↦
          let two : 1 < remaining = ground arith in
          rw more (
            Takes-both remaining (remaining - 1 - 1) b a before after (omega (arith, b_one, a_one)))
      | inr last ↦
          rw last
            (Takes-before remaining (remaining - 1) b a before (a ∷ after) (omega (arith, b_one)))
    ]

minus_word_lem :
    (t : TextToken) (k : Option SeparatorKind) (remaining : ℕ)
    → t.separator_kind ≡ k
    → 0 < remaining
    → word_count (t ∷ []) + minus_word k remaining ≡ remaining
minus_word_lem t none remaining e h = omega (arith, word_count-word t e)
minus_word_lem t (some k) remaining e h = omega (arith, word_count-separator t k e)

expand_once-Takes :
    (remaining : ℕ) (before after : List TextToken)
    → 0 < remaining
    → Takes remaining before after (expand_once remaining before after)
unfolding expand_once
expand_once-Takes remaining [] [] h = Takes-window remaining [] []
expand_once-Takes remaining (b ∷ before) [] h =
    Takes-before remaining (minus_word b.separator_kind remaining) b b before []
      (minus_word_lem b b.separator_kind remaining refl h)
expand_once-Takes remaining [] (a ∷ after) h =
    Takes-after remaining (minus_word a.separator_kind remaining) a a [] after
      (minus_word_lem a a.separator_kind remaining refl h)
expand_once-Takes remaining (b ∷ before) (a ∷ after) h =
    expand_both-Takes remaining b.separator_kind a.separator_kind b before a after refl refl h

Takes-rest :
    (remaining : ℕ) (before after : List TextToken) (v w : Window)
    → Takes remaining before after v
    → Takes v.remaining_words v.before_tokens v.after_tokens w
    → Takes remaining before after w
Takes-rest remaining before after v w first rest = record {
  left = first.left ++ rest.left;
  right = first.right ++ rest.right;
  before_lem =
      first.before_lem
      ∙ ap (λ k. first.left ++ k) rest.before_lem
      ∙ sym (append_assoc first.left rest.left w.before_tokens);
  after_lem =
      first.after_lem
      ∙ ap (λ k. first.right ++ k) rest.after_lem
      ∙ sym (append_assoc first.right rest.right w.after_tokens);
  words = omega (
    arith,
    first.words,
    rest.words,
    word_count-append first.left rest.left,
    word_count-append first.right rest.right,
  );
}

pub expand-Takes :
    (rounds remaining : ℕ) (before after : List TextToken)
    → Takes remaining before after (expand rounds remaining before after)
unfolding expand
expand-Takes zero remaining before after = Takes-window remaining before after
expand-Takes (suc rounds) remaining before after = elim (Bool-cases (remaining == 0)) [
  | inl full ↦ rw (full, expand) (Takes-window remaining before after)
  | inr more ↦
      let next = expand_once remaining before after in
      rw (more, expand)
        (Takes-rest remaining before after next
          (expand rounds next.remaining_words next.before_tokens next.after_tokens)
          (expand_once-Takes remaining before after (ground arith))
          (expand-Takes rounds next.remaining_words next.before_tokens next.after_tokens))
]
