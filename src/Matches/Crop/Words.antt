-- ===== src/Matches/Crop/Words.antt =====
-- The words of a crop.
use milli.Base.{
  ℕ, zero, suc, ◌+◌, ◌-◌, ◌≤◌, ◌<◌, List, [], ◌∷◌, ◌++◌, Option, none, some, take, drop, length,
  length-append, length-take, length-drop, take-append-drop, ltb, ◌==◌, ◌≡◌, refl, sym, ap, ◌∙◌,
  arith, Bool-cases, ◌⊎◌, inl, inr, append_assoc, append-nil,
}
use milli.Matches.{SeparatorKind, TextToken, Match}
use milli.Matches.Find.Places.{word_count, word_count-append}
use milli.Matches.Crop.{
  Window, same_kind, is_hard, expand_both, expand_once, expand, reverse, first_position,
  last_position, crop_window, crop_bounds, end_of, start_of,
}
use milli.Matches.Crop.Expand.{Takes, expand-Takes}

abbrev size : Window → ℕ
size w = length w.before_tokens + length w.after_tokens

size-expand_both :
    (remaining : ℕ) (k l : Option SeparatorKind) (b : TextToken) (before : List TextToken)
    (a : TextToken) (after : List TextToken)
    → size (expand_both remaining k l b before a after) < length (b ∷ before) + length (a ∷ after)
unfolding expand_both
size-expand_both remaining (some k) (some l) b before a after = elim (Bool-cases (same_kind k l)) [
  | inl same ↦ elim (Bool-cases (ltb 1 remaining)) [
    | inl more ↦ rw (same, more) (omega arith)
    | inr last ↦ rw (same, last) (omega arith)
  ]
  | inr other ↦ elim (Bool-cases (is_hard k)) [
    | inl far ↦ rw (other, far) (omega arith)
    | inr near ↦ rw (other, near) (omega arith)
  ]
]
size-expand_both remaining none (some l) b before a after = omega arith
size-expand_both remaining (some k) none b before a after = omega arith
size-expand_both remaining none none b before a after = elim (Bool-cases (ltb 0 (remaining - 1))) [
  | inl more ↦ rw more (omega arith)
  | inr last ↦ rw last (omega arith)
]

size-expand_once :
    (remaining : ℕ) (before after : List TextToken)
    → 0 < length before + length after
    → size (expand_once remaining before after) < length before + length after
unfolding expand_once
size-expand_once remaining [] [] h = absurd (omega arith)
size-expand_once remaining (b ∷ before) [] h = omega arith
size-expand_once remaining [] (a ∷ after) h = omega arith
size-expand_once remaining (b ∷ before) (a ∷ after) h =
    size-expand_both remaining b.separator_kind a.separator_kind b before a after

-- The loop ends when no word remains to be taken, or no token is left.
expand-done :
    (rounds remaining : ℕ) (before after : List TextToken)
    → length before + length after ≤ rounds
    → ((expand rounds remaining before after).remaining_words ≡ 0)
      ⊎ (size (expand rounds remaining before after) ≡ 0)
unfolding expand
expand-done zero remaining before after h = inr (omega arith)
expand-done (suc rounds) remaining before after h = elim (Bool-cases (remaining == 0)) [
  | inl full ↦ rw (full, expand) (inl (ground arith))
  | inr more ↦
      let next = expand_once remaining before after in
      rw (more, expand)
        (elim (Bool-cases (length before + length after == 0)) [
          | inl over ↦
              expand-done rounds next.remaining_words next.before_tokens next.after_tokens
                (empty_once before after (ground arith))
          | inr left ↦
              expand-done rounds next.remaining_words next.before_tokens next.after_tokens
                (omega (arith, size-expand_once remaining before after (ground arith)))
        ])
]
  where
    empty_once :
        (before after : List TextToken)
        → length before + length after ≡ 0
        → size (expand_once remaining before after) ≤ rounds
    empty_once [] [] e = omega arith
    empty_once (b ∷ before) after e = absurd (omega arith)
    empty_once [] (a ∷ after) e = absurd (omega arith)

reverse-append : (xs ys : List TextToken) → reverse (xs ++ ys) ≡ reverse ys ++ reverse xs
reverse-append [] ys = sym (append-nil (reverse ys))
reverse-append (x ∷ xs) ys =
    ap (λ k. k ++ x ∷ []) (reverse-append xs ys) ∙ append_assoc (reverse ys) (reverse xs) (x ∷ [])

reverse_twice : (xs : List TextToken) → reverse (reverse xs) ≡ xs
reverse_twice [] = refl
reverse_twice (x ∷ xs) = reverse-append (reverse xs) (x ∷ []) ∙ ap (λ k. x ∷ k) (reverse_twice xs)

word_count-reverse : (xs : List TextToken) → word_count (reverse xs) ≡ word_count xs
word_count-reverse [] = refl
word_count-reverse (x ∷ xs) =
    word_count-append (reverse xs) (x ∷ []) ∙ omega (arith, word_count-reverse xs)

length-reverse : (xs : List TextToken) → length (reverse xs) ≡ length xs
length-reverse [] = refl
length-reverse (x ∷ xs) = length-append (reverse xs) (x ∷ []) ∙ omega (arith, length-reverse xs)

take-le :
    (i j : ℕ) (tokens : List TextToken)
    → i ≤ j
    → (between : List TextToken) × (take j tokens ≡ take i tokens ++ between)
take-le zero j tokens h = (take j tokens, refl)
take-le (suc i) zero tokens h = absurd (omega arith)
take-le (suc i) (suc j) [] h = ([], refl)
take-le (suc i) (suc j) (t ∷ tokens) h =
    let (between, e) = take-le i j tokens (omega arith) in (between, ap (λ k. t ∷ k) e)

regroup :
    (rb rl mid right back : List TextToken)
    → ((rb ++ rl) ++ mid) ++ (right ++ back) ≡ rb ++ ((rl ++ (mid ++ right)) ++ back)
regroup rb rl mid right back = simp append_assoc refl

-- Bounds that cut the tokens in three, with at most so many words in the middle, and as many unless
-- the middle is the whole text.
abbrev pub IsCrop : ℕ → ℕ → List TextToken → ℕ × ℕ → Type 0
IsCrop text_len crop_size tokens bounds =
    (front : List TextToken) × (middle : List TextToken) × (back : List TextToken) × (tokens
      ≡ reverse front ++ (middle ++ back))
    × (bounds ≡ (end_of front, start_of text_len back))
    × (word_count middle ≤ crop_size)
    × ((word_count middle ≡ crop_size) ⊎ ((front ≡ []) × (back ≡ [])))

-- The positions of the first and the last match: the words before them are counted.
abbrev pub IsSpan : ℕ → List TextToken → (i j p q : ℕ) → Type 0
IsSpan crop_size tokens i j p q =
    (i ≤ j)
    × (word_count (take i tokens) ≡ p)
    × (word_count (take j tokens) ≡ q)
    × (q ≤ p + crop_size)

span-IsCrop :
    (text_len crop_size : ℕ) (tokens : List TextToken) (i j p q : ℕ)
    → IsSpan crop_size tokens i j p q
    → (w : Window) → Takes (crop_size + p - q) (reverse (take i tokens)) (drop j tokens) w
    → (w.remaining_words ≡ 0) ⊎ (size w ≡ 0)
    → IsCrop text_len crop_size tokens (end_of w.before_tokens, start_of text_len w.after_tokens)
span-IsCrop text_len crop_size tokens i j p q (le, at_i, at_j, near) w t done =
    let (mid, split) = take-le i j tokens le in
    let front = w.before_tokens in
    let back = w.after_tokens in
    let head : take i tokens ≡ reverse front ++ reverse t.left =
      sym (reverse_twice (take i tokens)) ∙ ap reverse t.before_lem ∙ reverse-append t.left front in
    let start : take j tokens ≡ (reverse front ++ reverse t.left) ++ mid =
      split ∙ ap (λ k. k ++ mid) head in
    let whole : tokens ≡ ((reverse front ++ reverse t.left) ++ mid) ++ (t.right ++ back) =
      sym (take-append-drop j tokens)
      ∙ ap (λ k. k ++ drop j tokens) start
      ∙ ap (λ k. ((reverse front ++ reverse t.left) ++ mid) ++ k) t.after_lem in
    let middle = reverse t.left ++ (mid ++ t.right) in
    let count : word_count middle + w.remaining_words ≡ crop_size = omega (
      arith,
      t.words,
      at_i,
      at_j,
      near,
      ap word_count split,
      word_count-append (take i tokens) mid,
      word_count-append (reverse t.left) (mid ++ t.right),
      word_count-append mid t.right,
      word_count-reverse t.left,
    ) in
    (
      front,
      middle,
      back,
      whole ∙ regroup (reverse front) (reverse t.left) mid t.right back,
      refl,
      omega arith,
      elim done [
        | inl taken ↦ inl (omega arith)
        | inr over ↦ inr (empty front (omega arith), empty back (omega arith))
      ],
    )
  where
    empty : (ts : List TextToken) → length ts ≡ 0 → ts ≡ []
    empty [] e = refl
    empty (x ∷ xs) e = absurd (omega arith)

pub crop_bounds-IsSpan :
    (text_len crop_size : ℕ) (tokens : List TextToken) (matches : List Match)
    → IsSpan crop_size tokens
        (first_position (λ m. m.token_position) matches)
        (last_position (λ m. m.token_position) matches)
        (first_position (λ m. m.word_position) matches)
        (last_position (λ m. m.word_position) matches)
    → IsCrop text_len crop_size tokens (crop_bounds text_len tokens matches crop_size)
unfolding crop_bounds crop_window
crop_bounds-IsSpan text_len crop_size tokens matches span =
    let i = first_position (λ m. m.token_position) matches in
    let j = last_position (λ m. m.token_position) matches in
    let p = first_position (λ m. m.word_position) matches in
    let q = last_position (λ m. m.word_position) matches in
    let rounds = length tokens + length tokens in
    let enough : length (reverse (take i tokens)) + length (drop j tokens) ≤ rounds =
      omega (arith, length-reverse (take i tokens), length-take i tokens, length-drop j tokens) in
    span-IsCrop text_len crop_size tokens i j p q span
      (expand rounds (crop_size + p - q) (reverse (take i tokens)) (drop j tokens))
      (expand-Takes rounds (crop_size + p - q) (reverse (take i tokens)) (drop j tokens))
      (expand-done rounds (crop_size + p - q) (reverse (take i tokens)) (drop j tokens) enough)
