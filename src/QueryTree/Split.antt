-- ===== src/QueryTree/Split.antt =====
-- Splitting a word in two by the frequency of its parts: `split_best_frequency`.
use milli.Base.{
  ℕ, ◌≤◌, ◌<◌, min, Bool, true, false, not, ◌&&◌, List, [], ◌∷◌, ◌++◌, append_assoc, append-nil,
  Option, none, some, ltb, ◌==◌, if◌then◌else◌, ◌≡◌, ◌≢◌, refl, arith, All, ◌∙◌,
}
use milli.Base.Results.{Result, ok, ◌>>=◌}
use milli.QueryTree.{Word}
use milli.QueryTree.Context.{Context, unwrap_or}

-- The pairs of `word.split_at(i)` for the indices of all characters but the first.
splits_from : Word → Word → List (Word × Word)
splits_from left [] = []
splits_from left (c ∷ rest) = (left, c ∷ rest) ∷ splits_from (left ++ c ∷ []) rest

unfoldable pub splits : Word → List (Word × Word)
unfolding splits_from
splits [] = []
splits (c ∷ rest) = splits_from (c ∷ []) rest

abbrev pub Best : Type 0
Best = Option (ℕ × Word × Word)

-- `best.map_or(true, |(old, _, _)| min_freq > old)`.
improves : ℕ → Best → Bool
improves freq none = true
improves freq (some (old, l, r)) = ltb old freq

-- One round of the loop.
unfoldable pub better : ℕ → Word → Word → Best → Best
unfolding improves
better freq left right best =
    if not (freq == 0) && improves freq best then some (freq, left, right) else best

module _ {E : Type 0} (ctx : Context E) where
  unfoldable pub best_split : List (Word × Word) → Best → Result E Best
  unfolding better
  best_split [] best = ok best
  best_split ((left, right) ∷ rest) best = ctx.word_documents_count left >>= λ l.
      ctx.word_documents_count right >>= λ r.
      best_split rest (better (min (unwrap_or 0 l) (unwrap_or 0 r)) left right best)

  forget_freq : Best → Option (Word × Word)
  forget_freq none = none
  forget_freq (some (freq, left, right)) = some (left, right)

  unfoldable pub split_best_frequency : Word → Result E (Option (Word × Word))
  unfolding best_split forget_freq splits
  split_best_frequency word = best_split (splits word) none >>= λ best. ok (forget_freq best)

-- Two parts of the word that are not empty.
abbrev pub Proper : Word → Word × Word → Type 0
Proper word (left, right) = (left ++ right ≡ word) × (left ≢ []) × (right ≢ [])

-- The lesser of the numbers of documents with the one and the other part.
module _ (freq : Word → Option ℕ) where
  abbrev pub score : Word → Word → ℕ
  score left right = min (unwrap_or 0 (freq left)) (unwrap_or 0 (freq right))

  abbrev best_score : Best → ℕ
  best_score none = 0
  best_score (some (n, left, right)) = n

  -- The best split found so far is one of the word, with its own positive score.
  abbrev Holds : Word → Best → Type 0
  Holds word none = Unit
  Holds word (some (n, left, right)) =
      (left ++ right ≡ word) × (left ≢ []) × (right ≢ []) × (n ≡ score left right) × (0 < n)

  Holds-if :
      (word : Word) (b : Bool) (x y : Best)
      → (b ≡ true → Holds word x)
      → Holds word y
      → Holds word (if b then x else y)
  Holds-if word true x y hx hy = hx refl
  Holds-if word false x y hx hy = hy

  Holds-better :
      (word left right : Word) (best : Best)
      → Proper word (left, right)
      → Holds word best
      → Holds word (better (score left right) left right best)
  unfolding better
  Holds-better word left right best p h =
      Holds-if word (not (score left right == 0) && improves (score left right) best) _ best
        (λ t. (p.0, p.1, p.2, refl, ground arith)) h

  -- One round keeps the greater of the two scores.
  best_score-better :
      (left right : Word) (best : Best)
      → (best_score best ≤ best_score (better (score left right) left right best))
        × (score left right ≤ best_score (better (score left right) left right best))
  unfolding better
  best_score-better left right none = ground arith
  best_score-better left right (some (old, l, r)) = ground arith

-- Every split at or behind `left` is among those that the loop tries.
splits_from-complete :
    (P : Word × Word → Type 0) (left rest middle right : Word)
    → All P (splits_from left rest)
    → middle ++ right ≡ rest
    → right ≢ []
    → P (left ++ middle, right)
unfolding splits_from
splits_from-complete P left [] [] right a e n = absurd (n e)
splits_from-complete P left [] (c ∷ middle) right a e n = cc
splits_from-complete P left (c ∷ rest) [] right a e n = rw (append-nil, e) (a.0)
splits_from-complete P left (c ∷ rest) (b ∷ middle) right a e n =
    let same : b ≡ c = cc in
    let tail_same : middle ++ right ≡ rest = cc in
    let found = splits_from-complete P (left ++ c ∷ []) rest middle right a.1 tail_same n in
    rw same (rw append_assoc at found)

snoc-ne-nil : (left : Word) (c : ℕ) → left ++ c ∷ [] ≢ []
snoc-ne-nil [] c p = cc
snoc-ne-nil (b ∷ left) c p = cc

-- They are splits of the word with two parts that are not empty.
splits_from-Proper :
    (word left rest : Word)
    → left ++ rest ≡ word
    → left ≢ []
    → All (Proper word) (splits_from left rest)
unfolding splits_from
splits_from-Proper word left [] e n = tt
splits_from-Proper word left (c ∷ rest) e n = (
  (e, n, λ p. cc),
  splits_from-Proper word (left ++ c ∷ []) rest (append_assoc left (c ∷ []) rest ∙ e)
      (snoc-ne-nil left c),
)

module _ {E : Type 0} (ctx : Context E) (freq : Word → Option ℕ)
    (counts : (w : Word) → ctx.word_documents_count w ≡ ok (freq w)) where
  -- No split that was tried has a greater score than the one returned.
  best_split_lem :
      (word : Word) (pairs : List (Word × Word)) (best : Best)
      → All (Proper word) pairs
      → Holds freq word best
      → (r : Best) × (best_split ctx pairs best ≡ ok r)
        × Holds freq word r
        × (best_score freq best ≤ best_score freq r)
        × All (λ p. score freq p.0 p.1 ≤ best_score freq r) pairs
  unfolding best_split
  best_split_lem word [] best a h = (best, refl, h, omega arith, tt)
  best_split_lem word ((left, right) ∷ rest) best a h =
      let next = better (score freq left right) left right best in
      let (r, e, hr, le, all) =
        best_split_lem word rest next a.1 (Holds-better freq word left right best a.0 h) in
      let (keeps, beats) = best_score-better freq left right best in
      (r, rw (counts left, counts right) e, hr, omega arith, (omega arith, all))

  -- What the function returns: the best split, or nothing if every split has a part that no
  -- document holds.
  abbrev pub IsBest : Word → Option (Word × Word) → Type 0
  IsBest word none =
      (left right : Word)
      → left ++ right ≡ word
      → left ≢ []
      → right ≢ []
      → score freq left right ≡ 0
  IsBest word (some (l, r)) =
      Proper word (l, r)
      × (0 < score freq l r)
      × ((left right : Word)
          → left ++ right ≡ word
          → left ≢ []
          → right ≢ []
          → score freq left right ≤ score freq l r)

  all_splits :
      (word : Word) (n : ℕ)
      → All (λ p. score freq p.0 p.1 ≤ n) (splits word)
      → (left right : Word) → left ++ right ≡ word
      → left ≢ []
      → right ≢ []
      → score freq left right ≤ n
  unfolding splits
  all_splits [] n a [] right e nl nr = absurd (nl refl)
  all_splits [] n a (c ∷ left) right e nl nr = cc
  all_splits (c ∷ word) n a [] right e nl nr = absurd (nl refl)
  all_splits (c ∷ word) n a (b ∷ left) right e nl nr =
      let same : b ≡ c = cc in
      let rest : left ++ right ≡ word = cc in
      rw same
        (splits_from-complete (λ p. score freq p.0 p.1 ≤ n) (c ∷ []) word left right a rest nr)

  splits-Proper : (word : Word) → All (Proper word) (splits word)
  unfolding splits
  splits-Proper [] = tt
  splits-Proper (c ∷ word) = splits_from-Proper (c ∷ word) (c ∷ []) word refl (λ p. cc)

  finish :
      (word : Word) (best : Best)
      → Holds freq word best
      → All (λ p. score freq p.0 p.1 ≤ best_score freq best) (splits word)
      → IsBest word (forget_freq ctx best)
  unfolding forget_freq
  finish word none h a = λ l r e nl nr. omega (arith, all_splits word 0 a l r e nl nr)
  finish word (some (n, l, r)) h a = (
    (h.0, h.1, h.2),
    omega arith,
    λ l' r' e nl nr. omega (arith, all_splits word n a l' r' e nl nr),
  )

  -- Where the index answers for every word, a split is returned, and it is one with the greatest
  -- score of all splits into two parts that are not empty; nothing is returned exactly if all
  -- scores are 0.
  pub split_best_frequency_lem :
      (word : Word)
      → (r : Option (Word × Word)) × (split_best_frequency ctx word ≡ ok r) × IsBest word r
  unfolding split_best_frequency
  split_best_frequency_lem word =
      let (best, e, h, le, all) = best_split_lem word (splits word) none (splits-Proper word) tt in
      (forget_freq ctx best, rw e, finish word best h all)
