-- ===== src/Matches/Format/Cropped.antt =====
-- Formatting a text with a crop.
use milli.Base.{
  ℕ, zero, suc, ◌+◌, ◌-◌, ◌≤◌, ◌<◌, Bool, true, false, List, [], ◌∷◌, ◌++◌, some, All, All-append,
  take, drop, length, ltb, lt→ltb, ◌≡◌, refl, subst, ◌∙◌, arith, Bool-cases, inl, inr,
}
use milli.QueryTree.{Word}
use milli.QueryTree.Matching.{MatchingWord, Entry}
use milli.QueryTree.Matching.Tokens.{Distance}
use milli.Matches.{TextToken, Match, get_elem?, slice}
use milli.Matches.Find.{compute_matches}
use milli.Matches.Find.Order.{Place, places, Ascending}
use milli.Matches.Find.Places.{compute_matches-Ascending}
use milli.Matches.Find.Lengths.{HasLength, compute_matches-HasLength}
use milli.Matches.Interval.{interval, find_best_match_interval, best_search}
use milli.Matches.Crop.{last_position, reverse, end_of, expand, crop_window, crop_bounds}
use milli.Matches.Crop.Expand.{expand-Takes}
use milli.Matches.Format.{crop_matches, format_bounds, format_between, format_matches, format}
use milli.Matches.Format.Text.{bare, IsMarked, shown_end, format_between-bare}
use milli.Matches.Format.Whole.{AreTokens, IsToken-get_elem?, Above, Above-later, IsMarked-Above}

All-take {κ} : (P : Match → Type κ) (k : ℕ) (ms : List Match) → All P ms → All P (take k ms)
All-take P zero ms a = tt
All-take P (suc k) [] a = tt
All-take P (suc k) (m ∷ ms) a = (a.0, All-take P k ms a.1)

All-drop {κ} : (P : Match → Type κ) (k : ℕ) (ms : List Match) → All P ms → All P (drop k ms)
All-drop P zero ms a = a
All-drop P (suc k) [] a = tt
All-drop P (suc k) (m ∷ ms) a = All-drop P k ms a.1

All-places-take :
    (P : Place → Type 0) (k : ℕ) (ms : List Match) → All P (places ms) → All P (places (take k ms))
All-places-take P zero ms a = tt
All-places-take P (suc k) [] a = tt
All-places-take P (suc k) (m ∷ ms) a = (a.0, All-places-take P k ms a.1)

Ascending-take : (k : ℕ) (ms : List Match) → Ascending (places ms) → Ascending (places (take k ms))
Ascending-take zero ms a = tt
Ascending-take (suc k) [] a = tt
Ascending-take (suc k) (m ∷ ms) a = (
  All-places-take (λ q. (m.token_position < q.0) × (m.word_position < q.1)) k ms a.0,
  Ascending-take k ms a.1,
)

Ascending-drop : (k : ℕ) (ms : List Match) → Ascending (places ms) → Ascending (places (drop k ms))
Ascending-drop zero ms a = a
Ascending-drop (suc k) [] a = tt
Ascending-drop (suc k) (m ∷ ms) a = Ascending-drop k ms a.1

best-Ascending :
    (crop_size : ℕ) (ms : List Match)
    → Ascending (places ms)
    → Ascending (places (find_best_match_interval crop_size ms))
unfolding find_best_match_interval interval
best-Ascending crop_size ms a = elim (Bool-cases (ltb 1 (length ms))) [
  | inl more ↦
      let s = best_search crop_size ms in
      rw more (
        Ascending-take (suc s.best_last - s.best_first) (drop s.best_first ms)
          (Ascending-drop s.best_first ms a))
  | inr one ↦ rw one a
]

All-best :
    (P : Match → Type 0) (crop_size : ℕ) (ms : List Match)
    → All P ms
    → All P (find_best_match_interval crop_size ms)
unfolding find_best_match_interval interval
All-best P crop_size ms a = elim (Bool-cases (ltb 1 (length ms))) [
  | inl more ↦
      let s = best_search crop_size ms in
      rw more (
        All-take P (suc s.best_last - s.best_first) (drop s.best_first ms)
          (All-drop P s.best_first ms a))
  | inr one ↦ rw one a
]

abbrev EndsBy : ℕ → TextToken → Type 0
EndsBy n t = t.byte_end ≤ n

All-reverse :
    (n : ℕ) (tokens : List TextToken) → All (EndsBy n) tokens → All (EndsBy n) (reverse tokens)
All-reverse n [] a = tt
All-reverse n (t ∷ tokens) a =
    All-append (EndsBy n) (reverse tokens) (t ∷ []) (All-reverse n tokens a.1) (a.0, tt)

end_of-behind :
    (n : ℕ) (front back : List TextToken) → All (EndsBy n) (front ++ back) → end_of back ≤ n
end_of-behind n [] [] a = omega arith
end_of-behind n [] (t ∷ back) a = a.0
end_of-behind n (t ∷ front) back a = end_of-behind n front back a.1

module _ (text : List ℕ) where
  take-EndsBy :
      (low i : ℕ) (tokens : List TextToken) (u : TextToken)
      → AreTokens text low tokens
      → get_elem? tokens i ≡ some u
      → All (EndsBy u.byte_start) (take i tokens)
  take-EndsBy low zero tokens u h e = tt
  take-EndsBy low (suc i) [] u h e = tt
  take-EndsBy low (suc i) (t ∷ tokens) u h e = (
    (IsToken-get_elem? text t.byte_end i tokens u h.2 e).0,
    take-EndsBy t.byte_end i tokens u h.2 e,
  )

  -- A crop starts at or before its first match.
  crop_start :
      (tokens : List TextToken) (crop_size : ℕ) (m : Match) (ms : List Match) (u : TextToken)
      → AreTokens text 0 tokens
      → get_elem? tokens m.token_position ≡ some u
      → (crop_bounds (length text) tokens (m ∷ ms) crop_size).0 ≤ u.byte_start
  unfolding crop_bounds crop_window
  crop_start tokens crop_size m ms u valid at =
      let before = reverse (take m.token_position tokens) in
      let after = drop (last_position (λ k. k.token_position) (m ∷ ms)) tokens in
      let remaining = crop_size + m.word_position - last_position (λ k. k.word_position) (m ∷ ms) in
      let t = expand-Takes (length tokens + length tokens) remaining before after in
      let w = expand (length tokens + length tokens) remaining before after in
      end_of-behind u.byte_start t.left w.before_tokens (
        subst (All (EndsBy u.byte_start)) t.before_lem (
          All-reverse u.byte_start (take m.token_position tokens)
            (take-EndsBy 0 m.token_position tokens u valid at)))

  Above-crop :
      (tokens : List TextToken) (valid : AreTokens text 0 tokens) (crop_size : ℕ) (ms : List Match)
      → Ascending (places ms)
      → All (HasLength tokens) ms
      → Above text tokens valid (crop_bounds (length text) tokens ms crop_size).0 ms
  Above-crop tokens valid crop_size [] asc lengths = tt
  Above-crop tokens valid crop_size (m ∷ ms) asc lengths =
      let (t, at, len) = lengths.0 in
      let low = (crop_bounds (length text) tokens (m ∷ ms) crop_size).0 in
      let first : low ≤ t.byte_start = crop_start tokens crop_size m ms t valid at in
      let token = IsToken-get_elem? text 0 m.token_position tokens t valid at in
      (
        λ u e. crop_start tokens crop_size m ms u valid e,
        lower low t.byte_end ms (omega (arith, first, token.1.0))
            (Above-later text tokens valid m t ms at asc.0),
      )
    where
      lower :
          (low high : ℕ) (ns : List Match)
          → low ≤ high
          → Above text tokens valid high ns
          → Above text tokens valid low ns
      lower low high [] h a = tt
      lower low high (n ∷ ns) h a = (λ u e. omega (arith, a.0 u e), lower low high ns h a.1)

  module _ (eval : MatchingWord → Word → Distance) (matching_words : List Entry) where
    abbrev pub best_matches : List TextToken → ℕ → List Match
    best_matches tokens crop_size =
        find_best_match_interval crop_size (compute_matches eval matching_words tokens)

    asked_for :
        (tokens : List TextToken) (highlight : Bool) (crop_size : ℕ)
        → format eval matching_words bare text tokens
            (record { highlight = highlight; crop = some crop_size })
          ≡ format_matches eval matching_words bare text tokens highlight crop_size
              (compute_matches eval matching_words tokens)
    unfolding format
    asked_for tokens true crop_size = refl
    asked_for tokens false crop_size = refl

    format_matches-crop :
        (tokens : List TextToken) (highlight : Bool) (crop_size : ℕ) (ms : List Match)
        → 0 < crop_size
        → format_matches eval matching_words bare text tokens highlight crop_size ms
          ≡ format_between bare text tokens highlight
              (crop_bounds (length text) tokens (find_best_match_interval crop_size ms) crop_size)
              (find_best_match_interval crop_size ms)
    unfolding format_matches crop_matches format_bounds
    format_matches-crop tokens highlight crop_size ms positive =
        let cut : ltb 0 crop_size ≡ true = lt→ltb 0 crop_size positive in rw cut refl

    -- For a crop of at least one word, and tokens as the tokenizer gives them: with empty markers,
    -- formatting gives the text between the bounds of the crop; if it highlights, then up to the end
    -- of the last match that is highlighted, where that lies behind the crop.
    pub format-crop :
        (tokens : List TextToken) (highlight : Bool) (crop_size : ℕ)
        → AreTokens text 0 tokens
        → 0 < crop_size
        → format eval matching_words bare text tokens
            (record { highlight = highlight; crop = some crop_size })
          ≡ slice
              (crop_bounds (length text) tokens (best_matches tokens crop_size) crop_size).0
              (shown_end text tokens highlight
                (crop_bounds (length text) tokens (best_matches tokens crop_size) crop_size)
                (best_matches tokens crop_size))
              text
    format-crop tokens highlight crop_size valid positive =
        let ms = compute_matches eval matching_words tokens in
        let best = best_matches tokens crop_size in
        let bounds = crop_bounds (length text) tokens best crop_size in
        let asc =
          best-Ascending crop_size ms (compute_matches-Ascending eval matching_words tokens).0 in
        let lengths =
          All-best (HasLength tokens) crop_size ms
            (compute_matches-HasLength eval matching_words tokens) in
        let marked : IsMarked text tokens bounds.0 best =
          IsMarked-Above text tokens valid bounds.0 best
            (Above-crop tokens valid crop_size best asc lengths) asc lengths in
        asked_for tokens highlight crop_size
        ∙ format_matches-crop tokens highlight crop_size ms positive
        ∙ format_between-bare text tokens highlight bounds best marked
