-- ===== src/Matches/Format/Text.antt =====
-- The pieces of a formatted text without markers.
use milli.Base.{
  ℕ, zero, suc, ◌+◌, ◌-◌, ◌≤◌, max, Bool, true, false, ◌&&◌, List, [], ◌∷◌, ◌++◌, Option, none,
  some, take, drop, length, ltb, leb, if◌then◌else◌, ◌≡◌, refl, sym, ap, ◌∙◌, arith, Bool-cases,
  inl, inr, append_assoc, append-nil,
}
use milli.Matches.{TextToken, Match, get_elem?, slice}
use milli.Matches.Format.{
  Markers, push_if, highlight_match, highlight_matches, highlight_byte_index, push_rest, formatted,
  concat, join_pieces, format_between,
}
use milli.Matches.Format.Chars.{drop-drop}

-- Empty markers.
abbrev pub bare : Markers
bare = record { crop_marker = []; highlight_prefix = []; highlight_suffix = [] }

take-nil : (n : ℕ) → take {A = ℕ} n [] ≡ []
take-nil zero = refl
take-nil (suc n) = refl

take-join : (k l : ℕ) (bytes : List ℕ) → take k bytes ++ take l (drop k bytes) ≡ take (k + l) bytes
take-join zero l bytes = ap (λ j. take j bytes) (omega arith)
take-join (suc k) l [] = take-nil l ∙ sym (take-nil (suc k + l))
take-join (suc k) l (byte ∷ bytes) =
    let one : suc (k + l) ≡ suc k + l = omega arith in
    ap (λ rest. byte ∷ rest) (take-join k l bytes) ∙ ap (λ j. take j (byte ∷ bytes)) one

-- Slices that meet join.
pub slice-join :
    (a b c : ℕ) (text : List ℕ) → a ≤ b → b ≤ c → slice a b text ++ slice b c text ≡ slice a c text
slice-join a b c text h k =
    let later : drop b text ≡ drop (b - a) (drop a text) =
      ap (λ n. drop n text) (omega arith) ∙ sym (drop-drop a (b - a) text) in
    let whole : b - a + (c - b) ≡ c - a = omega arith in
    ap (λ bytes. slice a b text ++ take (c - b) bytes) later
    ∙ take-join (b - a) (c - b) (drop a text)
    ∙ ap (λ n. take n (drop a text)) whole

slice_none : (a b : ℕ) (text : List ℕ) → b ≤ a → slice a b text ≡ []
slice_none a b text h = let e : b - a ≡ 0 = omega arith in rw e refl

concat-push_slice :
    (a b : ℕ) (text : List ℕ) (pieces : List (List ℕ))
    → concat (push_if (ltb a b) (slice a b text) pieces) ≡ slice a b text ++ concat pieces
concat-push_slice a b text pieces = elim (Bool-cases (ltb a b)) [
  | inl more ↦ rw more refl
  | inr done ↦ rw (done, slice_none a b text (ground arith)) refl
]

module _ (text : List ℕ) (tokens : List TextToken) where
  -- Matches one behind the other from a byte on, each highlighted within its token.
  abbrev pub IsMarked : ℕ → List Match → Type 0
  IsMarked low [] = Unit
  IsMarked low (m ∷ ms) =
      (t : TextToken) × (get_elem? tokens m.token_position ≡ some t)
      × (low ≤ t.byte_start)
      × (t.byte_start ≤ highlight_byte_index text t m.match_len)
      × (highlight_byte_index text t m.match_len ≤ t.byte_end)
      × IsMarked t.byte_end ms

  abbrev end_or : ℕ → Option TextToken → ℕ
  end_or low none = low
  end_or low (some t) = t.byte_end

  -- Where the last match ends.
  abbrev pub last_end : ℕ → List Match → ℕ
  last_end low [] = low
  last_end low (m ∷ ms) = last_end (end_or low (get_elem? tokens m.token_position)) ms

  last_end-le : (low : ℕ) (ms : List Match) → IsMarked low ms → low ≤ last_end low ms
  last_end-le low [] h = omega arith
  last_end-le low (m ∷ ms) (t, at, le, h₁, h₂, more) =
      rw at (omega (arith, last_end-le t.byte_end ms more))

  concat-highlight_match :
      (low match_len : ℕ) (t : TextToken) (pieces : List (List ℕ))
      → low ≤ t.byte_start
      → t.byte_start ≤ highlight_byte_index text t match_len
      → highlight_byte_index text t match_len ≤ t.byte_end
      → concat (highlight_match bare text low t match_len pieces)
        ≡ slice low t.byte_end text ++ concat pieces
  unfolding highlight_match
  concat-highlight_match low match_len t pieces h₀ h₁ h₂ =
      let mid = highlight_byte_index text t match_len in
      let tail : slice t.byte_start mid text ++ (slice mid t.byte_end text ++ concat pieces)
          ≡ slice t.byte_start t.byte_end text ++ concat pieces =
        sym (append_assoc (slice t.byte_start mid text) (slice mid t.byte_end text) (concat pieces))
        ∙ ap (λ k. k ++ concat pieces) (slice-join t.byte_start mid t.byte_end text h₁ h₂) in
      concat-push_slice low t.byte_start text (
        []
        ∷ slice t.byte_start mid text
        ∷ []
        ∷ push_if (ltb mid t.byte_end) (slice mid t.byte_end text) pieces)
      ∙ ap (λ k. slice low t.byte_start text ++ (slice t.byte_start mid text ++ k))
          (concat-push_slice mid t.byte_end text pieces)
      ∙ ap (λ k. slice low t.byte_start text ++ k) tail
      ∙ sym (
          append_assoc (slice low t.byte_start text) (slice t.byte_start t.byte_end text)
            (concat pieces))
      ∙ ap (λ k. k ++ concat pieces) (slice-join low t.byte_start t.byte_end text h₀ (omega arith))

  concat-highlight_matches :
      (low : ℕ) (ms : List Match) (rest : ℕ → List (List ℕ))
      → IsMarked low ms
      → concat (highlight_matches bare text tokens low ms rest)
        ≡ slice low (last_end low ms) text ++ concat (rest (last_end low ms))
  unfolding highlight_matches
  concat-highlight_matches low [] rest h =
      ap (λ k. k ++ concat (rest low)) (sym (slice_none low low text (omega arith)))
  concat-highlight_matches low (m ∷ ms) rest (t, at, le, h₁, h₂, more) =
      let pieces = highlight_matches bare text tokens t.byte_end ms rest in
      let last = last_end t.byte_end ms in
      rw (at, highlight_matches)
        (concat-highlight_match low m.match_len t pieces le h₁ h₂
          ∙ ap (λ k. slice low t.byte_end text ++ k)
              (concat-highlight_matches t.byte_end ms rest more)
          ∙ sym (
              append_assoc (slice low t.byte_end text) (slice t.byte_end last text)
                (concat (rest last)))
          ∙ ap (λ k. k ++ concat (rest last))
              (slice-join low t.byte_end last text (omega arith) (last_end-le t.byte_end ms more)))

  concat-push_rest :
      (byte_end byte_index : ℕ)
      → concat (push_rest bare text byte_end byte_index) ≡ slice byte_index byte_end text
  unfolding push_rest
  concat-push_rest byte_end byte_index =
      concat-push_slice byte_index byte_end text
        (push_if (ltb byte_end (length text) && false) [] [])
      ∙ ap (λ k. slice byte_index byte_end text ++ k)
          (nothing (ltb byte_end (length text) && false))
      ∙ append-nil (slice byte_index byte_end text)
    where
      nothing : (c : Bool) → concat (push_if c [] []) ≡ []
      nothing true = refl
      nothing false = refl

  slice-max :
      (low mid high : ℕ)
      → low ≤ mid
      → slice low mid text ++ slice mid high text ≡ slice low (max mid high) text
  slice-max low mid high h = elim (Bool-cases (leb mid high)) [
    | inl up ↦
        let le : mid ≤ high = ground arith in
        let most : max mid high ≡ high = omega arith in rw most (slice-join low mid high text h le)
    | inr down ↦
        let le : high ≤ mid = ground arith in
        let most : max mid high ≡ mid = omega arith in
        rw (most, slice_none mid high text le) (append-nil (slice low mid text))
  ]

  -- The bytes that are shown: a highlight can end behind the crop.
  abbrev pub shown_end : Bool → ℕ × ℕ → List Match → ℕ
  shown_end highlight (byte_start, byte_end) ms =
      if highlight then max (last_end byte_start ms) byte_end else byte_end

  concat-highlighted :
      (byte_start byte_end : ℕ) (ms : List Match)
      → IsMarked byte_start ms
      → concat (highlight_matches bare text tokens byte_start ms (push_rest bare text byte_end))
        ≡ slice byte_start (max (last_end byte_start ms) byte_end) text
  concat-highlighted byte_start byte_end ms h =
      concat-highlight_matches byte_start ms (push_rest bare text byte_end) h
      ∙ ap (λ k. slice byte_start (last_end byte_start ms) text ++ k)
          (concat-push_rest byte_end (last_end byte_start ms))
      ∙ slice-max byte_start (last_end byte_start ms) byte_end (last_end-le byte_start ms h)

  plain_pieces :
      (byte_start byte_end : ℕ)
      → join_pieces (slice byte_start byte_end text) (push_rest bare text byte_end byte_start)
        ≡ slice byte_start byte_end text
  unfolding push_rest
  plain_pieces byte_start byte_end = elim (Bool-cases (ltb byte_start byte_end)) [
    | inl some_text ↦ elim (Bool-cases (ltb byte_end (length text) && false)) [
      | inl c ↦ rw (some_text, c) (append-nil (slice byte_start byte_end text))
      | inr c ↦ rw (some_text, c) refl
    ]
    | inr no_text ↦
        let empty = slice_none byte_start byte_end text (ground arith) in
        elim (Bool-cases (ltb byte_end (length text) && false)) [
          | inl c ↦ rw (no_text, c) refl
          | inr c ↦ rw (no_text, c) (sym empty)
        ]
  ]

  -- A highlighted match is never the only piece.
  join_pieces-highlight_match :
      (only : List ℕ) (low match_len : ℕ) (t : TextToken) (pieces : List (List ℕ))
      → join_pieces only (highlight_match bare text low t match_len pieces)
        ≡ concat (highlight_match bare text low t match_len pieces)
  unfolding highlight_match
  join_pieces-highlight_match only low match_len t pieces =
      elim (Bool-cases (ltb low t.byte_start)) [ inl gap ↦ rw gap refl | inr close ↦ rw close refl ]

  join_pieces-highlighted :
      (only : List ℕ) (byte_start : ℕ) (m : Match) (ms : List Match) (rest : ℕ → List (List ℕ))
      → IsMarked byte_start (m ∷ ms)
      → join_pieces only (highlight_matches bare text tokens byte_start (m ∷ ms) rest)
        ≡ concat (highlight_matches bare text tokens byte_start (m ∷ ms) rest)
  unfolding highlight_matches
  join_pieces-highlighted only byte_start m ms rest (t, at, h₀, h₁, h₂, more) =
      rw (at, highlight_matches)
        (join_pieces-highlight_match only byte_start m.match_len t
          (highlight_matches bare text tokens t.byte_end ms rest))

  unmarked :
      (highlight : Bool) (bounds : ℕ × ℕ) (ms : List Match)
      → formatted bare text tokens highlight bounds ms ≡ (
          if highlight
          then highlight_matches bare text tokens bounds.0 ms (push_rest bare text bounds.1)
          else push_rest bare text bounds.1 bounds.0)
  unfolding formatted
  unmarked highlight bounds ms = elim (Bool-cases (ltb 0 bounds.0)) [
    | inl cut ↦ rw cut refl
    | inr whole ↦ rw whole refl
  ]

  highlighted_pieces :
      (bounds : ℕ × ℕ) (ms : List Match)
      → IsMarked bounds.0 ms
      → join_pieces
          (slice bounds.0 bounds.1 text)
          (highlight_matches bare text tokens bounds.0 ms (push_rest bare text bounds.1))
        ≡ slice bounds.0 (max (last_end bounds.0 ms) bounds.1) text
  unfolding highlight_matches
  highlighted_pieces (low, high) [] h =
      plain_pieces low high
      ∙ ap (λ k. k ++ slice low high text) (sym (slice_none low low text (omega arith)))
      ∙ slice-max low low high (omega arith)
  highlighted_pieces (low, high) (m ∷ ms) h =
      join_pieces-highlighted (slice low high text) low m ms (push_rest bare text high) h
      ∙ concat-highlighted low high (m ∷ ms) h

  -- With empty markers, formatting gives the text between the bounds, and up to the end of the last
  -- highlight.
  pub format_between-bare :
      (highlight : Bool) (bounds : ℕ × ℕ) (ms : List Match)
      → IsMarked bounds.0 ms
      → format_between bare text tokens highlight bounds ms
        ≡ slice bounds.0 (shown_end highlight bounds ms) text
  unfolding format_between
  format_between-bare true bounds ms h =
      ap (λ k. join_pieces (slice bounds.0 bounds.1 text) k) (unmarked true bounds ms)
      ∙ highlighted_pieces bounds ms h
  format_between-bare false bounds ms h =
      ap (λ k. join_pieces (slice bounds.0 bounds.1 text) k) (unmarked false bounds ms)
      ∙ plain_pieces bounds.0 bounds.1
