-- ===== src/Matches/Format/Whole.antt =====
-- Formatting a text without a crop.
use milli.Base.{
  ℕ, zero, suc, ◌-◌, ◌≤◌, ◌<◌, Bool, true, false, not, ◌&&◌, List, [], ◌∷◌, some, All, take, drop,
  length, if◌then◌else◌, ◌≡◌, refl, sym, ap, subst, ◌∙◌, arith,
}
use milli.QueryTree.{Word}
use milli.QueryTree.Matching.{MatchingWord, Entry}
use milli.QueryTree.Matching.Tokens.{Distance}
use milli.Matches.{TextToken, Match, FormatOptions, get_elem?, slice}
use milli.Matches.Find.{compute_matches}
use milli.Matches.Find.Order.{places, Ascending}
use milli.Matches.Find.Places.{compute_matches-Ascending}
use milli.Matches.Find.Lengths.{HasLength, compute_matches-HasLength}
use milli.Matches.Format.{
  crop_matches, format_bounds, crop_size_of, format_matches, format, is_none,
}
use milli.Matches.Format.Chars.{char_count, starts_char, highlight_byte_index-le}
use milli.Matches.Format.Text.{bare, IsMarked, last_end, shown_end, format_between-bare}

module _ (text : List ℕ) where
  -- A token ends where a character does, and no length that it gives is longer than its characters.
  abbrev pub IsToken : TextToken → Type 0
  IsToken t =
      (t.byte_start ≤ t.byte_end)
      × (starts_char (drop t.byte_end text) ≡ true)
      × ((n : ℕ) → t.token.original_length n ≤ char_count (slice t.byte_start t.byte_end text))

  -- What the tokenizer gives for the text: tokens one behind the other.
  abbrev pub AreTokens : ℕ → List TextToken → Type 0
  AreTokens low [] = low ≤ length text
  AreTokens low (t ∷ tokens) = (low ≤ t.byte_start) × IsToken t × AreTokens t.byte_end tokens

  AreTokens-length : (low : ℕ) (tokens : List TextToken) → AreTokens low tokens → low ≤ length text
  AreTokens-length low [] h = h
  AreTokens-length low (t ∷ tokens) h =
      omega (arith, AreTokens-length t.byte_end tokens h.2, h.0, h.1.0)

  pub IsToken-get_elem? :
      (low i : ℕ) (tokens : List TextToken) (t : TextToken)
      → AreTokens low tokens
      → get_elem? tokens i ≡ some t
      → (low ≤ t.byte_start) × IsToken t × (t.byte_end ≤ length text)
  IsToken-get_elem? low i [] t h e = cc
  IsToken-get_elem? low zero (u ∷ tokens) t h e =
      let same : u ≡ t = cc in
      subst (λ (k : TextToken). (low ≤ k.byte_start) × IsToken k × (k.byte_end ≤ length text)) same
        (h.0, h.1, AreTokens-length u.byte_end tokens h.2)
  IsToken-get_elem? low (suc i) (u ∷ tokens) t h e =
      let (le, token, end) = IsToken-get_elem? u.byte_end i tokens t h.2 e in
      (omega (arith, h.0, h.1.0), token, end)

  pub token_before :
      (low i j : ℕ) (tokens : List TextToken) (t u : TextToken)
      → AreTokens low tokens
      → i < j
      → get_elem? tokens i ≡ some t
      → get_elem? tokens j ≡ some u
      → t.byte_end ≤ u.byte_start
  token_before low i j [] t u h lt e k = cc
  token_before low i zero (v ∷ tokens) t u h lt e k = absurd (omega arith)
  token_before low zero (suc j) (v ∷ tokens) t u h lt e k =
      let same : v ≡ t = cc in
      subst (λ (x : TextToken). x.byte_end ≤ u.byte_start) same
        (IsToken-get_elem? v.byte_end j tokens u h.2 k).0
  token_before low (suc i) (suc j) (v ∷ tokens) t u h lt e k =
      token_before v.byte_end i j tokens t u h.2 (omega arith) e k

  module _ (tokens : List TextToken) (valid : AreTokens 0 tokens) where
    -- The tokens of the matches start at or behind a byte.
    abbrev pub Above : ℕ → List Match → Type 0
    Above low ms =
        All
          (λ (m : Match).
            (u : TextToken) → get_elem? tokens m.token_position ≡ some u → low ≤ u.byte_start)
          ms

    pub Above-later :
        (m : Match) (t : TextToken) (ms : List Match)
        → get_elem? tokens m.token_position ≡ some t
        → All (λ q. (m.token_position < q.0) × (m.word_position < q.1)) (places ms)
        → Above t.byte_end ms
    Above-later m t [] at later = tt
    Above-later m t (n ∷ ms) at later = (
      λ u e. token_before 0 m.token_position n.token_position tokens t u valid later.0.0 at e,
      Above-later m t ms at later.1,
    )

    pub IsMarked-Above :
        (low : ℕ) (ms : List Match)
        → Above low ms
        → Ascending (places ms)
        → All (HasLength tokens) ms
        → IsMarked text tokens low ms
    IsMarked-Above low [] above asc lengths = tt
    IsMarked-Above low (m ∷ ms) above asc lengths =
        let (t, at, (n, len)) = lengths.0 in
        let (ge, token, end) = IsToken-get_elem? 0 m.token_position tokens t valid at in
        let chars : m.match_len ≤ char_count (slice t.byte_start t.byte_end text) =
          omega (arith, len, token.2 n) in
        let (from, to) = highlight_byte_index-le text t m.match_len token.0 token.1 chars in
        (
          t,
          at,
          above.0 t at,
          from,
          to,
          IsMarked-Above t.byte_end ms (Above-later m t ms at asc.0) asc.1 lengths.1,
        )

    last_end-length :
        (low : ℕ) (ms : List Match)
        → low ≤ length text
        → IsMarked text tokens low ms
        → last_end text tokens low ms ≤ length text
    last_end-length low [] le h = le
    last_end-length low (m ∷ ms) le (t, at, h₀, h₁, h₂, more) = rw at (
        last_end-length t.byte_end ms (IsToken-get_elem? 0 m.token_position tokens t valid at).2
          more)

  take-length : (bytes : List ℕ) → take (length bytes) bytes ≡ bytes
  take-length [] = refl
  take-length (byte ∷ bytes) = ap (λ rest. byte ∷ rest) (take-length bytes)

  slice-whole : (n : ℕ) → n ≡ length text → slice 0 n text ≡ text
  slice-whole n e =
      let whole : n - 0 ≡ length text = omega (arith, e) in
      ap (λ k. take k text) whole ∙ take-length text

  All-above :
      (tokens : List TextToken) (ms : List Match)
      → AreTokens 0 tokens
      → All
          (λ (m : Match).
            (u : TextToken) → get_elem? tokens m.token_position ≡ some u → 0 ≤ u.byte_start)
          ms
  All-above tokens [] valid = tt
  All-above tokens (m ∷ ms) valid = (λ u e. omega arith, All-above tokens ms valid)

  whole_end :
      (tokens : List TextToken) (highlight : Bool) (ms : List Match)
      → AreTokens 0 tokens
      → IsMarked text tokens 0 ms
      → shown_end text tokens highlight (0, length text) ms ≡ length text
  whole_end tokens false ms valid h = refl
  whole_end tokens true ms valid h =
      omega (arith, last_end-length tokens valid 0 ms (omega arith) h)

  module _ (eval : MatchingWord → Word → Distance) (matching_words : List Entry) where
    format_matches-text :
        (tokens : List TextToken) (highlight : Bool) (crop_size : ℕ) (ms : List Match)
        → crop_size ≡ 0
        → AreTokens 0 tokens
        → IsMarked text tokens 0 ms
        → format_matches eval matching_words bare text tokens highlight crop_size ms ≡ text
    unfolding format_matches crop_matches format_bounds
    format_matches-text tokens highlight crop_size ms none_cut valid h =
        subst (λ n. format_matches eval matching_words bare text tokens highlight n ms ≡ text)
          (sym none_cut)
          (format_between-bare text tokens highlight (0, length text) ms h
            ∙ slice-whole (shown_end text tokens highlight (0, length text) ms)
                (whole_end tokens highlight ms valid h))

    either : (c : Bool) (x : List ℕ) → x ≡ text → (if c then text else x) ≡ text
    either true x h = refl
    either false x h = h

    -- Where the tokenizer gives tokens of the text in order, each ending where a character does and
    -- giving no length beyond its characters: without a crop, and with empty markers, formatting gives
    -- the text back, highlighted or not.
    pub format-text :
        (tokens : List TextToken) (options : FormatOptions)
        → AreTokens 0 tokens
        → crop_size_of options.crop ≡ 0
        → format eval matching_words bare text tokens options ≡ text
    unfolding format
    format-text tokens options valid none_cut =
        let ms = compute_matches eval matching_words tokens in
        let marked =
          IsMarked-Above tokens valid 0 ms (All-above tokens ms valid)
            (compute_matches-Ascending eval matching_words tokens).0
            (compute_matches-HasLength eval matching_words tokens) in
        either (not options.highlight && is_none options.crop)
          (format_matches eval matching_words bare text tokens options.highlight
            (crop_size_of options.crop) ms)
          (format_matches-text tokens options.highlight (crop_size_of options.crop) ms none_cut
            valid marked)
