-- ===== src/Matches/Format.antt =====
-- The text with its matches highlighted, cropped around the best of them: `format`. The text is the
-- list of its UTF-8 bytes.
pub mod Chars
pub mod Text
pub mod Whole
pub mod Cropped
use milli.Base.{
  ℕ, zero, suc, ◌+◌, ◌-◌, Bool, true, false, not, ◌&&◌, List, [], ◌∷◌, ◌++◌, Option, none, some,
  drop, length, ltb, leb, ◌==◌, if◌then◌else◌,
}
use milli.QueryTree.{Word}
use milli.QueryTree.Matching.{MatchingWord, Entry}
use milli.QueryTree.Matching.Tokens.{Distance}
use milli.Matches.{TextToken, Match, FormatOptions, get_elem?, slice}
use milli.Matches.Find.{compute_matches}
use milli.Matches.Interval.{find_best_match_interval}
use milli.Matches.Crop.{crop_bounds}

-- A byte that does not start a character.
abbrev pub is_continuation : ℕ → Bool
is_continuation byte = leb 128 byte && ltb byte 192

abbrev pub add_to : ℕ → Option ℕ → Option ℕ
add_to n none = none
add_to n (some i) = some (i + n)

-- `char_indices().enumerate().find(|(i, _)| *i == n)`: the byte at which character `n` starts.
unfoldable pub char_offset : ℕ → List ℕ → Option ℕ
char_offset n [] = none
char_offset n (byte ∷ bytes) =
    let inside = char_offset n bytes in
    let later = char_offset (n - 1) bytes in
    if is_continuation byte then add_to 1 inside else if n == 0 then some 0 else add_to 1 later

abbrev offset_or : ℕ → ℕ → Option ℕ → ℕ
offset_or byte_end byte_start none = byte_end
offset_or byte_end byte_start (some i) = i + byte_start

unfoldable pub highlight_byte_index : List ℕ → TextToken → ℕ → ℕ
unfolding char_offset
highlight_byte_index text t match_len =
    offset_or t.byte_end t.byte_start (char_offset match_len (drop t.byte_start text))

pub record Markers : Type 0 where
  pub crop_marker : List ℕ
  pub highlight_prefix : List ℕ
  pub highlight_suffix : List ℕ

-- `MatcherBuilder`, without the words to match and the tokenizer.
pub record MatcherBuilder : Type 0 where
  pub crop_marker : Option (List ℕ)
  pub highlight_prefix : Option (List ℕ)
  pub highlight_suffix : Option (List ℕ)

-- "…", "<em>" and "</em>".
abbrev default_crop_marker : List ℕ
default_crop_marker = 0xE2 ∷ 0x80 ∷ 0xA6 ∷ []

abbrev default_highlight_prefix : List ℕ
default_highlight_prefix = b'<' ∷ b'e' ∷ b'm' ∷ b'>' ∷ []

abbrev default_highlight_suffix : List ℕ
default_highlight_suffix = b'<' ∷ b'/' ∷ b'e' ∷ b'm' ∷ b'>' ∷ []

abbrev marker_or : List ℕ → Option (List ℕ) → List ℕ
marker_or default none = default
marker_or default (some marker) = marker

unfoldable build : MatcherBuilder → Markers
build b = record {
  crop_marker = marker_or default_crop_marker b.crop_marker;
  highlight_prefix = marker_or default_highlight_prefix b.highlight_prefix;
  highlight_suffix = marker_or default_highlight_suffix b.highlight_suffix;
}

abbrev pub push_if : Bool → List ℕ → List (List ℕ) → List (List ℕ)
push_if true piece pieces = piece ∷ pieces
push_if false piece pieces = pieces

-- One match: the text before it, and the match between its markers.
unfoldable pub highlight_match :
    Markers → List ℕ → ℕ → TextToken → ℕ → List (List ℕ) → List (List ℕ)
unfolding highlight_byte_index
highlight_match markers text byte_index t match_len pieces =
    let highlighted = highlight_byte_index text t match_len in
    push_if (ltb byte_index t.byte_start) (slice byte_index t.byte_start text) (
      markers.highlight_prefix
      ∷ slice t.byte_start highlighted text
      ∷ markers.highlight_suffix
      ∷ push_if (ltb highlighted t.byte_end) (slice highlighted t.byte_end text) pieces)

-- The loop over the matches, and what follows it; a token position out of range, where the code
-- would panic, ends the loop.
unfoldable pub highlight_matches :
    Markers → List ℕ → List TextToken → ℕ → List Match → (ℕ → List (List ℕ)) → List (List ℕ)
unfolding highlight_match
highlight_matches markers text tokens byte_index [] rest = rest byte_index
highlight_matches markers text tokens byte_index (m ∷ ms) rest =
    elim (get_elem? tokens m.token_position) [
      | none ↦ rest byte_index
      | some t ↦
          highlight_match markers text byte_index t m.match_len
            (highlight_matches markers text tokens t.byte_end ms rest)
    ]

abbrev pub is_empty : List ℕ → Bool
is_empty [] = true
is_empty (byte ∷ bytes) = false

-- The text behind the last match, and the marker at the end of a crop.
unfoldable pub push_rest : Markers → List ℕ → ℕ → ℕ → List (List ℕ)
push_rest markers text byte_end byte_index =
    push_if (ltb byte_index byte_end) (slice byte_index byte_end text) (
      push_if (ltb byte_end (length text) && not (is_empty markers.crop_marker)) markers.crop_marker
        [])

unfoldable pub formatted :
    Markers → List ℕ → List TextToken → Bool → ℕ × ℕ → List Match → List (List ℕ)
unfolding highlight_matches push_rest
formatted markers text tokens highlight (byte_start, byte_end) matches =
    push_if (ltb 0 byte_start && not (is_empty markers.crop_marker)) markers.crop_marker (
      if highlight
      then highlight_matches markers text tokens byte_start matches
          (push_rest markers text byte_end)
      else push_rest markers text byte_end byte_start)

abbrev pub concat : List (List ℕ) → List ℕ
concat [] = []
concat (piece ∷ pieces) = piece ++ concat pieces

abbrev pub join_pieces : List ℕ → List (List ℕ) → List ℕ
join_pieces only (piece ∷ []) = only
join_pieces only pieces = concat pieces

-- A crop of no words is no crop.
abbrev pub crop_size_of : Option ℕ → ℕ
crop_size_of none = 0
crop_size_of (some n) = n

unfoldable pub crop_matches : ℕ → List Match → List Match
crop_matches crop_size matches =
    if ltb 0 crop_size then find_best_match_interval crop_size matches else matches

unfoldable pub format_bounds : ℕ → List TextToken → List Match → ℕ → ℕ × ℕ
format_bounds text_len tokens matches crop_size =
    if ltb 0 crop_size then crop_bounds text_len tokens matches crop_size else (0, text_len)

unfoldable pub format_between :
    Markers → List ℕ → List TextToken → Bool → ℕ × ℕ → List Match → List ℕ
unfolding formatted
format_between markers text tokens highlight bounds matches =
    join_pieces (slice bounds.0 bounds.1 text)
      (formatted markers text tokens highlight bounds matches)

abbrev pub is_none : Option ℕ → Bool
is_none none = true
is_none (some n) = false

module _ (eval : MatchingWord → Word → Distance) (matching_words : List Entry) where
  unfoldable pub format_matches : Markers → List ℕ → List TextToken → Bool → ℕ → List Match → List ℕ
  unfolding crop_matches format_bounds format_between
  format_matches markers text tokens highlight crop_size matches =
      let best = crop_matches crop_size matches in
      format_between markers text tokens highlight
        (format_bounds (length text) tokens best crop_size) best

  unfoldable pub format : Markers → List ℕ → List TextToken → FormatOptions → List ℕ
  unfolding format_matches
  format markers text tokens options =
      if not options.highlight && is_none options.crop
      then text
      else format_matches markers text tokens options.highlight (crop_size_of options.crop)
          (compute_matches eval matching_words tokens)
