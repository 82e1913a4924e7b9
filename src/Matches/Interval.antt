-- ===== src/Matches/Interval.antt =====
-- The interval of matches around which a text is cropped: `match_interval_score` and
-- `find_best_match_interval`. A score is an i16, given by its value plus 2 ^ 15.
pub mod Fits
use milli.Base.{
  ℕ, zero, suc, ◌+◌, ◌-◌, ◌%◌, ◌^◌, min, Bool, true, false, ◌&&◌, ◌||◌, List, [], ◌∷◌, ◌++◌, Option,
  none, some, take, drop, length, ltb, leb, ◌==◌, if◌then◌else◌,
}
use milli.Bitmap.Numbers.{sort, dedup}
use milli.Matches.{Match, get_elem?}

abbrev pub Score : Type 0
Score = ℕ × ℕ × ℕ

abbrev pub i16 : ℕ → ℕ
i16 n = (n + 2 ^ 15) % 2 ^ 16

join_min : ℕ → Option ℕ → ℕ
join_min n none = n
join_min n (some m) = min n m

unfoldable pub min_id : List ℕ → Option ℕ
unfolding join_min
min_id [] = none
min_id (n ∷ ns) = some (join_min n (min_id ns))

-- `a > b` on the options.
unfoldable pub option_gtb : Option ℕ → Option ℕ → Bool
option_gtb none b = false
option_gtb (some n) none = true
option_gtb (some n) (some m) = ltb m n

-- The loop over the matches and their next ones.
unfoldable pub score_pairs : ℕ → ℕ → List Match → ℕ × ℕ
unfolding option_gtb min_id
score_pairs distance_score order_score [] = (distance_score, order_score)
score_pairs distance_score order_score (m ∷ []) = (distance_score, order_score)
score_pairs distance_score order_score (m ∷ next_match ∷ ms) =
    score_pairs
      ((distance_score + 2 ^ 16 - min 7 (next_match.word_position - m.word_position)) % 2 ^ 16)
      (if option_gtb (min_id next_match.ids) (min_id m.ids)
        then (order_score + 1) % 2 ^ 16
        else order_score)
      (next_match ∷ ms)

unfoldable pub all_ids : List Match → List ℕ
all_ids [] = []
all_ids (m ∷ ms) = m.ids ++ all_ids ms

unfoldable pub match_interval_score : List Match → Score
unfolding score_pairs all_ids
match_interval_score matches =
    let (distance_score, order_score) = score_pairs (2 ^ 15) (2 ^ 15) matches in
    (i16 (length (dedup (sort (all_ids matches)))), distance_score, order_score)

-- `a > b` on scores.
unfoldable pub score_gtb : Score → Score → Bool
score_gtb (u, d, o) (v, e, p) = ltb v u || (u == v && (ltb e d || (d == e && ltb p o)))

-- The variables of the loop.
pub record Search : Type 0 where
  pub best_first : ℕ
  pub best_last : ℕ
  pub best_score : Score
  pub interval_first : ℕ
  pub interval_last : ℕ

-- `matches[first..=last]`.
unfoldable pub interval : ℕ → ℕ → List Match → List Match
interval first last matches = take (suc last - first) (drop first matches)

abbrev position_of : Option Match → ℕ
position_of none = 0
position_of (some m) = m.word_position

-- An index out of range, where the code would panic, gives 0.
unfoldable pub word_at : ℕ → List Match → ℕ
word_at index matches = position_of (get_elem? matches index)

unfoldable pub keep_best : List Match → Search → Search
unfolding match_interval_score score_gtb interval
keep_best matches s =
    let score = match_interval_score (interval s.interval_first s.interval_last matches) in
    if score_gtb score s.best_score
    then record {
      best_first = s.interval_first;
      best_last = s.interval_last;
      best_score = score;
      interval_first = s.interval_first;
      interval_last = s.interval_last;
    }
    else s

-- The loop that advances the start of the interval; the list starts at the interval.
unfoldable pub advance : ℕ → ℕ → ℕ → List Match → ℕ
advance crop_size next_position first [] = first
advance crop_size next_position first (m ∷ ms) =
    let rest = advance crop_size next_position (suc first) ms in
    if leb crop_size (next_position - m.word_position) then rest else first

abbrev pub set_last : ℕ → Search → Search
set_last index s = record {
  best_first = s.best_first;
  best_last = s.best_last;
  best_score = s.best_score;
  interval_first = s.interval_first;
  interval_last = index;
}

abbrev pub set_first : ℕ → Search → Search
set_first first s = record {
  best_first = s.best_first;
  best_last = s.best_last;
  best_score = s.best_score;
  interval_first = first;
  interval_last = s.interval_last;
}

-- One round, for the next match at `index`.
unfoldable pub next_interval : ℕ → List Match → ℕ → Match → Search → Search
unfolding word_at keep_best advance
next_interval crop_size matches index next_match s = set_last index (
    if leb crop_size (next_match.word_position - word_at s.interval_first matches)
    then set_first
        (advance crop_size next_match.word_position s.interval_first
          (drop s.interval_first matches))
        (keep_best matches s)
    else s)

unfoldable pub intervals : ℕ → List Match → ℕ → List Match → Search → Search
unfolding next_interval
intervals crop_size matches index [] s = s
intervals crop_size matches index (next_match ∷ rest) s =
    intervals crop_size matches (suc index) rest
      (next_interval crop_size matches index next_match s)

unfoldable pub search_start : List Match → Search
unfolding match_interval_score interval
search_start matches = record {
  best_first = 0;
  best_last = 0;
  best_score = match_interval_score (interval 0 0 matches);
  interval_first = 0;
  interval_last = 0;
}

unfoldable pub best_search : ℕ → List Match → Search
unfolding intervals search_start keep_best
best_search crop_size matches =
    keep_best matches (intervals crop_size matches 1 (drop 1 matches) (search_start matches))

unfoldable pub find_best_match_interval : ℕ → List Match → List Match
unfolding best_search interval
find_best_match_interval crop_size matches =
    let s = best_search crop_size matches in
    if ltb 1 (length matches) then interval s.best_first s.best_last matches else matches
