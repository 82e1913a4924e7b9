-- ===== src/QueryTree/Matching/Tokens/Highlight.antt =====
-- `bytes_to_highlight`: how much of a token a prefix of a query covers. Words are lists of
-- characters.
use milli.Base.{
  ℕ, zero, suc, ◌+◌, ◌-◌, ◌*◌, ◌^◌, min, Bool, true, false, ◌&&◌, List, [], ◌∷◌, length, take, ltb,
  ◌==◌, if◌then◌else◌,
}
use milli.QueryTree.{Word}

-- `char::len_utf8`.
unfoldable pub len_utf8 : ℕ → ℕ
len_utf8 c = if ltb c 128 then 1 else if ltb c 2048 then 2 else if ltb c 65536 then 3 else 4

unfoldable pub byte_len : Word → ℕ
byte_len [] = 0
byte_len (c ∷ cs) = len_utf8 c + byte_len cs

unfoldable pub same_word : Word → Word → Bool
same_word [] [] = true
same_word (a ∷ more) (b ∷ bs) = let rest = same_word more bs in (a == b) && rest
same_word _ _ = false

-- `N2Array` over numbers: `buf` holds row after row, and an index outside of it, on which the code
-- panics, gives 0 here.
pub record N2Array : Type 0 where
  pub y_size : ℕ
  pub buf : List ℕ

unfoldable pub zeros : ℕ → List ℕ
zeros zero = []
zeros (suc n) = 0 ∷ zeros n

unfoldable pub get_at : ℕ → List ℕ → ℕ
get_at i [] = 0
get_at zero (v ∷ vs) = v
get_at (suc i) (v ∷ vs) = get_at i vs

unfoldable pub set_at : ℕ → ℕ → List ℕ → List ℕ
set_at i new [] = []
set_at zero new (v ∷ vs) = new ∷ vs
set_at (suc i) new (v ∷ vs) = v ∷ set_at i new vs

unfoldable pub new_array : ℕ → ℕ → N2Array
unfolding zeros
new_array x y = record { y_size = y; buf = zeros (x * y) }

unfoldable pub index : N2Array → ℕ → ℕ → ℕ
unfolding get_at
index a x y = get_at (x * a.y_size + y) a.buf

unfoldable pub index_mut : N2Array → ℕ → ℕ → ℕ → N2Array
unfolding set_at
index_mut a x y v = record { y_size = a.y_size; buf = set_at (x * a.y_size + y) v a.buf }

-- `for i in 0..=n`, by the rounds that are left.
unfoldable pub init_rows : ℕ → ℕ → ℕ → N2Array → N2Array
init_rows inf zero i a = a
init_rows inf (suc rounds) i a =
    init_rows inf rounds (suc i) (index_mut (index_mut a (i + 1) 0 inf) (i + 1) 1 i)

unfoldable pub init_cols : ℕ → ℕ → ℕ → N2Array → N2Array
init_cols inf zero j a = a
init_cols inf (suc rounds) j a =
    init_cols inf rounds (suc j) (index_mut (index_mut a 0 (j + 1) inf) 1 (j + 1) j)

-- `last_row.get(&char_t).unwrap_or(&0)`, the newest row first.
unfoldable pub last_row_of : ℕ → List (ℕ × ℕ) → ℕ
last_row_of c [] = 0
last_row_of c ((d, row) ∷ rows) = if c == d then row else last_row_of c rows

-- The loop over the characters of the target, for one character of the source.
unfoldable pub fill_cols : ℕ → ℕ → List (ℕ × ℕ) → Word → ℕ → ℕ → N2Array → N2Array
unfolding last_row_of
fill_cols char_s row last_row [] col last_match_col a = a
fill_cols char_s row last_row (char_t ∷ target) col last_match_col a =
    let last_match_row = last_row_of char_t last_row in
    let cost : ℕ = if char_s == char_t then 0 else 1 in
    let dist_add = index a row (col + 1) + 1 in
    let dist_del = index a (row + 1) col + 1 in
    let dist_sub = index a row col + cost in
    let dist_trans =
      index a last_match_row last_match_col
      + (row - last_match_row - 1)
      + 1
      + (col - last_match_col - 1) in
    let dist = min (min dist_add dist_del) (min dist_sub dist_trans) in
    fill_cols char_s row last_row target (suc col) (if cost == 0 then col else last_match_col)
      (index_mut a (row + 1) (col + 1) dist)

-- The loop over the characters of the source.
unfoldable pub fill_rows : Word → Word → ℕ → List (ℕ × ℕ) → N2Array → N2Array
fill_rows [] target row last_row a = a
fill_rows (char_s ∷ source) target row last_row a =
    fill_rows source target (suc row) ((char_s, row) ∷ last_row)
      (fill_cols char_s row last_row target 1 0 a)

-- `for x in 0..=m`: the first column of the last row with the least distance.
unfoldable pub find_minimum : ℕ → N2Array → ℕ → ℕ → ℕ × ℕ → ℕ × ℕ
find_minimum n a zero x best = best
find_minimum n a (suc rounds) x (least, at) =
    let dist = index a (n + 1) (x + 1) in
    find_minimum n a rounds (suc x) (if ltb dist least then (dist, x) else (least, at))

unfoldable pub best_column : Word → Word → ℕ
unfolding new_array index_mut init_rows init_cols fill_rows find_minimum
best_column source target =
    let n = length source in
    let m = length target in
    let inf = n + m in
    let start = index_mut (new_array (n + 2) (m + 2)) 0 0 inf in
    let ready = init_cols inf (m + 1) 0 (init_rows inf (n + 1) 0 start) in
    (find_minimum n (fill_rows source target 1 [] ready) (m + 1) 0 (2 ^ 32 - 1, 0)).1

unfoldable pub bytes_to_highlight : Word → Word → ℕ
unfolding byte_len same_word best_column
bytes_to_highlight source target =
    let n = length source in
    let m = length target in
    if n == 0
    then 0
    else if ltb m 3
    then byte_len (take m source)
    else if (n == m) && same_word source target
    then byte_len source
    else byte_len (take (best_column source target) source)
