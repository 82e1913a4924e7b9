-- ===== src/Positions/Distance.antt =====
-- Bounds of the proximity, and what it says of the two words.
use milli.Base.{
  ℕ, zero, suc, ◌+◌, ◌*◌, ◌%◌, ◌^◌, ◌≤◌, ◌<◌, min, ◌≡◌, refl, ◌↔◌, List, [], ◌∷◌, arith, length,
}
use milli.Positions.{max_distance, index_proximity, positions_proximity, path_proximity}

-- The distance is at most 8 and is 0 for one index only; a pair of words met in the reverse order
-- is one further apart, up to 8.
pub index_proximity_laws :
    (lhs rhs : ℕ)
    → (index_proximity lhs rhs ≤ max_distance)
      × ((index_proximity lhs rhs ≡ 0) ↔ (lhs ≡ rhs))
      × (lhs < rhs → index_proximity rhs lhs ≡ min (index_proximity lhs rhs + 1) max_distance)
unfolding index_proximity
index_proximity_laws lhs rhs = (ground arith, (ground arith, ground arith), λ h. ground arith)

pub positions_proximity-le : (p q : ℕ) → positions_proximity p q ≤ max_distance
unfolding positions_proximity
positions_proximity-le p q = ground arith

-- A path of `n + 1` positions has a proximity of `8 * n` at most.
pub path_proximity-le :
    (p : ℕ) (path : List ℕ) → path_proximity (p ∷ path) ≤ max_distance * length path
path_proximity-le p [] = unfold path_proximity in omega arith
path_proximity-le p (q ∷ path) =
    let step : path_proximity (p ∷ q ∷ path) ≡ positions_proximity p q + path_proximity (q ∷ path) =
      unfold path_proximity in refl in
    omega (arith, positions_proximity-le p q, path_proximity-le q path)

-- The positions of `n + 1` words in a row, from `p` on.
abbrev pub consecutive : ℕ → ℕ → List ℕ
consecutive p zero = p ∷ []
consecutive p (suc n) = p ∷ consecutive (p + 1) n

next_proximity :
    (p : ℕ) → p % 2 ^ 16 + 1 < 2 ^ 16 → p + 1 < 2 ^ 32 → positions_proximity p (p + 1) ≡ 1
unfolding positions_proximity
next_proximity p h k = ground arith

path_step :
    (p n : ℕ)
    → path_proximity (consecutive p (suc n))
      ≡ positions_proximity p (p + 1) + path_proximity (consecutive (p + 1) n)
unfolding path_proximity
path_step p zero = refl
path_step p (suc n) = refl

-- Words that follow each other within one attribute have the least proximity for their number:
-- 1 for each step.
pub path_proximity-consecutive :
    (p n : ℕ) → p % 2 ^ 16 + n < 2 ^ 16 → p + n < 2 ^ 32 → path_proximity (consecutive p n) ≡ n
path_proximity-consecutive p zero h k = unfold path_proximity in refl
path_proximity-consecutive p (suc n) h k =
    let one = next_proximity p (omega arith) (omega arith) in
    omega (arith, path_step p n, path_proximity-consecutive (p + 1) n)
