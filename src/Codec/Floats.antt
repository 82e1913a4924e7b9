-- ===== src/Codec/Floats.antt =====
-- The bytes by which an f64 is ordered in a key: `f64_into_bytes` (milli/src/facet/
-- value_encoding.rs). An f64 is the number of its 64 bits.
use milli.Base.{
  ℕ, zero, suc, ◌+◌, ◌-◌, ◌*◌, ◌/◌, ◌%◌, ◌^◌, ◌<◌, Bool, true, false, not, ◌&&◌, List, [], ◌∷◌,
  ◌++◌, Option, none, some, length, ltb, leb, ◌==◌, if◌then◌else◌, ◌≡◌, refl, ap, ap₂, ◌∙◌, arith,
  Bool-cases, inl, inr,
}
use milli.Codec.BigEndian.{to_be_bytes, bytes_ltb, length-to_be_bytes, bytes_ltb-to_be_bytes}
use native.Mathlib.Nat.{pow-suc}

abbrev pub is_finite : ℕ → Bool
is_finite bits = not (bits / 2 ^ 52 % 2 ^ 11 == 2047)

-- The sign bit, and the other bits.
abbrev pub is_negative : ℕ → Bool
is_negative bits = leb (2 ^ 63) bits

abbrev pub magnitude : ℕ → ℕ
magnitude bits = bits % 2 ^ 63

unfoldable pub xor_first_bit : List ℕ → List ℕ
xor_first_bit [] = []
xor_first_bit (byte ∷ bytes) = (byte + 128) % 256 ∷ bytes

unfoldable pub xor_all_bits : List ℕ → List ℕ
xor_all_bits [] = []
xor_all_bits (byte ∷ bytes) = (255 - byte) ∷ xor_all_bits bytes

unfoldable pub f64_into_bytes : ℕ → Option (List ℕ)
unfolding xor_first_bit xor_all_bits
f64_into_bytes bits =
    if is_finite bits
    then (if magnitude bits == 0
        then some (xor_first_bit (to_be_bytes 8 0))
        else if is_negative bits
        then some (xor_all_bits (to_be_bytes 8 bits))
        else some (xor_first_bit (to_be_bytes 8 bits)))
    else none

-- The number that the bytes stand for.
abbrev pub ordered : ℕ → ℕ
ordered bits =
    if magnitude bits == 0
    then 2 ^ 63
    else if is_negative bits
    then 2 ^ 64 - 1 - bits
    else bits + 2 ^ 63

xor_all_bits-append :
    (xs : List ℕ) (a : ℕ) → xor_all_bits (xs ++ a ∷ []) ≡ xor_all_bits xs ++ (255 - a) ∷ []
unfolding xor_all_bits
xor_all_bits-append [] a = refl
xor_all_bits-append (x ∷ xs) a = ap (λ k. (255 - x) ∷ k) (xor_all_bits-append xs a)

xor_all_bits-to_be_bytes :
    (k n : ℕ) → n < 256 ^ k → xor_all_bits (to_be_bytes k n) ≡ to_be_bytes k (256 ^ k - 1 - n)
unfolding xor_all_bits to_be_bytes
xor_all_bits-to_be_bytes zero n h = refl
xor_all_bits-to_be_bytes (suc k) n h =
    let p = pow-suc 256 k in
    let high : 256 ^ k - 1 - n / 256 ≡ (256 ^ suc k - 1 - n) / 256 = omega (arith, p) in
    let low : 255 - n % 256 ≡ (256 ^ suc k - 1 - n) % 256 = omega (arith, p) in
    xor_all_bits-append (to_be_bytes k (n / 256)) (n % 256)
    ∙ ap₂ (λ xs a. xs ++ a ∷ [])
        (xor_all_bits-to_be_bytes k (n / 256) (omega (arith, p)) ∙ ap (λ m. to_be_bytes k m) high)
        low

xor_first_bit-append :
    (xs : List ℕ) (a : ℕ)
    → 0 < length xs
    → xor_first_bit (xs ++ a ∷ []) ≡ xor_first_bit xs ++ a ∷ []
unfolding xor_first_bit
xor_first_bit-append [] a h = absurd (omega arith)
xor_first_bit-append (x ∷ xs) a h = refl

xor_first_bit-to_be_bytes :
    (k n : ℕ)
    → n < 128 * 256 ^ k
    → xor_first_bit (to_be_bytes (suc k) n) ≡ to_be_bytes (suc k) (n + 128 * 256 ^ k)
unfolding xor_first_bit to_be_bytes
xor_first_bit-to_be_bytes zero n h = ap (λ a. a ∷ []) (omega arith)
xor_first_bit-to_be_bytes (suc k) n h =
    let p = pow-suc 256 k in
    let high : n / 256 + 128 * 256 ^ k ≡ (n + 128 * 256 ^ suc k) / 256 = omega (arith, p) in
    let low : n % 256 ≡ (n + 128 * 256 ^ suc k) % 256 = omega (arith, p) in
    xor_first_bit-append (to_be_bytes (suc k) (n / 256)) (n % 256)
      (omega (arith, length-to_be_bytes (suc k) (n / 256)))
    ∙ ap₂ (λ xs a. xs ++ a ∷ [])
        (xor_first_bit-to_be_bytes k (n / 256) (omega (arith, p))
          ∙ ap (λ m. to_be_bytes (suc k) m) high)
        low

pub f64_into_bytes-ordered :
    (bits : ℕ)
    → bits < 2 ^ 64
    → is_finite bits ≡ true
    → f64_into_bytes bits ≡ some (to_be_bytes 8 (ordered bits))
unfolding f64_into_bytes
f64_into_bytes-ordered bits h finite = elim (Bool-cases (magnitude bits == 0)) [
  | inl null ↦ rw (finite, null) (ap (λ k. some k) (xor_first_bit-to_be_bytes 7 0 (omega arith)))
  | inr other ↦ elim (Bool-cases (is_negative bits)) [
    | inl minus ↦
        rw (finite, other, minus) (ap (λ k. some k) (xor_all_bits-to_be_bytes 8 bits (omega arith)))
    | inr plus ↦
        rw (finite, other, plus)
          (ap (λ k. some k) (xor_first_bit-to_be_bytes 7 bits (ground arith)))
  ]
]

-- The order of two numbers, by their signs and magnitudes.
abbrev pub f64_ltb : ℕ → ℕ → Bool
f64_ltb a b =
    if is_negative a
    then (if is_negative b
        then ltb (magnitude b) (magnitude a)
        else not (magnitude a == 0 && magnitude b == 0))
    else if is_negative b
    then false
    else ltb (magnitude a) (magnitude b)

ordered-ltb : (a b : ℕ) → a < 2 ^ 64 → b < 2 ^ 64 → ltb (ordered a) (ordered b) ≡ f64_ltb a b
ordered-ltb a b h k = ground arith

ordered_fits : (a : ℕ) → a < 2 ^ 64 → ordered a < 256 ^ 8
ordered_fits a h = ground arith

-- Two finite numbers have bytes, and the bytes are in the order of the numbers.
pub f64_into_bytes-order :
    (a b : ℕ)
    → a < 2 ^ 64
    → b < 2 ^ 64
    → is_finite a ≡ true
    → is_finite b ≡ true
    → (x y : List ℕ) × (f64_into_bytes a ≡ some x)
      × (f64_into_bytes b ≡ some y)
      × (bytes_ltb x y ≡ f64_ltb a b)
f64_into_bytes-order a b h k fa fb = (
  to_be_bytes 8 (ordered a),
  to_be_bytes 8 (ordered b),
  f64_into_bytes-ordered a h fa,
  f64_into_bytes-ordered b k fb,
  bytes_ltb-to_be_bytes 8 (ordered a) (ordered b) (ordered_fits a h) (ordered_fits b k)
      ∙ ordered-ltb a b h k,
)
