-- ===== src/Codec/BigEndian.antt =====
-- Numbers as big-endian bytes, and the order of byte strings, which is the order of the keys.
use milli.Base.{
  ℕ, zero, suc, ◌+◌, ◌*◌, ◌/◌, ◌%◌, ◌^◌, ◌<◌, Bool, true, false, ◌&&◌, ◌||◌, List, [], ◌∷◌, ◌++◌,
  length, length-append, ltb, ◌==◌, if◌then◌else◌, ◌≡◌, refl, sym, ap, ◌∙◌, arith,
}
use native.Mathlib.Nat.{pow-suc}

-- `to_be_bytes` of a number of so many bytes.
unfoldable pub to_be_bytes : ℕ → ℕ → List ℕ
to_be_bytes zero n = []
to_be_bytes (suc k) n = to_be_bytes k (n / 256) ++ n % 256 ∷ []

-- `from_be_bytes`, from a number that is read already.
unfoldable pub read_be_bytes : ℕ → List ℕ → ℕ
read_be_bytes n [] = n
read_be_bytes n (byte ∷ bytes) = read_be_bytes (n * 256 + byte) bytes

-- Byte strings are ordered like words.
unfoldable pub bytes_ltb : List ℕ → List ℕ → Bool
bytes_ltb [] [] = false
bytes_ltb [] (b ∷ ys) = true
bytes_ltb (a ∷ xs) [] = false
bytes_ltb (a ∷ xs) (b ∷ ys) = let rest = bytes_ltb xs ys in ltb a b || (a == b && rest)

pub length-to_be_bytes : (k n : ℕ) → length (to_be_bytes k n) ≡ k
unfolding to_be_bytes
length-to_be_bytes zero n = refl
length-to_be_bytes (suc k) n =
    length-append (to_be_bytes k (n / 256)) (n % 256 ∷ [])
    ∙ omega (arith, length-to_be_bytes k (n / 256))

read_be_bytes-append :
    (n : ℕ) (xs ys : List ℕ) → read_be_bytes n (xs ++ ys) ≡ read_be_bytes (read_be_bytes n xs) ys
unfolding read_be_bytes
read_be_bytes-append n [] ys = refl
read_be_bytes-append n (x ∷ xs) ys = read_be_bytes-append (n * 256 + x) xs ys

smaller : (k n : ℕ) → n < 256 ^ suc k → n / 256 < 256 ^ k
smaller k n h = omega (arith, pow-suc 256 k)

-- A number that fits is read back.
pub read_be_bytes-to_be_bytes : (k n : ℕ) → n < 256 ^ k → read_be_bytes 0 (to_be_bytes k n) ≡ n
unfolding read_be_bytes to_be_bytes
read_be_bytes-to_be_bytes zero n h = omega arith
read_be_bytes-to_be_bytes (suc k) n h =
    read_be_bytes-append 0 (to_be_bytes k (n / 256)) (n % 256 ∷ [])
    ∙ ap (λ m. m * 256 + n % 256) (read_be_bytes-to_be_bytes k (n / 256) (smaller k n h))
    ∙ omega arith

-- The last byte decides between equal ones.
bytes_ltb-last :
    (a b : ℕ) (xs ys : List ℕ)
    → length xs ≡ length ys
    → bytes_ltb (xs ++ a ∷ []) (ys ++ b ∷ [])
      ≡ (if bytes_ltb xs ys then true else if bytes_ltb ys xs then false else ltb a b)
unfolding bytes_ltb
bytes_ltb-last a b [] [] h = ground arith
bytes_ltb-last a b [] (y ∷ ys) h = absurd (omega arith)
bytes_ltb-last a b (x ∷ xs) [] h = absurd (omega arith)
bytes_ltb-last a b (x ∷ xs) (y ∷ ys) h =
    let ih = bytes_ltb-last a b xs ys (omega arith) in ground (arith, ih)

-- The order of the bytes is the order of the numbers.
pub bytes_ltb-to_be_bytes :
    (k a b : ℕ)
    → a < 256 ^ k
    → b < 256 ^ k
    → bytes_ltb (to_be_bytes k a) (to_be_bytes k b) ≡ ltb a b
unfolding to_be_bytes bytes_ltb
bytes_ltb-to_be_bytes zero a b h l = ground arith
bytes_ltb-to_be_bytes (suc k) a b h l =
    bytes_ltb-last (a % 256) (b % 256) (to_be_bytes k (a / 256)) (to_be_bytes k (b / 256))
      (length-to_be_bytes k (a / 256) ∙ sym (length-to_be_bytes k (b / 256)))
    ∙ digits (bytes_ltb (to_be_bytes k (a / 256)) (to_be_bytes k (b / 256)))
        (bytes_ltb (to_be_bytes k (b / 256)) (to_be_bytes k (a / 256)))
        (bytes_ltb-to_be_bytes k (a / 256) (b / 256) (smaller k a h) (smaller k b l))
        (bytes_ltb-to_be_bytes k (b / 256) (a / 256) (smaller k b l) (smaller k a h))
  where
    digits :
        (x y : Bool)
        → x ≡ ltb (a / 256) (b / 256)
        → y ≡ ltb (b / 256) (a / 256)
        → (if x then true else if y then false else ltb (a % 256) (b % 256)) ≡ ltb a b
    digits true y e d = ground arith
    digits false true e d = ground arith
    digits false false e d = ground arith
