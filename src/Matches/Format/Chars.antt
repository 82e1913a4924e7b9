-- ===== src/Matches/Format/Chars.antt =====
-- The characters of a token, and the end of a highlight.
use milli.Base.{
  ℕ, zero, suc, ◌+◌, ◌-◌, ◌≤◌, Bool, true, false, List, [], ◌∷◌, Option, none, some, take, drop,
  ◌==◌, if◌then◌else◌, ◌≡◌, refl, sym, ap, subst, ◌∙◌, arith, Bool-cases, Option-cases, inl, inr,
}
use milli.Matches.{TextToken, slice}
use milli.Matches.Format.{is_continuation, add_to, char_offset, highlight_byte_index}

-- How many characters start in the bytes.
abbrev pub char_count : List ℕ → ℕ
char_count [] = 0
char_count (byte ∷ bytes) = (if is_continuation byte then 0 else 1) + char_count bytes

-- No character goes on at the front.
abbrev pub starts_char : List ℕ → Bool
starts_char [] = true
starts_char (byte ∷ bytes) = if is_continuation byte then false else true

add_to-some : (n i : ℕ) (o : Option ℕ) → add_to n o ≡ some i → (j : ℕ) × (o ≡ some j) × (i ≡ j + n)
add_to-some n i none e = cc
add_to-some n i (some j) e = (j, refl, cc)

if-true :
    (c : Bool) (x y : Option ℕ) (i : ℕ) → c ≡ true → (if c then x else y) ≡ some i → x ≡ some i
if-true true x y i h e = e
if-true false x y i h e = cc

if-false :
    (c : Bool) (x y : Option ℕ) (i : ℕ) → c ≡ false → (if c then x else y) ≡ some i → y ≡ some i
if-false true x y i h e = cc
if-false false x y i h e = e

drop-nil : (n : ℕ) → drop {A = ℕ} n [] ≡ []
drop-nil zero = refl
drop-nil (suc n) = refl

pub drop-drop : (n k : ℕ) (bytes : List ℕ) → drop k (drop n bytes) ≡ drop (n + k) bytes
drop-drop zero k bytes = ap (λ j. drop j bytes) (omega arith)
drop-drop (suc n) k [] = drop-nil k ∙ sym (drop-nil (suc n + k))
drop-drop (suc n) k (byte ∷ bytes) =
    let one : suc (n + k) ≡ suc n + k = omega arith in
    drop-drop n k bytes ∙ ap (λ j. drop j (byte ∷ bytes)) one

char_offset-le :
    (n k i : ℕ) (bytes : List ℕ)
    → starts_char (drop k bytes) ≡ true
    → n ≤ char_count (take k bytes)
    → char_offset n bytes ≡ some i
    → i ≤ k
unfolding char_offset
char_offset-le n k i [] s h e = cc
char_offset-le n zero i (byte ∷ bytes) s h e = ground arith
char_offset-le n (suc k) i (byte ∷ bytes) s h e = elim (Bool-cases (is_continuation byte)) [
  | inl inside ↦
      let found : add_to 1 (char_offset n bytes) ≡ some i =
        if-true (is_continuation byte) _ _ i inside e in
      let (j, at, same) = add_to-some 1 i (char_offset n bytes) found in
      omega (arith, char_offset-le n k j bytes s (ground arith) at)
  | inr plain ↦
      let found : (if n == 0 then some 0 else add_to 1 (char_offset (n - 1) bytes)) ≡ some i =
        if-false (is_continuation byte) _ _ i plain e in
      elim (Bool-cases (n == 0)) [
        | inl start ↦
            let here : some 0 ≡ some i = if-true (n == 0) _ _ i start found in
            let same : 0 ≡ i = cc in omega arith
        | inr more ↦
            let later : add_to 1 (char_offset (n - 1) bytes) ≡ some i =
              if-false (n == 0) _ _ i more found in
            let (j, at, same) = add_to-some 1 i (char_offset (n - 1) bytes) later in
            omega (arith, char_offset-le (n - 1) k j bytes s (ground arith) at)
      ]
]

-- A match of at most as many characters as its token, which ends where a character does, is
-- highlighted within the token.
pub highlight_byte_index-le :
    (text : List ℕ) (t : TextToken) (match_len : ℕ)
    → t.byte_start ≤ t.byte_end
    → starts_char (drop t.byte_end text) ≡ true
    → match_len ≤ char_count (slice t.byte_start t.byte_end text)
    → (t.byte_start ≤ highlight_byte_index text t match_len)
      × (highlight_byte_index text t match_len ≤ t.byte_end)
unfolding highlight_byte_index
highlight_byte_index-le text t match_len le boundary chars =
    elim (Option-cases (char_offset match_len (drop t.byte_start text))) [
      | inl beyond ↦ rw beyond (le, omega arith)
      | inr (i, found) ↦
          let k = t.byte_end - t.byte_start in
          let here : drop k (drop t.byte_start text) ≡ drop t.byte_end text =
            drop-drop t.byte_start k text ∙ ap (λ n. drop n text) (omega arith) in
          let small : i ≤ k =
            char_offset-le match_len k i (drop t.byte_start text)
              (subst (λ b. starts_char b ≡ true) (sym here) boundary) chars found in
          rw found (omega arith, omega arith)
    ]
