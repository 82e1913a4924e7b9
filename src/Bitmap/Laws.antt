-- ===== src/Bitmap/Laws.antt =====
-- Consequences of the interface's laws: the number of elements and emptiness.
use milli.Base.{
  ℕ, true, false, List, [], ◌∷◌, length, ◌==◌, ◌≡◌, refl, sym, ◌∙◌, arith, Bool-cases, inl, inr,
  ==_iff,
}
use milli.Bitmap.{Roaring, IsRoaring}
use milli.Bitmap.Numbers.{elem}

module _ (r : Roaring) (laws : IsRoaring r) where
  open r use {Bitmap, contains, new, len, iter}

  pub len-new : len new ≡ 0
  len-new = omega (
    arith,
    laws.len-iter new,
    none_in (iter new) (λ n. laws.contains-iter new n ∙ laws.contains-new n),
  )
    where
      none_in : (ns : List ℕ) → ((n : ℕ) → elem n ns ≡ false) → length ns ≡ 0
      none_in [] h = refl
      none_in (n ∷ ns) h = ground (arith, h n)

  -- A bitmap without elements holds no number.
  pub empty-contains : (b : Bitmap) → len b ≡ 0 → (n : ℕ) → contains b n ≡ false
  empty-contains b e n =
      sym (laws.contains-iter b n) ∙ none_left (iter b) (omega (arith, laws.len-iter b))
    where
      none_left : (ns : List ℕ) → length ns ≡ 0 → elem n ns ≡ false
      none_left [] h = refl
      none_left (m ∷ ns) h = absurd (omega arith)

  -- A bitmap that holds a number is not empty.
  pub len-contains : (b : Bitmap) (n : ℕ) → contains b n ≡ true → (len b == 0) ≡ false
  len-contains b n h = elim (Bool-cases (len b == 0)) [
    | inr some_in ↦ some_in
    | inl none_in ↦
        let gone : contains b n ≡ false = empty-contains b ((==_iff (len b) 0).0 none_in) n in cc
  ]
