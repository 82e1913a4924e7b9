-- ===== src/Facet/Evaluate/Levels.antt =====
-- The highest level of a field that has an entry.
use milli.Base.{
  ℕ, zero, suc, ◌≤◌, ◌<◌, List, [], ◌∷◌, none, some, leb, ◌≡◌, refl, sym, ◌∙◌, arith, Bool-cases,
  ◌⊎◌, inl, inr,
}
use milli.Bitmap.{Roaring}
use milli.Facet.{Entry}
use milli.Facet.Evaluate.{Texts, Index, biggest_level}

pub List-cases :
    {A : Type 0} → (es : List A) → (es ≡ []) ⊎ ((f : A) × (fs : List A) × (es ≡ f ∷ fs))
List-cases [] = inl refl
List-cases (f ∷ fs) = inr (f, fs, refl)

module _ (r : Roaring) {T : Type 0} (t : Texts T) (index : Index r) where
  open r use {Bitmap}

  biggest_level-empty :
      (db : ℕ → List (Entry Bitmap)) (k : ℕ)
      → db k ≡ []
      → biggest_level r t index db (suc k) ≡ biggest_level r t index db k
  unfolding biggest_level
  biggest_level-empty db k h = rw (h, biggest_level) refl

  biggest_level-full :
      (db : ℕ → List (Entry Bitmap)) (k : ℕ) (f : Entry Bitmap) (fs : List (Entry Bitmap))
      → db k ≡ f ∷ fs
      → biggest_level r t index db (suc k) ≡ some k
  unfolding biggest_level
  biggest_level-full db k f fs h = rw (h, biggest_level) refl

  pub biggest_level-some :
      (db : ℕ → List (Entry Bitmap)) (top levels level : ℕ)
      → ((k : ℕ) → top < k → db k ≡ [])
      → biggest_level r t index db levels ≡ some level
      → level ≤ top
  unfolding biggest_level
  biggest_level-some db top zero level over e = cc
  biggest_level-some db top (suc k) level over e = elim (List-cases (db k)) [
    | inl nothing ↦
        biggest_level-some db top k level over (sym (biggest_level-empty db k nothing) ∙ e)
    | inr (f, fs, full) ↦
        let same : some k ≡ some level = sym (biggest_level-full db k f fs full) ∙ e in
        let at : k ≡ level = cc in
        elim (Bool-cases (leb k top)) [
          | inl small ↦ ground arith
          | inr large ↦ let gone : db k ≡ [] = over k (ground arith) in cc
        ]
  ]

  pub biggest_level-none :
      (db : ℕ → List (Entry Bitmap)) (levels : ℕ)
      → biggest_level r t index db (suc levels) ≡ none
      → db 0 ≡ []
  biggest_level-none db zero e = elim (List-cases (db 0)) [
    | inl nothing ↦ nothing
    | inr (f, fs, full) ↦
        let found : biggest_level r t index db 1 ≡ some 0 = biggest_level-full db 0 f fs full in cc
  ]
  biggest_level-none db (suc k) e = elim (List-cases (db (suc k))) [
    | inl nothing ↦ biggest_level-none db k (sym (biggest_level-empty db (suc k) nothing) ∙ e)
    | inr (f, fs, full) ↦
        let found : biggest_level r t index db (suc (suc k)) ≡ some (suc k) =
          biggest_level-full db (suc k) f fs full in
        cc
  ]
