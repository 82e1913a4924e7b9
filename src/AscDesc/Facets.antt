-- ===== src/AscDesc/Facets.antt =====
-- Which fields a facet covers: `is_faceted_by` and `is_faceted` (milli/src/lib.rs).
use milli.Base.{
  Bool, true, false, List, [], ◌∷◌, ◌++◌, Option, none, some, any, ◌==◌, ==_iff, ==_refl, ◌≡◌, refl,
  sym, ap, ap₂, ◌∙◌, ◌↔◌, ◌⊎◌, inl, inr, Bool-cases,
}
use milli.AscDesc.Texts.{Text, strip_prefix}

-- `chars().next().map(|c| c == '.').unwrap_or(true)`.
ends_or_dot : Text → Bool
ends_or_dot [] = true
ends_or_dot (c ∷ rest) = c == b'.'

covers : Option Text → Bool
unfolding ends_or_dot
covers none = false
covers (some rest) = ends_or_dot rest

unfoldable pub is_faceted_by : Text → Text → Bool
unfolding covers strip_prefix
is_faceted_by field facet = covers (strip_prefix field facet)

unfoldable pub is_faceted : Text → List Text → Bool
unfolding is_faceted_by
is_faceted field faceted_fields = any (λ facet. is_faceted_by field facet) faceted_fields

-- The field is the facet, or lies below it.
abbrev pub Below : Text → Text → Type 0
Below field facet = (field ≡ facet) ⊎ ((rest : Text) × (field ≡ facet ++ b'.' ∷ rest))

Below-covers : (field facet : Text) → covers (strip_prefix field facet) ≡ true → Below field facet
unfolding covers ends_or_dot strip_prefix
Below-covers [] [] h = inl refl
Below-covers (c ∷ field) [] h =
    let dot : c ≡ b'.' = (==_iff c b'.').0 h in inr (field, ap (λ k. k ∷ field) dot)
Below-covers [] (p ∷ facet) h = cc
Below-covers (c ∷ field) (p ∷ facet) h = elim (Bool-cases (c == p)) [
  | inr other ↦
      let none_left : covers (strip_prefix (c ∷ field) (p ∷ facet)) ≡ false = rw other refl in cc
  | inl same ↦
      let step : covers (strip_prefix (c ∷ field) (p ∷ facet)) ≡ covers (strip_prefix field facet) =
        rw same refl in
      let at_p : c ≡ p = (==_iff c p).0 same in
      elim (Below-covers field facet (sym step ∙ h)) [
        | inl e ↦ inl (ap₂ (λ k ks. k ∷ ks) at_p e)
        | inr (rest, e) ↦ inr (rest, ap₂ (λ k ks. k ∷ ks) at_p e)
      ]
]

covers-append : (facet rest : Text) → covers (strip_prefix (facet ++ b'.' ∷ rest) facet) ≡ true
unfolding covers ends_or_dot strip_prefix
covers-append [] rest = refl
covers-append (p ∷ facet) rest = rw (==_refl p) (covers-append facet rest)

covers_self : (facet : Text) → covers (strip_prefix facet facet) ≡ true
unfolding covers ends_or_dot strip_prefix
covers_self [] = refl
covers_self (p ∷ facet) = rw (==_refl p) (covers_self facet)

-- A field is covered by a facet exactly if it is the facet or the facet, a dot and more.
pub is_faceted_by_iff :
    (field facet : Text) → (is_faceted_by field facet ≡ true) ↔ Below field facet
unfolding is_faceted_by
is_faceted_by_iff field facet = (Below-covers field facet, back)
  where
    back : Below field facet → covers (strip_prefix field facet) ≡ true
    back (inl same) = rw same (covers_self facet)
    back (inr (rest, same)) = rw same (covers-append facet rest)
