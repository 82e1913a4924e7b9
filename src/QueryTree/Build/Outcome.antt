-- ===== src/QueryTree/Build/Outcome.antt =====
-- Postconditions of a build: it never runs out of fuel, and its value has a property.
use milli.Base.{
  ℕ, ◌+◌, ◌<◌, List, [], ◌∷◌, ◌++◌, ◌≡◌, ◌≢◌, refl, subst, arith, length, length-append, All, Bool,
  true,
}
use milli.Base.Results.{Result, ok, err, ◌>>=◌}
use milli.QueryTree.Primitive.{PrimitiveQueryPart}
use milli.QueryTree.Build.{Failure, storage, out_of_fuel, lift, Grouping}

module _ {E : Type 0} where
  -- A storage error is allowed, running out of fuel is not.
  abbrev pub Ensures : {A : Type 0} → (A → Type 0) → Result (Failure E) A → Type 0
  Ensures P (ok a) = P a
  Ensures P (err (storage e)) = Unit
  Ensures P (err out_of_fuel) = ⊥

  pub Ensures-bind :
      {A B : Type 0} (P : A → Type 0) (Q : B → Type 0) (m : Result (Failure E) A)
      (f : A → Result (Failure E) B)
      → Ensures P m
      → ((a : A) → P a → Ensures Q (f a))
      → Ensures Q (m >>= f)
  Ensures-bind P Q (ok a) f h k = k a h
  Ensures-bind P Q (err (storage e)) f h k = tt
  Ensures-bind P Q (err out_of_fuel) f h k = h

  pub Ensures-lift :
      {A : Type 0} (P : A → Type 0) (r : Result E A)
      → ((a : A) → r ≡ ok a → P a)
      → Ensures P (lift r)
  Ensures-lift P (ok a) h = h a refl
  Ensures-lift P (err e) h = tt

  pub Ensures-ne :
      {A : Type 0} (P : A → Type 0) (r : Result (Failure E) A) → Ensures P r → r ≢ err out_of_fuel
  Ensures-ne P (ok a) h = cc
  Ensures-ne P (err (storage e)) h = cc
  Ensures-ne P (err out_of_fuel) h = absurd h

  pub Ensures-ok :
      {A : Type 0} (P : A → Type 0) (r : Result (Failure E) A) (a : A)
      → Ensures P r
      → r ≡ ok a
      → P a
  Ensures-ok P (ok b) a h e = subst P (cc) h
  Ensures-ok P (err (storage x)) a h e = cc
  Ensures-ok P (err out_of_fuel) a h e = absurd h

-- What the documentation of the grouping says: joined, the groups are the slice; none is empty; and
-- all neighbours in a group pass the test.
abbrev pub join : List (List PrimitiveQueryPart) → List PrimitiveQueryPart
join [] = []
join (g ∷ gs) = g ++ join gs

abbrev pub Neighbours :
    (PrimitiveQueryPart → PrimitiveQueryPart → Bool) → List PrimitiveQueryPart → Type 0
Neighbours test [] = Unit
Neighbours test (p ∷ []) = Unit
Neighbours test (p ∷ q ∷ parts) = (test p q ≡ true) × Neighbours test (q ∷ parts)

pub record IsGrouping (g : Grouping) : Type 0 where
  pub joined :
      (test : PrimitiveQueryPart → PrimitiveQueryPart → Bool) (parts : List PrimitiveQueryPart)
      → join (g test parts) ≡ parts
  pub nonempty :
      (test : PrimitiveQueryPart → PrimitiveQueryPart → Bool) (parts : List PrimitiveQueryPart)
      → All (λ group. 0 < length group) (g test parts)
  pub uniform :
      (test : PrimitiveQueryPart → PrimitiveQueryPart → Bool) (parts : List PrimitiveQueryPart)
      → All (Neighbours test) (g test parts)

-- The groups together are as long as the slice.
abbrev pub total : List (List PrimitiveQueryPart) → ℕ
total [] = 0
total (g ∷ gs) = length g + total gs

pub length-join : (gs : List (List PrimitiveQueryPart)) → length (join gs) ≡ total gs
length-join [] = refl
length-join (g ∷ gs) = omega (arith, length-append g (join gs), length-join gs)
