-- ===== src/Facet/Evaluate/Geo.antt =====
-- What a filter on the distance to a point finds.
use milli.Base.{
  ℕ, ◌≤◌, ◌<◌, ◌^◌, Bool, true, false, not, ◌&&◌, ◌||◌, List, [], ◌∷◌, Option, none, some, All, any,
  ltb, ◌==◌, if◌then◌else◌, ◌≡◌, refl, sym, subst, ◌∙◌, arith, Bool-cases, inl, inr, ◌↔◌,
}
use milli.Base.Results.{ok, err, ◌>>=◌, >>=-eq-ok}
use milli.Bitmap.{Roaring, IsRoaring}
use milli.Bitmap.Numbers.{elem}
use milli.AscDesc.Texts.{text_eq, geo}
use milli.Facet.Evaluate.{
  Texts, Index, Evaluated, bad_geo_lat, bad_geo_lng, attribute_not_filterable, parse, within_bounds,
  near_docids, take_near, evaluate_geo,
}
use milli.AscDesc.Points.{lat_min, lat_max, lng_min, lng_max}
use milli.Facet.Numbers.{is_nan}
use milli.Facet.Evaluate.Operator.{ok-injective}
use milli.Facet.Evaluate.Meaning.{Number, parse-ok}

-- A point of the document lies within the radius.
abbrev pub reaches : ℕ → ℕ → List (ℕ × ℕ) → Bool
reaches radius d [] = false
reaches radius d ((id, distance) ∷ points) =
    (d == id && (not (is_nan radius) && ltb distance radius)) || reaches radius d points

-- Documents of 32 bits, the nearest first.
abbrev pub IsPoints : List (ℕ × ℕ) → Type 0
IsPoints [] = Unit
IsPoints ((id, distance) ∷ points) =
    (id < 2 ^ 32) × All (λ p. distance ≤ p.1) points × IsPoints points

never_reaches :
    (radius d distance : ℕ) (points : List (ℕ × ℕ))
    → not (is_nan radius) && ltb distance radius ≡ false
    → All (λ p. distance ≤ p.1) points
    → reaches radius d points ≡ false
never_reaches radius d distance [] far a = refl
never_reaches radius d distance ((id, next) ∷ points) far a =
    ground (arith, never_reaches radius d distance points far a.1, a.0)

elem-take_near :
    (radius d : ℕ) (points : List (ℕ × ℕ))
    → IsPoints points
    → elem d (take_near radius points) ≡ reaches radius d points
elem-take_near radius d [] v = refl
elem-take_near radius d ((id, distance) ∷ points) v =
    elim (Bool-cases (not (is_nan radius) && ltb distance radius)) [
      | inl near ↦ ground (arith, elem-take_near radius d points v.2)
      | inr far ↦ ground (arith, never_reaches radius d distance points far v.1)
    ]

All-take_near :
    (radius : ℕ) (points : List (ℕ × ℕ))
    → IsPoints points
    → All (λ n. n < 2 ^ 32) (take_near radius points)
All-take_near radius [] v = tt
All-take_near radius ((id, distance) ∷ points) v =
    elim (Bool-cases (not (is_nan radius) && ltb distance radius)) [
      | inl near ↦ rw near (v.0, All-take_near radius points v.2)
      | inr far ↦ rw far tt
    ]

module _ (r : Roaring) (laws : IsRoaring r) {T : Type 0} (t : Texts T) (index : Index r) where
  open r use {Bitmap, contains, new, extend}
  open index use {filterable_fields, geo_rtree}

  -- Every tree gives the points by their distance.
  abbrev pub IsTree : Option (ℕ → ℕ → List (ℕ × ℕ)) → Type 0
  IsTree none = Unit
  IsTree (some rtree) = (lat lng : ℕ) → IsPoints (rtree lat lng)

  abbrev pub is_near : ℕ → ℕ → ℕ → ℕ → Option (ℕ → ℕ → List (ℕ × ℕ)) → Bool
  is_near lat lng radius d none = false
  is_near lat lng radius d (some rtree) = reaches radius d (rtree lat lng)

  contains-near_docids :
      (lat lng radius d : ℕ) (o : Option (ℕ → ℕ → List (ℕ × ℕ)))
      → IsTree o
      → contains (near_docids r t index lat lng radius o) d ≡ is_near lat lng radius d o
  unfolding near_docids
  contains-near_docids lat lng radius d none v = laws.contains-new d
  contains-near_docids lat lng radius d (some rtree) v =
      let points = rtree lat lng in
      let fits = All-take_near radius points (v lat lng) in
      let fresh = laws.contains-new d in
      laws.contains-extend new (take_near radius points) fits d
      ∙ (rw fresh (elem-take_near radius d points (v lat lng)))

  -- The document has a point within the radius of the point that the tokens give.
  abbrev pub Near : T → T → T → ℕ → Type 0
  Near lat lng radius d =
      (a : ℕ) × Number r laws t index lat a
      × ((b : ℕ) × Number r laws t index lng b
          × ((m : ℕ) × Number r laws t index radius m × (is_near a b m d geo_rtree ≡ true)))

  -- The numbers of a point and a radius that are accepted.
  evaluate_geo-parses :
      (lat lng radius : T) (b : Bitmap)
      → evaluate_geo r t index lat lng radius ≡ ok b
      → (x : ℕ) × Number r laws t index lat x
        × ((y : ℕ) × Number r laws t index lng y
            × ((m : ℕ) × Number r laws t index radius m
                × (near_docids r t index x y m geo_rtree ≡ b)))
  unfolding evaluate_geo
  evaluate_geo-parses lat lng radius b e =
      accepted (any (λ field. text_eq field geo) filterable_fields) e
    where
      steps : Evaluated r t index
      steps = parse r t index lat >>= λ a. parse r t index lng >>= λ b.
          within_bounds r t index lat_min lat_max a (bad_geo_lat lat) >>= λ _.
          within_bounds r t index lng_min lng_max b (bad_geo_lng lng) >>= λ _.
          parse r t index radius >>= λ meters. ok (near_docids r t index a b meters geo_rtree)

      accepted :
          (has_geo : Bool)
          → (if has_geo then steps else err (attribute_not_filterable lat geo filterable_fields))
            ≡ ok b
          → (x : ℕ) × Number r laws t index lat x
            × ((y : ℕ) × Number r laws t index lng y
                × ((m : ℕ) × Number r laws t index radius m
                    × (near_docids r t index x y m geo_rtree ≡ b)))
      accepted false e = cc
      accepted true e =
          let (x, lat_ok, e₁) = >>=-eq-ok (parse r t index lat) _ e in
          let (y, lng_ok, e₂) = >>=-eq-ok (parse r t index lng) _ e₁ in
          let (x', x_in, e₃) =
            >>=-eq-ok (within_bounds r t index lat_min lat_max x (bad_geo_lat lat)) _ e₂ in
          let (y', y_in, e₄) =
            >>=-eq-ok (within_bounds r t index lng_min lng_max y (bad_geo_lng lng)) _ e₃ in
          let (m, radius_ok, e₅) = >>=-eq-ok (parse r t index radius) _ e₄ in
          (
            x,
            parse-ok r laws t index lat x lat_ok,
            (
              y,
              parse-ok r laws t index lng y lng_ok,
              (
                m,
                parse-ok r laws t index radius m radius_ok,
                ok-injective r laws t index (near_docids r t index x y m geo_rtree) b e₅,
              ),
            ),
          )

  pub evaluate_geo-Near :
      (lat lng radius : T) (b : Bitmap) (d : ℕ)
      → IsTree geo_rtree
      → evaluate_geo r t index lat lng radius ≡ ok b
      → (contains b d ≡ true) ↔ Near lat lng radius d
  evaluate_geo-Near lat lng radius b d tree e =
      let (x, lat_ok, (y, lng_ok, (m, radius_ok, same))) = evaluate_geo-parses lat lng radius b e in
      let held : contains b d ≡ is_near x y m d geo_rtree =
        subst (λ k. contains k d ≡ is_near x y m d geo_rtree) same
          (contains-near_docids x y m d geo_rtree tree) in
      (
        λ h. (x, lat_ok, (y, lng_ok, (m, radius_ok, sym held ∙ h))),
        λ near.
            let (x', lat_is, (y', lng_is, (m', radius_is, h))) = near in
            let one : x' ≡ x = cc in let two : y' ≡ y = cc in let three : m' ≡ m = cc in held ∙ cc,
      )
