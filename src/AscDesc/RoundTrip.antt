-- ===== src/AscDesc/RoundTrip.antt =====
-- Ranking rules are read back as they are printed, and what the members of a sort expression are.
use milli.Base.{
  ℕ, ◌≤◌, false, ◌&&◌, leb, ◌||◌, [], ◌∷◌, ◌++◌, Option, none, some, All, ◌==◌, ==_refl, ◌≡◌, refl,
  ap, ◌∙◌, arith, Bool-cases, inl, inr,
}
use milli.Base.Results.{Result, ok, err, ◌>>=◌}
use milli.AscDesc.Points.{lat_min, lat_max, lng_min, lng_max}
use milli.AscDesc.Texts.{
  Text, text_eq, starts_with, rsplit_once, split_once, geo_radius_open, asc_text, desc_text,
  words_text, typo_text, proximity_text, attribute_text, sort_text, exactness_text,
}
use milli.AscDesc.{
  Floats, AscDescError, is_reserved_keyword, or_error, Member, field, geo_member, asc, desc,
  Criterion, words, typo, proximity, attribute, sort, exactness, asc_field, desc_field, check_point,
  parse_point, parse_field, point_of, member_of, member_from_str, direction, asc_desc_from_str,
  criterion_of, criterion_from_str, print_criterion,
}

rsplit_once-append :
    (sep : ℕ) (left right : Text)
    → rsplit_once sep right ≡ none
    → rsplit_once sep (left ++ sep ∷ right) ≡ some (left, right)
unfolding rsplit_once
rsplit_once-append sep [] right h = rw h (rw (==_refl sep) refl)
rsplit_once-append sep (c ∷ left) right h = rw (rsplit_once-append sep left right h) refl

-- A text with a colon is none without.
text_eq-colon :
    (name right w : Text)
    → All (λ c. (b':' == c) ≡ false) w
    → text_eq (name ++ b':' ∷ right) w ≡ false
unfolding text_eq
text_eq-colon [] right [] h = refl
text_eq-colon [] right (c ∷ w) h = rw h.0 refl
text_eq-colon (n ∷ name) right [] h = refl
text_eq-colon (n ∷ name) right (c ∷ w) h = ground (arith, text_eq-colon name right w h.1)

module _ (floats : Floats) where
  -- A name that is read as a field: it is not reserved, and is no point and no radius.
  abbrev pub IsFieldName : Text → Type 0
  IsFieldName name =
      ((is_reserved_keyword name || starts_with name geo_radius_open) ≡ false)
      × (point_of floats name ≡ none)

  -- The names of a ranking rule's fields are names of fields.
  abbrev pub HasFieldName : Criterion floats → Type 0
  HasFieldName (asc_field name) = IsFieldName name
  HasFieldName (desc_field name) = IsFieldName name
  HasFieldName _ = Unit

  member_from_str-IsFieldName :
      (name : Text) → IsFieldName name → member_from_str floats name ≡ ok (field name)
  unfolding member_from_str member_of parse_field
  member_from_str-IsFieldName name (plain, no_point) = rw no_point (rw plain refl)

  no_keyword :
      (name right : Text)
      → criterion_from_str floats (name ++ b':' ∷ right)
        ≡ criterion_of floats (asc_desc_from_str floats (name ++ b':' ∷ right))
  unfolding criterion_from_str
  no_keyword name right =
      rw
        (
          text_eq-colon name right words_text (refl, (refl, (refl, (refl, (refl, tt))))),
          text_eq-colon name right typo_text (refl, (refl, (refl, (refl, tt)))),
          text_eq-colon name right proximity_text
              (refl, (refl, (refl, (refl, (refl, (refl, (refl, (refl, (refl, tt))))))))),
          text_eq-colon name right attribute_text
              (refl, (refl, (refl, (refl, (refl, (refl, (refl, (refl, (refl, tt))))))))),
          text_eq-colon name right sort_text (refl, (refl, (refl, (refl, tt)))),
          text_eq-colon name right exactness_text
              (refl, (refl, (refl, (refl, (refl, (refl, (refl, (refl, (refl, tt))))))))),
        )
        refl

  direction-asc :
      (name : Text)
      → IsFieldName name
      → asc_desc_from_str floats (name ++ b':' ∷ asc_text) ≡ ok (asc (field name))
  unfolding asc_desc_from_str direction rsplit_once text_eq
  direction-asc name h =
      rw (rsplit_once-append b':' name asc_text refl) (rw (member_from_str-IsFieldName name h) refl)

  direction-desc :
      (name : Text)
      → IsFieldName name
      → asc_desc_from_str floats (name ++ b':' ∷ desc_text) ≡ ok (desc (field name))
  unfolding asc_desc_from_str direction rsplit_once text_eq
  direction-desc name h =
      rw (rsplit_once-append b':' name desc_text refl)
        (rw (member_from_str-IsFieldName name h) refl)

  -- A ranking rule that is printed is read back, when the field it names is not reserved and does
  -- not look like a point or a radius.
  pub criterion_from_str-print_criterion :
      (c : Criterion floats)
      → HasFieldName c
      → criterion_from_str floats (print_criterion floats c) ≡ ok c
  unfolding print_criterion criterion_from_str criterion_of text_eq
  criterion_from_str-print_criterion words h = refl
  criterion_from_str-print_criterion typo h = refl
  criterion_from_str-print_criterion proximity h = refl
  criterion_from_str-print_criterion attribute h = refl
  criterion_from_str-print_criterion sort h = refl
  criterion_from_str-print_criterion exactness h = refl
  criterion_from_str-print_criterion (asc_field name) h =
      no_keyword name asc_text ∙ ap (criterion_of floats) (direction-asc name h)
  criterion_from_str-print_criterion (desc_field name) h =
      no_keyword name desc_text ∙ ap (criterion_of floats) (direction-desc name h)

  -- What a member that is read may be: the field of that name, which is not reserved, or a point
  -- of a latitude from -90 to 90 and a longitude from -180 to 180.
  abbrev pub IsMember : Text → Result AscDescError (Member floats) → Type 0
  IsMember text (err e) = Unit
  IsMember text (ok (field name)) =
      (name ≡ text)
      × (is_reserved_keyword text ≡ false)
      × (starts_with text geo_radius_open ≡ false)
  IsMember text (ok (geo_member lat lng)) =
      (lat_min ≤ lat) × (lat ≤ lat_max) × (lng_min ≤ lng) × (lng ≤ lng_max)

  IsMember-bind :
      {B : Type 0} (text : Text) (r : Result AscDescError B)
      (f : B → Result AscDescError (Member floats))
      → ((b : B) → IsMember text (f b))
      → IsMember text (r >>= f)
  IsMember-bind text (err e) f h = tt
  IsMember-bind text (ok b) f h = h b

  check_point-IsMember : (text : Text) (lat lng : ℕ) → IsMember text (check_point floats lat lng)
  unfolding check_point
  check_point-IsMember text lat lng = elim (Bool-cases (leb lat_min lat && leb lat lat_max)) [
    | inr out ↦ rw out tt
    | inl fits ↦ elim (Bool-cases (leb lng_min lng && leb lng lng_max)) [
      | inr out ↦ rw (fits, out) tt
      | inl both ↦ rw (fits, both) (ground arith, ground arith, ground arith, ground arith)
    ]
  ]

  member_of-IsMember : (text : Text) (o : Option Text) → IsMember text (member_of floats text o)
  unfolding member_of parse_point parse_field
  member_of-IsMember text (some point) =
      IsMember-bind text (or_error _ (split_once b',' point)) _ λ parts.
        IsMember-bind text (or_error _ (floats.parse (floats.trim parts.0))) _ λ lat.
          IsMember-bind text (or_error _ (floats.parse (floats.trim parts.1))) _
            λ lng. check_point-IsMember text lat lng
  member_of-IsMember text none =
      elim (Bool-cases (is_reserved_keyword text || starts_with text geo_radius_open)) [
        | inl reserved ↦ rw reserved tt
        | inr plain ↦ rw plain (refl, ground arith, ground arith)
      ]

  -- A member that is read is the field named by the text, which is no reserved word and does not
  -- start with `_geoRadius(`, or a point with a latitude from -90 to 90 and a longitude from -180 to
  -- 180.
  pub member_from_str-IsMember : (text : Text) → IsMember text (member_from_str floats text)
  unfolding member_from_str
  member_from_str-IsMember text = member_of-IsMember text (point_of floats text)
