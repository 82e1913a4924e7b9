-- ===== src/Facet/Evaluate/Meaning.antt =====
-- What a filter finds: the documents that it describes.
use milli.Base.{
  ℕ, ◌≤◌, Bool, true, false, not, ◌&&◌, Option, none, some, if◌then◌else◌, ◌≡◌, subst, arith,
  Bool-cases, ◌⊎◌, inl, inr, ◌↔◌,
}
use milli.Base.Results.{ok, ◌>>=◌, >>=-eq-ok}
use milli.Bitmap.{Roaring, IsRoaring}
use milli.Filter.{
  Condition, greater_than, greater_than_or_equal, equal, not_equal, lower_than, lower_than_or_equal,
  between,
}
use milli.Facet.{f64_min, f64_max, Bound, included, excluded}
use milli.Facet.Evaluate.{
  Texts, Index, number_or, parse, range_docids, equal_docids, evaluate_operator,
}
use milli.Facet.Numbers.{less_than, at_most}
use milli.Facet.Evaluate.Operator.{
  IsNumbers, Over, ordered_within, Between, ok-injective, range_docids-Over, Equals,
  equal_docids-Equals,
}

module _ (r : Roaring) (laws : IsRoaring r) {T : Type 0} (t : Texts T) (index : Index r) where
  open r use {Bitmap, contains, new, union, intersection, difference, extend}
  open t use {lexeme, value, parse_f64}
  open index use {
    filterable_fields, field_id, numbers_db, number_faceted_documents_ids,
    string_faceted_documents_ids, geo_faceted_documents_ids, geo_rtree,
  }

  -- The number of a token.
  abbrev pub Number : T → ℕ → Type 0
  Number token n = parse_f64 (lexeme token) ≡ some n

  abbrev pub beyond : Bool → ℕ → ℕ → Bool
  beyond loose n v = if loose then at_most n v else less_than n v

  -- A document has a number or a string that meets the condition; a loose reading takes `>` for `>=`.
  abbrev pub Meets : Bool → ℕ → Condition T → ℕ → Type 0
  Meets loose field (greater_than val) d =
      (n : ℕ) × Number val n × Over r laws t index field (beyond loose n) d
  Meets loose field (greater_than_or_equal val) d =
      (n : ℕ) × Number val n × Over r laws t index field (λ v. at_most n v) d
  Meets loose field (lower_than val) d =
      (n : ℕ) × Number val n × Over r laws t index field (λ v. less_than v n) d
  Meets loose field (lower_than_or_equal val) d =
      (n : ℕ) × Number val n × Over r laws t index field (λ v. at_most v n) d
  Meets loose field (between from to) d =
      (a : ℕ) × Number from a
      × ((b : ℕ) × Number to b × Over r laws t index field (λ v. at_most a v && at_most v b) d)
  Meets loose field (equal val) d = Equals r laws t index field val d
  Meets loose field (not_equal val) d =
      ((contains (number_faceted_documents_ids field) d ≡ true)
        ⊎ (contains (string_faceted_documents_ids field) d ≡ true))
      × (Equals r laws t index field val d → ⊥)

  pub parse-ok : (token : T) (n : ℕ) → parse r t index token ≡ ok n → Number token n
  unfolding parse
  parse-ok token n e = number (parse_f64 (lexeme token)) e
    where
      number : (o : Option ℕ) → number_or r t index token o ≡ ok n → o ≡ some n
      number none e = cc
      number (some m) e = cc

  range-Meets :
      (val : T) (field : ℕ) (left right : ℕ → Bound) (strict loose : ℕ → ℕ → Bool) (b : Bitmap)
      (d : ℕ)
      → IsNumbers r laws t index (numbers_db field)
      → ((n v : ℕ)
          → f64_min ≤ v
          → v ≤ f64_max
          → ordered_within true (left n) (right n) v ≡ true
          → loose n v ≡ true)
      → ((n v : ℕ)
          → f64_min ≤ v
          → v ≤ f64_max
          → strict n v ≡ true
          → ordered_within false (left n) (right n) v ≡ true)
      → (parse r t index val >>= (λ n. range_docids r t index field (left n) (right n))) ≡ ok b
      → Between r laws t index
          ((n : ℕ) × Number val n × Over r laws t index field (strict n) d)
          ((n : ℕ) × Number val n × Over r laws t index field (loose n) d)
          b
          d
  range-Meets val field left right strict loose b d valid out inside e =
      let (n, parsed, done) =
        >>=-eq-ok (parse r t index val) (λ n. range_docids r t index field (left n) (right n)) e in
      let number : Number val n = parse-ok val n parsed in
      let (from, hit) =
        range_docids-Over r laws t index field (left n) (right n) (strict n) (loose n) b d valid
          (out n) (inside n) done in
      (
        λ h. (n, number, from h),
        λ h.
            let at : h.0 ≡ n = (let a = h.1 in cc) in
            hit (subst (λ k. Over r laws t index field (strict k) d) at h.2),
      )

  unequal_docids-Meets :
      (field : ℕ) (val : T) (b : Bitmap) (d : ℕ)
      → IsNumbers r laws t index (numbers_db field)
      → evaluate_operator r t index field (not_equal val) ≡ ok b
      → (contains b d ≡ true) ↔ Meets true field (not_equal val) d
  unfolding evaluate_operator
  unequal_docids-Meets field val b d valid e =
      let all = union (number_faceted_documents_ids field) (string_faceted_documents_ids field) in
      let (equals, read, last) = >>=-eq-ok (equal_docids r t index field val) _ e in
      let same : difference all equals ≡ b =
        ok-injective r laws t index (difference all equals) b last in
      let (from, hit) = equal_docids-Equals r laws t index field val equals d valid read in
      let left : contains b d ≡ contains all d && not (contains equals d) =
        subst (λ k. contains k d ≡ contains all d && not (contains equals d)) same
          (laws.contains-difference all equals d) in
      let both =
        laws.contains-union (number_faceted_documents_ids field)
          (string_faceted_documents_ids field) d in
      (
        λ h. (
          elim (Bool-cases (contains (number_faceted_documents_ids field) d)) [
            | inl num ↦ inl num
            | inr other ↦ inr (ground arith)
          ],
          λ same. let held : contains equals d ≡ true = hit same in ground arith,
        ),
        λ h. elim (Bool-cases (contains equals d)) [
          | inl held ↦ absurd (h.1 (from held))
          | inr missing ↦ elim h.0 [ inl num ↦ ground arith | inr str ↦ ground arith ]
        ],
      )

  -- A condition on a field finds every document that meets it, and no other but those that meet the
  -- loose reading.
  pub evaluate_operator-Meets :
      (field : ℕ) (op : Condition T) (b : Bitmap) (d : ℕ)
      → IsNumbers r laws t index (numbers_db field)
      → evaluate_operator r t index field op ≡ ok b
      → Between r laws t index (Meets false field op d) (Meets true field op d) b d
  unfolding evaluate_operator
  evaluate_operator-Meets field (greater_than val) b d valid e =
      range-Meets val field (λ n. excluded n) (λ n. included f64_max) (beyond false) (beyond true) b
        d valid (λ n v l h w. ground arith) (λ n v l h w. ground arith) e
  evaluate_operator-Meets field (greater_than_or_equal val) b d valid e =
      range-Meets val field (λ n. included n) (λ n. included f64_max) (λ n v. at_most n v)
        (λ n v. at_most n v) b d valid (λ n v l h w. ground arith) (λ n v l h w. ground arith) e
  evaluate_operator-Meets field (lower_than val) b d valid e =
      range-Meets val field (λ n. included f64_min) (λ n. excluded n) (λ n v. less_than v n)
        (λ n v. less_than v n) b d valid (λ n v l h w. ground arith) (λ n v l h w. ground arith) e
  evaluate_operator-Meets field (lower_than_or_equal val) b d valid e =
      range-Meets val field (λ n. included f64_min) (λ n. included n) (λ n v. at_most v n)
        (λ n v. at_most v n) b d valid (λ n v l h w. ground arith) (λ n v l h w. ground arith) e
  evaluate_operator-Meets field (between from to) b d valid e =
      let (low, parsed, rest) =
        >>=-eq-ok (parse r t index from)
          (λ n.
            parse r t index to >>= (λ m. range_docids r t index field (included n) (included m)))
          e in
      let (into, hit) =
        range-Meets to field (λ n. included low) (λ n. included n)
          (λ n v. at_most low v && at_most v n) (λ n v. at_most low v && at_most v n) b d valid
          (λ n v l h w. ground arith) (λ n v l h w. ground arith) rest in
      let number : Number from low = parse-ok from low parsed in
      (
        λ h. (low, number, into h),
        λ h.
            let at : h.0 ≡ low = (let a = h.1 in cc) in
            hit (
              subst
                (λ k.
                  (n : ℕ) × Number to n
                  × Over r laws t index field (λ v. at_most k v && at_most v n) d)
                at h.2),
      )
  evaluate_operator-Meets field (equal val) b d valid e =
      equal_docids-Equals r laws t index field val b d valid e
  evaluate_operator-Meets field (not_equal val) b d valid e =
      unequal_docids-Meets field val b d valid e
