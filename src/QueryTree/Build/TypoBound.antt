-- ===== src/QueryTree/Build/TypoBound.antt =====
-- The fuel of `ngrams` suffices, and the tree allows at most two typos for each part of the query.
use milli.Base.{
  ℕ, zero, suc, ◌+◌, ◌*◌, ◌≤◌, ◌<◌, max, min, Bool, true, false, List, [], ◌∷◌, ◌≡◌, ◌≢◌, refl,
  arith, length, length-drop, take, drop, All, ap, sym, ◌∙◌,
}
use milli.Base.Results.{Result, ok, err, ◌>>=◌}
use milli.QueryTree.{
  Operation, Operations, nil, cons, make_and, maximum_typo, maximum_typo_max, maximum_typo_sum,
}
use milli.QueryTree.Context.{Context}
use milli.QueryTree.Primitive
use milli.QueryTree.Primitive.{PrimitiveQueryPart, is_nil, is_phrase}
use milli.QueryTree.Build.{
  Failure, out_of_fuel, lift, Grouping, both_words, resolve_group, ngram_operation, ngram_rounds,
  group_operations, ngrams, keep_words, optional_rounds, optional_word, create_query_tree,
}
use milli.QueryTree.Build.Outcome.{
  Ensures, Ensures-bind, Ensures-lift, Ensures-ne, Ensures-ok, IsGrouping, total, length-join,
}
use milli.QueryTree.Build.Constructors.{
  maximum_typo-make_and, maximum_typo-make_or, typo_limit, resolve_group-le,
}

scale : (l a b : ℕ) → suc a ≤ b → l + l * a ≤ l * b
scale l a b h = grind arith

scale_one : (l b : ℕ) → 1 ≤ b → l ≤ l * b
scale_one l b h = grind arith

widen : (l a b : ℕ) → a ≤ b → l * a ≤ l * b
widen l a b h = grind arith

length-keep_words :
    (count : ℕ) (parts : List PrimitiveQueryPart) → length (keep_words count parts) ≤ length parts
unfolding keep_words
length-keep_words count [] = omega arith
length-keep_words count (Primitive.phrase words ∷ parts) =
    omega (arith, length-keep_words count parts)
length-keep_words zero (Primitive.word w prefix ∷ parts) =
    omega (arith, length-keep_words zero parts)
length-keep_words (suc count) (Primitive.word w prefix ∷ parts) =
    omega (arith, length-keep_words count parts)

sum-cons :
    (op : Operation) (ops : Operations)
    → maximum_typo_sum (cons op ops) ≡ maximum_typo op + maximum_typo_sum ops
unfolding maximum_typo
sum-cons op ops = refl

sum-nil : maximum_typo_sum nil ≡ 0
unfolding maximum_typo
sum-nil = refl

max-cons :
    (op : Operation) (ops : Operations)
    → maximum_typo_max (cons op ops) ≡ max (maximum_typo op) (maximum_typo_max ops)
unfolding maximum_typo
max-cons op ops = refl

max-nil : maximum_typo_max nil ≡ 0
unfolding maximum_typo
max-nil = refl

ruleset typo_laws = (arith, sum-cons, max-cons, maximum_typo-make_and)

length-is_nil : (parts : List PrimitiveQueryPart) → is_nil parts ≡ false → 0 < length parts
length-is_nil [] e = cc
length-is_nil (p ∷ parts) e = omega arith

module _ {E : Type 0} (ctx : Context E) (authorize : Bool) (g : Grouping) where
  abbrev Within : ℕ → Operation → Type 0
  Within n op = maximum_typo op ≤ typo_limit authorize * n

  two_children :
      (op rest : Operation) (m n : ℕ)
      → suc m ≤ n
      → maximum_typo op ≤ typo_limit authorize
      → Within m rest
      → Within n (make_and (cons op (cons rest nil)))
  two_children op rest m n h bound b =
      rw (maximum_typo-make_and (cons op (cons rest nil)), sum-cons, sum-cons, sum-nil)
        (omega (arith, scale (typo_limit authorize) m n h))

  one_child :
      (op : Operation) (n : ℕ)
      → 1 ≤ n
      → maximum_typo op ≤ typo_limit authorize
      → Within n (make_and (cons op nil))
  one_child op n h bound =
      rw (maximum_typo-make_and (cons op nil), sum-cons, sum-nil)
        (omega (arith, scale_one (typo_limit authorize) n h))

  -- What is known of the recursive call: on shorter slices it keeps within its bound.
  abbrev Handles : ℕ → (List PrimitiveQueryPart → Result (Failure E) Operation) → Type 0
  Handles f rec =
      (parts : List PrimitiveQueryPart)
      → length parts < f
      → Ensures (Within (length parts)) (rec parts)

  module _ (f : ℕ) (rec : List PrimitiveQueryPart → Result (Failure E) Operation)
      (h : Handles f rec) where
    tail_step :
        (sub : List PrimitiveQueryPart) (ngram : ℕ) (op : Operation)
        → 1 ≤ ngram
        → ngram ≤ length sub
        → length sub ≤ f
        → maximum_typo op ≤ typo_limit authorize
        → Ensures
            (Within (length sub))
            (rec (drop ngram sub) >>= λ rest. ok (make_and (cons op (cons rest nil))))
    tail_step sub ngram op one fits room bound =
        let tail = drop ngram sub in
        let shorter : suc (length tail) ≤ length sub = omega (arith, length-drop ngram sub) in
        Ensures-bind (Within (length tail)) (Within (length sub)) (rec tail) _
          (h tail (omega arith))
          λ rest b. two_children op rest (length tail) (length sub) shorter bound b

    ngram_operation-Within :
        (sub : List PrimitiveQueryPart) (ngram : ℕ)
        → 1 ≤ ngram
        → ngram ≤ length sub
        → length sub ≤ f
        → Ensures (Within (length sub)) (ngram_operation ctx authorize g rec sub ngram)
    unfolding ngram_operation
    ngram_operation-Within sub ngram one fits room =
        Ensures-bind (λ op. maximum_typo op ≤ typo_limit authorize) (Within (length sub))
          (lift (resolve_group ctx authorize (take ngram sub))) _
          (Ensures-lift _ (resolve_group ctx authorize (take ngram sub))
            (resolve_group-le ctx authorize (take ngram sub)))
          λ op bound. go op bound (is_nil (drop ngram sub))
      where
        go :
            (op : Operation)
            → maximum_typo op ≤ typo_limit authorize
            → (b : Bool)
            → Ensures (Within (length sub)) (elim b [
              | true ↦ ok (make_and (cons op nil))
              | false ↦ rec (drop ngram sub) >>= λ rest. ok (make_and (cons op (cons rest nil)))
            ])
        go op bound true = one_child op (length sub) (omega arith) bound
        go op bound false = tail_step sub ngram op one fits room bound

    ngram_rounds-Within :
        (sub : List PrimitiveQueryPart) (rounds ngram : ℕ)
        → 1 ≤ ngram
        → ngram + rounds ≤ suc (length sub)
        → length sub ≤ f
        → Ensures
            (λ ops. maximum_typo_max ops ≤ typo_limit authorize * length sub)
            (ngram_rounds ctx authorize g rec sub rounds ngram)
    unfolding ngram_rounds
    ngram_rounds-Within sub zero ngram one fits room = rw max-nil (omega arith)
    ngram_rounds-Within sub (suc rounds) ngram one fits room =
        Ensures-bind (Within (length sub)) _ (ngram_operation ctx authorize g rec sub ngram) _
          (ngram_operation-Within sub ngram one (omega arith) room)
          λ op b.
            Ensures-bind (λ ops. maximum_typo_max ops ≤ typo_limit authorize * length sub) _
              (ngram_rounds ctx authorize g rec sub rounds (ngram + 1)) _
              (ngram_rounds-Within sub rounds (ngram + 1) (omega arith) (omega arith) room)
              λ ops bs. rw max-cons (omega arith)

    group_operations-Within :
        (groups : List (List PrimitiveQueryPart))
        → All (λ group. 0 < length group) groups
        → total groups ≤ f
        → Ensures
            (λ ops. maximum_typo_sum ops ≤ typo_limit authorize * total groups)
            (group_operations ctx authorize g rec groups)
    unfolding group_operations
    group_operations-Within [] a room = rw sum-nil (omega arith)
    group_operations-Within (sub ∷ groups) a room =
        Ensures-bind (λ ops. maximum_typo_max ops ≤ typo_limit authorize * length sub) _
          (ngram_rounds ctx authorize g rec sub (min 3 (length sub)) 1) _
          (ngram_rounds-Within sub (min 3 (length sub)) 1 (omega arith) (omega arith) (omega arith))
          λ ops b.
            Ensures-bind (λ rest. maximum_typo_sum rest ≤ typo_limit authorize * total groups) _
              (group_operations ctx authorize g rec groups) _
              (group_operations-Within groups a.1 (omega arith))
              λ rest bs. rw (sum-cons, maximum_typo-make_or false ops) (omega arith)

  module _ (laws : IsGrouping g) where
    ngrams-Within :
        (fuel : ℕ) (parts : List PrimitiveQueryPart)
        → length parts < fuel
        → Ensures (Within (length parts)) (ngrams ctx authorize g fuel parts)
    unfolding ngrams
    ngrams-Within zero parts h = elim h [ ]
    ngrams-Within (suc fuel) parts h =
        let groups = g both_words parts in
        let same : length parts ≡ total groups =
          sym (ap length (laws.joined both_words parts)) ∙ length-join groups in
        rw same (
          Ensures-bind (λ ops. maximum_typo_sum ops ≤ typo_limit authorize * total groups) _
            (group_operations ctx authorize g (ngrams ctx authorize g fuel) groups) _
            (group_operations-Within fuel (ngrams ctx authorize g fuel) (ngrams-Within fuel) groups
              (laws.nonempty both_words parts) (omega arith))
            λ ops b. rw maximum_typo-make_and b)

    optional_rounds-Within :
        (parts : List PrimitiveQueryPart) (rounds count : ℕ)
        → Ensures
            (λ ops. maximum_typo_max ops ≤ typo_limit authorize * length parts)
            (optional_rounds ctx authorize g parts rounds count)
    unfolding optional_rounds
    optional_rounds-Within parts zero count = rw max-nil (omega arith)
    optional_rounds-Within parts (suc rounds) count =
        let kept = keep_words count parts in
        let shorter : length kept ≤ length parts = length-keep_words count parts in
        Ensures-bind (Within (length kept)) _ (ngrams ctx authorize g (suc (length parts)) kept) _
          (ngrams-Within (suc (length parts)) kept (omega arith))
          λ op b.
            Ensures-bind (λ ops. maximum_typo_max ops ≤ typo_limit authorize * length parts) _
              (optional_rounds ctx authorize g parts rounds (count + 1)) _
              (optional_rounds-Within parts rounds (count + 1))
              λ ops bs.
                rw max-cons
                  (omega (arith, widen (typo_limit authorize) (length kept) (length parts) shorter))

    create-Within :
        (optional_words : Bool) (parts : List PrimitiveQueryPart)
        → Ensures (Within (length parts)) (create_query_tree ctx authorize g optional_words parts)
    unfolding create_query_tree optional_word
    create-Within false parts = ngrams-Within (suc (length parts)) parts (omega arith)
    create-Within true parts =
        Ensures-bind (λ ops. maximum_typo_max ops ≤ typo_limit authorize * length parts) _
          (optional_rounds ctx authorize g parts _ _) _ (optional_rounds-Within parts _ _)
          λ ops b. rw maximum_typo-make_or b

    -- Given that the grouping cuts a slice into pieces that are not empty: the fuel suffices for any
    -- query, and a tree that is built allows at most two typos for each part of the query, and none
    -- if typos are not authorized.
    pub create_query_tree-typos :
        (optional_words : Bool) (parts : List PrimitiveQueryPart)
        → (create_query_tree ctx authorize g optional_words parts ≢ err out_of_fuel)
          × ((op : Operation)
              → create_query_tree ctx authorize g optional_words parts ≡ ok op
              → maximum_typo op ≤ typo_limit authorize * length parts)
    create_query_tree-typos optional_words parts =
        let tree = create_query_tree ctx authorize g optional_words parts in
        let known = create-Within optional_words parts in
        (
          Ensures-ne (Within (length parts)) tree known,
          λ op e. Ensures-ok (Within (length parts)) tree op known e,
        )
