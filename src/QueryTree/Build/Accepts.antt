-- ===== src/QueryTree/Build/Accepts.antt =====
-- Documents with the words of the query are not missed: the tree accepts them.
use milli.Base.{
  ℕ, zero, suc, ◌+◌, ◌-◌, ◌<◌, ◌≤◌, min, Bool, true, false, ◌&&◌, ◌||◌, List, [], ◌∷◌, ◌++◌, ◌≡◌,
  refl, arith, length, All, subst, sym, ◌∙◌, ◌==◌, if◌then◌else◌,
}
use milli.Base.Results.{Result, ok, err, >>=-eq-ok}
use milli.QueryTree.{
  Word, kind_word, Query, Operation, and, phrase, or, query, Operations, nil, cons, push, make_and,
  make_or, make_phrase,
}
use milli.QueryTree.Context.{Context, unwrap_or}
use milli.QueryTree.Typos.{typos, typos_bounds}
use milli.QueryTree.Split.{split_best_frequency}
use milli.QueryTree.Primitive
use milli.QueryTree.Primitive.{PrimitiveQueryPart, is_nil}
use milli.QueryTree.Build.{
  Failure, lift, Grouping, both_words, synonyms, config, push_split, resolve_primitive_part,
  resolve_group, ngram_operation, ngram_rounds, group_operations, ngrams, number_phrases,
  keep_words, optional_rounds, optional_word, create_query_tree,
}
use milli.QueryTree.Build.Outcome.{IsGrouping, join}

number_phrases-le : (parts : List PrimitiveQueryPart) → number_phrases parts ≤ length parts
unfolding number_phrases
number_phrases-le [] = omega arith
number_phrases-le (p ∷ parts) = ground (arith, number_phrases-le parts)

lift-ok : {E A : Type 0} (r : Result E A) (a : A) → lift r ≡ ok a → r ≡ ok a
lift-ok (ok b) a h = cc
lift-ok (err e) a h = cc

-- A document: the words that it holds, and the rows of words that it holds one behind the other.
module _ (has : Word → Bool) (has_row : List Word → Bool) where
  -- The least that a tree asks for: prefixes, typos and synonyms only let more documents pass.
  unfoldable mutual
    pub accepts : Operation → Bool
    accepts (and ops) = accepts_all ops
    accepts (or b ops) = accepts_any ops
    accepts (phrase words) = has_row words
    accepts (query q) = has (kind_word q.kind)

    pub accepts_all : Operations → Bool
    accepts_all nil = true
    accepts_all (cons op ops) = accepts op && accepts_all ops

    pub accepts_any : Operations → Bool
    accepts_any nil = false
    accepts_any (cons op ops) = accepts op || accepts_any ops

  -- The document holds a part of the query. A phrase of one word is that word.
  abbrev pub Holds : PrimitiveQueryPart → Type 0
  Holds (Primitive.word w prefix) = has w ≡ true
  Holds (Primitive.phrase []) = has_row [] ≡ true
  Holds (Primitive.phrase (w ∷ [])) = has w ≡ true
  Holds (Primitive.phrase (w ∷ v ∷ words)) = has_row (w ∷ v ∷ words) ≡ true

  All-parts : (xs ys : List PrimitiveQueryPart) → All Holds (xs ++ ys) → All Holds xs × All Holds ys
  All-parts [] ys b = (tt, b)
  All-parts (x ∷ xs) ys b = let (one, rest) = All-parts xs ys b.1 in ((b.0, one), rest)

  All-join :
      (groups : List (List PrimitiveQueryPart)) → All Holds (join groups) → All (All Holds) groups
  All-join [] a = tt
  All-join (sub ∷ groups) a =
      let (one, rest) = All-parts sub (join groups) a in (one, All-join groups rest)

  accepts-make_and : (ops : Operations) → accepts (make_and ops) ≡ accepts_all ops
  unfolding make_and accepts
  accepts-make_and nil = refl
  accepts-make_and (cons op nil) = ground arith
  accepts-make_and (cons op (cons o ops)) = refl

  accepts-make_or : (b : Bool) (ops : Operations) → accepts (make_or b ops) ≡ accepts_any ops
  unfolding make_or accepts
  accepts-make_or b nil = refl
  accepts-make_or b (cons op nil) = ground arith
  accepts-make_or b (cons op (cons o ops)) = refl

  accepts-push :
      (ops : Operations) (op : Operation) → accepts op ≡ true → accepts_any (push ops op) ≡ true
  unfolding accepts
  accepts-push nil op h = ground arith
  accepts-push (cons o ops) op h = ground (arith, accepts-push ops op h)

  module _ {E : Type 0} (ctx : Context E) (authorize : Bool) where
    resolve_part-accepts :
        (part : PrimitiveQueryPart) (op : Operation)
        → resolve_primitive_part ctx authorize part ≡ ok op
        → Holds part
        → accepts op ≡ true
    unfolding resolve_primitive_part
    resolve_part-accepts (Primitive.word w prefix) op h held =
        let (found, e, h₁) = >>=-eq-ok (synonyms ctx authorize (w ∷ [])) _ h in
        let (split, e₂, h₂) = >>=-eq-ok (split_best_frequency ctx w) _ h₁ in
        let (lens, e₃, h₃) = >>=-eq-ok ctx.min_word_len_for_typo _ h₂ in
        let kind = typos w authorize (config ctx authorize 2 lens) in
        let q : Query = record { prefix = prefix; kind = kind } in
        let children = push_split (unwrap_or nil found) split in
        let made : make_or false (push children (query q)) ≡ op = cc in
        let same : kind_word kind ≡ w =
          (typos_bounds w authorize (config ctx authorize 2 lens)).0 in
        let word_held : accepts (query q) ≡ true = unfold accepts in rw same held in
        rw (← made) (
          accepts-make_or false (push children (query q))
          ∙ accepts-push children (query q) word_held)
    resolve_part-accepts (Primitive.phrase []) op h held =
        let made : make_phrase [] ≡ op = cc in rw (← made) (unfold make_phrase accepts in held)
    resolve_part-accepts (Primitive.phrase (w ∷ [])) op h held =
        let made : make_phrase (w ∷ []) ≡ op = cc in
        rw (← made) (unfold make_phrase accepts in held)
    resolve_part-accepts (Primitive.phrase (w ∷ v ∷ words)) op h held =
        let made : make_phrase (w ∷ v ∷ words) ≡ op = cc in
        rw (← made) (unfold make_phrase accepts in held)

    module _ (g : Grouping) where
      -- What is known of the recursive call: a tree for parts that the document holds accepts it.
      abbrev Handles : (List PrimitiveQueryPart → Result (Failure E) Operation) → Type 0
      Handles rec =
          (parts : List PrimitiveQueryPart) (op : Operation)
          → rec parts ≡ ok op
          → All Holds parts
          → accepts op ≡ true

      module _ (rec : List PrimitiveQueryPart → Result (Failure E) Operation)
          (h : Handles rec) where
        all_children :
            (op rest : Operation)
            → accepts op ≡ true
            → accepts rest ≡ true
            → accepts (make_and (cons op (cons rest nil))) ≡ true
        all_children op rest a b =
            accepts-make_and (cons op (cons rest nil)) ∙ unfold accepts in ground arith

        only_child : (op : Operation) → accepts op ≡ true → accepts (make_and (cons op nil)) ≡ true
        only_child op a = accepts-make_and (cons op nil) ∙ unfold accepts in ground arith

        first_ngram :
            (p : PrimitiveQueryPart) (tail : List PrimitiveQueryPart) (op : Operation)
            → ngram_operation ctx authorize g rec (p ∷ tail) 1 ≡ ok op
            → All Holds (p ∷ tail)
            → accepts op ≡ true
        unfolding ngram_operation resolve_group
        first_ngram p [] op e a =
            let (first, e₁, e₂) = >>=-eq-ok (lift (resolve_primitive_part ctx authorize p)) _ e in
            let made : make_and (cons first nil) ≡ op = cc in
            rw (← made) (
              only_child first (
                resolve_part-accepts p first
                  (lift-ok (resolve_primitive_part ctx authorize p) first e₁) a.0))
        first_ngram p (q ∷ tail) op e a =
            let (first, e₁, e₂) = >>=-eq-ok (lift (resolve_primitive_part ctx authorize p)) _ e in
            let (rest, e₃, e₄) = >>=-eq-ok (rec (q ∷ tail)) _ e₂ in
            let made : make_and (cons first (cons rest nil)) ≡ op = cc in
            rw (← made) (
              all_children first rest
                (resolve_part-accepts p first
                  (lift-ok (resolve_primitive_part ctx authorize p) first e₁) a.0)
                (h (q ∷ tail) rest e₃ a.1))

        rounds-accepts :
            (p : PrimitiveQueryPart) (tail : List PrimitiveQueryPart) (rounds : ℕ)
            (ops : Operations)
            → ngram_rounds ctx authorize g rec (p ∷ tail) (suc rounds) 1 ≡ ok ops
            → All Holds (p ∷ tail)
            → accepts_any ops ≡ true
        unfolding ngram_rounds
        rounds-accepts p tail rounds ops e a =
            let (op, e₁, e₂) = >>=-eq-ok (ngram_operation ctx authorize g rec (p ∷ tail) 1) _ e in
            let (rest, e₃, e₄) =
              >>=-eq-ok (ngram_rounds ctx authorize g rec (p ∷ tail) rounds (1 + 1)) _ e₂ in
            let made : cons op rest ≡ ops = cc in
            let held = first_ngram p tail op e₁ a in rw (← made) (unfold accepts in ground arith)

        group-accepts :
            (sub : List PrimitiveQueryPart) (ops : Operations)
            → 0 < length sub
            → ngram_rounds ctx authorize g rec sub (min 3 (length sub)) 1 ≡ ok ops
            → All Holds sub
            → accepts_any ops ≡ true
        group-accepts [] ops l e a = elim l [ ]
        group-accepts (p ∷ tail) ops l e a =
            let rounds : min 3 (suc (length tail)) ≡ suc (min 2 (length tail)) = omega arith in
            rounds-accepts p tail (min 2 (length tail)) ops (rw rounds at e) a

        groups-accepts :
            (groups : List (List PrimitiveQueryPart)) (ops : Operations)
            → All (λ group. 0 < length group) groups
            → All (All Holds) groups
            → group_operations ctx authorize g rec groups ≡ ok ops
            → accepts_all ops ≡ true
        unfolding group_operations
        groups-accepts [] ops l a e =
            let made : nil ≡ ops = cc in rw (← made) (unfold accepts in refl)
        groups-accepts (sub ∷ groups) ops l a e =
            let (ops₁, e₁, e₂) =
              >>=-eq-ok (ngram_rounds ctx authorize g rec sub (min 3 (length sub)) 1) _ e in
            let (rest, e₃, e₄) = >>=-eq-ok (group_operations ctx authorize g rec groups) _ e₂ in
            let made : cons (make_or false ops₁) rest ≡ ops = cc in
            let one = accepts-make_or false ops₁ ∙ group-accepts sub ops₁ l.0 e₁ a.0 in
            rw (← made)
              (both_accept (make_or false ops₁) rest one (groups-accepts groups rest l.1 a.1 e₃))
          where
            both_accept :
                (op : Operation) (rest : Operations)
                → accepts op ≡ true
                → accepts_all rest ≡ true
                → accepts_all (cons op rest) ≡ true
            both_accept op rest x y = unfold accepts in ground arith

      module _ (laws : IsGrouping g) where
        ngrams-accepts :
            (fuel : ℕ) (parts : List PrimitiveQueryPart) (op : Operation)
            → ngrams ctx authorize g fuel parts ≡ ok op
            → All Holds parts
            → accepts op ≡ true
        unfolding ngrams
        ngrams-accepts zero parts op e a = cc
        ngrams-accepts (suc fuel) parts op e a =
            let groups = g both_words parts in
            let rec = ngrams ctx authorize g fuel in
            let (ops, e₁, e₂) = >>=-eq-ok (group_operations ctx authorize g rec groups) _ e in
            let made : make_and ops ≡ op = cc in
            let held = All-join groups (subst (All Holds) (sym (laws.joined both_words parts)) a) in
            rw (← made) (
              accepts-make_and ops
              ∙ groups-accepts rec (ngrams-accepts fuel) groups ops (laws.nonempty both_words parts)
                  held e₁)

        optional_rounds-accepts :
            (parts : List PrimitiveQueryPart) (rounds count : ℕ) (ops : Operations)
            → optional_rounds ctx authorize g parts (suc rounds) count ≡ ok ops
            → All Holds (keep_words count parts)
            → accepts_any ops ≡ true
        unfolding optional_rounds
        optional_rounds-accepts parts rounds count ops e a =
            let fuel = suc (length parts) in
            let (op, e₁, e₂) =
              >>=-eq-ok (ngrams ctx authorize g fuel (keep_words count parts)) _ e in
            let (rest, e₃, e₄) =
              >>=-eq-ok (optional_rounds ctx authorize g parts rounds (count + 1)) _ e₂ in
            let made : cons op rest ≡ ops = cc in
            let held = ngrams-accepts fuel (keep_words count parts) op e₁ a in
            rw (← made) (unfold accepts in ground arith)

        optional_word-accepts :
            (parts : List PrimitiveQueryPart) (op : Operation)
            → optional_word ctx authorize g parts ≡ ok op
            → 0 < length parts
            → All Holds (keep_words (if number_phrases parts == 0 then 1 else 0) parts)
            → accepts op ≡ true
        unfolding optional_word
        optional_word-accepts parts op e l a =
            let one : ℕ = if number_phrases parts == 0 then 1 else 0 in
            let first : ℕ = number_phrases parts + one in
            let bound : number_phrases parts ≤ length parts = number_phrases-le parts in
            let rounds : length parts + 1 - first ≡ suc (length parts - first) = ground arith in
            let count : first - number_phrases parts ≡ one = omega arith in
            let (ops, e₁, e₂) =
              >>=-eq-ok
                (optional_rounds ctx authorize g parts (length parts + 1 - first)
                  (first - number_phrases parts))
                _ e in
            let made : make_or true ops ≡ op = cc in
            rw (← made) (
              accepts-make_or true ops
              ∙ optional_rounds-accepts parts (length parts - first) one ops
                  (rw (rounds, count) at e₁) a)

        -- The parts that a document must hold to be accepted for sure: all of them, or, where words
        -- are optional, the phrases, and the first word if there are no phrases.
        abbrev pub needed : Bool → List PrimitiveQueryPart → List PrimitiveQueryPart
        needed true parts = keep_words (if number_phrases parts == 0 then 1 else 0) parts
        needed false parts = parts

        -- Given that the joined groups are the slice and none is empty: a tree that is built for a
        -- query with parts accepts every document that holds the needed parts.
        pub create_query_tree-accepts :
            (optional_words : Bool) (parts : List PrimitiveQueryPart) (op : Operation)
            → create_query_tree ctx authorize g optional_words parts ≡ ok op
            → 0 < length parts
            → All Holds (needed optional_words parts)
            → accepts op ≡ true
        unfolding create_query_tree
        create_query_tree-accepts false parts op e l a =
            ngrams-accepts (suc (length parts)) parts op e a
        create_query_tree-accepts true parts op e l a = optional_word-accepts parts op e l a
