-- ===== src/QueryTree/Build/Constructors.antt =====
-- The typos that the constructors and the resolved parts allow.
use milli.Base.{
  ℕ, ◌≤◌, max, Bool, true, false, List, [], ◌∷◌, Option, none, some, ◌≡◌, refl, arith, ◌∙◌,
}
use milli.Base.Results.{ok, >>=-eq-ok}
use milli.QueryTree.{
  Word, typo, Query, Operation, phrase, query, Operations, nil, cons, push, make_and, make_or,
  make_phrase, maximum_typo, maximum_typo_max, maximum_typo_sum,
}
use milli.QueryTree.Context.{Context, unwrap_or}
use milli.QueryTree.Typos.{TypoConfig, typos, typos_bounds, typo-typos_unauthorized}
use milli.QueryTree.Split.{split_best_frequency}
use milli.QueryTree.Primitive
use milli.QueryTree.Primitive.{PrimitiveQueryPart}
use milli.QueryTree.Build.{
  exact_queries, synonym_operations, map_synonyms, push_split, synonyms, config,
  resolve_primitive_part, resolve_words, resolve_group, last_is_prefix, group_words, concat,
}

pub maximum_typo-make_and : (ops : Operations) → maximum_typo (make_and ops) ≡ maximum_typo_sum ops
unfolding make_and maximum_typo
maximum_typo-make_and nil = refl
maximum_typo-make_and (cons op nil) = omega arith
maximum_typo-make_and (cons op (cons o ops)) = refl

pub maximum_typo-make_or :
    (b : Bool) (ops : Operations) → maximum_typo (make_or b ops) ≡ maximum_typo_max ops
unfolding make_or maximum_typo
maximum_typo-make_or b nil = refl
maximum_typo-make_or b (cons op nil) = omega arith
maximum_typo-make_or b (cons op (cons o ops)) = refl

maximum_typo-make_phrase : (words : List Word) → maximum_typo (make_phrase words) ≡ 0
unfolding make_phrase maximum_typo
maximum_typo-make_phrase [] = refl
maximum_typo-make_phrase (w ∷ []) = refl
maximum_typo-make_phrase (w ∷ v ∷ words) = refl

max-push :
    (ops : Operations) (op : Operation)
    → maximum_typo_max (push ops op) ≡ max (maximum_typo_max ops) (maximum_typo op)
unfolding maximum_typo
max-push nil op = omega arith
max-push (cons o ops) op = omega (arith, max-push ops op)

sum-exact_queries : (words : List Word) → maximum_typo_sum (exact_queries words) ≡ 0
unfolding maximum_typo exact_queries
sum-exact_queries [] = refl
sum-exact_queries (w ∷ words) = omega (arith, sum-exact_queries words)

max-synonym_operations :
    (lists : List (List Word)) → maximum_typo_max (synonym_operations lists) ≡ 0
unfolding maximum_typo synonym_operations
max-synonym_operations [] = refl
max-synonym_operations (words ∷ lists) = omega (
  arith,
  max-synonym_operations lists,
  maximum_typo-make_and (exact_queries words),
  sum-exact_queries words,
)

-- The largest number of typos of one word.
abbrev pub typo_limit : Bool → ℕ
typo_limit true = 2
typo_limit false = 0

pub typo-typos-le :
    (word : Word) (authorize : Bool) (c : TypoConfig)
    → typo (typos word authorize c) ≤ typo_limit authorize
typo-typos-le word true c = (typos_bounds word true c).2
typo-typos-le word false c = rw (typo-typos_unauthorized word false c refl) (omega arith)

max-found :
    (found : Option (List (List Word))) → maximum_typo_max (unwrap_or nil (map_synonyms found)) ≡ 0
unfolding map_synonyms maximum_typo
max-found none = refl
max-found (some lists) = max-synonym_operations lists

max-push_split :
    (ops : Operations) (split : Option (Word × Word))
    → maximum_typo_max (push_split ops split) ≡ maximum_typo_max ops
unfolding push_split
max-push_split ops none = refl
max-push_split ops (some (l, r)) =
    max-push ops (phrase (l ∷ r ∷ [])) ∙ unfold maximum_typo in omega arith

maximum_typo-query : (q : Query) → maximum_typo (query q) ≡ typo q.kind
unfolding maximum_typo
maximum_typo-query q = refl

module _ {E : Type 0} (ctx : Context E) (authorize : Bool) where
  max-synonyms :
      (words : List Word) (found : Option Operations)
      → synonyms ctx authorize words ≡ ok found
      → maximum_typo_max (unwrap_or nil found) ≡ 0
  unfolding synonyms
  max-synonyms words found h =
      let (lists, e, same) = >>=-eq-ok (ctx.synonyms words) _ h in
      let made : map_synonyms lists ≡ found = cc in rw (← made) (max-found lists)

  -- Synonyms, the split and the word itself, under one `or`.
  choice-le :
      (children : Operations) (q : Query)
      → maximum_typo_max children ≡ 0
      → typo q.kind ≤ typo_limit authorize
      → maximum_typo (make_or false (push children (query q))) ≤ typo_limit authorize
  choice-le children q none_in h = omega (
    arith,
    maximum_typo-make_or false (push children (query q)),
    max-push children (query q),
    maximum_typo-query q,
  )

  resolve_part-le :
      (part : PrimitiveQueryPart) (op : Operation)
      → resolve_primitive_part ctx authorize part ≡ ok op
      → maximum_typo op ≤ typo_limit authorize
  unfolding resolve_primitive_part
  resolve_part-le (Primitive.word w prefix) op h =
      let (found, e, h₁) = >>=-eq-ok (synonyms ctx authorize (w ∷ [])) _ h in
      let (split, e₂, h₂) = >>=-eq-ok (split_best_frequency ctx w) _ h₁ in
      let (lens, e₃, h₃) = >>=-eq-ok ctx.min_word_len_for_typo _ h₂ in
      let kind = typos w authorize (config ctx authorize 2 lens) in
      let made : make_or false (
            push (push_split (unwrap_or nil found) split)
              (query (record { prefix = prefix; kind = kind })))
          ≡ op =
        cc in
      rw (← made) (
        choice-le _ (record { prefix = prefix; kind = kind })
          (max-push_split (unwrap_or nil found) split ∙ max-synonyms (w ∷ []) found e)
          (typo-typos-le w authorize (config ctx authorize 2 lens)))
  resolve_part-le (Primitive.phrase words) op h =
      let made : make_phrase words ≡ op = cc in
      rw (← made) (omega (arith, maximum_typo-make_phrase words))

  resolve_words-le :
      (parts : List PrimitiveQueryPart) (op : Operation)
      → resolve_words ctx authorize parts ≡ ok op
      → maximum_typo op ≤ typo_limit authorize
  unfolding resolve_words
  resolve_words-le parts op h =
      let (found, e, h₁) = >>=-eq-ok (synonyms ctx authorize (group_words parts)) _ h in
      let (lens, e₂, h₂) = >>=-eq-ok ctx.min_word_len_for_typo _ h₁ in
      let kind = typos (concat (group_words parts)) authorize (config ctx authorize 1 lens) in
      let q : Query = record { prefix = last_is_prefix parts; kind = kind } in
      let made : make_or false (push (unwrap_or nil found) (query q)) ≡ op = cc in
      rw (← made) (
        choice-le (unwrap_or nil found) q (max-synonyms (group_words parts) found e)
          (typo-typos-le (concat (group_words parts)) authorize (config ctx authorize 1 lens)))

  pub resolve_group-le :
      (parts : List PrimitiveQueryPart) (op : Operation)
      → resolve_group ctx authorize parts ≡ ok op
      → maximum_typo op ≤ typo_limit authorize
  unfolding resolve_group
  resolve_group-le [] op h = resolve_words-le [] op h
  resolve_group-le (p ∷ []) op h = resolve_part-le p op h
  resolve_group-le (p ∷ q ∷ parts) op h = resolve_words-le (p ∷ q ∷ parts) op h
