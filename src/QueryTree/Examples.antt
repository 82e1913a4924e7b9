-- ===== src/QueryTree/Examples.antt =====
-- A small index and a grouping of slices for the tests: the theorems at concrete queries.
use milli.Base.{
  ℕ, ◌*◌, ◌≤◌, ◌<◌, min, Bool, true, false, List, [], ◌∷◌, ◌++◌, Option, none, some, ◌≡◌, ◌≢◌, ◌↔◌,
  refl, arith, length, All, Bool-cases, inl, inr, if◌then◌else◌,
}
use milli.Base.Results.{ok, err}
use milli.QueryTree.{
  Word, typo, tolerant, Operation, and, phrase, or, query, nil, cons, make_and, make_or,
  maximum_typo,
}
use milli.QueryTree.Context.{Context}
use milli.QueryTree.Typos.{TypoConfig, is_exact_word, typos, typos_iff}
use milli.QueryTree.Split.{IsBest, split_best_frequency, split_best_frequency_lem}
use milli.QueryTree.Primitive
use milli.QueryTree.Primitive.{
  Token, TokenKind, stop_word, separator, hard, soft, PrimitiveQueryPart, create_primitive_query,
  loop, word_step, separator_step, quote_count, State, push_part, close_phrase,
}
use milli.QueryTree.Primitive.Limit.{create_primitive_query-le}
use milli.QueryTree.Primitive.Shape.{IsDone, create_primitive_query-IsDone}
use milli.QueryTree.Build.{
  Grouping, out_of_fuel, synonyms, resolve_primitive_part, resolve_words, resolve_group,
  ngram_operation, ngram_rounds, group_operations, ngrams, create_query_tree, group_words,
  last_is_prefix,
}
use milli.QueryTree.Build.Outcome.{IsGrouping, join, Neighbours}
use milli.QueryTree.Build.Constructors.{typo_limit}
use milli.QueryTree.Build.TypoBound.{create_query_tree-typos}
use milli.QueryTree.Build.Accepts.{accepts, create_query_tree-accepts}

attach :
    (PrimitiveQueryPart → PrimitiveQueryPart → Bool)
    → PrimitiveQueryPart
    → List (List PrimitiveQueryPart)
    → List (List PrimitiveQueryPart)
attach test p [] = (p ∷ []) ∷ []
attach test p ([] ∷ gs) = (p ∷ []) ∷ gs
attach test p ((q ∷ g) ∷ gs) = if test p q then (p ∷ q ∷ g) ∷ gs else (p ∷ []) ∷ (q ∷ g) ∷ gs

unfoldable pub runs : Grouping
unfolding attach
runs test [] = []
runs test (p ∷ parts) = attach test p (runs test parts)

module _ (test : PrimitiveQueryPart → PrimitiveQueryPart → Bool) where
  join-attach :
      (p : PrimitiveQueryPart) (gs : List (List PrimitiveQueryPart))
      → join (attach test p gs) ≡ p ∷ join gs
  unfolding attach
  join-attach p [] = refl
  join-attach p ([] ∷ gs) = refl
  join-attach p ((q ∷ g) ∷ gs) = elim (Bool-cases (test p q)) [ inl e ↦ rw e | inr e ↦ rw e ]

  nonempty-attach :
      (p : PrimitiveQueryPart) (gs : List (List PrimitiveQueryPart))
      → All (λ group. 0 < length group) gs
      → All (λ group. 0 < length group) (attach test p gs)
  unfolding attach
  nonempty-attach p [] a = (omega arith, tt)
  nonempty-attach p ([] ∷ gs) a = (omega arith, a.1)
  nonempty-attach p ((q ∷ g) ∷ gs) a = elim (Bool-cases (test p q)) [
    | inl e ↦ rw e (omega arith, a.1)
    | inr e ↦ rw e (omega arith, (omega arith, a.1))
  ]

  uniform-attach :
      (p : PrimitiveQueryPart) (gs : List (List PrimitiveQueryPart))
      → All (Neighbours test) gs
      → All (Neighbours test) (attach test p gs)
  unfolding attach
  uniform-attach p [] a = (tt, tt)
  uniform-attach p ([] ∷ gs) a = (tt, a.1)
  uniform-attach p ((q ∷ g) ∷ gs) a = elim (Bool-cases (test p q)) [
    | inl e ↦ rw e ((e, a.0), a.1)
    | inr e ↦ rw e (tt, a)
  ]

  join-runs : (parts : List PrimitiveQueryPart) → join (runs test parts) ≡ parts
  unfolding runs
  join-runs [] = refl
  join-runs (p ∷ parts) = rw (join-attach, join-runs parts)

  nonempty-runs :
      (parts : List PrimitiveQueryPart) → All (λ group. 0 < length group) (runs test parts)
  unfolding runs
  nonempty-runs [] = tt
  nonempty-runs (p ∷ parts) = nonempty-attach p (runs test parts) (nonempty-runs parts)

  uniform-runs : (parts : List PrimitiveQueryPart) → All (Neighbours test) (runs test parts)
  unfolding runs
  uniform-runs [] = tt
  uniform-runs (p ∷ parts) = uniform-attach p (runs test parts) (uniform-runs parts)

pub runs-IsGrouping : IsGrouping runs
runs-IsGrouping = record { joined = join-runs; nonempty = nonempty-runs; uniform = uniform-runs }

-- Every word stands in as many documents as it has characters, and has no synonyms.
abbrev frequencies : Word → Option ℕ
frequencies w = some (length w)

abbrev pub index : Context ℕ
index = record {
  word_documents_count = λ w. ok (frequencies w);
  synonyms = λ words. ok none;
  min_word_len_for_typo = ok (2, 4);
  exact_words = none;
}

-- The words "ab" and "xyz", and the phrase "ab xyz".
abbrev pub ab : Word
ab = b'a' ∷ b'b' ∷ []

abbrev pub xyz : Word
xyz = b'x' ∷ b'y' ∷ b'z' ∷ []

abbrev pub two_words : List PrimitiveQueryPart
two_words = Primitive.word ab false ∷ Primitive.word xyz true ∷ []

abbrev expected : Operation
expected = or false (
    cons
      (and (
        cons
          (or false (
            cons (phrase ((b'a' ∷ []) ∷ (b'b' ∷ []) ∷ []))
              (cons (query (record { prefix = false; kind = tolerant 1 ab })) nil)))
          (cons
            (or false (
              cons (phrase ((b'x' ∷ []) ∷ (b'y' ∷ b'z' ∷ []) ∷ []))
                (cons (query (record { prefix = true; kind = tolerant 1 xyz })) nil)))
            nil)))
      (cons (query (record { prefix = true; kind = tolerant 1 (ab ++ xyz) })) nil))

builds : create_query_tree index true runs false two_words ≡ ok expected
unfolding create_query_tree ngrams group_operations ngram_rounds ngram_operation resolve_group
    resolve_words resolve_primitive_part synonyms split_best_frequency typos make_and make_or
    group_words last_is_prefix runs
builds = refl

abbrev four_typos : TypoConfig
four_typos = record {
  max_typos = 2;
  word_len_one_typo = 2;
  word_len_two_typo = 4;
  exact_words = none;
}

typos_iff_example :
    ((0 < typo (typos xyz true four_typos)) ↔ (
      (◌≡◌ {A = Bool} true true)
      × (is_exact_word four_typos.exact_words xyz ≡ false)
      × (four_typos.word_len_one_typo ≤ min (length xyz) 255)
      × (0 < four_typos.max_typos)))
    × ((1 < typo (typos xyz true four_typos)) ↔ (
        (◌≡◌ {A = Bool} true true)
        × (is_exact_word four_typos.exact_words xyz ≡ false)
        × (four_typos.word_len_one_typo ≤ min (length xyz) 255)
        × (four_typos.word_len_two_typo ≤ min (length xyz) 255)
        × (1 < four_typos.max_typos)))
typos_iff_example = typos_iff xyz true four_typos

split_best_frequency_lem_example :
    (r : Option (Word × Word)) × (split_best_frequency index xyz ≡ ok r)
    × IsBest index frequencies (λ w. refl) xyz r
split_best_frequency_lem_example = split_best_frequency_lem index frequencies (λ w. refl) xyz

-- `ab "xyz ab" ab`
abbrev quoted_query : List Token
quoted_query =
    record { kind = TokenKind.word; lemma = ab }
    ∷ record { kind = separator soft; lemma = b' ' ∷ b'"' ∷ [] }
    ∷ record { kind = TokenKind.word; lemma = xyz }
    ∷ record { kind = separator soft; lemma = b' ' ∷ [] }
    ∷ record { kind = stop_word; lemma = ab }
    ∷ record { kind = separator soft; lemma = b'"' ∷ b' ' ∷ [] }
    ∷ record { kind = TokenKind.word; lemma = ab }
    ∷ []

parses :
    create_primitive_query none quoted_query (some 5)
    ≡ Primitive.word ab false ∷ Primitive.phrase (xyz ∷ ab ∷ []) ∷ Primitive.word ab true ∷ []
unfolding create_primitive_query word_step separator_step quote_count
parses = refl

create_primitive_query-le_example : length (create_primitive_query none quoted_query (some 2)) ≤ 2
create_primitive_query-le_example = create_primitive_query-le none quoted_query 2

create_primitive_query-IsDone_example :
    IsDone none (create_primitive_query none quoted_query (some 5))
create_primitive_query-IsDone_example = create_primitive_query-IsDone none quoted_query (some 5)

create_query_tree-typos_example :
    (create_query_tree index true runs false two_words ≢ err out_of_fuel)
    × ((op : Operation)
        → create_query_tree index true runs false two_words ≡ ok op
        → maximum_typo op ≤ typo_limit true * length two_words)
create_query_tree-typos_example =
    create_query_tree-typos index true runs runs-IsGrouping false two_words

-- A document that holds every word.
create_query_tree-accepts_example : accepts (λ w. true) (λ ws. false) expected ≡ true
create_query_tree-accepts_example =
    create_query_tree-accepts (λ w. true) (λ ws. false) index true runs runs-IsGrouping false
      two_words expected builds (omega arith) (refl, (refl, tt))
