-- ===== src/QueryTree/Build.antt =====
-- Building the tree: `synonyms`, `create_query_tree` and its inner functions.
pub mod Outcome
pub mod Constructors
pub mod TypoBound
pub mod Accepts
use milli.Base.{
  ℕ, zero, suc, ◌+◌, ◌-◌, min, Bool, true, false, not, ◌||◌, List, [], ◌∷◌, ◌++◌, Option, none,
  some, length, take, drop, ◌==◌, if◌then◌else◌,
}
use milli.Base.Results.{Result, ok, err, ◌>>=◌}
use milli.QueryTree.{
  Word, exact, Query, Operation, and, phrase, or, query, Operations, nil, cons, push, make_and,
  make_or, make_phrase,
}
use milli.QueryTree.Context.{Context, unwrap_or}
use milli.QueryTree.Typos.{TypoConfig, typos}
use milli.QueryTree.Split.{split_best_frequency}
use milli.QueryTree.Primitive
use milli.QueryTree.Primitive.{PrimitiveQueryPart, is_phrase, is_prefix, is_nil}

-- `slice_group_by::GroupBy::linear_group_by` on slices of parts: runs of neighbours that pass a test.
abbrev pub Grouping : Type 0
Grouping =
    (PrimitiveQueryPart → PrimitiveQueryPart → Bool)
    → List PrimitiveQueryPart
    → List (List PrimitiveQueryPart)

-- An error of the storage. `out_of_fuel` has no counterpart in the program.
pub data Failure (E : Type 0) : Type 0 where
  storage : E → Failure E
  out_of_fuel : Failure E

abbrev pub lift : {E A : Type 0} → Result E A → Result (Failure E) A
lift (ok a) = ok a
lift (err e) = err (storage e)

abbrev pub exact_query : Word → Operation
exact_query word = query (record { prefix = false; kind = exact word })

unfoldable pub exact_queries : List Word → Operations
exact_queries [] = nil
exact_queries (word ∷ words) = cons (exact_query word) (exact_queries words)

unfoldable pub synonym_operations : List (List Word) → Operations
synonym_operations [] = nil
synonym_operations (synonym ∷ synonyms) =
    cons (make_and (exact_queries synonym)) (synonym_operations synonyms)

map_synonyms : Option (List (List Word)) → Option Operations
map_synonyms none = none
map_synonyms (some lists) = some (synonym_operations lists)

-- The words of a group of parts.
unfoldable pub group_words : List PrimitiveQueryPart → List Word
group_words [] = []
group_words (Primitive.word w prefix ∷ parts) = w ∷ group_words parts
group_words (Primitive.phrase words ∷ parts) = group_words parts

-- `words.concat()`.
abbrev pub concat : List Word → Word
concat [] = []
concat (w ∷ ws) = w ++ concat ws

-- `words.last().map_or(false, |part| part.is_prefix())`.
unfoldable pub last_is_prefix : List PrimitiveQueryPart → Bool
last_is_prefix [] = false
last_is_prefix (p ∷ []) = is_prefix p
last_is_prefix (p ∷ q ∷ parts) = last_is_prefix (q ∷ parts)

-- The test that groups neighbouring words.
abbrev pub both_words : PrimitiveQueryPart → PrimitiveQueryPart → Bool
both_words a b = not (is_phrase a || is_phrase b)

-- The phrase of a split word, pushed if there is a split.
push_split : Operations → Option (Word × Word) → Operations
push_split children none = children
push_split children (some (left, right)) = push children (phrase (left ∷ right ∷ []))

-- `query.iter().filter(|p| p.is_phrase()).count()`.
pub number_phrases : List PrimitiveQueryPart → ℕ
number_phrases [] = 0
number_phrases (p ∷ parts) = (if is_phrase p then 1 else 0) + number_phrases parts

-- All phrases and the first `word_count` words.
unfoldable pub keep_words : ℕ → List PrimitiveQueryPart → List PrimitiveQueryPart
keep_words count [] = []
keep_words count (Primitive.phrase words ∷ parts) = Primitive.phrase words ∷ keep_words count parts
keep_words zero (Primitive.word w prefix ∷ parts) = keep_words zero parts
keep_words (suc count) (Primitive.word w prefix ∷ parts) =
    Primitive.word w prefix ∷ keep_words count parts

module _ {E : Type 0} (ctx : Context E) (authorize_typos : Bool) where
  unfoldable pub synonyms : List Word → Result E (Option Operations)
  unfolding map_synonyms
  synonyms words = ctx.synonyms words >>= λ found. ok (map_synonyms found)

  unfoldable pub config : ℕ → ℕ × ℕ → TypoConfig
  config max_typos (one, two) = record {
    max_typos = max_typos;
    word_len_one_typo = one;
    word_len_two_typo = two;
    exact_words = ctx.exact_words;
  }

  unfoldable pub resolve_primitive_part : PrimitiveQueryPart → Result E Operation
  unfolding push_split config
  resolve_primitive_part (Primitive.word w prefix) = synonyms (w ∷ []) >>= λ found.
      split_best_frequency ctx w >>= λ split. ctx.min_word_len_for_typo >>= λ lens. ok (
        make_or false (
          push (push_split (unwrap_or nil found) split)
            (query (record { prefix = prefix; kind = typos w authorize_typos (config 2 lens) }))))
  resolve_primitive_part (Primitive.phrase words) = ok (make_phrase words)

  -- The case of two or three words that are joined.
  unfoldable pub resolve_words : List PrimitiveQueryPart → Result E Operation
  unfolding config
  resolve_words parts = synonyms (group_words parts) >>= λ found.
      ctx.min_word_len_for_typo >>= λ lens. ok (
        make_or false (
          push (unwrap_or nil found) (
            query (record {
              prefix = last_is_prefix parts;
              kind = typos (concat (group_words parts)) authorize_typos (config 1 lens);
            }))))

  unfoldable pub resolve_group : List PrimitiveQueryPart → Result E Operation
  resolve_group (part ∷ []) = resolve_primitive_part part
  resolve_group parts = resolve_words parts

  module _ (linear_group_by : Grouping) where
    -- `and_op_children` of a group and what follows it; `rec` is `ngrams` on the tail.
    unfoldable pub ngram_operation :
        (List PrimitiveQueryPart → Result (Failure E) Operation)
        → List PrimitiveQueryPart
        → ℕ
        → Result (Failure E) Operation
    ngram_operation rec sub_query ngram =
        lift (resolve_group (take ngram sub_query)) >>= λ operation.
        let tail = drop ngram sub_query in
        elim (is_nil tail) [
          | true ↦ ok (make_and (cons operation nil))
          | false ↦ rec tail >>= λ rest. ok (make_and (cons operation (cons rest nil)))
        ]

    -- `for ngram in 1..=MAX_NGRAM.min(sub_query.len())`, by the rounds that are left.
    unfoldable pub ngram_rounds :
        (List PrimitiveQueryPart → Result (Failure E) Operation)
        → List PrimitiveQueryPart
        → ℕ
        → ℕ
        → Result (Failure E) Operations
    ngram_rounds rec sub_query zero ngram = ok nil
    ngram_rounds rec sub_query (suc rounds) ngram =
        ngram_operation rec sub_query ngram >>= λ operation.
        ngram_rounds rec sub_query rounds (ngram + 1) >>= λ rest. ok (cons operation rest)

    -- The loop over the groups.
    unfoldable pub group_operations :
        (List PrimitiveQueryPart → Result (Failure E) Operation)
        → List (List PrimitiveQueryPart)
        → Result (Failure E) Operations
    group_operations rec [] = ok nil
    group_operations rec (sub_query ∷ groups) =
        ngram_rounds rec sub_query (min 3 (length sub_query)) 1 >>= λ ops.
        group_operations rec groups >>= λ rest. ok (cons (make_or false ops) rest)

    unfoldable pub ngrams : ℕ → List PrimitiveQueryPart → Result (Failure E) Operation
    ngrams zero parts = err out_of_fuel
    ngrams (suc fuel) parts =
        group_operations (ngrams fuel) (linear_group_by both_words parts) >>= λ ops.
        ok (make_and ops)

    -- `for len in start..=query.len()`, by the rounds that are left; `count` is `len - number_phrases`.
    unfoldable pub optional_rounds : List PrimitiveQueryPart → ℕ → ℕ → Result (Failure E) Operations
    optional_rounds parts zero count = ok nil
    optional_rounds parts (suc rounds) count =
        ngrams (suc (length parts)) (keep_words count parts) >>= λ op.
        optional_rounds parts rounds (count + 1) >>= λ rest. ok (cons op rest)

    unfoldable pub optional_word : List PrimitiveQueryPart → Result (Failure E) Operation
    unfolding number_phrases
    optional_word parts =
        let phrases = number_phrases parts in
        let first : ℕ = phrases + (if phrases == 0 then 1 else 0) in
        optional_rounds parts (length parts + 1 - first) (first - phrases) >>= λ ops.
        ok (make_or true ops)

    unfoldable pub create_query_tree : Bool → List PrimitiveQueryPart → Result (Failure E) Operation
    create_query_tree true parts = optional_word parts
    create_query_tree false parts = ngrams (suc (length parts)) parts
