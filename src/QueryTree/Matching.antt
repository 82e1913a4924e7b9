-- ===== src/QueryTree/Matching.antt =====
-- The words to highlight: `create_matching_words` (milli/src/search/query_tree.rs) and the data and
-- the iterators of milli/src/search/matches/matching_words.rs. A `MatchingWord` is modelled without
-- its automaton, which is made from its other fields.
pub mod Entries
pub mod Tokens
mod Examples
use milli.Base.{
  ℕ, zero, suc, ◌+◌, ◌-◌, ◌%◌, ◌^◌, min, Bool, true, false, not, ◌||◌, List, [], ◌∷◌, ◌++◌, map,
  Option, none, some, length, take, drop, ltb, leb, ◌==◌, if◌then◌else◌,
}
use milli.Base.Results.{Result, ok, err, ◌>>=◌}
use milli.QueryTree.{Word, QueryKind, tolerant, exact_kind, typo, kind_word}
use milli.QueryTree.Context.{Context, unwrap_or}
use milli.QueryTree.Typos.{TypoConfig, typos}
use milli.QueryTree.Split.{split_best_frequency}
use milli.QueryTree.Primitive
use milli.QueryTree.Primitive.{PrimitiveQueryPart, is_nil, part_len}
use milli.QueryTree.Build.{
  Failure, storage, out_of_fuel, lift, Grouping, both_words, group_words, last_is_prefix, concat,
  config,
}

pub record MatchingWord : Type 0 where
  pub word : Word
  pub typo : ℕ
  pub prefix : Bool

-- The words to match one after the other, and the ids of the query words they stand for.
abbrev pub Entry : Type 0
Entry = List MatchingWord × List ℕ

-- `MatchingWord::new(word, 0, false)`.
abbrev pub exact_word : Word → MatchingWord
exact_word w = record { word = w; typo = 0; prefix = false }

unfoldable pub exact_words : List Word → List MatchingWord
exact_words [] = []
exact_words (w ∷ ws) = exact_word w ∷ exact_words ws

-- The `match typos(...)` of both branches.
unfoldable pub word_of_kind : QueryKind → Bool → MatchingWord
word_of_kind (exact_kind original w) prefix = record { word = w; typo = 0; prefix = prefix }
word_of_kind (tolerant t w) prefix = record { word = w; typo = t; prefix = prefix }

-- `(0..n).map(|i| id + i as u8)`, wrapping at 8 bits.
unfoldable pub ids_from : ℕ → ℕ → List ℕ
ids_from id zero = []
ids_from id (suc n) = id % 2 ^ 8 ∷ ids_from (id + 1) n

unfoldable pub synonym_entries : List ℕ → List (List Word) → List Entry
unfolding exact_words
synonym_entries ids [] = []
synonym_entries ids (synonym ∷ synonyms) = (exact_words synonym, ids) ∷ synonym_entries ids synonyms

unfoldable pub split_entries : ℕ → Option (Word × Word) → List Entry
split_entries id none = []
split_entries id (some (left, right)) = (exact_word left ∷ exact_word right ∷ [], id ∷ []) ∷ []

-- `sub_query.iter().map(|x| x.len() as u8).sum()`.
abbrev pub sum_len : List PrimitiveQueryPart → ℕ
sum_len [] = 0
sum_len (part ∷ parts) = part_len part + sum_len parts

module _ {E : Type 0} (ctx : Context E) (authorize_typos : Bool) where
  -- What `resolve_primitive_part` pushes.
  unfoldable pub resolve_primitive_part : PrimitiveQueryPart → ℕ → Result E (List Entry)
  unfolding config word_of_kind exact_words split_entries synonym_entries ids_from
  resolve_primitive_part (Primitive.word w prefix) id = ctx.synonyms (w ∷ []) >>= λ synonyms.
      split_best_frequency ctx w >>= λ split. ctx.min_word_len_for_typo >>= λ lens. ok (
        synonym_entries (id ∷ []) (unwrap_or [] synonyms)
        ++ split_entries id split
        ++ (
          word_of_kind (typos w authorize_typos (config ctx authorize_typos 2 lens)) prefix ∷ [],
          id ∷ [],
        )
          ∷ [])
  resolve_primitive_part (Primitive.phrase words) id =
      ok ((exact_words words, ids_from id (length words)) ∷ [])

  -- What is pushed for two or three words that are joined.
  unfoldable pub resolve_words : List PrimitiveQueryPart → ℕ → Result E (List Entry)
  unfolding config word_of_kind synonym_entries ids_from
  resolve_words parts id =
      let words = group_words parts in
      let ids = ids_from id (length words) in
      ctx.synonyms words >>= λ synonyms. ctx.min_word_len_for_typo >>= λ lens. ok (
        synonym_entries ids (unwrap_or [] synonyms)
        ++ (
          word_of_kind (typos (concat words) authorize_typos (config ctx authorize_typos 1 lens))
                (last_is_prefix parts)
              ∷ [],
          ids,
        )
          ∷ [])

  unfoldable pub resolve_group : List PrimitiveQueryPart → ℕ → Result E (List Entry)
  resolve_group (part ∷ []) id = resolve_primitive_part part id
  resolve_group parts id = resolve_words parts id

  module _ (linear_group_by : Grouping) where
    abbrev pub Rec : Type 0
    Rec = List PrimitiveQueryPart → ℕ → Result (Failure E) (List Entry)

    -- One round of the loop over `ngram`; `rec` is `ngrams` on the tail.
    unfoldable pub ngram_entries :
        Rec → List PrimitiveQueryPart → ℕ → ℕ → Result (Failure E) (List Entry)
    ngram_entries rec sub_query id ngram =
        lift (resolve_group (take ngram sub_query) id) >>= λ here.
        let tail = drop ngram sub_query in
        elim (is_nil tail) [
          | true ↦ ok here
          | false ↦ rec tail ((id + 1) % 2 ^ 8) >>= λ rest. ok (here ++ rest)
        ]

    -- `for ngram in 1..=MAX_NGRAM.min(sub_query.len())`, by the rounds that are left.
    unfoldable pub ngram_rounds :
        Rec → List PrimitiveQueryPart → ℕ → ℕ → ℕ → Result (Failure E) (List Entry)
    ngram_rounds rec sub_query id zero ngram = ok []
    ngram_rounds rec sub_query id (suc rounds) ngram =
        ngram_entries rec sub_query id ngram >>= λ here.
        ngram_rounds rec sub_query id rounds (ngram + 1) >>= λ rest. ok (here ++ rest)

    -- The loop over the groups.
    unfoldable pub group_entries :
        Rec → List (List PrimitiveQueryPart) → ℕ → Result (Failure E) (List Entry)
    group_entries rec [] id = ok []
    group_entries rec (sub_query ∷ groups) id =
        ngram_rounds rec sub_query id (min 3 (length sub_query)) 1 >>= λ here.
        group_entries rec groups ((id + sum_len sub_query) % 2 ^ 8) >>= λ rest. ok (here ++ rest)

    unfoldable pub ngrams : ℕ → List PrimitiveQueryPart → ℕ → Result (Failure E) (List Entry)
    ngrams zero parts id = err out_of_fuel
    ngrams (suc fuel) parts id = group_entries (ngrams fuel) (linear_group_by both_words parts) id

    -- The words before `MatchingWords::new` sorts them.
    unfoldable pub create_matching_words : List PrimitiveQueryPart → Result (Failure E) (List Entry)
    create_matching_words parts = ngrams (suc (length parts)) parts 0
