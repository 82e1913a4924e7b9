-- ===== src/QueryTree/Matching/Entries.antt =====
-- What the entries of the matching words look like, and that the fuel suffices.
pub mod Fuel
use milli.Base.{
  ℕ, zero, suc, ◌+◌, ◌-◌, ◌%◌, ◌^◌, ◌≤◌, ◌<◌, min, Bool, true, false, List, [], ◌∷◌, ◌++◌, Option,
  none, some, length, take, drop, length-drop, All, All-append, any, ◌⊎◌, inl, inr, ◌≡◌, ◌≢◌, refl,
  sym, ap, ◌∙◌, arith,
}
use milli.Base.Results.{Result, ok, err, ◌>>=◌, >>=-eq-ok}
use milli.QueryTree.{Word, QueryKind, tolerant, exact_kind, typo}
use milli.QueryTree.Context.{Context, unwrap_or}
use milli.QueryTree.Typos.{TypoConfig, typos, typos_bounds, typo-typos_unauthorized}
use milli.QueryTree.Split.{split_best_frequency}
use milli.QueryTree.Primitive
use milli.QueryTree.Primitive.{PrimitiveQueryPart, is_nil}
use milli.QueryTree.Build.{
  Failure, out_of_fuel, lift, Grouping, both_words, group_words, last_is_prefix, concat, config,
}
use milli.QueryTree.Build.Outcome.{
  Ensures, Ensures-bind, Ensures-lift, Ensures-ne, Ensures-ok, IsGrouping, join, total, length-join,
}
use milli.QueryTree.Build.Constructors.{typo_limit, typo-typos-le}
use milli.QueryTree.Matching.{
  MatchingWord, Entry, exact_word, exact_words, word_of_kind, ids_from, synonym_entries,
  split_entries, sum_len, resolve_primitive_part, resolve_words, resolve_group, ngram_entries,
  ngram_rounds, group_entries, ngrams, create_matching_words,
}

-- A phrase has words.
abbrev pub HasWords : PrimitiveQueryPart → Type 0
HasWords (Primitive.phrase words) = 0 < length words
HasWords (Primitive.word w prefix) = Unit

-- There is a word to match, unless the index gives an empty synonym.
abbrev pub HasWord : {E : Type 0} → Context E → {A : Type 0} → List A → Type 0
HasWord ctx words =
    (0 < length words)
    ⊎ ((key : List Word) × (lists : List (List Word)) × (ctx.synonyms key ≡ ok (some lists))
        × (any is_nil lists ≡ true))

-- It has a word, no word takes more typos than are authorized, and the ids have 8 bits.
abbrev pub IsEntry : {E : Type 0} → Context E → Bool → Entry → Type 0
IsEntry ctx authorize (words, ids) =
    HasWord ctx words
    × All (λ (w : MatchingWord). w.typo ≤ typo_limit authorize) words
    × All (λ i. i < 2 ^ 8) ids

abbrev pub AreEntries : {E : Type 0} → Context E → Bool → List Entry → Type 0
AreEntries ctx authorize entries = All (IsEntry ctx authorize) entries

length-exact_words : (ws : List Word) → length (exact_words ws) ≡ length ws
unfolding exact_words
length-exact_words [] = refl
length-exact_words (w ∷ ws) = ap suc (length-exact_words ws)

exact_words-All :
    (authorize : Bool) (ws : List Word)
    → All (λ (w : MatchingWord). w.typo ≤ typo_limit authorize) (exact_words ws)
unfolding exact_words
exact_words-All authorize [] = tt
exact_words-All authorize (w ∷ ws) = (omega arith, exact_words-All authorize ws)

ids_from-All : (id n : ℕ) → All (λ i. i < 2 ^ 8) (ids_from id n)
unfolding ids_from
ids_from-All id zero = tt
ids_from-All id (suc n) = (omega arith, ids_from-All (id + 1) n)

pub All-take : {A : Type 0} (P : A → Type 0) (n : ℕ) (xs : List A) → All P xs → All P (take n xs)
All-take P zero xs a = tt
All-take P (suc n) [] a = tt
All-take P (suc n) (x ∷ xs) a = (a.0, All-take P n xs a.1)

pub All-drop : {A : Type 0} (P : A → Type 0) (n : ℕ) (xs : List A) → All P xs → All P (drop n xs)
All-drop P zero xs a = a
All-drop P (suc n) [] a = tt
All-drop P (suc n) (x ∷ xs) a = All-drop P n xs a.1

All-left : {A : Type 0} (P : A → Type 0) (xs ys : List A) → All P (xs ++ ys) → All P xs × All P ys
All-left P [] ys a = (tt, a)
All-left P (x ∷ xs) ys a = let (l, r) = All-left P xs ys a.1 in ((a.0, l), r)

pub All-groups :
    (P : PrimitiveQueryPart → Type 0) (groups : List (List PrimitiveQueryPart))
    → All P (join groups)
    → All (All P) groups
All-groups P [] a = tt
All-groups P (g ∷ groups) a =
    let (l, r) = All-left P g (join groups) a in (l, All-groups P groups r)

module _ {E : Type 0} (ctx : Context E) (authorize : Bool) where
  HasWord-exact_words : (ws : List Word) → HasWord ctx ws → HasWord ctx (exact_words ws)
  HasWord-exact_words ws (inl h) = inl (omega (arith, length-exact_words ws))
  HasWord-exact_words ws (inr h) = inr h

  synonym_entries-AreEntries :
      (ids : List ℕ) (lists : List (List Word))
      → All (λ l. HasWord ctx l) lists
      → All (λ i. i < 2 ^ 8) ids
      → AreEntries ctx authorize (synonym_entries ids lists)
  unfolding synonym_entries
  synonym_entries-AreEntries ids [] a b = tt
  synonym_entries-AreEntries ids (l ∷ lists) a b = (
    (HasWord-exact_words l a.0, exact_words-All authorize l, b),
    synonym_entries-AreEntries ids lists a.1 b,
  )

  typo-word_of_kind :
      (w : Word) (prefix : Bool) (c : TypoConfig)
      → (word_of_kind (typos w authorize c) prefix).typo ≤ typo_limit authorize
  unfolding word_of_kind
  typo-word_of_kind w prefix c =
      omega (arith, kept (typos w authorize c), typo-typos-le w authorize c)
    where
      kept : (k : QueryKind) → (word_of_kind k prefix).typo ≤ typo k
      kept (exact_kind original word) = omega arith
      kept (tolerant t word) = omega arith

  -- The synonyms of one key: a list without words is an empty synonym of it.
  HasWord-lists :
      (key : List Word) (all lists : List (List Word))
      → ctx.synonyms key ≡ ok (some all)
      → (any is_nil lists ≡ true → any is_nil all ≡ true)
      → All (λ l. HasWord ctx l) lists
  HasWord-lists key all [] e h = tt
  HasWord-lists key all ([] ∷ lists) e h =
      (inr (key, all, e, h refl), HasWord-lists key all lists e (λ k. h refl))
  HasWord-lists key all ((w ∷ ws) ∷ lists) e h =
      (inl (omega arith), HasWord-lists key all lists e h)

  found_words :
      (words : List Word) (found : Option (List (List Word)))
      → ctx.synonyms words ≡ ok found
      → All (λ l. HasWord ctx l) (unwrap_or [] found)
  found_words words none e = tt
  found_words words (some lists) e = HasWord-lists words lists lists e (λ h. h)

  last-IsEntry :
      (w : Word) (prefix : Bool) (c : TypoConfig) (ids : List ℕ)
      → All (λ i. i < 2 ^ 8) ids
      → IsEntry ctx authorize (word_of_kind (typos w authorize c) prefix ∷ [], ids)
  last-IsEntry w prefix c ids a = (inl (omega arith), (typo-word_of_kind w prefix c, tt), a)

  split_entries-AreEntries :
      (id : ℕ) (split : Option (Word × Word))
      → id < 2 ^ 8
      → AreEntries ctx authorize (split_entries id split)
  unfolding split_entries
  split_entries-AreEntries id none h = tt
  split_entries-AreEntries id (some (left, right)) h =
      ((inl (omega arith), (omega arith, (omega arith, tt)), (h, tt)), tt)

  resolve_primitive_part-AreEntries :
      (part : PrimitiveQueryPart) (id : ℕ) (entries : List Entry)
      → HasWords part
      → id < 2 ^ 8
      → resolve_primitive_part ctx authorize part id ≡ ok entries
      → AreEntries ctx authorize entries
  unfolding resolve_primitive_part
  resolve_primitive_part-AreEntries (Primitive.word w prefix) id entries h fits e =
      let (found, e₁, h₁) = >>=-eq-ok (ctx.synonyms (w ∷ [])) _ e in
      let (split, e₂, h₂) = >>=-eq-ok (split_best_frequency ctx w) _ h₁ in
      let (lens, e₃, h₃) = >>=-eq-ok ctx.min_word_len_for_typo _ h₂ in
      let c = config ctx authorize 2 lens in
      let front = synonym_entries (id ∷ []) (unwrap_or [] found) in
      let last : Entry = (word_of_kind (typos w authorize c) prefix ∷ [], id ∷ []) in
      let made : front ++ split_entries id split ++ last ∷ [] ≡ entries = cc in
      rw (← made) (
        All-append (IsEntry ctx authorize) (front ++ split_entries id split) (last ∷ [])
          (All-append (IsEntry ctx authorize) front (split_entries id split)
            (synonym_entries-AreEntries (id ∷ []) (unwrap_or [] found)
              (found_words (w ∷ []) found e₁) (fits, tt))
            (split_entries-AreEntries id split fits))
          (last-IsEntry w prefix c (id ∷ []) (fits, tt), tt))
  resolve_primitive_part-AreEntries (Primitive.phrase words) id entries h fits e =
      let made : (exact_words words, ids_from id (length words)) ∷ [] ≡ entries = cc in
      rw (← made) (
        (
          inl (omega (arith, length-exact_words words)),
          exact_words-All authorize words,
          ids_from-All id (length words),
        ),
        tt,
      )

  resolve_words-AreEntries :
      (parts : List PrimitiveQueryPart) (id : ℕ) (entries : List Entry)
      → resolve_words ctx authorize parts id ≡ ok entries
      → AreEntries ctx authorize entries
  unfolding resolve_words
  resolve_words-AreEntries parts id entries e =
      let words = group_words parts in
      let ids = ids_from id (length words) in
      let (found, e₁, h₁) = >>=-eq-ok (ctx.synonyms words) _ e in
      let (lens, e₂, h₂) = >>=-eq-ok ctx.min_word_len_for_typo _ h₁ in
      let c = config ctx authorize 1 lens in
      let front = synonym_entries ids (unwrap_or [] found) in
      let last : Entry =
        (word_of_kind (typos (concat words) authorize c) (last_is_prefix parts) ∷ [], ids) in
      let made : front ++ last ∷ [] ≡ entries = cc in
      let fits = ids_from-All id (length words) in
      rw (← made) (
        All-append (IsEntry ctx authorize) front (last ∷ [])
          (synonym_entries-AreEntries ids (unwrap_or [] found) (found_words words found e₁) fits)
          (last-IsEntry (concat words) (last_is_prefix parts) c ids fits, tt))

  pub resolve_group-AreEntries :
      (parts : List PrimitiveQueryPart) (id : ℕ) (entries : List Entry)
      → All HasWords parts
      → id < 2 ^ 8
      → resolve_group ctx authorize parts id ≡ ok entries
      → AreEntries ctx authorize entries
  unfolding resolve_group
  resolve_group-AreEntries [] id entries a fits e = resolve_words-AreEntries [] id entries e
  resolve_group-AreEntries (p ∷ []) id entries a fits e =
      resolve_primitive_part-AreEntries p id entries a.0 fits e
  resolve_group-AreEntries (p ∷ q ∷ parts) id entries a fits e =
      resolve_words-AreEntries (p ∷ q ∷ parts) id entries e
