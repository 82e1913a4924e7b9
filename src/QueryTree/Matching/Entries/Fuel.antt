-- ===== src/QueryTree/Matching/Entries/Fuel.antt =====
-- The loops of `create_matching_words`: the fuel suffices, and all that is pushed is an entry.
use milli.Base.{
  ℕ, zero, suc, ◌+◌, ◌%◌, ◌^◌, ◌≤◌, ◌<◌, min, Bool, true, false, List, [], ◌∷◌, ◌++◌, length, take,
  drop, length-drop, All, All-append, ◌≡◌, ◌≢◌, sym, ap, subst, ◌∙◌, arith,
}
use milli.Base.Results.{Result, ok, err, ◌>>=◌}
use milli.QueryTree.Context.{Context}
use milli.QueryTree.Primitive.{PrimitiveQueryPart, is_nil}
use milli.QueryTree.Build.{Failure, out_of_fuel, lift, Grouping, both_words}
use milli.QueryTree.Build.Outcome.{
  Ensures, Ensures-bind, Ensures-lift, Ensures-ne, Ensures-ok, IsGrouping, total, length-join,
}
use milli.QueryTree.Matching.{
  Entry, sum_len, resolve_group, Rec, ngram_entries, ngram_rounds, group_entries, ngrams,
  create_matching_words,
}
use milli.QueryTree.Matching.Entries.{
  HasWords, IsEntry, AreEntries, All-take, All-drop, All-groups, resolve_group-AreEntries,
}

module _ {E : Type 0} (ctx : Context E) (authorize : Bool) (g : Grouping) where
  abbrev Pushes : Result (Failure E) (List Entry) → Type 0
  Pushes r = Ensures (AreEntries ctx authorize) r

  -- What is known of the recursive call, on shorter slices.
  abbrev Handles : ℕ → Rec ctx authorize g → Type 0
  Handles f rec =
      (parts : List PrimitiveQueryPart) (id : ℕ)
      → length parts < f
      → All HasWords parts
      → id < 2 ^ 8
      → Pushes (rec parts id)

  both :
      (here : List Entry) (m : Result (Failure E) (List Entry))
      → AreEntries ctx authorize here
      → Pushes m
      → Pushes (m >>= λ rest. ok (here ++ rest))
  both here m a h =
      Ensures-bind (AreEntries ctx authorize) (AreEntries ctx authorize) m _ h
        λ rest b. All-append (IsEntry ctx authorize) here rest a b

  module _ (f : ℕ) (rec : Rec ctx authorize g) (h : Handles f rec) where
    ngram_entries-Pushes :
        (sub : List PrimitiveQueryPart) (id ngram : ℕ)
        → All HasWords sub
        → id < 2 ^ 8
        → 1 ≤ ngram
        → ngram ≤ length sub
        → length sub ≤ f
        → Pushes (ngram_entries ctx authorize g rec sub id ngram)
    unfolding ngram_entries
    ngram_entries-Pushes sub id ngram a fits one le room =
        Ensures-bind (AreEntries ctx authorize) (AreEntries ctx authorize)
          (lift (resolve_group ctx authorize (take ngram sub) id)) _
          (Ensures-lift _ (resolve_group ctx authorize (take ngram sub) id) (λ entries e.
            resolve_group-AreEntries ctx authorize (take ngram sub) id entries
              (All-take HasWords ngram sub a) fits e))
          λ here b. go here b (is_nil (drop ngram sub))
      where
        go :
            (here : List Entry)
            → AreEntries ctx authorize here
            → (last : Bool)
            → Pushes (elim last [
              | true ↦ ok here
              | false ↦ rec (drop ngram sub) ((id + 1) % 2 ^ 8) >>= λ rest. ok (here ++ rest)
            ])
        go here b true = b
        go here b false = both here (rec (drop ngram sub) ((id + 1) % 2 ^ 8)) b (
            h (drop ngram sub) ((id + 1) % 2 ^ 8) (omega (arith, length-drop ngram sub))
              (All-drop HasWords ngram sub a) (omega arith))

    ngram_rounds-Pushes :
        (sub : List PrimitiveQueryPart) (id rounds ngram : ℕ)
        → All HasWords sub
        → id < 2 ^ 8
        → 1 ≤ ngram
        → ngram + rounds ≤ suc (length sub)
        → length sub ≤ f
        → Pushes (ngram_rounds ctx authorize g rec sub id rounds ngram)
    unfolding ngram_rounds
    ngram_rounds-Pushes sub id zero ngram a fits one le room = tt
    ngram_rounds-Pushes sub id (suc rounds) ngram a fits one le room =
        Ensures-bind (AreEntries ctx authorize) (AreEntries ctx authorize)
          (ngram_entries ctx authorize g rec sub id ngram) _
          (ngram_entries-Pushes sub id ngram a fits one (omega arith) room)
          λ here b.
            both here (ngram_rounds ctx authorize g rec sub id rounds (ngram + 1)) b (
              ngram_rounds-Pushes sub id rounds (ngram + 1) a fits (omega arith) (omega arith) room)

    group_entries-Pushes :
        (groups : List (List PrimitiveQueryPart)) (id : ℕ)
        → All (λ group. 0 < length group) groups
        → All (All HasWords) groups
        → id < 2 ^ 8
        → total groups ≤ f
        → Pushes (group_entries ctx authorize g rec groups id)
    unfolding group_entries
    group_entries-Pushes [] id l a fits room = tt
    group_entries-Pushes (sub ∷ groups) id l a fits room =
        Ensures-bind (AreEntries ctx authorize) (AreEntries ctx authorize)
          (ngram_rounds ctx authorize g rec sub id (min 3 (length sub)) 1) _
          (ngram_rounds-Pushes sub id (min 3 (length sub)) 1 a.0 fits (omega arith) (omega arith)
            (omega arith))
          λ here b.
            both here (group_entries ctx authorize g rec groups ((id + sum_len sub) % 2 ^ 8)) b (
              group_entries-Pushes groups ((id + sum_len sub) % 2 ^ 8) l.1 a.1 (omega arith)
                (omega arith))

  module _ (laws : IsGrouping g) where
    ngrams-Pushes :
        (fuel : ℕ) (parts : List PrimitiveQueryPart) (id : ℕ)
        → length parts < fuel
        → All HasWords parts
        → id < 2 ^ 8
        → Pushes (ngrams ctx authorize g fuel parts id)
    unfolding ngrams
    ngrams-Pushes zero parts id h a fits = elim h [ ]
    ngrams-Pushes (suc fuel) parts id h a fits =
        let groups = g both_words parts in
        let same : total groups ≡ length parts =
          sym (length-join groups) ∙ ap length (laws.joined both_words parts) in
        group_entries-Pushes fuel (ngrams ctx authorize g fuel) (ngrams-Pushes fuel) groups id
          (laws.nonempty both_words parts)
          (All-groups HasWords groups (subst (All HasWords) (sym (laws.joined both_words parts)) a))
          fits (omega arith)

    -- Given that the grouping cuts a slice into pieces that are not empty and that phrases have
    -- words: the fuel suffices for any query, and each entry that is made has a word to match,
    -- unless the index gives an empty synonym, words with at most two typos, with none if typos are
    -- not authorized, and ids of 8 bits.
    pub create_matching_words-AreEntries :
        (parts : List PrimitiveQueryPart)
        → All HasWords parts
        → (create_matching_words ctx authorize g parts ≢ err out_of_fuel)
          × ((entries : List Entry)
              → create_matching_words ctx authorize g parts ≡ ok entries
              → AreEntries ctx authorize entries)
    unfolding create_matching_words
    create_matching_words-AreEntries parts a =
        let made = ngrams ctx authorize g (suc (length parts)) parts 0 in
        let pushed = ngrams-Pushes (suc (length parts)) parts 0 (omega arith) a (omega arith) in
        (
          Ensures-ne (AreEntries ctx authorize) made pushed,
          λ entries e. Ensures-ok (AreEntries ctx authorize) made entries pushed e,
        )
