-- ===== src/Filter/Request/Combined.antt =====
-- What the combined filter of a request means, and that it is never too deep.
use milli.Base.{
  ◌<◌, Bool, true, false, ◌&&◌, ◌||◌, ◌≡◌, refl, List, [], ◌∷◌, Option, none, some, arith, any,
  ◌++◌, sym, ap, subst, not, ◌∙◌,
}
use milli.Base.Results.{Result, ok, err, >>=-eq-ok}
use milli.Filter.{FilterCondition, token_at_depth}
use milli.Filter.Meaning.{View, matches}
use milli.Filter.Depth.{height, token_at_depth-none}
use milli.Filter.Request.{
  Entry, left, right, check_token, check_depth, check_parsed, join_or, join_and, from_str, or_rules,
  entry_filter, and_entries, from_array, max_filter_depth,
}

-- A filter below the depth limit, or none.
abbrev pub Fits : {T : Type 0} → Option (FilterCondition T) → Type 0
Fits none = Unit
Fits (some f) = height f < max_filter_depth

module _ {T E : Type 0} where
  check_token-ok :
      (f : FilterCondition T) (o : Option T) (g : Option (FilterCondition T))
      → token_at_depth f max_filter_depth ≡ o
      → check_token {E = E} f o ≡ ok g
      → (some f ≡ g) × Fits (some f)
  unfolding check_token
  check_token-ok f none g e h = (cc, (token_at_depth-none f max_filter_depth).0 e)
  check_token-ok f (some t) g e h = cc

  check_depth-ok :
      (o g : Option (FilterCondition T)) → check_depth {E = E} o ≡ ok g → (o ≡ g) × Fits o
  unfolding check_depth
  check_depth-ok none g h = (cc, tt)
  check_depth-ok (some f) g h = check_token-ok f (token_at_depth f max_filter_depth) g refl h

module _ {T E R : Type 0} (parse : R → Result E (Option (FilterCondition T))) where
  -- A request's filter is never deeper than the limit.
  pub from_array-Fits :
      (array : List (Entry R)) (g : Option (FilterCondition T))
      → from_array parse array ≡ ok g
      → Fits g
  unfolding from_array
  from_array-Fits array g h =
      let (joined, e, checked) = >>=-eq-ok (and_entries parse array none) check_depth h in
      let (same, fits) = check_depth-ok joined g checked in subst Fits same fits

  from_str-ok :
      (rule : R) (g : Option (FilterCondition T)) → from_str parse rule ≡ ok g → parse rule ≡ ok g
  unfolding from_str
  from_str-ok rule g h = go (parse rule) refl h
    where
      go :
          (r : Result E (Option (FilterCondition T)))
          → parse rule ≡ r
          → check_parsed r ≡ ok g
          → r ≡ ok g
      go (ok f) e k = ap ok (check_depth-ok f g k).0
      go (err x) e k = cc

  -- The trees of the rules that are not blank.
  abbrev pub tree_of : Result E (Option (FilterCondition T)) → List (FilterCondition T)
  tree_of (ok (some f)) = f ∷ []
  tree_of (ok none) = []
  tree_of (err e) = []

  abbrev pub trees : List R → List (FilterCondition T)
  trees [] = []
  trees (rule ∷ rules) = tree_of (parse rule) ++ trees rules

  module _ (d : View T) where
    abbrev is_some : Option (FilterCondition T) → Bool
    is_some none = false
    is_some (some f) = true

    abbrev nonempty : List (FilterCondition T) → Bool
    nonempty [] = false
    nonempty (f ∷ fs) = true

    -- No filter is one that every document matches.
    abbrev pub says : Option (FilterCondition T) → Bool
    says none = true
    says (some f) = matches d f

    abbrev some_says : Option (FilterCondition T) → Bool
    some_says none = false
    some_says (some f) = matches d f

    -- The rules of a `Left` are alternatives, unless all of them are blank.
    abbrev pub any_tree : List (FilterCondition T) → Bool
    any_tree fs = not (nonempty fs) || any (matches d) fs

    abbrev pub entry_says : Entry R → Bool
    entry_says (left rules) = any_tree (trees rules)
    entry_says (right rule) = any_tree (tree_of (parse rule))

    abbrev pub all_say : List (Entry R) → Bool
    all_say [] = true
    all_say (entry ∷ entries) = entry_says entry && all_say entries

    says-join_or :
        (ors f : Option (FilterCondition T))
        → (some_says (join_or ors f) ≡ some_says ors || some_says f)
          × (is_some (join_or ors f) ≡ is_some ors || is_some f)
    unfolding join_or matches
    says-join_or none none = (refl, refl)
    says-join_or none (some f) = (refl, refl)
    says-join_or (some g) none = ground arith
    says-join_or (some g) (some f) = (refl, refl)

    says-join_and :
        (ands f : Option (FilterCondition T)) → says (join_and ands f) ≡ says ands && says f
    unfolding join_and matches
    says-join_and none none = refl
    says-join_and none (some f) = refl
    says-join_and (some g) none = ground arith
    says-join_and (some g) (some f) = refl

    abbrev AddsUp :
        Option (FilterCondition T) → List (FilterCondition T) → Option (FilterCondition T) → Type 0
    AddsUp ors fs g =
        (some_says g ≡ some_says ors || any (matches d) fs)
        × (is_some g ≡ is_some ors || nonempty fs)

    adds_next :
        (ors f g : Option (FilterCondition T)) (fs : List (FilterCondition T))
        → AddsUp (join_or ors f) fs g
        → AddsUp ors (tree_of (ok f) ++ fs) g
    adds_next ors none fs g a = ground (arith, says-join_or ors none)
    adds_next ors (some f) fs g a = ground (arith, says-join_or ors (some f))

    or_rules-AddsUp :
        (rules : List R) (ors g : Option (FilterCondition T))
        → or_rules parse rules ors ≡ ok g
        → AddsUp ors (trees rules) g
    unfolding or_rules
    or_rules-AddsUp [] ors g h = let e : ors ≡ g = cc in rw (← e) (ground arith, ground arith)
    or_rules-AddsUp (rule ∷ rules) ors g h =
        let (f, e, rest) = >>=-eq-ok (from_str parse rule) _ h in
        rw (from_str-ok rule f e)
          (adds_next ors f g (trees rules) (or_rules-AddsUp rules (join_or ors f) g rest))

    entry_filter-says :
        (entry : Entry R) (g : Option (FilterCondition T))
        → entry_filter parse entry ≡ ok g
        → says g ≡ entry_says entry
    unfolding entry_filter
    entry_filter-says (left rules) none h = ground (arith, or_rules-AddsUp rules none none h)
    entry_filter-says (left rules) (some g) h =
        ground (arith, or_rules-AddsUp rules none (some g) h)
    entry_filter-says (right rule) none h = rw (from_str-ok rule none h)
    entry_filter-says (right rule) (some f) h = rw (from_str-ok rule (some f) h) (ground arith)

    and_entries-says :
        (array : List (Entry R)) (ands g : Option (FilterCondition T))
        → and_entries parse array ands ≡ ok g
        → says g ≡ says ands && all_say array
    unfolding and_entries
    and_entries-says [] ands g h = let e : ands ≡ g = cc in rw (← e) (ground arith)
    and_entries-says (entry ∷ entries) ands g h =
        let (f, e, rest) = >>=-eq-ok (entry_filter parse entry) _ h in
        ground (
          arith,
          says-join_and ands f,
          entry_filter-says entry f e,
          and_entries-says entries (join_and ands f) g rest,
        )

    -- A request whose rules all parse and whose filter is not too deep matches the documents that
    -- match every entry of the array: a rule alone, or one of the alternatives of a `Left`. Blank
    -- rules and entries with blank rules only restrict nothing.
    pub from_array-says :
        (array : List (Entry R)) (g : Option (FilterCondition T))
        → from_array parse array ≡ ok g
        → says g ≡ all_say array
    unfolding from_array
    from_array-says array g h =
        let (joined, e, checked) = >>=-eq-ok (and_entries parse array none) check_depth h in
        let same = (check_depth-ok joined g checked).0 in
        sym (ap says same) ∙ and_entries-says array none joined e
