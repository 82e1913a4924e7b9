-- ===== src/QueryTree/Primitive/Limit.antt =====
-- The number of parts stays within the limit.
use milli.Base.{
  ℕ, ◌+◌, ◌≤◌, ◌<◌, Bool, true, false, List, [], ◌∷◌, ◌++◌, Option, some, length, length-append,
  leb, ◌≡◌, arith, Bool-cases, inl, inr,
}
use milli.QueryTree.{Word}
use milli.QueryTree.Primitive.{
  SeparatorKind, TokenKind, stop_word, separator, unknown, Token, PrimitiveQueryPart, phrase, word,
  State, start, is_nil, word_step, separator_step, step_kind, loop, create_primitive_query,
  quote_count,
}

-- A pending phrase is quoted, and leaves room for itself.
abbrev HasRoom : ℕ → State → Type 0
HasRoom limit s =
    (length s.query ≤ limit)
    × (is_nil s.pending ≡ false → length s.query < limit)
    × (is_nil s.pending ≡ false → s.quoted ≡ true)

length-snoc :
    (q : List PrimitiveQueryPart) (p : PrimitiveQueryPart) → length (q ++ p ∷ []) ≡ length q + 1
length-snoc q p = omega (arith, length-append q (p ∷ []))

module _ (stop_words : Option (Word → Bool)) (limit : ℕ) where
  word_step-HasRoom :
      (lemma : Word) (is_last : Bool) (s : State)
      → HasRoom limit s
      → length s.query < limit
      → HasRoom limit (word_step stop_words lemma is_last s)
  unfolding word_step
  word_step-HasRoom lemma is_last s h room =
      ground (arith, length-snoc s.query (word lemma false), length-snoc s.query (word lemma true))

  separator_step-HasRoom :
      (kind : SeparatorKind) (quotes : ℕ) (s : State)
      → HasRoom limit s
      → length s.query < limit
      → HasRoom limit (separator_step kind quotes s)
  unfolding separator_step
  separator_step-HasRoom kind quotes s h room =
      ground (arith, length-snoc s.query (phrase s.pending))

  step_kind-HasRoom :
      (kind : TokenKind) (lemma : Word) (is_last : Bool) (s : State)
      → HasRoom limit s
      → length s.query < limit
      → HasRoom limit (step_kind stop_words kind lemma is_last s)
  unfolding step_kind
  step_kind-HasRoom TokenKind.word lemma is_last s h room = word_step-HasRoom lemma is_last s h room
  step_kind-HasRoom stop_word lemma is_last s h room = word_step-HasRoom lemma is_last s h room
  step_kind-HasRoom (separator kind) lemma is_last s h room =
      separator_step-HasRoom kind (quote_count lemma) s h room
  step_kind-HasRoom unknown lemma is_last s h room = h

  loop-le :
      (tokens : List Token) (s : State)
      → HasRoom limit s
      → length (loop stop_words limit tokens s) ≤ limit
  unfolding loop
  loop-le [] s h = ground (arith, length-snoc s.query (phrase s.pending))
  loop-le (token ∷ rest) s h = elim (Bool-cases (leb limit (length s.query))) [
    | inl full ↦ rw full (h.0)
    | inr room ↦ rw room (
        loop-le rest (step_kind stop_words token.kind token.lemma (is_nil rest) s)
          (step_kind-HasRoom token.kind token.lemma (is_nil rest) s h (ground arith)))
  ]

-- Whatever the tokens and the stop words, the query has at most as many parts as the limit says.
pub create_primitive_query-le :
    (stop_words : Option (Word → Bool)) (tokens : List Token) (limit : ℕ)
    → length (create_primitive_query stop_words tokens (some limit)) ≤ limit
unfolding create_primitive_query
create_primitive_query-le stop_words tokens limit =
    loop-le stop_words limit tokens start (omega arith, λ p. cc, λ p. cc)
