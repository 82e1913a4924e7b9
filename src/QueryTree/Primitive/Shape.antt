-- ===== src/QueryTree/Primitive/Shape.antt =====
-- What the parts of a primitive query look like.
use milli.Base.{
  ℕ, ◌^◌, ◌-◌, Bool, true, false, List, [], ◌∷◌, ◌++◌, Option, none, some, length, leb,
  if◌then◌else◌, ◌≡◌, refl, arith, Bool-cases, inl, inr, All, All-append,
}
use milli.QueryTree.{Word}
use milli.QueryTree.Primitive.{
  SeparatorKind, TokenKind, stop_word, separator, unknown, Token, PrimitiveQueryPart, phrase, word,
  State, start, is_nil, word_step, separator_step, step_kind, loop, create_primitive_query,
  quote_count, is_prefix, is_stop,
}

abbrev pub IsLastPrefix : List PrimitiveQueryPart → Type 0
IsLastPrefix [] = Unit
IsLastPrefix (p ∷ []) = Unit
IsLastPrefix (p ∷ q ∷ rest) = (is_prefix p ≡ false) × IsLastPrefix (q ∷ rest)

module _ (stop_words : Option (Word → Bool)) where
  -- A phrase has words, and a word that is no prefix is no stop word.
  abbrev pub IsProper : PrimitiveQueryPart → Type 0
  IsProper (phrase words) = is_nil words ≡ false
  IsProper (word w prefix) = prefix ≡ false → is_stop stop_words w ≡ false

  -- A part of a query that goes on.
  abbrev IsInner : PrimitiveQueryPart → Type 0
  IsInner p = IsProper p × (is_prefix p ≡ false)

  -- Before the last token all parts are inner; a pending phrase is quoted.
  abbrev Inner : State → Type 0
  Inner s = All IsInner s.query × (is_nil s.pending ≡ false → s.quoted ≡ true)

  All-snoc :
      (P : PrimitiveQueryPart → Type 0) (q : List PrimitiveQueryPart) (p : PrimitiveQueryPart)
      → All P q
      → P p
      → All P (q ++ p ∷ [])
  All-snoc P q p a h = All-append P q (p ∷ []) a (h, tt)

  word_step-Inner :
      (lemma : Word) (s : State) → Inner s → Inner (word_step stop_words lemma false s)
  unfolding word_step
  word_step-Inner lemma s h = ground (arith, All-snoc IsInner s.query (word lemma false))

  separator_step-Inner :
      (kind : SeparatorKind) (quotes : ℕ) (s : State)
      → Inner s
      → Inner (separator_step kind quotes s)
  unfolding separator_step
  separator_step-Inner kind quotes s h = ground (arith, All-snoc IsInner s.query (phrase s.pending))

  step_kind-Inner :
      (kind : TokenKind) (lemma : Word) (s : State)
      → Inner s
      → Inner (step_kind stop_words kind lemma false s)
  unfolding step_kind
  step_kind-Inner TokenKind.word lemma s h = word_step-Inner lemma s h
  step_kind-Inner stop_word lemma s h = word_step-Inner lemma s h
  step_kind-Inner (separator kind) lemma s h = separator_step-Inner kind (quote_count lemma) s h
  step_kind-Inner unknown lemma s h = h

  -- At most the last part is a prefix, and all parts are proper.
  abbrev pub IsDone : List PrimitiveQueryPart → Type 0
  IsDone q = IsLastPrefix q × All IsProper q

  IsDone-inner : (q : List PrimitiveQueryPart) → All IsInner q → IsDone q
  IsDone-inner [] a = (tt, tt)
  IsDone-inner (p ∷ []) a = (tt, (a.0.0, tt))
  IsDone-inner (p ∷ r ∷ q) a =
      let (last, proper) = IsDone-inner (r ∷ q) a.1 in ((a.0.1, last), (a.0.0, proper))

  IsDone-snoc :
      (q : List PrimitiveQueryPart) (p : PrimitiveQueryPart)
      → All IsInner q
      → IsProper p
      → IsDone (q ++ p ∷ [])
  IsDone-snoc [] p a h = (tt, (h, tt))
  IsDone-snoc (r ∷ []) p a h = ((a.0.1, tt), (a.0.0, (h, tt)))
  IsDone-snoc (r ∷ t ∷ q) p a h =
      let (last, proper) = IsDone-snoc (t ∷ q) p a.1 h in ((a.0.1, last), (a.0.0, proper))

  end-IsDone : (limit : ℕ) (s : State) → Inner s → IsDone (loop stop_words limit [] s)
  unfolding loop
  end-IsDone limit s h = elim (Bool-cases (is_nil s.pending)) [
    | inl none_left ↦ rw none_left (IsDone-inner s.query h.0)
    | inr left ↦ rw left (IsDone-snoc s.query (phrase s.pending) h.0 left)
  ]

  last_word-IsDone :
      (limit : ℕ) (lemma : Word) (q : List PrimitiveQueryPart) (pending : List Word) (quoted : Bool)
      → Inner (record { query = q; pending = pending; quoted = quoted })
      → IsDone (
          loop stop_words limit [] (
            word_step stop_words lemma true
              (record { query = q; pending = pending; quoted = quoted })))
  unfolding word_step loop
  last_word-IsDone limit lemma q pending true h =
      end-IsDone limit (record { query = q; pending = pending ++ lemma ∷ []; quoted = true })
        (h.0, λ p. refl)
  last_word-IsDone limit lemma q [] false h = IsDone-snoc q (word lemma true) h.0 (λ p. cc)
  last_word-IsDone limit lemma q (w ∷ ws) false h = let e : false ≡ true = h.1 refl in cc

  last_step-IsDone :
      (limit : ℕ) (kind : TokenKind) (lemma : Word) (s : State)
      → Inner s
      → IsDone (loop stop_words limit [] (step_kind stop_words kind lemma true s))
  unfolding step_kind
  last_step-IsDone limit TokenKind.word lemma s h =
      last_word-IsDone limit lemma s.query s.pending s.quoted h
  last_step-IsDone limit stop_word lemma s h =
      last_word-IsDone limit lemma s.query s.pending s.quoted h
  last_step-IsDone limit (separator kind) lemma s h =
      end-IsDone limit _ (separator_step-Inner kind (quote_count lemma) s h)
  last_step-IsDone limit unknown lemma s h = end-IsDone limit s h

  loop_cut :
      (limit : ℕ) (s : State) (next : List PrimitiveQueryPart)
      → Inner s
      → IsDone next
      → IsDone (if leb limit (length s.query) then s.query else next)
  loop_cut limit s next h n = elim (Bool-cases (leb limit (length s.query))) [
    | inl full ↦ rw full (IsDone-inner s.query h.0)
    | inr room ↦ rw room n
  ]

  loop-IsDone :
      (limit : ℕ) (tokens : List Token) (s : State)
      → Inner s
      → IsDone (loop stop_words limit tokens s)
  loop-IsDone limit [] s h = end-IsDone limit s h
  loop-IsDone limit (token ∷ []) s h =
      unfold loop in loop_cut limit s _ h (last_step-IsDone limit token.kind token.lemma s h)
  loop-IsDone limit (token ∷ t ∷ rest) s h = go (
      loop-IsDone limit (t ∷ rest) (step_kind stop_words token.kind token.lemma false s)
        (step_kind-Inner token.kind token.lemma s h))
    where
      go :
          IsDone
            (loop stop_words limit (t ∷ rest) (step_kind stop_words token.kind token.lemma false s))
          → IsDone (loop stop_words limit (token ∷ t ∷ rest) s)
      go n = unfold loop in loop_cut limit s _ h n

-- Of the parts of a primitive query only the last can be a prefix; a phrase has at least one word;
-- and a word that is no prefix is no stop word.
pub create_primitive_query-IsDone :
    (stop_words : Option (Word → Bool)) (tokens : List Token) (words_limit : Option ℕ)
    → IsDone stop_words (create_primitive_query stop_words tokens words_limit)
unfolding create_primitive_query
create_primitive_query-IsDone stop_words tokens none =
    loop-IsDone stop_words (2 ^ 64 - 1) tokens start (tt, λ p. cc)
create_primitive_query-IsDone stop_words tokens (some limit) =
    loop-IsDone stop_words limit tokens start (tt, λ p. cc)
