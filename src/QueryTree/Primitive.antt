-- ===== src/QueryTree/Primitive.antt =====
-- From tokens to words and phrases: `PrimitiveQueryPart` and `create_primitive_query`. A token of the
-- tokenizer is its kind and its lemma.
pub mod Limit
pub mod Shape
use milli.Base.{
  ℕ, ◌^◌, ◌-◌, ◌%◌, ◌+◌, Bool, true, false, not, ◌&&◌, ◌||◌, List, [], ◌∷◌, ◌++◌, Option, none,
  some, length, leb, ltb, ◌==◌, if◌then◌else◌,
}
use milli.QueryTree.{Word}

pub data SeparatorKind : Type 0 where
  hard soft : SeparatorKind

pub data TokenKind : Type 0 where
  word stop_word unknown : TokenKind
  separator : SeparatorKind → TokenKind

pub record Token : Type 0 where
  pub kind : TokenKind
  pub lemma : Word

pub data PrimitiveQueryPart : Type 0 where
  phrase : List Word → PrimitiveQueryPart
  word : Word → Bool → PrimitiveQueryPart

abbrev pub is_phrase : PrimitiveQueryPart → Bool
is_phrase (phrase words) = true
is_phrase (word w prefix) = false

abbrev pub is_prefix : PrimitiveQueryPart → Bool
is_prefix (phrase words) = false
is_prefix (word w prefix) = prefix

-- `PrimitiveQueryPart::len`.
abbrev pub part_len : PrimitiveQueryPart → ℕ
part_len (phrase words) = length words
part_len (word w prefix) = 1

abbrev pub is_nil {ℓ} : {A : Type ℓ} → List A → Bool
is_nil [] = true
is_nil (x ∷ xs) = false

-- The local variables of the loop.
pub record State : Type 0 where
  pub query : List PrimitiveQueryPart
  pub pending : List Word
  pub quoted : Bool

abbrev pub start : State
start = record { query = []; pending = []; quoted = false }

abbrev pub push_part : PrimitiveQueryPart → State → State
push_part part s = record s { query = s.query ++ part ∷ [] }

-- `mem::take(&mut phrase)` pushed as a phrase.
abbrev pub close_phrase : State → State
close_phrase s = record s { query = s.query ++ phrase s.pending ∷ []; pending = [] }

-- `lemma().chars().filter(|&s| s == '"').count()`.
unfoldable pub quote_count : Word → ℕ
quote_count [] = 0
quote_count (c ∷ rest) = (if c == b'"' then 1 else 0) + quote_count rest

abbrev pub is_hard : SeparatorKind → Bool
is_hard hard = true
is_hard soft = false

abbrev pub is_stop : Option (Word → Bool) → Word → Bool
is_stop none w = false
is_stop (some contains) w = contains w

module _ (stop_words : Option (Word → Bool)) where
  unfoldable pub word_step : Word → Bool → State → State
  word_step lemma is_last s =
      if s.quoted
      then record s { pending = s.pending ++ lemma ∷ [] }
      else if not is_last
      then (if not (is_stop stop_words lemma) then push_part (word lemma false) s else s)
      else push_part (word lemma true) s

unfoldable pub separator_step : SeparatorKind → ℕ → State → State
separator_step kind quotes s =
    let turned = record s { quoted = if quotes % 2 == 0 then s.quoted else not s.quoted } in
    if not (is_nil s.pending) && (ltb 0 quotes || is_hard kind) then close_phrase turned else turned

-- The `match` of the loop's body.
module _ (stop_words : Option (Word → Bool)) where
  step_kind : TokenKind → Word → Bool → State → State
  step_kind TokenKind.word lemma is_last s = word_step stop_words lemma is_last s
  step_kind stop_word lemma is_last s = word_step stop_words lemma is_last s
  step_kind (separator kind) lemma is_last s = separator_step kind (quote_count lemma) s
  step_kind unknown lemma is_last s = s

  pub loop : ℕ → List Token → State → List PrimitiveQueryPart
  unfolding step_kind
  loop limit [] s = if is_nil s.pending then s.query else s.query ++ phrase s.pending ∷ []
  loop limit (token ∷ rest) s =
      let next = loop limit rest (step_kind token.kind token.lemma (is_nil rest) s) in
      if leb limit (length s.query) then s.query else next

  unfoldable pub create_primitive_query : List Token → Option ℕ → List PrimitiveQueryPart
  unfolding loop
  create_primitive_query tokens none = loop (2 ^ 64 - 1) tokens start
  create_primitive_query tokens (some limit) = loop limit tokens start
