-- ===== src/QueryTree.antt =====
-- The query tree (milli/src/search/query_tree.rs): its data, the constructors that unwrap single
-- children, and the largest number of typos and the largest proximity that a tree allows.
-- A word is the list of its characters.
pub mod Context
pub mod Typos
pub mod Split
pub mod Primitive
pub mod Build
pub mod Matching
mod Examples
use milli.Base.{ℕ, suc, ◌+◌, ◌-◌, ◌*◌, max, Bool, true, false, List, [], ◌∷◌, Option, none, some}

abbrev pub Word : Type 0
Word = List ℕ

pub data QueryKind : Type 0 where
  tolerant : ℕ → Word → QueryKind
  exact_kind : ℕ → Word → QueryKind

abbrev pub exact : Word → QueryKind
exact word = exact_kind 0 word

abbrev pub typo : QueryKind → ℕ
typo (tolerant t word) = t
typo (exact_kind original word) = original

abbrev pub kind_word : QueryKind → Word
kind_word (tolerant t word) = word
kind_word (exact_kind original word) = word

pub record Query : Type 0 where
  pub prefix : Bool
  pub kind : QueryKind

-- `Operations` is the vector of children.
mutual
  pub data Operation : Type 0 where
    and : Operations → Operation
    phrase : List Word → Operation
    or : Bool → Operations → Operation
    query : Query → Operation

  pub data Operations : Type 0 where
    nil : Operations
    cons : Operation → Operations → Operations

-- `Vec::push`.
abbrev pub push : Operations → Operation → Operations
push nil op = cons op nil
push (cons o os) op = cons o (push os op)

-- `Operation::and`, `or` and `phrase`: one child stands for itself.
unfoldable pub make_and : Operations → Operation
make_and (cons op nil) = op
make_and ops = and ops

unfoldable pub make_or : Bool → Operations → Operation
make_or word_branch (cons op nil) = op
make_or word_branch ops = or word_branch ops

unfoldable pub make_phrase : List Word → Operation
make_phrase (word ∷ []) = query (record { prefix = false; kind = exact word })
make_phrase words = phrase words

-- `Operation::query`.
unfoldable pub as_query : Operation → Option Query
as_query (query q) = some q
as_query (and ops) = none
as_query (or b ops) = none
as_query (phrase words) = none

unfoldable mutual
  pub maximum_typo : Operation → ℕ
  maximum_typo (or b ops) = maximum_typo_max ops
  maximum_typo (and ops) = maximum_typo_sum ops
  maximum_typo (query q) = typo q.kind
  maximum_typo (phrase words) = 0

  -- `.max().unwrap_or(0)` over the children.
  pub maximum_typo_max : Operations → ℕ
  maximum_typo_max nil = 0
  maximum_typo_max (cons op ops) = max (maximum_typo op) (maximum_typo_max ops)

  pub maximum_typo_sum : Operations → ℕ
  maximum_typo_sum nil = 0
  maximum_typo_sum (cons op ops) = maximum_typo op + maximum_typo_sum ops

abbrev pub count : Operations → ℕ
count nil = 0
count (cons op ops) = suc (count ops)

unfoldable mutual
  pub maximum_proximity : Operation → ℕ
  maximum_proximity (or b ops) = maximum_proximity_max ops
  maximum_proximity (and ops) = maximum_proximity_sum ops + (count ops - 1) * 7
  maximum_proximity (query q) = 0
  maximum_proximity (phrase words) = 0

  pub maximum_proximity_max : Operations → ℕ
  maximum_proximity_max nil = 0
  maximum_proximity_max (cons op ops) = max (maximum_proximity op) (maximum_proximity_max ops)

  pub maximum_proximity_sum : Operations → ℕ
  maximum_proximity_sum nil = 0
  maximum_proximity_sum (cons op ops) = maximum_proximity op + maximum_proximity_sum ops
