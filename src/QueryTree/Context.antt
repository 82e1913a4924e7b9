-- ===== src/QueryTree/Context.antt =====
-- The `Context` trait: what the tree builder asks of the index. `E` is the storage's error type.
use milli.Base.{ℕ, Bool, List, Option, none, some}
use milli.Base.Results.{Result}
use milli.QueryTree.{Word}

-- `exact_words` is the membership test of the set of words that take no typos.
pub record Context (E : Type 0) : Type 0 where
  pub word_documents_count : Word → Result E (Option ℕ)
  pub synonyms : List Word → Result E (Option (List (List Word)))
  pub min_word_len_for_typo : Result E (ℕ × ℕ)
  pub exact_words : Option (Word → Bool)

-- `Option::unwrap_or`.
abbrev pub unwrap_or {ℓ} : {A : Type ℓ} → A → Option A → A
unwrap_or default none = default
unwrap_or default (some a) = a
