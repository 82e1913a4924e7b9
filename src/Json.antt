-- ===== src/Json.antt =====
-- Documents as JSON: when one must be flattened, and its flattening.
pub mod Depth
pub mod Flatten
mod Examples
use milli.Base.{ℕ, Bool, true, false, ◌||◌, List, String}

-- `serde_json::Value`, a number and a string as one kind of leaf `A`. An object is the list of its
-- entries in the order of iteration.
mutual
  pub data Value (A : Type 0) : Type 0 where
    leaf : A → Value A
    array : Values A → Value A
    object : Entries A → Value A

  pub data Values (A : Type 0) : Type 0 where
    nil : Values A
    cons : Value A → Values A → Values A

  pub data Entries (A : Type 0) : Type 0 where
    empty : Entries A
    entry : List ℕ → Value A → Entries A → Entries A
