-- ===== src/AvailableIds/Examples.antt =====
-- Runs of the iterator for an index that has the documents 0, 2 and 3.
use milli.Base.{ℕ, List, [], ◌∷◌, arith, inl}
use milli.Bitmap.Sample.{sample, sample-IsRoaring}
use milli.AvailableIds.{AvailableDocumentsIds, next, from_documents_ids}
use milli.AvailableIds.Order.{Gives, Gives-next, ListsFree, from_documents_ids-ListsFree}

abbrev documents : List ℕ
documents = 2 ∷ 0 ∷ 3 ∷ []

abbrev ids : AvailableDocumentsIds
ids = record { holes = 1 ∷ []; range = record { first = 4; last = 9 } }

Gives-next_example : Gives ids (next ids)
Gives-next_example = Gives-next ids ((tt, tt), inl (omega arith, tt))

from_documents_ids-ListsFree_example :
    ListsFree sample sample-IsRoaring documents (from_documents_ids sample documents)
from_documents_ids-ListsFree_example =
    from_documents_ids-ListsFree sample sample-IsRoaring documents
