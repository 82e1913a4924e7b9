-- ===== src/QueryTree/Matching/Examples.antt =====
-- Runs of `create_matching_words`.
use milli.Base.{ℕ, true, ◌≢◌, ◌≡◌, List, ◌∷◌, [], some}
use milli.Base.Results.{ok, err}
use milli.QueryTree.Context.{Context}
use milli.QueryTree.Build.{out_of_fuel}
use milli.QueryTree.Examples.{runs, runs-IsGrouping, index, ab, xyz, two_words}
use milli.QueryTree.Matching.{Entry, create_matching_words}
use milli.QueryTree.Matching.Entries.{AreEntries}
use milli.QueryTree.Matching.Entries.Fuel.{create_matching_words-AreEntries}

-- Each list of words has two synonyms, "xyz ab" and one that has no words.
abbrev with_synonyms : Context ℕ
with_synonyms = record {
  word_documents_count = index.word_documents_count;
  synonyms = λ words. ok (some ((xyz ∷ ab ∷ []) ∷ [] ∷ []));
  min_word_len_for_typo = index.min_word_len_for_typo;
  exact_words = index.exact_words;
}

create_matching_words-AreEntries_example :
    (create_matching_words with_synonyms true runs two_words ≢ err out_of_fuel)
    × ((entries : List Entry)
        → create_matching_words with_synonyms true runs two_words ≡ ok entries
        → AreEntries with_synonyms true entries)
create_matching_words-AreEntries_example =
    create_matching_words-AreEntries with_synonyms true runs runs-IsGrouping two_words
      (tt, (tt, tt))
