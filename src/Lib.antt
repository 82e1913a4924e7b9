-- ===== src/Lib.antt =====
-- Verification library of milli, a search engine library: an index of documents, and the parsing,
-- planning and highlighting of search requests.
--
-- The parts of the program and how they interact. Indexing gives each document an internal id of 32
-- bits and each field name an id of 16 bits, and stores sets of documents as encoded bitmaps that are
-- merged as batches come in. A search request has a query and a filter: the query is cut into words
-- and phrases, from which the query tree (what the search criteria resolve) and the matching words
-- (what is highlighted) are made; the filter is an expression over faceted fields that is evaluated
-- to a set of documents, through levels of numbers that group the ones below. The texts of the
-- documents that are found are cropped and highlighted where they match.
--
-- Which file models which part:
--   Positions      positions of words and distances between them (milli/src/lib.rs, proximity.rs)
--   FieldsIdsMap   field names and their ids (milli/src/fields_ids_map.rs); a map is a record of its
--                  two tables and the next id, and insert and remove return the new map
--   ExternalIds    the ids that users give documents (milli/src/external_documents_ids.rs), over the
--                  interface Fst of the ordered map library
--   AvailableIds   the internal ids that are free (milli/src/update/available_documents_ids.rs)
--   Codec          the byte formats of the index (milli/src/heed_codec): keys of words, the conditional
--                  bitmap format and its merge, keys of levels, keys and values with strings, and the
--                  ordered bytes of an f64 (milli/src/facet/value_encoding.rs); bytes are numbers
--   Bitmap         the interface of the bitmap library, as the parts that store sets use it
--   Filter         filter expressions and the filter of a request (filter-parser/src/lib.rs,
--                  condition.rs, milli/src/search/facet/filter.rs)
--   Facet          the levels of facet numbers, how they are made and searched, and the evaluation of
--                  a filter (milli/src/search/facet/filter.rs, facet_number.rs, milli/src/update/
--                  facets.rs); an f64 is the number of its globally ordered 64 bits, NaN and the
--                  infinities included where a request may hold them
--   Matches        the matches of a text, the crop around the best of them and the highlighted text
--                  (milli/src/search/matches/mod.rs); a text is the list of its UTF-8 bytes
--   QueryTree      from tokens to the query tree and the matching words (milli/src/search/
--                  query_tree.rs, milli/src/search/matches/matching_words.rs)
--   Json           when a document must be flattened (json-depth-checker/src/lib.rs) and how it is
--                  (flatten-serde-json/src/lib.rs)
--   AscDesc        sort expressions and ranking rules (milli/src/asc_desc.rs, criterion.rs)
--   Base           shared names, lists, tables and results
-- The definitions carry the names of the functions they translate; state is passed explicitly and
-- errors are values of Result or Option.
--
-- Bounds and fuel. Numbers are natural numbers, with wrapping and the tests for overflow written out.
-- The recursion of ngrams, in the query tree and in the matching words, is on fuel, one more than
-- the number of query parts: each call is on a tail that is strictly shorter. The loop that finds
-- matches has as many rounds as the text has words, and the one that expands a crop twice as many
-- as it has tokens; each round takes one at least. A level is a u8, so a field has at most 255
-- levels above the first.
--
-- Third-party code is a parameter with its documented behaviour as laws: the bitmap library, the
-- ordered maps, the grouping of slices, the automata and the tokens' lengths, the parsing of
-- floating point numbers, and the tree of points with its distances. The laws of each have a
-- concrete model in the tests.
--
-- Not modelled: the storage and the transactions of the index, the indexing pipelines under
-- milli/src/update, the search criteria, the facet levels of strings, the parser of filters, and
-- the command line and web front ends, all left for later or without logic of their own. Errors of
-- the storage are left out but for the key of a number that is not finite, which evaluate_operator
-- may meet. The arrays of bytes_to_highlight give 0 outside of their bounds, where the code would
-- panic.
pub mod Base
pub mod Positions
pub mod FieldsIdsMap
pub mod Filter
pub mod Matches
pub mod QueryTree
pub mod Bitmap
pub mod AvailableIds
pub mod Codec
pub mod ExternalIds
pub mod Json
pub mod AscDesc
pub mod Facet
