-- ===== src/Lib.antt =====
-- A verification library of Kubearchive.
--
-- Kubearchive has an API server, an operator and a sink in a cluster, which are modelled as far as
-- they decide something, and a documentation site.
--
-- The search of the documentation site (docs/ui/lunr.js, and docs/extensions/lunr-patch.js, which
-- sets the same options where the site is built) is modelled here. The repository keeps its own,
-- changed copy of lunr: terms are separated by white space alone and are not stemmed. A text of a
-- page goes through the tokenizer, whose tokens go through the pipeline into the index; a search
-- string goes through the lexer, whose lexemes the parser turns into the clauses of a query; a
-- query collects the matching documents as sets, and ranks them by vectors.
--
-- Which file models what:
--
-- Text.antt: JavaScript strings, as lists of UTF-16 code units, and the character classes `\s`, `\w`.
-- Lexer.antt: lunr.QueryLexer. A record holds the lexer's variables (`pos`, `start`, `lexemes`,
--   `escapeCharPositions` as `escape_char_positions`); each state function of the source is a
--   constructor of `State`, and `step` runs one of them up to the next state or the next character
--   of lexText. `run_from` is the loop of `run`, on fuel: `fuel_for` gives two rounds for each
--   character and eight more, and Lexer.Bounds measures the rounds that are left.
-- Query.antt: lunr.Query, lunr.QueryParseError. `Options` is a clause under construction, whose
--   properties may be missing; `clause` fills them in. Messages of errors are constructors of
--   `Reason`, with what the source puts into the text.
-- Parser.antt: lunr.QueryParser. `read` is a state function after its consumeLexeme, and `step` the
--   whole of it. `run_from` is the loop of `parse`, on as much fuel as there are lexemes and two
--   more; each state function consumes a lexeme. `lower` is toLowerCase, whose table is the host's.
-- Vector.antt: lunr.Vector, over the operations of a number type (`Number`) that stands for the host's
--   doubles. Of them, only the comparisons of naturals up to `exact`, which is 2 ^ 53 - 1, and that 0
--   is not truthy are assumed; indices are such naturals.
--   The loop of positionForIndex has as much fuel as the array has cells; it halves its slice.
-- SearchSet.antt: lunr.Set, its members `complete` and `empty` included.
-- Metadata.antt: lunr.utils.asString and clone, and the objects that serve as dictionaries.
-- Token.antt: lunr.Token and lunr.tokenizer, with the separator `/\s+/`.
-- Pipeline.antt: lunr.Pipeline. A function is known by a number, the identity by which `indexOf`
--   finds it; `Registry` holds the labels, the registered functions and the warnings. What the
--   functions do is a parameter of `run`; a function leaves the tokens it is not given as they are.
-- Filters.antt: lunr.trimmer, lunr.stopWordFilter and lunr.stemmer, the pipelines that `lunr` sets
--   up with them, and the change of the stemmer by docs/extensions/lunr-patch.js.
-- FieldRef.antt: lunr.FieldRef. MatchData.antt: lunr.MatchData, over arrays of any values.
-- TokenSet.antt: lunr.TokenSet, on a store of nodes, as `intersect` and `fromFuzzyString` change nodes
--   that other nodes lead to. A node is a number; a new one takes the number `next_id`. TokenSet has
--   fromString, TokenSet.Intersect intersect, TokenSet.Arrays toArray, TokenSet.Fuzzy fromFuzzyString
--   and fromClause, and TokenSet.Expand what `query` does with the three of them. Their loops over
--   stacks are on fuel, of which any amount from some one on is enough where the paths of the set
--   end; TokenSet.Tree has the lemmas on such loops over stores whose new nodes are a tree. The edges
--   of a node are in the order in which they were made.
--   TokenSet.Patterns says which words a node accepts in a query, and TokenSet.Fuzzy.Edits which words
--   are within some edits of a string.
-- Index.antt: lunr.Index, its `query` and `search`. `Run` is the result of code that may throw or, on
--   too little fuel, not end; a record `Matches` holds the variables that the loop over the clauses
--   changes, and each loop of the source is a function. Index.Results turns the fields that match into
--   results, Index.Queries is the whole of `query`. Index.Invariant, Visits, Fields, Terms, Words
--   and Clauses follow the loops from the inside out, Index.Keys and Adds say what they add, and
--   Index.Answers has what `query` returns. The fuel is that of the expansions of all
--   terms.
-- Builder.antt: lunr.Builder, its `field` and `add`, for fields that are not called `_index`;
--   `index_terms` is the loop over the terms of one field of a document. Builder.Scores: lunr.idf
--   and the scores of those terms in `createFieldVectors`, over an arithmetic that is a parameter.
-- Api.antt: the handlers of the API server (cmd/api/auth, cmd/api/routers) and their order in
--   NewServer (cmd/api/main.go). The reviews of tokens and of access are parameters, the answers of
--   the Kubernetes API; `next` stands for the handlers that gin's c.Next runs.
-- Operator.antt: the reconciler (cmd/operator/internal/controller), over a client of the cluster
--   that is a parameter. Operator.Cluster says what a cluster that answers does; which updates it
--   takes is its own, since Kubernetes refuses some of the ones that the reconciler sends.
--
-- Boosts and edit distances are the naturals that parseInt reads, without the rounding of doubles
-- beyond 2 ^ 53; texts are of any length.
--
-- Not modelled: `toJSON` and `load` of the index of lunr.js, the builder of its token sets with
-- toString, and the rest of its builder; the sink (cmd/sink), tracing (pkg/observability) and the
-- database setup (database), which are calls of third-party code; the set-up of the API server and of
-- the operator; the charts, the rest of the site, and the tests.

mod Prelude
pub mod Text
pub mod Lexer
pub mod Query
pub mod Parser
pub mod Vector
pub mod SearchSet
pub mod Metadata
pub mod Token
pub mod FieldRef
pub mod MatchData
pub mod Pipeline
pub mod Filters
pub mod Api
pub mod Operator
pub mod TokenSet
pub mod Builder
pub mod Index
