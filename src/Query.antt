-- ===== src/Query.antt =====
-- lunr.Query of docs/ui/lunr.js: the clauses of a query, with the defaults that `clause` fills in.
pub mod Wildcards
pub mod Negated
mod Tests
use kubearchive.Prelude.{
  Bool, List, Option, Result, [], err, false, if◌then◌else◌, none, not, ok, some, true, ℕ, ◌%◌,
  ◌&&◌, ◌++◌, ◌/◌, ◌==◌, ◌>>=◌, ◌||◌, ◌∷◌,
}
use kubearchive.Text.{Text}
use kubearchive.Lexer.{LexemeType}

pub data Presence : Type 0 where
  optional required prohibited : Presence

-- A clause object before `clause` has seen it: any property may be missing. The numbers that the
-- query language can write are not negative.
pub record Options : Type 0 where
  pub term : Option Text
  pub fields : Option (List Text)
  pub boost : Option ℕ
  pub use_pipeline : Option Bool
  pub wildcard : Option ℕ
  pub presence : Option Presence
  pub edit_distance : Option ℕ

abbrev pub no_options : Options
no_options = record {
  term = none;
  fields = none;
  boost = none;
  use_pipeline = none;
  wildcard = none;
  presence = none;
  edit_distance = none;
}

pub record Clause : Type 0 where
  pub term : Option Text
  pub fields : List Text
  pub boost : ℕ
  pub use_pipeline : Bool
  pub wildcard : ℕ
  pub presence : Presence
  pub edit_distance : Option ℕ

pub record Query : Type 0 where
  pub clauses : List Clause
  pub all_fields : List Text

unfoldable pub new : List Text → Query
new all_fields = record { clauses = []; all_fields = all_fields }

-- What is thrown: a `TypeError` for a property of `undefined`, or a `QueryParseError` with its
-- span, whose message is kept as the values that it is made from.
pub data Reason : Type 0 where
  expected_field_or_term : LexemeType → Text → Reason
  unrecognised_presence : Text → Reason
  expecting_term_or_field_found_nothing : Reason
  expecting_term_or_field : LexemeType → Reason
  unrecognised_field : Text → List Text → Reason
  expecting_term_found_nothing : Reason
  expecting_term : LexemeType → Reason
  edit_distance_not_numeric : Reason
  boost_not_numeric : Reason

pub data QueryError : Type 0 where
  type_error : QueryError
  parse_error : Reason → ℕ → ℕ → QueryError

abbrev pub or_default {ℓ} : {A : Type ℓ} → Option A → A → A
or_default none d = d
or_default (some a) d = a

-- `lunr.Query.wildcard` and its bits.
abbrev pub wildcard : ℕ
wildcard = b'*'

abbrev pub is_leading : ℕ → Bool
is_leading w = w % 2 == 1

abbrev pub is_trailing : ℕ → Bool
is_trailing w = w / 2 % 2 == 1

unfoldable pub starts_with_wildcard : Text → Bool
starts_with_wildcard [] = false
starts_with_wildcard (c ∷ _) = c == wildcard

unfoldable pub ends_with_wildcard : Text → Bool
ends_with_wildcard [] = false
ends_with_wildcard (c ∷ []) = c == wildcard
ends_with_wildcard (_ ∷ c ∷ cs) = ends_with_wildcard (c ∷ cs)

unfoldable pub add_leading : ℕ → Text → Text
unfolding starts_with_wildcard
add_leading w t = if is_leading w && not (starts_with_wildcard t) then wildcard ∷ t else t

unfoldable pub add_trailing : ℕ → Text → Text
unfolding ends_with_wildcard
add_trailing w t = if is_trailing w && not (ends_with_wildcard t) then t ++ wildcard ∷ [] else t

-- A missing term is read only if a wildcard bit is set.
unfoldable pub add_wildcards : ℕ → Option Text → Result QueryError (Option Text)
unfolding add_leading add_trailing
add_wildcards w none = if is_leading w || is_trailing w then err type_error else ok none
add_wildcards w (some t) = ok (some (add_trailing w (add_leading w t)))

unfoldable pub clause : Query → Options → Result QueryError Query
unfolding add_wildcards
clause q o = do
  let w = or_default o.wildcard 0
  t ← add_wildcards w o.term
  ok (record q {
    clauses =
        q.clauses
        ++ record {
          term = t;
          fields = or_default o.fields q.all_fields;
          boost = or_default o.boost 1;
          use_pipeline = or_default o.use_pipeline true;
          wildcard = w;
          presence = or_default o.presence optional;
          edit_distance = o.edit_distance;
        }
          ∷ [];
  })

abbrev pub is_prohibited : Presence → Bool
is_prohibited prohibited = true
is_prohibited _ = false

unfoldable pub is_negated_from : List Clause → Bool
is_negated_from [] = true
is_negated_from (c ∷ cs) = if not (is_prohibited c.presence) then false else is_negated_from cs

unfoldable pub is_negated : Query → Bool
unfolding is_negated_from
is_negated q = is_negated_from q.clauses

-- `Query.prototype.term` with one term; the terms of an array are added in turn, each with its own copy of the
-- options.
unfoldable pub add_term : Text → Options → Query → Result QueryError Query
unfolding clause
add_term t o q = clause q (record o { term = some t })

unfoldable pub add_terms : List Text → Options → Query → Result QueryError Query
unfolding add_term
add_terms [] o q = ok q
add_terms (t ∷ ts) o q = add_term t o q >>= add_terms ts o
