-- ===== src/Parser/Entries.antt =====
-- What the query parser of docs/ui/lunr.js has built at each state, and what is left to read.
use kubearchive.Prelude.{
  All, All-append, Bool, Bool-cases, List, Option, Result, [], all, any, ap, append_assoc, drop,
  err, get_elem?, get_elem?_of_drop, get_elem?_of_drop_nil, inl, inr, map, map-append, none, not,
  ok, refl, some, true, ℕ, ◌++◌, ◌∙◌, ◌∷◌, ◌≡◌, ◌⊎◌,
}
use kubearchive.Text.{Text, text_eq}
use kubearchive.Lexer.{Lexeme, LexemeType, boost, edit_distance, field, presence, term}
use kubearchive.Query.{
  Clause, Options, Query, QueryError, add_trailing, clause, no_options, optional, or_default,
  parse_error, type_error,
}
use kubearchive.Parser.{
  Parser, State, has_wildcard, next_clause, parse_boost, parse_clause, parse_edit_distance,
  parse_field, parse_presence, parse_term, peek_lexeme, read, run_from, set_term, step,
}

-- The clause's term and pipeline flag.
abbrev pub Entry : Type 0
Entry = Option Text × Bool

abbrev pub entry : Clause → Entry
entry c = (c.term, c.use_pipeline)

-- The fields of a clause are all fields, or one that exists.
abbrev pub HasFields : List Text → List Text → Type 0
HasFields all fields =
    (fields ≡ all) ⊎ ((f : Text) × (fields ≡ f ∷ []) × (any (text_eq f) all ≡ true))

abbrev pub IsSpan : List Lexeme → ℕ → ℕ → Type 0
IsSpan lexemes start end =
    (i : ℕ) × (x : Lexeme) × (get_elem? lexemes i ≡ some x) × (start ≡ x.start) × (end ≡ x.end)

-- A `QueryParseError` over the span of one of the lexemes.
abbrev pub PointsAt : List Lexeme → QueryError → Type 0
PointsAt lexemes type_error = ⊥
PointsAt lexemes (parse_error why start end) = IsSpan lexemes start end

module _ (lower : Text → Text) where
  -- One entry for each TERM lexeme, in their order.
  abbrev pub entry_of : Lexeme → Entry
  entry_of x = (some (lower x.str), not (has_wildcard x.str))

  abbrev pub add_entry : LexemeType → Entry → List Entry → List Entry
  add_entry term e es = e ∷ es
  add_entry _ e es = es

  abbrev pub entries : List Lexeme → List Entry
  entries [] = []
  entries (x ∷ xs) = add_entry x.type (entry_of x) (entries xs)

abbrev pub Starts : LexemeType → List Lexeme → Type 0
Starts type [] = ⊥
Starts type (x ∷ _) = x.type ≡ type

-- The lexeme that led to a state is still to be read there. No state leads to `parse_clause`.
abbrev pub Matches : State → List Lexeme → Type 0
Matches parse_clause rest = ⊥
Matches parse_presence rest = Starts presence rest
Matches parse_field rest = Starts field rest
Matches parse_term rest = Starts term rest
Matches parse_edit_distance rest = Starts edit_distance rest
Matches parse_boost rest = Starts boost rest

-- After a term the current clause has one; before it, the pipeline flag is still missing.
abbrev pub HasTerm : Options → Type 0
HasTerm o = (t : Text) × (o.term ≡ some t)

abbrev pub Fits : State → Options → Type 0
Fits parse_edit_distance o = HasTerm o
Fits parse_boost o = HasTerm o
Fits _ o = o.use_pipeline ≡ none

abbrev pub HasOwnFields : List Text → Option (List Text) → Type 0
HasOwnFields all none = Unit
HasOwnFields all (some fields) = HasFields all fields

abbrev pub own_entry : Options → Entry
own_entry o = (o.term, or_default o.use_pipeline true)

-- The entry of a clause that is not yet in the query.
abbrev pub pending : State → Options → List Entry
pending parse_edit_distance o = own_entry o ∷ []
pending parse_boost o = own_entry o ∷ []
pending _ o = []

pub or_default-HasFields :
    (all known : List Text) (o : Option (List Text))
    → HasOwnFields all o
    → known ≡ all
    → HasFields all (or_default o known)
or_default-HasFields all known none h e = inl e
or_default-HasFields all known (some fields) h e = h

pub set_term_lem :
    (lower : Text → Text) (x : Lexeme) (o : Options)
    → o.use_pipeline ≡ none
    → HasTerm (set_term lower x o)
      × ((set_term lower x o).wildcard ≡ o.wildcard)
      × ((set_term lower x o).fields ≡ o.fields)
      × (own_entry (set_term lower x o) ≡ entry_of lower x)
unfolding set_term
set_term_lem lower x o fresh = elim (Bool-cases (has_wildcard x.str)) [
  | inl wild ↦ rw wild ((lower x.str, refl), refl, refl, refl)
  | inr tame ↦ rw (tame, fresh) ((lower x.str, refl), refl, refl, refl)
]

pub step-read :
    (lower : Text → Text) (s : State) (p : Parser) {x : Lexeme}
    → peek_lexeme p ≡ some x
    → step lower s p ≡ read lower s x p
unfolding step
step-read lower s p e = rw e

unfoldable pub pushed_clause : Parser → Clause
pushed_clause p = record {
  term = p.current_clause.term;
  fields = or_default p.current_clause.fields p.query.all_fields;
  boost = or_default p.current_clause.boost 1;
  use_pipeline = or_default p.current_clause.use_pipeline true;
  wildcard = 0;
  presence = or_default p.current_clause.presence optional;
  edit_distance = p.current_clause.edit_distance;
}

unfoldable pub pushed : Parser → Parser
unfolding pushed_clause
pushed p = record p {
  query = record p.query { clauses = p.query.clauses ++ pushed_clause p ∷ [] };
  current_clause = no_options;
}

module _ (lower : Text → Text) (lexemes : List Lexeme) (all : List Text) (target : List Entry) where
  -- `rest` is what the parser has not read; `held` is the entry of the current clause, if it has one.
  pub record IsValid (rest : List Lexeme) (held : List Entry) (p : Parser) : Type 0 where
    pub same : p.lexemes ≡ lexemes
    pub position : drop p.lexeme_idx lexemes ≡ rest
    pub no_wildcard : p.current_clause.wildcard ≡ none
    pub own_fields : HasOwnFields all p.current_clause.fields
    pub known_fields : p.query.all_fields ≡ all
    pub fields : All (λ (c : Clause). HasFields all c.fields) p.query.clauses
    pub built : map entry p.query.clauses ++ (held ++ entries lower rest) ≡ target

  -- The whole parse from here: an error over a lexeme, or a query with the entries of `target`.
  abbrev pub Ends : Option (Result QueryError Query) → Type 0
  Ends none = ⊥
  Ends (some (err e)) = PointsAt lexemes e
  Ends (some (ok q)) =
      (map entry q.clauses ≡ target)
      × All (λ (c : Clause). HasFields all c.fields) q.clauses
      × (q.all_fields ≡ all)

  pub record IsReady (rest : List Lexeme) (s : State) (p : Parser) : Type 0 where
    pub matches : Matches s rest
    pub fits : Fits s p.current_clause
    pub valid : IsValid rest (pending s p.current_clause) p

  -- What the run from a later state gives.
  abbrev pub Continues : ℕ → List Lexeme → Type 0
  Continues fuel rest =
      (s : State) (p : Parser) → IsReady rest s p → Ends (run_from lower fuel (ok (some s, p)))

  pub next_clause-pushed :
      (rest : List Lexeme) (p : Parser)
      → HasTerm p.current_clause
      → IsValid rest (own_entry p.current_clause ∷ []) p
      → (next_clause p ≡ ok (pushed p)) × IsValid rest [] (pushed p)
  unfolding next_clause clause pushed add_trailing
  next_clause-pushed rest p (t, has) v = (
    rw (v.no_wildcard, has, clause),
    record {
      same = v.same;
      position = v.position;
      no_wildcard = refl;
      own_fields = tt;
      known_fields = v.known_fields;
      fields =
          All-append _ p.query.clauses _ v.fields
            (or_default-HasFields all _ p.current_clause.fields v.own_fields v.known_fields, tt);
      built = rw (map-append, append_assoc) v.built;
    },
  )

  pub peek-nil : (held : List Entry) (p : Parser) → IsValid [] held p → peek_lexeme p ≡ none
  unfolding peek_lexeme
  peek-nil held p v =
      ap (λ xs. get_elem? xs p.lexeme_idx) v.same
      ∙ get_elem?_of_drop_nil lexemes p.lexeme_idx v.position

  pub peek-cons :
      {x : Lexeme} {rest : List Lexeme} (held : List Entry) (p : Parser)
      → IsValid (x ∷ rest) held p
      → peek_lexeme p ≡ some x
  unfolding peek_lexeme
  peek-cons held p v =
      ap (λ xs. get_elem? xs p.lexeme_idx) v.same
      ∙ (get_elem?_of_drop lexemes p.lexeme_idx v.position).0
