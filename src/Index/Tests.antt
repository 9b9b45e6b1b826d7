-- ===== src/Index/Tests.antt =====
-- A query of docs/ui/lunr.js on an index with one word and one document.

use kubearchive.Prelude.{
  All, List, [], arith, false, inl, inr, ltb, none, refl, some, subst, suc, sym, true, zero, ℕ,
  ◌++◌, ◌↔◌, ◌∷◌, ◌≡◌,
}
use kubearchive.Text.{Text, lit}
use kubearchive.Vector.{Vector}
use kubearchive.Vector.Whole.{whole}
use kubearchive.Metadata.{get}
use kubearchive.Pipeline.{PipelineFunction, one}
use kubearchive.Query
use kubearchive.Query.{Clause, Query, is_negated, optional, prohibited, required, wildcard}
use kubearchive.Builder.{Kept, Posting}
use kubearchive.TokenSet.{Node, Store}
use kubearchive.TokenSet.Spelled.{HasHeight, IsClosed, IsIn}
use kubearchive.TokenSet.Expand.{IsTokenSet}
use kubearchive.Index.{Index, Run, keys, pure, terms_of}
use kubearchive.Index.Returns.{Returns}
use kubearchive.Index.Invariant.{IsPosting, IsRef}
use kubearchive.Index.Words.{AreIndexed, IsSame}
use kubearchive.Index.Clauses.{IsClause}
use kubearchive.Index.Queries.{query}
use kubearchive.Index.Ranked.{refs_of}
use kubearchive.Index.Exact.{IsCandidate, IsExcluded}
use kubearchive.Index.Answers.{AreAnswers, IsIndex, query-AreAnswers, query-exact}

abbrev one_word : ℕ → Node
one_word zero = record { final = false; edges = (b'a', 1) ∷ [] }
one_word (suc i) = record { final = true; edges = [] }

abbrev one_store : Store
one_store = record { next_id = 2; nodes = one_word }

abbrev one_vector : Vector whole
one_vector = record { magnitude_cache = 0; elements = 0 ∷ 1 ∷ [] }

abbrev one_posting : Posting
one_posting = record { index = 0; fields = (lit "title", (lit "d", []) ∷ []) ∷ [] }

abbrev one_index : Index whole
one_index = record {
  inverted_index = (lit "a", one_posting) ∷ [];
  field_vectors = (lit "title/d", one_vector) ∷ [];
  token_set = 0;
  fields = lit "title" ∷ [];
  pipeline = record { stack = [] };
}

abbrev no_body : ℕ → PipelineFunction
no_body label token i tokens = one token

-- "+a* -b"
abbrev one_required : Clause
one_required = record {
  term = some (lit "a*");
  fields = lit "title" ∷ [];
  boost = 1;
  use_pipeline = false;
  wildcard = 0;
  presence = required;
  edit_distance = none;
}

abbrev one_prohibited : Clause
one_prohibited = record one_required { term = some (lit "b"); presence = prohibited }

abbrev ask : Query → Run Query
ask q = pure (record q { clauses = one_required ∷ one_prohibited ∷ [] })

abbrev asked : Query
asked = record { clauses = one_required ∷ one_prohibited ∷ []; all_fields = lit "title" ∷ [] }

one_store-IsTokenSet : IsTokenSet one_store 0 2
one_store-IsTokenSet = (closed, omega arith, high)
  where
    closed : IsClosed one_store
    closed zero c id below (inl (_, at)) = omega arith
    closed zero c id below (inr no_edge) = absurd no_edge
    closed (suc i) c id below no_edge = absurd no_edge

    last : HasHeight 1 one_store 1
    last c id no_edge = absurd no_edge

    high : HasHeight 2 one_store 0
    high c id (inl (_, at)) = rw at last
    high c id (inr no_edge) = absurd no_edge

one_key-IsRef : IsRef whole one_index (lit "title/d")
unfolding get
one_key-IsRef = (
  lit "title",
  lit "d",
  one_vector,
  inl refl,
  refl,
  refl,
  (0, (0, 1) ∷ [], refl, (omega arith, tt), (omega arith, tt)),
)

one_posting-IsPosting : IsPosting whole one_index one_posting
unfolding get
one_posting-IsPosting = (
  omega arith,
  λ f is_in. elim is_in [
    | inl same ↦
        subst
          (λ t.
            (docs : List (Text × Kept)) × (get t one_posting.fields ≡ some docs)
            × ((d : Text) → IsIn d (keys docs) → IsRef whole one_index (t ++ (b'/' ∷ d))))
          (sym same)
          (
            (lit "d", []) ∷ [],
            refl,
            λ d has_d. elim has_d [
              | inl at ↦
                  subst (λ t. IsRef whole one_index (lit "title" ++ (b'/' ∷ t))) (sym at)
                    one_key-IsRef
              | inr no_doc ↦ absurd no_doc
            ],
          )
    | inr no_field ↦ absurd no_field
  ],
)

one_store-AreIndexed : AreIndexed whole one_index one_store 2
unfolding get
one_store-AreIndexed [] ne spelled = absurd (ne refl)
one_store-AreIndexed (c ∷ []) ne (id, inl (same, at), final) =
    (one_posting, rw same refl, one_posting-IsPosting)
one_store-AreIndexed (c ∷ []) ne (id, inr no_edge, final) = absurd no_edge
one_store-AreIndexed (c ∷ e ∷ w) ne (id, inl (same, at), (next, edge, spelled)) =
    absurd (rw at at edge)
one_store-AreIndexed (c ∷ e ∷ w) ne (id, inr no_edge, spelled) = absurd no_edge

one_index-IsIndex : IsIndex whole no_body one_index one_store 2
one_index-IsIndex = record {
  token_set = one_store-IsTokenSet;
  indexed = one_store-AreIndexed;
  no_slash = λ f is_in. elim is_in [ inl same ↦ rw same refl | inr no_field ↦ absurd no_field ];
  refs = (one_key-IsRef, tt);
}

clauses-AreClauses : All (IsClause whole no_body one_index one_store 2) asked.clauses
unfolding terms_of
clauses-AreClauses = (
  (
    lit "a*",
    refl,
    tt,
    λ t is_in. elim is_in [ inl same ↦ λ e. cc | inr no_term ↦ absurd no_term ],
    λ f h. h,
  ),
  (
    (
      lit "b",
      refl,
      tt,
      λ t is_in. elim is_in [ inl same ↦ λ e. cc | inr no_term ↦ absurd no_term ],
      λ f h. h,
    ),
    tt,
  ),
)

ask-asked : ask (Query.new one_index.fields) ≡ pure asked
unfolding Query.new
ask-asked = refl

less_asym : (a b : ℕ) → ltb a b ≡ true → ltb b a ≡ false
less_asym a b h = ground arith

query-AreAnswers_example :
    Returns
      (λ fuel. query whole no_body fuel one_index ask one_store)
      (λ r.
        AreAnswers whole no_body one_index one_store 2 asked.clauses r.0
        × IsSame whole one_index one_store 2 r.1)
query-AreAnswers_example =
    query-AreAnswers whole no_body one_index one_store 2 ask asked less_asym one_index-IsIndex
      ask-asked clauses-AreClauses

abbrev one_optional : Clause
one_optional = record one_required { presence = optional }

abbrev ask_either : Query → Run Query
ask_either q = pure (record q { clauses = one_optional ∷ one_prohibited ∷ [] })

abbrev asked_either : Query
asked_either = record {
  clauses = one_optional ∷ one_prohibited ∷ [];
  all_fields = lit "title" ∷ [];
}

ask-asked_either : ask_either (Query.new one_index.fields) ≡ pure asked_either
unfolding Query.new
ask-asked_either = refl

either-AreClauses : All (IsClause whole no_body one_index one_store 2) asked_either.clauses
unfolding terms_of
either-AreClauses = clauses-AreClauses

query-exact_example :
    Returns
      (λ fuel. query whole no_body fuel one_index ask_either one_store)
      (λ r.
        (d : Text)
        → IsIn d (refs_of whole r.0) ↔ (
            IsCandidate whole no_body one_index one_store 2
              (is_negated asked_either)
              asked_either.clauses
              d
            × ¬ IsExcluded whole no_body one_index one_store 2 asked_either.clauses d))
query-exact_example =
    query-exact whole no_body one_index one_store 2 ask_either asked_either less_asym
      one_index-IsIndex ask-asked_either either-AreClauses (λ no. no, (λ no. no, tt))
