-- ===== src/Index/Matching.antt =====
-- Which fields of documents match a query in docs/ui/lunr.js.
use kubearchive.Prelude.{
  All, Bool, Bool-cases, List, Option, [], false, inl, inr, none, refl, some, sym, true, ℕ, ◌↔◌,
  ◌∷◌, ◌≡◌, ◌⊎◌,
}
use kubearchive.Text.{Text, text_eq, text_eq_iff}
use kubearchive.MatchData
use kubearchive.Vector.{Number}
use kubearchive.Metadata.{Value, get, put}
use kubearchive.Pipeline.{PipelineFunction, after, run}
use kubearchive.Query.{Query, is_negated}
use kubearchive.TokenSet.Spelled.{IsIn}
use kubearchive.Index.{Found, Index, Matches, keys}
use kubearchive.Index.Returns.{Gives}
use kubearchive.Index.Keys.{IsKnown}
use kubearchive.Index.Invariant.{IsGood, IsRef, get-put-elim, get-put_self}
use kubearchive.Index.Results.{blank_matches}
use kubearchive.Index.Queries.{matching_refs}
use kubearchive.Index.Listed.{has-key}
use kubearchive.Index.Gathered.{HaveNoSlash, IsFound, read_ref-IsRef}

All-intro : {P : Text → Type 0} (ks : List Text) → ((k : Text) → IsIn k ks → P k) → All P ks
All-intro [] each = tt
All-intro (k ∷ ks) each = (each k (inl refl), All-intro ks (λ j h. each j (inr h)))

All-map :
    {P Q : Text → Type 0} (ks : List Text)
    → ((k : Text) → IsIn k ks → P k → Q k)
    → All P ks
    → All Q ks
All-map [] each _ = tt
All-map (k ∷ ks) each (here, rest) =
    (each k (inl refl) here, All-map ks (λ j h. each j (inr h)) rest)

key-has :
    {V : Type 0} (d : List (Text × V)) (k : Text) → IsIn k (keys d) → (v : V) × (get k d ≡ some v)
unfolding get
key-has [] k no_key = absurd no_key
key-has ((j, v) ∷ d) k h = elim (Bool-cases (text_eq j k)) [
  | inl same ↦ (v, rw same refl)
  | inr other ↦ elim h [
    | inl at ↦ absurd (let found : text_eq j k ≡ true = (text_eq_iff j k).1 (sym at) in cc)
    | inr there ↦ let (w, found) = key-has d k there in (w, rw other found)
  ]
]

module _ (num : Number) (index : Index num) (no_slash : HaveNoSlash num index) where
  -- All fields of documents for a negated query, and otherwise those that match.
  abbrev pub IsTaken : Bool → Matches num → List Text → Type 0
  IsTaken true m refs = refs ≡ keys index.field_vectors
  IsTaken false m refs = (key : Text) → IsIn key refs ↔ IsKnown m.matching_fields key

  -- The keys of the blank matches are those of before and the references, and all are known.
  pub blank_matches-Gives :
      (refs : List Text) (matching : List (Text × Found))
      → All (IsRef num index) refs
      → Gives (blank_matches refs matching) (λ after.
        (key : Text)
        → (IsIn key refs ⊎ ((found : Found) × (get key matching ≡ some found)))
        → (found : Found) × (get key after ≡ some found))
  unfolding blank_matches
  blank_matches-Gives [] matching _ =
      (matching, refl, λ key h. elim h [ inl no_ref ↦ absurd no_ref | inr known ↦ known ])
  blank_matches-Gives (ref ∷ refs) matching ((f, d, v, is_in, e, has_v, is_v), rest) =
      let read = read_ref-IsRef num index no_slash ref f d is_in e in
      let blank = MatchData.new (Option Value) none [] none in
      let (after, run, known) = blank_matches-Gives refs (put ref blank matching) rest in
      (
        after,
        rw (read) run,
        λ key h. elim h [
          | inl (inl same) ↦ known key (inr (rw same (blank, get-put_self ref blank matching)))
          | inl (inr there) ↦ known key (inl there)
          | inr old ↦ known key (
              inr (
                get-put-elim (λ o. (found : Found) × (o ≡ some found)) ref key blank matching
                  (λ _. (blank, refl)) old))
        ],
      )

  -- The fields that match, from good matches of an index whose vectors are all of fields of it.
  pub matching_refs-Gives :
      (body : ℕ → PipelineFunction) (q : Query) (m : Matches num)
      → IsGood num index m
      → All (IsRef num index) (keys index.field_vectors)
      → Gives
          (matching_refs num body index q m)
          (λ r. All (IsFound num index r.1) r.0 × IsTaken (is_negated q) m r.0)
  unfolding matching_refs
  matching_refs-Gives body q m good refs = elim (Bool-cases (is_negated q)) [
    | inl negated ↦
        let (after, run, known) =
          blank_matches-Gives (keys index.field_vectors) m.matching_fields refs in
        (
          (keys index.field_vectors, after),
          rw (negated, run) refl,
          (
            All-map (keys index.field_vectors) (λ key is_in is_ref. (is_ref, known key (inl is_in)))
                refs,
            rw negated refl,
          ),
        )
    | inr listed ↦ (
      (keys m.matching_fields, m.matching_fields),
      rw listed refl,
      (
        All-intro (keys m.matching_fields) (λ key is_in.
            let (found, has_found) = key-has m.matching_fields key is_in in
            (good.refs key found has_found, (found, has_found))),
        rw listed (λ key. (
          λ is_in. key-has m.matching_fields key is_in,
          λ known. has-key m.matching_fields key known,
        )),
      ),
    )
  ]
