-- ===== src/Index/Gathered.antt =====
-- How `query` of docs/ui/lunr.js gathers the results: it returns, with documents that are in what is
-- required and not in what is prohibited.

use kubearchive.Prelude.{
  All, Bool-cases, List, Result, [], ap, err, false, inl, inr, not, ok, refl, some, subst, sym,
  true, ◌&&◌, ◌++◌, ◌↔◌, ◌∙◌, ◌∷◌, ◌≡◌, ◌⊎◌,
}
use kubearchive.Text.{Text}
use kubearchive.FieldRef
use kubearchive.FieldRef.{FieldRef, FieldRefError, joiner}
use kubearchive.FieldRef.Texts.{from_string-joined, has_joiner}
use kubearchive.SearchSet
use kubearchive.SearchSet.{SearchSet}
use kubearchive.Vector.{Number, Vector}
use kubearchive.Metadata.{get, put}
use kubearchive.TokenSet.Spelled.{IsIn}
use kubearchive.Index.{Found, Index, pure}
use kubearchive.Index.Returns.{Gives}
use kubearchive.Index.Invariant.{IsRef, IsVector, get-put-elim}
use kubearchive.Index.Results.{Match, add_match, collect_results, read_ref}
use kubearchive.Pipeline.{run}
use kubearchive.Index.Listed.{add_match-lists}
use kubearchive.Index.Ranked.{IsDistinct, add_match-IsDistinct, add_match-refs, refs_of}
use kubearchive.Index.Allowed.{add_match-All, and_true_split, similarity-IsVector}

abbrev doc_of : Result FieldRefError FieldRef → Text
doc_of (ok r) = r.doc_ref
doc_of (err e) = []

-- The key of a field of a document has the document behind its first slash.
pub joined-doc :
    (f g d e : Text)
    → has_joiner f ≡ false
    → has_joiner g ≡ false
    → f ++ (joiner ∷ d) ≡ g ++ (joiner ∷ e)
    → d ≡ e
joined-doc f g d e plain plain' same =
    sym (ap doc_of (from_string-joined f d plain))
    ∙ ap (λ t. doc_of (FieldRef.from_string t)) same
    ∙ ap doc_of (from_string-joined g e plain')

-- The document is in what is required and not in what is prohibited.
abbrev pub IsLeft : SearchSet → SearchSet → Text → Type 0
IsLeft req pro d = (SearchSet.contains req d ≡ true) × (SearchSet.contains pro d ≡ false)

abbrev pub AreLeft : (num : Number) → SearchSet → SearchSet → List (Match num) → Type 0
AreLeft num req pro results =
    All (λ (r : Match num). IsLeft req pro r.ref) results × IsDistinct (refs_of num results)

module _ (num : Number) (index : Index num) where
  -- The names of the fields have no slash.
  abbrev pub HaveNoSlash : Type 0
  HaveNoSlash = (f : Text) → IsIn f index.fields → has_joiner f ≡ false

  abbrev pub HasVectors : List (Text × Vector num) → Type 0
  HasVectors query_vectors =
      (f : Text)
      → IsIn f index.fields
      → (v : Vector num) × (get f query_vectors ≡ some v) × IsVector num v

  -- The field of a document has a vector, and what is known about its match.
  abbrev pub IsFound : List (Text × Found) → Text → Type 0
  IsFound matching key = IsRef num index key × ((found : Found) × (get key matching ≡ some found))

  -- A document with one of the keys that is left.
  abbrev pub IsNew : SearchSet → SearchSet → List Text → Text → Type 0
  IsNew req pro refs d =
      IsLeft req pro d × ((f : Text) × IsIn f index.fields × IsIn (f ++ (joiner ∷ d)) refs)

  -- The documents of the results are those of before and the new ones.
  abbrev pub IsListed :
      SearchSet → SearchSet → List Text → List (Match num) → List (Match num) → Type 0
  IsListed req pro refs results out =
      (d : Text) → IsIn d (refs_of num out) ↔ (IsIn d (refs_of num results) ⊎ IsNew req pro refs d)

  module _ (no_slash : HaveNoSlash) where
    pub read_ref-IsRef :
        (key f d : Text)
        → IsIn f index.fields
        → key ≡ f ++ (joiner ∷ d)
        → read_ref key
          ≡ pure (record { doc_ref = d; field_name = f; string_value = some (f ++ (joiner ∷ d)) })
    unfolding read_ref
    read_ref-IsRef key f d is_in e =
        rw (e, read_ref, from_string-joined f d (no_slash f is_in)) refl

    module _ (req pro : SearchSet) (matching : List (Text × Found)) where
      module _ (key f d : Text) (is_in : IsIn f index.fields) (at : key ≡ f ++ (joiner ∷ d))
          (refs : List Text) where
        IsNew-cons :
            (e : Text)
            → IsNew req pro (key ∷ refs) e ↔ ((IsLeft req pro e × (e ≡ d)) ⊎ IsNew req pro refs e)
        IsNew-cons e = (
          λ (left, (g, known, there)). elim there [
            | inl here ↦
                inl (left, joined-doc g f e d (no_slash g known) (no_slash f is_in) (here ∙ at))
            | inr later ↦ inr (left, (g, known, later))
          ],
          λ h. elim h [
            | inl (left, same) ↦ (left, (f, is_in, inl (ap (λ t. f ++ (joiner ∷ t)) same ∙ sym at)))
            | inr (left, (g, known, later)) ↦ (left, (g, known, inr later))
          ],
        )

        IsListed-keep :
            (score : num.F) (found : Found) (results out : List (Match num))
            → IsLeft req pro d
            → IsListed req pro refs (add_match num d score found results) out
            → IsListed req pro (key ∷ refs) results out
        IsListed-keep score found results out left listed e =
            let (forth, back) = listed e in
            let (new, from_new) = IsNew-cons e in
            (
              λ h. elim (forth h) [
                | inl old ↦ elim (add_match-refs num d e score found results old) [
                  | inl same ↦
                      inr (from_new (inl (subst (λ t. IsLeft req pro t) (sym same) left, same)))
                  | inr older ↦ inl older
                ]
                | inr later ↦ inr (from_new (inr later))
              ],
              λ h. elim h [
                | inl old ↦ back (inl (add_match-lists num d e score found results (inr old)))
                | inr is_new ↦ elim (new is_new) [
                  | inl (_, same) ↦
                      back (inl (add_match-lists num d e score found results (inl same)))
                  | inr later ↦ back (inr later)
                ]
              ],
            )

        IsListed-skip :
            (results out : List (Match num))
            → ¬ IsLeft req pro d
            → IsListed req pro refs results out
            → IsListed req pro (key ∷ refs) results out
        IsListed-skip results out gone listed e =
            let (forth, back) = listed e in
            let (new, from_new) = IsNew-cons e in
            (
              λ h. elim (forth h) [ inl old ↦ inl old | inr later ↦ inr (from_new (inr later)) ],
              λ h. elim h [
                | inl old ↦ back (inl old)
                | inr is_new ↦ elim (new is_new) [
                  | inl (left, same) ↦ absurd (gone (subst (λ t. IsLeft req pro t) same left))
                  | inr later ↦ back (inr later)
                ]
              ],
            )

      pub collect_results-Gives :
          (refs : List Text) (query_vectors : List (Text × Vector num)) (results : List (Match num))
          → All (IsFound matching) refs
          → HasVectors query_vectors
          → AreLeft num req pro results
          → Gives
              (collect_results num index req pro matching refs query_vectors results)
              (λ out. AreLeft num req pro out × IsListed req pro refs results out)
      unfolding collect_results
      collect_results-Gives [] qv results _ vectors left = (
        results,
        refl,
        (
          left,
          λ d.
              (λ h. inl h, λ h. elim h [ inl old ↦ old | inr (_, (f, _, no_ref)) ↦ absurd no_ref ]),
        ),
      )
      collect_results-Gives (key ∷ refs) qv results
            (((f, d, v, is_in, e, has_v, is_v), (found, has_found)), rest) vectors
            (left, distinct) =
          let read = read_ref-IsRef key f d is_in e in
          let (w, has_w, is_w) = vectors f is_in in
          let (score, w', run, is_w') = similarity-IsVector num w v is_w is_v in
          elim (Bool-cases (SearchSet.contains req d && not (SearchSet.contains pro d))) [
            | inl allowed ↦
                let vectors' : HasVectors (put f w' qv) = λ g known.
                  get-put-elim (λ o. (u : Vector num) × (o ≡ some u) × IsVector num u) f g w' qv
                    (λ _. (w', refl, is_w')) (vectors g known) in
                let (out, ran, (all_left, listed)) =
                  collect_results-Gives refs (put f w' qv) (add_match num d score found results)
                    rest vectors'
                    (
                      add_match-All num (IsLeft req pro) d score found results
                          (and_true_split (SearchSet.contains req d) (SearchSet.contains pro d)
                            allowed)
                          left,
                      add_match-IsDistinct num d score found results distinct,
                    ) in
                (
                  out,
                  rw (read, allowed, has_w, has_v, run, has_found) ran,
                  (
                    all_left,
                    IsListed-keep key f d is_in e refs score found results out
                        (and_true_split (SearchSet.contains req d) (SearchSet.contains pro d)
                          allowed)
                        listed,
                  ),
                )
            | inr skipped ↦
                let (out, ran, (all_left, listed)) =
                  collect_results-Gives refs qv results rest vectors (left, distinct) in
                (
                  out,
                  rw (read, skipped) ran,
                  (
                    all_left,
                    IsListed-skip key f d is_in e refs results out
                        (λ (in_req, not_in).
                          let clash : true ≡ false = rw (in_req, not_in) at skipped in cc)
                        listed,
                  ),
                )
          ]
