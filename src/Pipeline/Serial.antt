-- ===== src/Pipeline/Serial.antt =====
-- `registerFunction`, `toJSON` and `load` of docs/ui/lunr.js.
use kubearchive.Prelude.{
  ==_ne, ==_refl, All, Bool-cases, List, Option-cases, [], all, ap, append-nil, append_assoc, err,
  if-intro, if◌then◌else◌, inl, inr, map, none, ok, refl, some, sym, true, ℕ, ◌++◌, ◌==◌, ◌∙◌, ◌∷◌,
  ◌≡◌, ◌≢◌,
}
use kubearchive.Text.{Text, text_eq, text_eq_iff, text_eq_refl}
use kubearchive.Metadata.{get, get-put, put}
use kubearchive.Pipeline.{
  Pipeline, Registry, add, cannot_load_unregistered, is_registered, is_some, labels_of, load,
  load_onto, register_function, to_json, warn, warn_if_function_not_registered,
}

-- A function is registered under its own label, which is not empty.
abbrev pub IsRegistered : Registry → ℕ → Type 0
IsRegistered r fn =
    (c : ℕ) × (cs : Text) × (r.labels fn ≡ some (c ∷ cs))
    × (get (c ∷ cs) r.registered_functions ≡ some fn)

-- Registering a function under a label that is not empty registers it, and leaves every other
-- function registered that has another label.
register_function-IsRegistered :
    (fn c : ℕ) (cs : Text) (r : Registry)
    → IsRegistered (register_function fn (c ∷ cs) r) fn
      × ((g : ℕ)
          → g ≢ fn
          → r.labels g ≢ some (c ∷ cs)
          → IsRegistered r g
          → IsRegistered (register_function fn (c ∷ cs) r) g)
unfolding register_function warn
register_function-IsRegistered fn c cs r = ((c, cs, labelled, found), others)
  where
    labelled : (if fn == fn then some (c ∷ cs) else r.labels fn) ≡ some (c ∷ cs)
    labelled = rw (==_refl fn) refl

    found : get (c ∷ cs) (put (c ∷ cs) fn r.registered_functions) ≡ some fn
    found = rw (get-put, text_eq_refl (c ∷ cs)) refl

    others :
        (g : ℕ)
        → g ≢ fn
        → r.labels g ≢ some (c ∷ cs)
        → IsRegistered r g
        → (d : ℕ) × (ds : Text) × ((if g == fn then some (c ∷ cs) else r.labels g) ≡ some (d ∷ ds))
          × (get (d ∷ ds) (put (c ∷ cs) fn r.registered_functions) ≡ some g)
    others g ne other (d, ds, label, at) = elim (Bool-cases (text_eq (c ∷ cs) (d ∷ ds))) [
      | inl same ↦
          let e : c ∷ cs ≡ d ∷ ds = (text_eq_iff (c ∷ cs) (d ∷ ds)).0 same in
          absurd (other (label ∙ ap some (sym e)))
      | inr apart ↦ (d, ds, rw (==_ne g fn ne) label, rw (get-put, apart) at)
    ]

registered-silent :
    (r : Registry) (fn : ℕ) → IsRegistered r fn → warn_if_function_not_registered fn r ≡ r
unfolding warn_if_function_not_registered is_registered
registered-silent r fn (c, cs, label, at) = rw (label, is_registered, at) refl

labels_of-registered :
    (r : Registry) (fns : List ℕ) (p : Pipeline)
    → All (IsRegistered r) fns
    → (names : List Text) × (labels_of fns r ≡ (map some names, r))
      × (load_onto names p r ≡ (ok (record { stack = p.stack ++ fns }), r))
unfolding labels_of load_onto add
labels_of-registered r [] p h = ([], refl, rw (append-nil p.stack) refl)
labels_of-registered r (fn ∷ fns) p ((c, cs, label, at), h) =
    let silent = registered-silent r fn (c, cs, label, at) in
    let (names, out, back) = labels_of-registered r fns (record { stack = p.stack ++ fn ∷ [] }) h in
    (
      (c ∷ cs) ∷ names,
      rw (silent, out, label) refl,
      rw (at, load_onto, silent) (back ∙ rw append_assoc refl),
    )

-- A pipeline whose functions are all registered has its names written without a warning, and the
-- same pipeline is loaded from these names, again without one.
pub load-to_json :
    (p : Pipeline) (r : Registry)
    → All (IsRegistered r) p.stack
    → (names : List Text) × (to_json p r ≡ (map some names, r)) × (load names r ≡ (ok p, r))
unfolding to_json load
load-to_json p r h = labels_of-registered r p.stack (record { stack = [] }) h

warn-registered_functions :
    (fn : ℕ) (r : Registry)
    → (warn_if_function_not_registered fn r).registered_functions ≡ r.registered_functions
unfolding warn_if_function_not_registered warn
warn-registered_functions fn r =
    if-intro (λ (q : Registry). q.registered_functions ≡ r.registered_functions)
      (is_registered (r.labels fn) r) refl refl

load_onto-unregistered :
    (xs ys : List Text) (name : Text) (p : Pipeline) (r : Registry)
    → all (λ x. is_some (get x r.registered_functions)) xs ≡ true
    → get name r.registered_functions ≡ none
    → (load_onto (xs ++ (name ∷ ys)) p r).0 ≡ err (cannot_load_unregistered name)
unfolding load_onto add
load_onto-unregistered [] ys name p r h absent = rw (absent, load_onto) refl
load_onto-unregistered (x ∷ xs) ys name p r h absent =
    elim (Option-cases (get x r.registered_functions)) [
      | inl missing ↦ let h' = rw missing at h in cc
      | inr (fn, at) ↦
          let h' = rw at at h in
          let same = warn-registered_functions fn r in
          rw (at, load_onto)
            (load_onto-unregistered xs ys name _ (warn_if_function_not_registered fn r) (rw same h')
              (rw same absent))
    ]

-- `load` throws at the first name that is not registered, and names it.
load-unregistered :
    (xs ys : List Text) (name : Text) (r : Registry)
    → all (λ x. is_some (get x r.registered_functions)) xs ≡ true
    → get name r.registered_functions ≡ none
    → (load (xs ++ (name ∷ ys)) r).0 ≡ err (cannot_load_unregistered name)
unfolding load
load-unregistered xs ys name r h absent =
    load_onto-unregistered xs ys name (record { stack = [] }) r h absent
