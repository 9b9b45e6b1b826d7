-- ===== src/Pipeline/Tests.antt =====
-- Pipelines of docs/ui/lunr.js at concrete stacks, with functions known by numbers.
use kubearchive.Prelude.{
  Bool-cases, List, [], if◌then◌else◌, inl, inr, map, none, ok, refl, some, ℕ, ◌==◌, ◌∷◌, ◌≡◌,
}
use kubearchive.Text.{Text, lit}
use kubearchive.Metadata.{get, put}
use kubearchive.Token.{Token}
use kubearchive.Pipeline.{
  PipelineFunction, Registry, after, array, before, load, not_registered, one, pushed,
  register_function, remove, run, run_string, to_json,
}
use kubearchive.Pipeline.Run.{flat_maps, run-flat_maps}
use kubearchive.Pipeline.Serial.{load-to_json}
use kubearchive.Pipeline.Edits.{edits-first, stack_of}

pipelines : Unit {0}
unfolding register_function to_json load run_string get put
pipelines = tt

abbrev no_functions : Registry
no_functions = record { labels = λ _. none; registered_functions = []; warnings = [] }

abbrev registry : Registry
registry = record {
  labels =
      λ g. if g == 1 then some (lit "trimmer") else if g == 2 then some (lit "stemmer") else none;
  registered_functions = (lit "trimmer", 1) ∷ (lit "stemmer", 2) ∷ [];
  warnings = [];
}

-- A function that was never registered is written as an undefined label, with a warning.
unregistered_json :
    to_json (record { stack = 1 ∷ 7 ∷ [] }) registry
    ≡ (some (lit "trimmer") ∷ none ∷ [], record registry { warnings = not_registered 7 ∷ [] })
unfolding pipelines
unregistered_json = refl

abbrev twice : ℕ → PipelineFunction
twice fn t i ts = if fn == 1 then array (t ∷ t ∷ []) else one t

abbrev twice_list : ℕ → Token → List Token
twice_list fn t = if fn == 1 then t ∷ t ∷ [] else t ∷ []

twice-list :
    (fn : ℕ) (t : Token) (i : ℕ) (ts : List Token) → pushed (twice fn t i ts) ≡ twice_list fn t
twice-list fn t i ts = elim (Bool-cases (fn == 1)) [
  | inl hit ↦ rw hit refl
  | inr miss ↦ rw miss refl
]

twice_run :
    run_string twice (record { stack = 1 ∷ 2 ∷ [] }) (lit "pod") none ≡ lit "pod" ∷ lit "pod" ∷ []
unfolding pipelines
twice_run = refl

abbrev pod : Token
pod = record { str = lit "pod"; metadata = [] }

run-flat_maps_example :
    run twice (record { stack = 2 ∷ 1 ∷ [] }) (pod ∷ [])
    ≡ flat_maps twice_list (2 ∷ 1 ∷ []) (pod ∷ [])
run-flat_maps_example =
    run-flat_maps twice twice_list (record { stack = 2 ∷ 1 ∷ [] }) (pod ∷ []) twice-list

edits-first_example :
    ((after 1 5 (stack_of (2 ∷ 1 ∷ 3 ∷ [])) registry).0 ≡ ok (stack_of (2 ∷ 1 ∷ 5 ∷ 3 ∷ [])))
    × ((before 1 5 (stack_of (2 ∷ 1 ∷ 3 ∷ [])) registry).0 ≡ ok (stack_of (2 ∷ 5 ∷ 1 ∷ 3 ∷ [])))
    × (remove 1 (stack_of (2 ∷ 1 ∷ 3 ∷ [])) ≡ stack_of (2 ∷ 3 ∷ []))
edits-first_example = edits-first 1 5 (2 ∷ []) (3 ∷ []) registry refl

load-to_json_example :
    (names : List Text) × (to_json (stack_of (1 ∷ 2 ∷ 1 ∷ [])) registry
      ≡ (map some names, registry))
    × (load names registry ≡ (ok (stack_of (1 ∷ 2 ∷ 1 ∷ [])), registry))
unfolding get
load-to_json_example = load-to_json (stack_of (1 ∷ 2 ∷ 1 ∷ [])) registry (
  (b't', lit "rimmer", refl, refl),
  ((b's', lit "temmer", refl, refl), ((b't', lit "rimmer", refl, refl), tt)),
)
