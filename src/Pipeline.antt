-- ===== src/Pipeline.antt =====
-- lunr.Pipeline of docs/ui/lunr.js. A function has an identity, by which the stack holds it, and a
-- label, which `registerFunction` sets on the function itself.
pub mod Edits
pub mod Serial
pub mod Run
mod Tests
use kubearchive.Prelude.{
  Bool, List, Option, Result, [], drop, err, false, if◌then◌else◌, map, none, ok, some, suc, take,
  true, ℕ, ◌++◌, ◌+◌, ◌==◌, ◌∷◌,
}
use kubearchive.Text.{Text}
use kubearchive.Metadata.{Metadata, get, put}
use kubearchive.Token.{Token, or_empty}

-- What `lunr.utils.warn` prints.
pub data Warning : Type 0 where
  overwriting : Text → Warning
  not_registered : ℕ → Warning

-- The labels of the functions, `lunr.Pipeline.registeredFunctions`, and the console.
pub record Registry : Type 0 where
  pub labels : ℕ → Option Text
  pub registered_functions : List (Text × ℕ)
  pub warnings : List Warning

unfoldable pub warn : Warning → Registry → Registry
warn w r = record r { warnings = r.warnings ++ w ∷ [] }

abbrev pub is_some {ℓ} : {A : Type ℓ} → Option A → Bool
is_some none = false
is_some (some a) = true

unfoldable pub register_function : ℕ → Text → Registry → Registry
unfolding warn
register_function fn label r =
    let warned =
      if is_some (get label r.registered_functions) then warn (overwriting label) r else r in
    record warned {
      labels = λ g. if g == fn then some label else r.labels g;
      registered_functions = put label fn r.registered_functions;
    }

-- `fn.label && (fn.label in this.registeredFunctions)`, where an empty label counts as none.
unfoldable pub is_registered : Option Text → Registry → Bool
is_registered none r = false
is_registered (some []) r = false
is_registered (some (c ∷ cs)) r = is_some (get (c ∷ cs) r.registered_functions)

unfoldable pub warn_if_function_not_registered : ℕ → Registry → Registry
unfolding is_registered warn
warn_if_function_not_registered fn r =
    if is_registered (r.labels fn) r then r else warn (not_registered fn) r

pub record Pipeline : Type 0 where
  pub stack : List ℕ

pub data PipelineError : Type 0 where
  cannot_find_existing_fn : PipelineError
  cannot_load_unregistered : Text → PipelineError

unfoldable pub add : List ℕ → Pipeline → Registry → Pipeline × Registry
unfolding warn_if_function_not_registered
add [] p r = (p, r)
add (fn ∷ fns) p r =
    add fns (record { stack = p.stack ++ fn ∷ [] }) (warn_if_function_not_registered fn r)

-- The loop of `load`, with the pipeline so far.
unfoldable pub load_onto :
    List Text → Pipeline → Registry → Result PipelineError Pipeline × Registry
unfolding add
load_onto [] p r = (ok p, r)
load_onto (fn_name ∷ names) p r = elim (get fn_name r.registered_functions) [
  | none ↦ (err (cannot_load_unregistered fn_name), r)
  | some fn ↦ let (p', r') = add (fn ∷ []) p r in load_onto names p' r'
]

unfoldable pub load : List Text → Registry → Result PipelineError Pipeline × Registry
unfolding load_onto
load serialised r = load_onto serialised (record { stack = [] }) r

unfoldable pub index_of : ℕ → List ℕ → Option ℕ
index_of fn [] = none
index_of fn (g ∷ gs) =
    let later = index_of fn gs in
    if g == fn then some 0 else elim later [ none ↦ none | some n ↦ some (suc n) ]

-- `splice(pos, 0, fn)` and `splice(pos, 1)`.
unfoldable pub splice_in : ℕ → ℕ → List ℕ → List ℕ
splice_in pos fn gs = take pos gs ++ (fn ∷ drop pos gs)

unfoldable pub splice_out : ℕ → List ℕ → List ℕ
splice_out pos gs = take pos gs ++ drop (suc pos) gs

unfoldable pub insert_at : (ℕ → ℕ) → Option ℕ → ℕ → Pipeline → Result PipelineError Pipeline
unfolding splice_in
insert_at place none fn p = err cannot_find_existing_fn
insert_at place (some pos) fn p = ok (record { stack = splice_in (place pos) fn p.stack })

unfoldable pub after : ℕ → ℕ → Pipeline → Registry → Result PipelineError Pipeline × Registry
unfolding index_of insert_at warn_if_function_not_registered
after existing_fn new_fn p r = (
  insert_at suc (index_of existing_fn p.stack) new_fn p,
  warn_if_function_not_registered new_fn r,
)

unfoldable pub before : ℕ → ℕ → Pipeline → Registry → Result PipelineError Pipeline × Registry
unfolding index_of insert_at warn_if_function_not_registered
before existing_fn new_fn p r = (
  insert_at (λ pos. pos) (index_of existing_fn p.stack) new_fn p,
  warn_if_function_not_registered new_fn r,
)

unfoldable pub remove : ℕ → Pipeline → Pipeline
unfolding index_of splice_out
remove fn p = elim (index_of fn p.stack) [
  | none ↦ p
  | some pos ↦ record { stack = splice_out pos p.stack }
]

unfoldable pub reset : Pipeline → Pipeline
reset p = record { stack = [] }

-- The labels, with a warning for each function that is not registered.
unfoldable pub labels_of : List ℕ → Registry → List (Option Text) × Registry
unfolding warn_if_function_not_registered
labels_of [] r = ([], r)
labels_of (fn ∷ fns) r =
    let (labels, r') = labels_of fns (warn_if_function_not_registered fn r) in
    (r.labels fn ∷ labels, r')

unfoldable pub to_json : Pipeline → Registry → List (Option Text) × Registry
unfolding labels_of
to_json p r = labels_of p.stack r

-- What a function returns: `null`, `undefined` or the empty string; tokens in an array; a token.
pub data Returned : Type 0 where
  nothing : Returned
  array : List Token → Returned
  one : Token → Returned

-- What is pushed onto `memo`.
abbrev pub pushed : Returned → List Token
pushed nothing = []
pushed (array ts) = ts
pushed (one t) = t ∷ []

-- A function sees the token, its index and all the tokens. What it changes in its token is seen in
-- what it returns, not among the tokens of the next call; the other tokens it is taken to leave
-- as they are.
abbrev pub PipelineFunction : Type 0
PipelineFunction = Token → ℕ → List Token → Returned

-- The loop over the tokens, with `memo`.
unfoldable pub run_function :
    PipelineFunction → List Token → ℕ → List Token → List Token → List Token
run_function fn tokens j [] memo = memo
run_function fn tokens j (t ∷ rest) memo =
    run_function fn tokens (j + 1) rest (memo ++ pushed (fn t j tokens))

module _ (body : ℕ → PipelineFunction) where
  -- The loop over the stack.
  unfoldable pub run_stack : List ℕ → List Token → List Token
  unfolding run_function
  run_stack [] tokens = tokens
  run_stack (fn ∷ fns) tokens = run_stack fns (run_function (body fn) tokens 0 tokens [])

  unfoldable pub run : Pipeline → List Token → List Token
  unfolding run_stack
  run p tokens = run_stack p.stack tokens

  unfoldable pub run_string : Pipeline → Text → Option Metadata → List Text
  unfolding run
  run_string p str metadata =
      map (λ (t : Token). t.str) (run p (record { str = str; metadata = or_empty metadata } ∷ []))
