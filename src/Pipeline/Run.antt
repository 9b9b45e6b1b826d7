-- ===== src/Pipeline/Run.antt =====
-- `run` of docs/ui/lunr.js against the concatenation of what the functions return.

use kubearchive.Prelude.{
  List, [], ap, append-nil, append_assoc, refl, sym, ℕ, ◌++◌, ◌+◌, ◌∙◌, ◌∷◌, ◌≡◌,
}
use kubearchive.Token.{Token}
use kubearchive.Pipeline.{Pipeline, PipelineFunction, pushed, run, run_function, run_stack}

-- What a function that looks at its token alone makes of the tokens, in their order.
abbrev pub flat_map : (Token → List Token) → List Token → List Token
flat_map f [] = []
flat_map f (t ∷ ts) = f t ++ flat_map f ts

abbrev pub flat_maps : (ℕ → Token → List Token) → List ℕ → List Token → List Token
flat_maps f [] ts = ts
flat_maps f (fn ∷ fns) ts = flat_maps f fns (flat_map (f fn) ts)

run_function-flat_map :
    (fn : PipelineFunction) (f : Token → List Token) (tokens : List Token) (j : ℕ)
    (rest memo : List Token)
    → ((t : Token) (i : ℕ) (ts : List Token) → pushed (fn t i ts) ≡ f t)
    → run_function fn tokens j rest memo ≡ memo ++ flat_map f rest
unfolding run_function
run_function-flat_map fn f tokens j [] memo h = sym (append-nil memo)
run_function-flat_map fn f tokens j (t ∷ rest) memo h =
    run_function-flat_map fn f tokens (j + 1) rest (memo ++ pushed (fn t j tokens)) h
    ∙ (append_assoc memo (pushed (fn t j tokens)) (flat_map f rest)
        ∙ ap (λ x. memo ++ (x ++ flat_map f rest)) (h t j tokens))

run_stack-flat_maps :
    (body : ℕ → PipelineFunction) (f : ℕ → Token → List Token) (fns : List ℕ) (tokens : List Token)
    → ((fn : ℕ) (t : Token) (i : ℕ) (ts : List Token) → pushed (body fn t i ts) ≡ f fn t)
    → run_stack body fns tokens ≡ flat_maps f fns tokens
unfolding run_stack
run_stack-flat_maps body f [] tokens h = refl
run_stack-flat_maps body f (fn ∷ fns) tokens h =
    run_stack-flat_maps body f fns (run_function (body fn) tokens 0 tokens []) h
    ∙ ap (flat_maps f fns) (run_function-flat_map (body fn) (f fn) tokens 0 tokens [] (h fn))

-- If the functions look at their token alone, the pipeline gives to each function, in the order of
-- the stack, the tokens of the one before, and keeps what they return in the order of the tokens.
pub run-flat_maps :
    (body : ℕ → PipelineFunction) (f : ℕ → Token → List Token) (p : Pipeline) (tokens : List Token)
    → ((fn : ℕ) (t : Token) (i : ℕ) (ts : List Token) → pushed (body fn t i ts) ≡ f fn t)
    → run body p tokens ≡ flat_maps f p.stack tokens
unfolding run
run-flat_maps body f p tokens h = run_stack-flat_maps body f p.stack tokens h
