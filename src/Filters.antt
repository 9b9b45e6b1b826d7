-- ===== src/Filters.antt =====
-- The pipeline functions of docs/ui/lunr.js, the pipelines that `lunr` sets up with them, and the
-- change of the stemmer in docs/extensions/lunr-patch.js.
pub mod Words
pub mod Trim
pub mod Defaults
mod Tests
use kubearchive.Prelude.{List, [], any, if◌then◌else◌, none, suc, zero, ℕ, ◌∷◌}
use kubearchive.Text.{Text, is_word, lit, text_eq}
use kubearchive.Token.{update}
use kubearchive.Pipeline.{
  Pipeline, PipelineFunction, Registry, add, nothing, one, register_function,
}
use kubearchive.Filters.Words.{stop_words}

-- The stemmer of this copy gives the token back.
unfoldable pub stemmer : PipelineFunction
stemmer token i tokens = one token

-- A token whose text is one of the words is discarded.
unfoldable pub generate_stop_word_filter : List Text → PipelineFunction
generate_stop_word_filter words token i tokens =
    if any (λ w. text_eq w token.str) words then nothing else one token

-- `replace(/^\W+/, '')`.
unfoldable pub trim_left : Text → Text
trim_left [] = []
trim_left (c ∷ cs) = let rest = trim_left cs in if is_word c then c ∷ cs else rest

-- `replace(/\W+$/, '')`: a character stays if it is of a word, or if one behind it stays.
unfoldable pub keep_before : ℕ → Text → Text
keep_before c [] = if is_word c then c ∷ [] else []
keep_before c (d ∷ ds) = c ∷ d ∷ ds

unfoldable pub trim_right : Text → Text
unfolding keep_before
trim_right [] = []
trim_right (c ∷ cs) = keep_before c (trim_right cs)

unfoldable pub trim : Text → Text
unfolding trim_left trim_right
trim s = trim_right (trim_left s)

unfoldable pub trimmer : PipelineFunction
unfolding trim update
trimmer token i tokens = one (update (λ s _. trim s) token)

-- The functions under the numbers that stand for them here: those of the library, and the stemmer
-- of the patch.
unfoldable pub body : ℕ → PipelineFunction
unfolding trimmer generate_stop_word_filter stemmer
body zero = trimmer
body (suc zero) = generate_stop_word_filter stop_words
body (suc (suc _)) = stemmer

-- The registry after the calls of `registerFunction` in the library, in their order.
unfoldable pub library_registry : Registry
unfolding register_function
library_registry = register_function 0 (lit "trimmer") (
    register_function 1 (lit "stopWordFilter") (
      register_function 2 (lit "stemmer")
        (record { labels = λ _. none; registered_functions = []; warnings = [] })))

-- What the patch does to the registry.
unfoldable pub patched_registry : Registry
unfolding library_registry
patched_registry = register_function 3 (lit "stemmer") library_registry

-- `builder.pipeline.add` and `builder.searchPipeline.add` in `lunr`, with the stemmer in force.
unfoldable pub document_pipeline : ℕ → Registry → Pipeline × Registry
unfolding add
document_pipeline stemmer_fn r = add (0 ∷ 1 ∷ stemmer_fn ∷ []) (record { stack = [] }) r

unfoldable pub search_pipeline : ℕ → Registry → Pipeline × Registry
unfolding add
search_pipeline stemmer_fn r = add (stemmer_fn ∷ []) (record { stack = [] }) r
