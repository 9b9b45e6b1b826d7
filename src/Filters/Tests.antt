-- ===== src/Filters/Tests.antt =====
-- The filters of docs/ui/lunr.js at concrete texts, and the registry after the patch.
use kubearchive.Prelude.{List, [], map, ok, refl, true, ◌++◌, ◌∷◌, ◌≡◌, ◌⊎◌}
use kubearchive.Text.{Text, is_word, lit}
use kubearchive.Metadata.{get, put}
use kubearchive.Token.{Token}
use kubearchive.Pipeline.{load, overwriting, register_function, run}
use kubearchive.Filters.{
  body, document_pipeline, library_registry, patched_registry, search_pipeline, trim,
}
use kubearchive.Filters.Trim.{EndsWithWord, StartsWithWord, no_word, trim-split}
use kubearchive.Filters.Defaults.{document_pipeline-run, trimmed, without_stop_words}

filters : Unit {0}
unfolding trim patched_registry library_registry register_function document_pipeline load is_word
    get put
filters = tt

trim_run : trim (lit "(kube-archive).") ≡ lit "kube-archive"
unfolding filters
trim_run = refl

-- The patch overwrites the stemmer, with a warning, and a saved pipeline is loaded with the new one.
patched_load :
    load (lit "trimmer" ∷ lit "stopWordFilter" ∷ lit "stemmer" ∷ []) patched_registry
    ≡ (ok (record { stack = 0 ∷ 1 ∷ 3 ∷ [] }), patched_registry)
unfolding filters
patched_load = refl

patched_warning : patched_registry.warnings ≡ overwriting (lit "stemmer") ∷ []
unfolding filters
patched_warning = refl

trim-split_example :
    (a : Text) × (b : Text) × (lit "(pod)," ≡ a ++ (trim (lit "(pod),") ++ b))
    × (no_word a ≡ true)
    × (no_word b ≡ true)
    × ((trim (lit "(pod),") ≡ [])
        ⊎ (StartsWithWord (trim (lit "(pod),")) × EndsWithWord (trim (lit "(pod),"))))
trim-split_example = trim-split (lit "(pod),")

abbrev tokens : List Token
tokens = record { str = lit "the"; metadata = [] } ∷ record { str = lit "pod,"; metadata = [] } ∷ []

document_pipeline-run_example :
    (run body (document_pipeline 3 patched_registry).0 tokens
      ≡ without_stop_words (map trimmed tokens))
    × (run body (search_pipeline 3 patched_registry).0 tokens ≡ tokens)
document_pipeline-run_example = document_pipeline-run 1 patched_registry tokens
