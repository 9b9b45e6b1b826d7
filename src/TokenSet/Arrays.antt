-- ===== src/TokenSet/Arrays.antt =====
-- `toArray` of lunr.TokenSet in docs/ui/lunr.js. The stack of frames is a list whose first frame is the
-- top; the loop over it runs on fuel.
pub mod Words
use kubearchive.Prelude.{List, Option, [], if◌then◌else◌, none, some, suc, zero, ℕ, ◌++◌, ◌∷◌}
use kubearchive.Text.{Text}
use kubearchive.TokenSet.{Store}

-- A frame of the stack of `toArray`: the prefix and the node.
abbrev pub Prefixed : Type 0
Prefixed = Text × ℕ

unfoldable pub push_edges : Text → List (ℕ × ℕ) → List Prefixed → List Prefixed
push_edges prefix [] stack = stack
push_edges prefix ((edge, node) ∷ es) stack =
    push_edges prefix es ((prefix ++ edge ∷ [], node) ∷ stack)

unfoldable pub to_array_frames : ℕ → Store → List Prefixed → List Text → Option (List Text)
unfolding push_edges
to_array_frames zero s stack words = none
to_array_frames (suc fuel) s [] words = some words
to_array_frames (suc fuel) s ((prefix, node) ∷ stack) words =
    to_array_frames fuel s (push_edges prefix (s.nodes node).edges stack)
      (if (s.nodes node).final then words ++ prefix ∷ [] else words)

unfoldable pub to_array : ℕ → ℕ → Store → Option (List Text)
unfolding to_array_frames
to_array fuel node s = to_array_frames fuel s (([], node) ∷ []) []
