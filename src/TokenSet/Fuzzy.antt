-- ===== src/TokenSet/Fuzzy.antt =====
-- `fromFuzzyString` and `fromClause` of lunr.TokenSet in docs/ui/lunr.js. The edit distance is a
-- natural number, as the query parser reads it.
pub mod Edits
pub mod Near
pub mod Stages
pub mod Works
pub mod Words
use kubearchive.Prelude.{
  Bool, List, Option, [], false, if◌then◌else◌, none, some, suc, true, zero, ℕ, ◌∷◌,
}
use kubearchive.Text.{Text}
use kubearchive.Query.{wildcard}
use kubearchive.TokenSet.{Store, from_string, get_edge, is_last, new_node, set_edge, set_final}

pub record Frame : Type 0 where
  pub node : ℕ
  pub edits_remaining : ℕ
  pub str : Text

abbrev pub State : Type 0
State = Store × List Frame

-- The node behind an edge, made if it is not there.
unfoldable pub edge_node : ℕ → ℕ → Store → ℕ × Store
unfolding get_edge set_edge new_node
edge_node node c s = elim (get_edge c (s.nodes node).edges) [
  | some next ↦ (next, s)
  | none ↦ (s.next_id, set_edge node c s.next_id (new_node false s))
]

-- Follows an edge: the node behind it becomes final if no more of the string is left, and is pushed.
unfoldable pub follow : ℕ → ℕ → Bool → ℕ → Text → State → State
unfolding edge_node set_final
follow node c final edits rest (s, stack) =
    let (next, t) = edge_node node c s in
    (
      if final then set_final next true t else t,
      record { node = next; edits_remaining = edits; str = rest } ∷ stack,
    )

unfoldable pub no_edit : ℕ → ℕ → Text → State → State
unfolding follow
no_edit node edits [] state = state
no_edit node edits (char ∷ rest) state = follow node char (is_last rest) edits rest state

-- The edits have one edit less left than the frame.
unfoldable pub insertion : ℕ → ℕ → Text → State → State
unfolding follow
insertion node edits str state = follow node wildcard (is_last str) edits str state

unfoldable pub deletion : ℕ → ℕ → Text → State → State
deletion node edits (a ∷ b ∷ rest) (s, stack) =
    (s, record { node = node; edits_remaining = edits; str = b ∷ rest } ∷ stack)
deletion node edits _ state = state

unfoldable pub last_deletion : ℕ → Text → State → State
unfolding set_final
last_deletion node (a ∷ []) (s, stack) = (set_final node true s, stack)
last_deletion node _ state = state

unfoldable pub substitution : ℕ → ℕ → Text → State → State
unfolding follow
substitution node edits [] state = state
substitution node edits (char ∷ rest) state = follow node wildcard (is_last rest) edits rest state

-- The source makes the node final if the string has one character, which it has not here.
unfoldable pub transposition : ℕ → ℕ → Text → State → State
unfolding follow
transposition node edits (char_a ∷ char_b ∷ rest) state =
    follow node char_b false edits (char_a ∷ rest) state
transposition node edits _ state = state

-- What the loop does with a frame.
unfoldable pub edit : ℕ → ℕ → Text → State → State
unfolding no_edit insertion deletion last_deletion substitution transposition
edit node zero str state = no_edit node zero str state
edit node (suc edits) str state = transposition node edits str (
    substitution node edits str (
      last_deletion node str
        (deletion node edits str (insertion node edits str (no_edit node (suc edits) str state)))))

unfoldable pub fuzzy_frames : ℕ → State → Option Store
unfolding edit
fuzzy_frames zero state = none
fuzzy_frames (suc fuel) (s, []) = some s
fuzzy_frames (suc fuel) (s, frame ∷ stack) =
    fuzzy_frames fuel (edit frame.node frame.edits_remaining frame.str (s, stack))

-- `none` means that the fuel ran out.
unfoldable pub from_fuzzy_string : ℕ → Text → ℕ → Store → Option (ℕ × Store)
unfolding fuzzy_frames new_node
from_fuzzy_string fuel str edit_distance s =
    elim (fuzzy_frames fuel (
      new_node false s,
      record { node = s.next_id; edits_remaining = edit_distance; str = str } ∷ [],
    )) [ none ↦ none | some t ↦ some (s.next_id, t) ]

-- `fromClause` of a clause with the term and, it may be, an edit distance.
unfoldable pub from_clause : ℕ → Text → Option ℕ → Store → Option (ℕ × Store)
unfolding from_fuzzy_string from_string
from_clause fuel term (some edit_distance) s = from_fuzzy_string fuel term edit_distance s
from_clause fuel term none s = some (from_string term s)
