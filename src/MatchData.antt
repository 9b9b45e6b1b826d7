-- ===== src/MatchData.antt =====
-- lunr.MatchData of docs/ui/lunr.js: what is known of a matching document, under term, field and
-- key. The arrays of metadata hold values of any type.
pub mod Combine
mod Tests
use kubearchive.Prelude.{List, Option, [], none, some, ◌++◌, ◌∷◌}
use kubearchive.Text.{Text}
use kubearchive.Metadata.{get, put}

abbrev pub Dict : Type 0 → Type 0
Dict V = List (Text × V)

-- The object of a key, which is created where it is missing.
abbrev pub or_created : {V : Type 0} → Option (Dict V) → Dict V
or_created none = []
or_created (some d) = d

-- A loop over the keys of another object, with what is done at each.
unfoldable pub merge : {V W : Type 0} → (Option V → W → V) → Dict V → Dict W → Dict V
merge f mine [] = mine
merge f mine ((key, w) ∷ rest) = merge f (put key (f (get key mine) w) mine) rest

module _ (A : Type 0) where
  abbrev pub Keys : Type 0
  Keys = Dict (List A)

  abbrev pub Fields : Type 0
  Fields = Dict Keys

  pub record MatchData : Type 0 where
    pub metadata : Dict Fields

  -- The loop that copies the arrays.
  unfoldable pub clone_keys : Keys → Keys
  unfolding merge
  clone_keys metadata = merge (λ _ vals. vals) [] metadata

  -- The term is `undefined` in the match data that starts a collection.
  unfoldable pub new : Option Text → Text → Option Keys → MatchData
  unfolding clone_keys
  new none field metadata = record { metadata = [] }
  new (some term) field metadata = record {
    metadata = (term, (field, clone_keys (or_created metadata)) ∷ []) ∷ [];
  }

  -- The array of a key: the other's, or both, one after the other.
  abbrev pub concat_onto : Option (List A) → List A → List A
  concat_onto none vals = vals
  concat_onto (some old) vals = old ++ vals

  -- The loops over the keys, the fields and the terms.
  unfoldable pub combine_keys : Option Keys → Keys → Keys
  combine_keys mine theirs = merge concat_onto (or_created mine) theirs

  unfoldable pub combine_fields : Option Fields → Fields → Fields
  unfolding combine_keys
  combine_fields mine theirs = merge combine_keys (or_created mine) theirs

  unfoldable pub combine : MatchData → MatchData → MatchData
  unfolding combine_fields
  combine this other = record { metadata = merge combine_fields this.metadata other.metadata }

  -- `add` with the field's object and the term's object, if they are there.
  unfoldable pub add_keys : Option Keys → Keys → Keys
  unfolding combine_keys
  add_keys none metadata = metadata
  add_keys (some mine) metadata = combine_keys (some mine) metadata

  unfoldable pub add_fields : Option Fields → Text → Keys → Fields
  unfolding add_keys
  add_fields none field metadata = (field, metadata) ∷ []
  add_fields (some mine) field metadata = put field (add_keys (get field mine) metadata) mine

  unfoldable pub add : Text → Text → Keys → MatchData → MatchData
  unfolding add_fields
  add term field metadata this = record {
    metadata = put term (add_fields (get term this.metadata) field metadata) this.metadata;
  }
