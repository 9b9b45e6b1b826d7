-- ===== src/MatchData/Combine.antt =====
-- What `combine` and `add` of docs/ui/lunr.js leave under a term, a field and a key.
use kubearchive.Prelude.{
  Bool-cases, List, Option, Option-cases, [], ap, if-intro, if◌then◌else◌, inl, inr, none, refl,
  some, ◌&&◌, ◌++◌, ◌∙◌, ◌∷◌, ◌≡◌,
}
use kubearchive.Text.{Text, text_eq, text_eq_iff}
use kubearchive.Metadata.{get, get-put, put}
use kubearchive.MatchData.{
  Dict, Fields, Keys, MatchData, add, add_fields, add_keys, combine, combine_fields, combine_keys,
  concat_onto, merge, or_created,
}

-- No key is set twice, as in every object.
abbrev pub IsDict : {V : Type 0} → Dict V → Type 0
IsDict [] = Unit
IsDict ((k, v) ∷ rest) = (get k rest ≡ none) × IsDict rest

abbrev merged : {V W : Type 0} → (Option V → W → V) → Option V → Option W → Option V
merged f o none = o
merged f o (some w) = some (f o w)

get-merge :
    {V W : Type 0} (f : Option V → W → V) (key : Text) (mine : Dict V) (theirs : Dict W)
    → IsDict theirs
    → get key (merge f mine theirs) ≡ merged f (get key mine) (get key theirs)
unfolding merge get
get-merge f key mine [] o = refl
get-merge f key mine ((k, w) ∷ rest) (fresh, o) = elim (Bool-cases (text_eq k key)) [
  | inl same ↦
      let e : k ≡ key = (text_eq_iff k key).0 same in
      let absent : get key rest ≡ none = rw e at fresh in
      rw (same, get-merge f key (put k (f (get k mine) w) mine) rest o, absent, get-put, same, e)
        refl
  | inr other ↦
      rw (other, get-merge f key (put k (f (get k mine) w) mine) rest o, get-put, other) refl
]

module _ (A : Type 0) where
  -- Both arrays, mine first; or the one that is there.
  abbrev pub both : Option (List A) → Option (List A) → Option (List A)
  both mine none = mine
  both none (some theirs) = some theirs
  both (some mine) (some theirs) = some (mine ++ theirs)

  abbrev pub keys_at : Text → Option (Keys A) → Option (List A)
  keys_at key none = none
  keys_at key (some keys) = get key keys

  abbrev pub fields_at : Text → Text → Option (Fields A) → Option (List A)
  fields_at field key none = none
  fields_at field key (some fields) = keys_at key (get field fields)

  -- The array under a term, a field and a key.
  abbrev pub values_at : Text → Text → Text → MatchData A → Option (List A)
  values_at term field key m = fields_at field key (get term m.metadata)

  -- An object of objects of objects.
  abbrev AreDicts : Fields A → Type 0
  AreDicts [] = Unit
  AreDicts ((field, keys) ∷ rest) = IsDict keys × AreDicts rest

  abbrev IsFieldsDict : Fields A → Type 0
  IsFieldsDict fields = IsDict fields × AreDicts fields

  abbrev AreFieldsDicts : Dict (Fields A) → Type 0
  AreFieldsDicts [] = Unit
  AreFieldsDicts ((term, fields) ∷ rest) = IsFieldsDict fields × AreFieldsDicts rest

  abbrev pub IsNested : MatchData A → Type 0
  IsNested m = IsDict m.metadata × AreFieldsDicts m.metadata

  abbrev Holds : {V : Type 0} → (V → Type 0) → Option V → Type 0
  Holds P none = Unit
  Holds P (some v) = P v

  get-AreDicts :
      (field : Text) (fields : Fields A) → AreDicts fields → Holds IsDict (get field fields)
  unfolding get
  get-AreDicts field [] h = tt
  get-AreDicts field ((f, keys) ∷ rest) (d, h) =
      if-intro (Holds IsDict) (text_eq f field) d (get-AreDicts field rest h)

  get-AreFieldsDicts :
      (term : Text) (terms : Dict (Fields A))
      → AreFieldsDicts terms
      → Holds IsFieldsDict (get term terms)
  unfolding get
  get-AreFieldsDicts term [] h = tt
  get-AreFieldsDicts term ((t, fields) ∷ rest) (d, h) =
      if-intro (Holds IsFieldsDict) (text_eq t term) d (get-AreFieldsDicts term rest h)

  keys_at-or_created : (key : Text) (o : Option (Keys A)) → get key (or_created o) ≡ keys_at key o
  unfolding get
  keys_at-or_created key none = refl
  keys_at-or_created key (some keys) = refl

  fields_at-or_created :
      (field key : Text) (o : Option (Fields A))
      → keys_at key (get field (or_created o)) ≡ fields_at field key o
  unfolding get
  fields_at-or_created field key none = refl
  fields_at-or_created field key (some fields) = refl

  merged-both : (o t : Option (List A)) → merged (concat_onto A) o t ≡ both o t
  merged-both o none = refl
  merged-both none (some vals) = refl
  merged-both (some old) (some vals) = refl

  -- The keys of a field, with those of the other object, if it has the field.
  keys_at-combine :
      (key : Text) (o t : Option (Keys A))
      → Holds IsDict t
      → keys_at key (merged (combine_keys A) o t) ≡ both (keys_at key o) (keys_at key t)
  unfolding combine_keys
  keys_at-combine key o none h = refl
  keys_at-combine key o (some keys) h =
      get-merge (concat_onto A) key (or_created o) keys h
      ∙ rw (keys_at-or_created key o) (merged-both (keys_at key o) (get key keys))

  fields_at-combine :
      (field key : Text) (o t : Option (Fields A))
      → Holds IsFieldsDict t
      → fields_at field key (merged (combine_fields A) o t)
        ≡ both (fields_at field key o) (fields_at field key t)
  unfolding combine_fields
  fields_at-combine field key o none h = refl
  fields_at-combine field key o (some fields) (d, ds) =
      ap (keys_at key) (get-merge (combine_keys A) field (or_created o) fields d)
      ∙ (keys_at-combine key (get field (or_created o)) (get field fields)
            (get-AreDicts field fields ds)
          ∙ ap (λ x. both x (keys_at key (get field fields))) (fields_at-or_created field key o))

  -- After `combine`, every term, field and key has what both objects had there: the values of this
  -- one, and then those of the other.
  pub values_at-combine :
      (this other : MatchData A) (term field key : Text)
      → IsNested other
      → values_at term field key (combine A this other)
        ≡ both (values_at term field key this) (values_at term field key other)
  unfolding combine
  values_at-combine this other term field key (d, ds) =
      ap (fields_at field key) (get-merge (combine_fields A) term this.metadata other.metadata d)
      ∙ fields_at-combine field key (get term this.metadata) (get term other.metadata)
          (get-AreFieldsDicts term other.metadata ds)

  keys_at-add :
      (key : Text) (o : Option (Keys A)) (metadata : Keys A)
      → IsDict metadata
      → get key (add_keys A o metadata) ≡ both (keys_at key o) (get key metadata)
  unfolding add_keys combine_keys
  keys_at-add key none metadata d = elim (Option-cases (get key metadata)) [
    | inl absent ↦ rw absent refl
    | inr (vals, present) ↦ rw present refl
  ]
  keys_at-add key (some keys) metadata d =
      get-merge (concat_onto A) key keys metadata d ∙ merged-both (get key keys) (get key metadata)

  fields_at-add :
      (f field key : Text) (o : Option (Fields A)) (metadata : Keys A)
      → IsDict metadata
      → fields_at field key (some (add_fields A o f metadata)) ≡ (
          if text_eq f field
          then both (fields_at field key o) (get key metadata)
          else fields_at field key o)
  unfolding add_fields get
  fields_at-add f field key none metadata d = elim (Bool-cases (text_eq f field)) [
    | inl same ↦ rw same (keys_at-add key none metadata d)
    | inr other ↦ rw other refl
  ]
  fields_at-add f field key (some fields) metadata d = elim (Bool-cases (text_eq f field)) [
    | inl same ↦
        let e : f ≡ field = (text_eq_iff f field).0 same in
        rw (get-put, same, e) (keys_at-add key (get field fields) metadata d)
    | inr other ↦ rw (get-put, other) refl
  ]

  -- After `add`, the term and the field have under every key the values they had, and then those of
  -- the metadata; every other term and field has what it had.
  values_at-add :
      (m : MatchData A) (t f term field key : Text) (metadata : Keys A)
      → IsDict metadata
      → values_at term field key (add A t f metadata m) ≡ (
          if text_eq t term && text_eq f field
          then both (values_at term field key m) (get key metadata)
          else values_at term field key m)
  unfolding add
  values_at-add m t f term field key metadata d = elim (Bool-cases (text_eq t term)) [
    | inl same ↦
        let e : t ≡ term = (text_eq_iff t term).0 same in
        rw (get-put, same, e) (fields_at-add f field key (get term m.metadata) metadata d)
    | inr other ↦ rw (get-put, other) refl
  ]
