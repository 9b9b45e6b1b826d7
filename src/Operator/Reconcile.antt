-- ===== src/Operator/Reconcile.antt =====
-- What `Reconcile` of the operator leaves in the cluster.
use kubearchive.Prelude.{
  Bool, Bool-cases, Option, [], and_split, ap, false, if-intro, if◌then◌else◌, inl, inr, none, ok,
  refl, some, true, ◌&&◌, ◌∙◌, ◌∷◌, ◌≡◌,
}
use kubearchive.Text.{Text, lit, text_eq, text_eq_iff}
use kubearchive.Operator.{
  Client, ClientError, Kind, KubeArchiveConfig, Meta, Object, api_server_source,
  api_server_source_kind, desired_api_server_source, desired_role, desired_role_binding,
  desired_service_account, kind_of, meta_of, object_meta, put, reconcile, reconcile_all,
  reconcile_api_server_source, reconcile_found, reconcile_object, reconcile_role,
  reconcile_role_binding, reconcile_service_account, role, role_binding, role_binding_kind,
  role_kind, service_account, service_account_kind, source_spec,
}
use kubearchive.Operator.Cluster.{Answers, found_or_not, is_at, kind_eq}

kind_eq-same : (k l : Kind) → kind_eq k l ≡ true → k ≡ l
kind_eq-same service_account_kind service_account_kind h = refl
kind_eq-same role_kind role_kind h = refl
kind_eq-same role_binding_kind role_binding_kind h = refl
kind_eq-same api_server_source_kind api_server_source_kind h = refl
kind_eq-same _ _ h = cc

is_at-same :
    (o : Object) (kind : Kind) (name namespace : Text)
    → is_at o kind name namespace ≡ true
    → (kind_of o ≡ kind) × ((meta_of o).name ≡ name) × ((meta_of o).namespace ≡ namespace)
is_at-same o kind name namespace h =
    let (k, rest) = and_split (kind_eq (kind_of o) kind) _ h in
    let (n, ns) = and_split (text_eq (meta_of o).name name) _ rest in
    (
      kind_eq-same (kind_of o) kind k,
      (text_eq_iff (meta_of o).name name).0 n,
      (text_eq_iff (meta_of o).namespace namespace).0 ns,
    )

module _ (client : Client) (answers : Answers client) where
  open answers use {lookup, accepts, owner, get-lookup, update-lookup, create-lookup, set_owner}

  abbrev pub owned : KubeArchiveConfig → Meta
  owned kaconfig = record {
    name = kaconfig.name;
    namespace = kaconfig.namespace;
    owners = owner kaconfig ∷ [];
  }

  -- The objects of a configuration: an account that may read events, and a source that sends them
  -- to the sink under this account. The source has no owner.
  abbrev pub wanted : KubeArchiveConfig → Kind → Object
  wanted kaconfig service_account_kind = service_account (owned kaconfig)
  wanted kaconfig role_kind = role (owned kaconfig) (
      record {
        api_groups = [] ∷ [];
        resources = lit "events" ∷ [];
        verbs = lit "get" ∷ lit "list" ∷ lit "watch" ∷ [];
      }
      ∷ [])
  wanted kaconfig role_binding_kind =
      role_binding (owned kaconfig)
        (record {
          api_group = lit "rbac.authorization.k8s.io";
          kind = lit "Role";
          name = kaconfig.name;
        })
        (record {
          kind = lit "ServiceAccount";
          name = kaconfig.name;
          namespace = kaconfig.namespace;
        }
          ∷ [])
  wanted kaconfig api_server_source_kind =
      api_server_source
        (record { name = kaconfig.name; namespace = kaconfig.namespace; owners = [] })
        (source_spec kaconfig)

  -- What is there in the end where one object was wanted: the old one if it cannot be replaced.
  abbrev pub settled : Option Object → Object → Object
  settled none o = o
  settled (some old) o = if accepts old o then o else old

  module _ (o : Object) (w : client.World) (kind : Kind) (name namespace : Text) where
    put-here :
        (there : Option Object)
        → is_at o kind name namespace ≡ true
        → lookup w (kind_of o) (meta_of o).name (meta_of o).namespace ≡ there
        → lookup w kind name namespace ≡ there
        → lookup (put client (found_or_not there) o w).1 kind name namespace
          ≡ some (settled there o)
    unfolding put
    put-here none here at _ = create-lookup o w kind name namespace ∙ rw (at, here) refl
    put-here (some old) here at same = elim (Bool-cases (accepts old o)) [
      | inl taken ↦ rw taken (update-lookup o w kind name namespace ∙ rw (at, taken, here) refl)
      | inr refused ↦ rw refused (update-lookup o w kind name namespace ∙ rw (at, refused) same)
    ]

    put-elsewhere :
        (there : Option Object)
        → is_at o kind name namespace ≡ false
        → lookup w (kind_of o) (meta_of o).name (meta_of o).namespace ≡ there
        → lookup (put client (found_or_not there) o w).1 kind name namespace
          ≡ lookup w kind name namespace
    unfolding put
    put-elsewhere none elsewhere at =
        create-lookup o w kind name namespace ∙ rw (at, elsewhere) refl
    put-elsewhere (some old) elsewhere at = elim (Bool-cases (accepts old o)) [
      | inl taken ↦ update-lookup o w kind name namespace ∙ rw (at, taken, elsewhere) refl
      | inr refused ↦ update-lookup o w kind name namespace ∙ rw (at, refused) refl
    ]

    lookup-put :
        (there : Option Object)
        → lookup w (kind_of o) (meta_of o).name (meta_of o).namespace ≡ there
        → lookup (put client (found_or_not there) o w).1 kind name namespace ≡ (
            if is_at o kind name namespace
            then some (settled (lookup w kind name namespace) o)
            else lookup w kind name namespace)
    lookup-put there at = elim (Bool-cases (is_at o kind name namespace)) [
      | inl here ↦
          let (k, n, ns) = is_at-same o kind name namespace here in
          let same : lookup w kind name namespace ≡ there = rw (k, n, ns) at at in
          rw (here, same) (put-here there here at same)
      | inr elsewhere ↦ rw elsewhere (put-elsewhere there elsewhere at)
    ]

  lookup-reconcile_object :
      (o : Object) (kaconfig : KubeArchiveConfig) (w : client.World) (kind : Kind)
      (name namespace : Text)
      → (meta_of o).name ≡ kaconfig.name
      → (meta_of o).namespace ≡ kaconfig.namespace
      → lookup (reconcile_object client (kind_of o) (ok o) kaconfig w).1 kind name namespace ≡ (
          if is_at o kind name namespace
          then some (settled (lookup w kind name namespace) o)
          else lookup w kind name namespace)
  unfolding reconcile_object
  lookup-reconcile_object o kaconfig w kind name namespace e f =
      rw (get-lookup (kind_of o) kaconfig.name kaconfig.namespace w) (
        lookup-put o w kind name namespace (lookup w (kind_of o) kaconfig.name kaconfig.namespace)
          (rw (e, f) refl))

  -- The state after one of the four calls, under any key.
  abbrev Writes :
      (KubeArchiveConfig → client.World → Option ClientError × client.World) → Kind → Type 0
  Writes call kind =
      (kaconfig : KubeArchiveConfig) (w : client.World) (k : Kind) (name namespace : Text)
      → lookup (call kaconfig w).1 k name namespace ≡ (
          if is_at (wanted kaconfig kind) k name namespace
          then some (settled (lookup w k name namespace) (wanted kaconfig kind))
          else lookup w k name namespace)

  reconcile_service_account-Writes : Writes (reconcile_service_account client) service_account_kind
  unfolding reconcile_service_account desired_service_account object_meta kind_of meta_of
  reconcile_service_account-Writes kaconfig w k name namespace =
      rw (set_owner kaconfig (object_meta kaconfig)) (
        lookup-reconcile_object (wanted kaconfig service_account_kind) kaconfig w k name namespace
          refl refl)

  reconcile_role-Writes : Writes (reconcile_role client) role_kind
  unfolding reconcile_role desired_role object_meta kind_of meta_of
  reconcile_role-Writes kaconfig w k name namespace =
      rw (set_owner kaconfig (object_meta kaconfig))
        (lookup-reconcile_object (wanted kaconfig role_kind) kaconfig w k name namespace refl refl)

  reconcile_role_binding-Writes : Writes (reconcile_role_binding client) role_binding_kind
  unfolding reconcile_role_binding desired_role_binding object_meta kind_of meta_of
  reconcile_role_binding-Writes kaconfig w k name namespace =
      rw (set_owner kaconfig (object_meta kaconfig)) (
        lookup-reconcile_object (wanted kaconfig role_binding_kind) kaconfig w k name namespace refl
          refl)

  reconcile_api_server_source-Writes :
      Writes (reconcile_api_server_source client) api_server_source_kind
  unfolding reconcile_api_server_source desired_api_server_source object_meta kind_of meta_of
  reconcile_api_server_source-Writes kaconfig w k name namespace =
      lookup-reconcile_object (wanted kaconfig api_server_source_kind) kaconfig w k name namespace
        refl refl

  -- One of the calls, on what is there before it under the kind.
  abbrev step : KubeArchiveConfig → Bool → Kind → Kind → Option Object → Option Object
  step kaconfig here kind k before =
      if kind_eq kind k && here then some (settled before (wanted kaconfig kind)) else before

  lookup-reconcile_all :
      (kaconfig : KubeArchiveConfig) (w : client.World) (k : Kind) (name namespace : Text)
      → lookup (reconcile_all client kaconfig w) k name namespace ≡ (
          if text_eq kaconfig.name name && text_eq kaconfig.namespace namespace
          then some (settled (lookup w k name namespace) (wanted kaconfig k))
          else lookup w k name namespace)
  unfolding reconcile_all kind_of meta_of
  lookup-reconcile_all kaconfig w k name namespace =
      reconcile_api_server_source-Writes kaconfig _ k name namespace
      ∙ (rw
          (
            reconcile_role_binding-Writes kaconfig,
            reconcile_role-Writes kaconfig,
            reconcile_service_account-Writes kaconfig,
          )
          (chosen k))
    where
      here : Bool
      here = text_eq kaconfig.name name && text_eq kaconfig.namespace namespace

      chosen :
          (k : Kind)
          → step kaconfig here api_server_source_kind k (
              step kaconfig here role_binding_kind k (
                step kaconfig here role_kind k
                  (step kaconfig here service_account_kind k (lookup w k name namespace))))
            ≡ (if here
                then some (settled (lookup w k name namespace) (wanted kaconfig k))
                else lookup w k name namespace)
      chosen service_account_kind = refl
      chosen role_kind = refl
      chosen role_binding_kind = refl
      chosen api_server_source_kind = refl

  -- On a cluster that answers, `Reconcile` of a configuration that is there returns no error. Of its
  -- four objects, those that were not there are created, and those that were there are replaced if
  -- the cluster takes the new one in place of the old one, and stay as they are if it refuses to; a
  -- refusal does not keep the others from being written. Every object under another name or
  -- namespace is as before.
  pub reconcile-wanted :
      (name namespace : Text) (kaconfig : KubeArchiveConfig) (w : client.World)
      → client.get_config name namespace w ≡ ok kaconfig
      → ((reconcile client name namespace w).0 ≡ none)
        × ((k : Kind) (n ns : Text)
            → lookup (reconcile client name namespace w).1 k n ns ≡ (
                if text_eq kaconfig.name n && text_eq kaconfig.namespace ns
                then some (settled (lookup w k n ns) (wanted kaconfig k))
                else lookup w k n ns))
  unfolding reconcile reconcile_found
  reconcile-wanted name namespace kaconfig w e =
      rw (reconcile, e, reconcile_found) (refl, λ k n ns. lookup-reconcile_all kaconfig w k n ns)

  settled-again :
      (there : Option Object) (o : Object) → settled (some (settled there o)) o ≡ settled there o
  settled-again none o = if-intro (λ x. x ≡ o) (accepts o o) refl refl
  settled-again (some old) o = elim (Bool-cases (accepts old o)) [
    | inl taken ↦ rw taken (if-intro (λ x. x ≡ o) (accepts o o) refl refl)
    | inr refused ↦ rw (refused, refused) refl
  ]

  -- Reconciling again, while the configuration is the same, changes no object, also where the cluster
  -- refuses some of them.
  pub reconcile-again :
      (name namespace : Text) (kaconfig : KubeArchiveConfig) (w : client.World)
      → client.get_config name namespace w ≡ ok kaconfig
      → client.get_config name namespace (reconcile client name namespace w).1 ≡ ok kaconfig
      → (k : Kind) (n ns : Text)
      → lookup (reconcile client name namespace (reconcile client name namespace w).1).1 k n ns
        ≡ lookup (reconcile client name namespace w).1 k n ns
  reconcile-again name namespace kaconfig w e e' k n ns =
      let once = (reconcile-wanted name namespace kaconfig w e).1 k n ns in
      let twice =
        (reconcile-wanted name namespace kaconfig (reconcile client name namespace w).1 e').1 k n
          ns in
      elim (Bool-cases (text_eq kaconfig.name n && text_eq kaconfig.namespace ns)) [
        | inl here ↦
            let once' = once ∙ rw here refl in
            twice ∙ rw (here, once') (ap some (settled-again (lookup w k n ns) (wanted kaconfig k)))
        | inr elsewhere ↦ twice ∙ rw elsewhere refl
      ]
