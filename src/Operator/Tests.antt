-- ===== src/Operator/Tests.antt =====
-- The operator on a cluster that is a function from keys to objects.
use kubearchive.Prelude.{
  Bool, Bool-cases, Option, [], err, false, if◌then◌else◌, inl, inr, none, ok, refl, some, true,
  ◌&&◌, ◌∷◌, ◌≡◌,
}
use kubearchive.Text.{Text, lit, text_eq}
use kubearchive.Operator.{
  Client, Kind, KubeArchiveConfig, Meta, Object, api_server_source, api_server_source_kind,
  desired_api_server_source, desired_role, desired_role_binding, desired_service_account, failed,
  kind_of, meta_of, not_found, object_meta, put, reconcile, reconcile_all,
  reconcile_api_server_source, reconcile_found, reconcile_object, reconcile_role,
  reconcile_role_binding, reconcile_service_account, role, role_binding, role_kind, source_spec,
}
use kubearchive.Operator.Cluster.{Answers, found_or_not, is_absent, is_at, is_updated}
use kubearchive.Operator.Reconcile.{reconcile-again, reconcile-wanted, settled, wanted}

operating : Unit {0}
unfolding reconcile reconcile_found reconcile_all reconcile_service_account reconcile_role
    reconcile_role_binding reconcile_api_server_source reconcile_object put kind_of meta_of
    object_meta source_spec desired_service_account desired_role desired_role_binding
    desired_api_server_source
operating = tt

abbrev config : KubeArchiveConfig
config = record { name = lit "ka"; namespace = lit "team" }

abbrev Cluster : Type 0
Cluster = Kind → Text → Text → Option Object

abbrev written : Object → Cluster → Cluster
written o w k n ns = if is_at o k n ns then some o else w k n ns

-- What the API takes in place of what is there: no role binding with another role, and no source
-- without a version.
abbrev takes : Object → Object → Bool
takes (role_binding m ref subjects) (role_binding m' ref' subjects') = text_eq ref.name ref'.name
takes (api_server_source m spec) _ = false
takes _ _ = true

-- A cluster with one configuration.
abbrev cluster : Client
cluster = record {
  World = Cluster;
  get_config = λ n ns w.
      if text_eq n (lit "ka") && text_eq ns (lit "team") then ok config else err not_found;
  get = λ k n ns w. found_or_not (w k n ns);
  update = λ o w.
      if is_updated takes (w (kind_of o) (meta_of o).name (meta_of o).namespace) o
      then (none, written o w)
      else (some (failed (lit "invalid")), w);
  create = λ o w.
      if is_absent (w (kind_of o) (meta_of o).name (meta_of o).namespace)
      then (none, written o w)
      else (some (failed (lit "already exists")), w);
  set_controller_reference = λ kaconfig m. ok (record m { owners = kaconfig.name ∷ [] });
}

abbrev cluster_answers : Answers cluster
cluster_answers = record {
  lookup = λ w. w;
  accepts = takes;
  owner = λ kaconfig. kaconfig.name;
  get-lookup = λ k n ns w. refl;
  update-lookup = λ o w k n ns.
      elim (Bool-cases
        (is_updated takes (w (kind_of o) (meta_of o).name (meta_of o).namespace) o)) [
          | inl taken ↦ rw taken refl
          | inr refused ↦ rw refused refl
        ];
  create-lookup = λ o w k n ns.
      elim (Bool-cases (is_absent (w (kind_of o) (meta_of o).name (meta_of o).namespace))) [
        | inl absent ↦ rw absent refl
        | inr present ↦ rw present refl
      ];
  set_owner = λ kaconfig m. refl;
}

abbrev nothing_there : Cluster
nothing_there k n ns = none

-- A cluster that refuses every write.
abbrev read_only : Client
read_only = record cluster {
  update = λ o w. (some (failed (lit "forbidden")), w);
  create = λ o w. (some (failed (lit "forbidden")), w);
}

-- No object is written, and yet no error is returned.
dropped_errors : reconcile read_only (lit "ka") (lit "team") nothing_there ≡ (none, nothing_there)
unfolding operating
dropped_errors = refl

-- A source that is there already, with another sink, and a role without rules.
abbrev old_meta : Meta
old_meta = record { name = lit "ka"; namespace = lit "team"; owners = [] }

abbrev old_source : Object
old_source =
    api_server_source old_meta (record (source_spec config) { service_account_name = lit "other" })

abbrev source_there : Cluster
source_there = written (role old_meta []) (written old_source nothing_there)

-- The source is not updated, although no error is returned.
old_source_run :
    ((reconcile cluster (lit "ka") (lit "team") source_there).0 ≡ none)
    × ((reconcile cluster (lit "ka") (lit "team") source_there).1 api_server_source_kind
          (lit "ka")
          (lit "team")
        ≡ some old_source)
    × ((reconcile cluster (lit "ka") (lit "team") source_there).1 role_kind (lit "ka") (lit "team")
        ≡ some (wanted cluster cluster_answers config role_kind))
unfolding operating
old_source_run = (refl, refl, refl)

reconcile-wanted_example :
    ((reconcile cluster (lit "ka") (lit "team") source_there).0 ≡ none)
    × ((k : Kind) (n ns : Text)
        → (reconcile cluster (lit "ka") (lit "team") source_there).1 k n ns ≡ (
            if text_eq (lit "ka") n && text_eq (lit "team") ns
            then some (
                settled cluster cluster_answers
                  (source_there k n ns)
                  (wanted cluster cluster_answers config k))
            else source_there k n ns))
reconcile-wanted_example =
    reconcile-wanted cluster cluster_answers (lit "ka") (lit "team") config source_there refl

reconcile-again_example :
    (reconcile cluster
        (lit "ka")
        (lit "team")
        (reconcile cluster (lit "ka") (lit "team") source_there).1).1
      role_kind
      (lit "ka")
      (lit "team")
    ≡ (reconcile cluster (lit "ka") (lit "team") source_there).1 role_kind (lit "ka") (lit "team")
reconcile-again_example =
    reconcile-again cluster cluster_answers (lit "ka") (lit "team") config source_there refl refl
      role_kind (lit "ka") (lit "team")
