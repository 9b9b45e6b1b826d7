-- ===== src/Operator/Cluster.antt =====
-- A cluster that answers the client of the operator.
use kubearchive.Prelude.{
  Bool, Option, [], false, if◌then◌else◌, none, ok, some, true, ◌&&◌, ◌∷◌, ◌≡◌,
}
use kubearchive.Text.{Text, text_eq}
use kubearchive.Operator.{
  Client, ClientError, Kind, KubeArchiveConfig, Meta, Object, api_server_source_kind, kind_of,
  meta_of, not_found, role_binding_kind, role_kind, service_account_kind,
}

abbrev pub kind_eq : Kind → Kind → Bool
kind_eq service_account_kind service_account_kind = true
kind_eq role_kind role_kind = true
kind_eq role_binding_kind role_binding_kind = true
kind_eq api_server_source_kind api_server_source_kind = true
kind_eq _ _ = false

abbrev pub is_at : Object → Kind → Text → Text → Bool
is_at o kind name namespace =
    kind_eq (kind_of o) kind
    && (text_eq (meta_of o).name name && text_eq (meta_of o).namespace namespace)

abbrev pub found_or_not : Option Object → Option ClientError
found_or_not none = some not_found
found_or_not (some o) = none

-- Whether an update or a creation is taken, where this is there.
abbrev pub is_updated : (Object → Object → Bool) → Option Object → Object → Bool
is_updated accepts none o = false
is_updated accepts (some old) o = accepts old o

abbrev pub is_absent : Option Object → Bool
is_absent none = true
is_absent (some old) = false

-- A cluster that answers: its state has objects under kind, name and namespace. It creates what is
-- not there, and updates what is there if it takes the new object in place of the old one, which the
-- API decides by `accepts`: it need not take a role binding with another role, or an update without a
-- version. All else it refuses with an error. What it does not write stays as it is. The controller
-- reference is one owner.
pub record Answers (client : Client) : Type 0 where
  pub lookup : client.World → Kind → Text → Text → Option Object
  pub accepts : Object → Object → Bool
  pub owner : KubeArchiveConfig → Text
  pub get-lookup :
      (kind : Kind) (name namespace : Text) (w : client.World)
      → client.get kind name namespace w ≡ found_or_not (lookup w kind name namespace)
  pub update-lookup :
      (o : Object) (w : client.World) (kind : Kind) (name namespace : Text)
      → lookup (client.update o w).1 kind name namespace ≡ (
          if is_updated accepts (lookup w (kind_of o) (meta_of o).name (meta_of o).namespace) o
            && is_at o kind name namespace
          then some o
          else lookup w kind name namespace)
  pub create-lookup :
      (o : Object) (w : client.World) (kind : Kind) (name namespace : Text)
      → lookup (client.create o w).1 kind name namespace ≡ (
          if is_absent (lookup w (kind_of o) (meta_of o).name (meta_of o).namespace)
            && is_at o kind name namespace
          then some o
          else lookup w kind name namespace)
  pub set_owner :
      (kaconfig : KubeArchiveConfig) (m : Meta)
      → client.set_controller_reference kaconfig m ≡ ok (record m { owners = owner kaconfig ∷ [] })
