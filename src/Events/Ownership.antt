-- ===== src/Events/Ownership.antt =====
-- The owner of an object, by its controller reference.
use mpi_operator.Prelude.{String, Option, none, some}
use mpi_operator.Api.{ObjectMeta}
use mpi_operator.Api.Kube.{OwnerReference}
use mpi_operator.Machinery.{Machinery}
use mpi_operator.Outcome.{failure, Outcome, ok, err}

-- schema.GroupVersionKind
pub record Gvk : Type 0 where
  pub group : String
  pub version : String
  pub kind : String

pub record Owner : Type 0 where
  pub reference : Option OwnerReference
  pub gvk : Gvk

abbrev pub no_owner : Owner
no_owner = record { reference = none; gvk = record { group = ""; version = ""; kind = "" } }

abbrev pub owner_of_version : OwnerReference → Option (String × String) → Outcome Owner
owner_of_version r none = err (failure "parsing owner's API version")
owner_of_version r (some (group, version)) = ok (record {
  reference = some r;
  gvk = record { group = group; version = version; kind = r.kind };
})

abbrev pub owner_of_reference : Machinery → Option OwnerReference → Outcome Owner
owner_of_reference m none = ok no_owner
owner_of_reference m (some r) = owner_of_version r (m.parse_group_version r.api_version)

unfoldable pub owner_reference_and_gvk : Machinery → ObjectMeta → Outcome Owner
owner_reference_and_gvk m o = owner_of_reference m (m.get_controller_of o)
