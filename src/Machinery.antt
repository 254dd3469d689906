-- ===== src/Machinery.antt =====
-- The library functions that the operator calls and that are declared outside of the repository
-- (k8s.io/apimachinery), as a parameter of the model, and what is documented of them.
use mpi_operator.Prelude.{String, ◌≡◌, ◌↔◌, Bool, true, false, Option, some, List, [], ◌∷◌}
use mpi_operator.Prelude.Int.{ℤ, is_negative}
use mpi_operator.Prelude.Tests.{◌⧺◌}
use mpi_operator.Api.{ObjectMeta, OwnerReference, group_name, group_version, group_job_kind}

-- A step of a field.Path: `Child` or `Key`.
pub data PathStep : Type 0 where
  child key : String → PathStep

-- field.ErrorType
pub data ErrorKind : Type 0 where
  required invalid not_supported : ErrorKind

-- field.Error, without the value that it quotes and the text of its message.
pub record FieldError : Type 0 where
  pub kind : ErrorKind
  pub path : List PathStep

pub record Machinery : Type 0 where
  -- validation.IsDNS1035Label: the reasons why a text is no DNS label
  pub is_dns1035_label : String → List String
  -- validation.ValidateNonnegativeField
  pub validate_nonnegative : ℤ → List PathStep → List FieldError
  -- field.ErrorList.ToAggregate, printed
  pub aggregate : List FieldError → String
  -- metav1.IsControlledBy obj owner
  pub is_controlled_by : ObjectMeta → ObjectMeta → Bool
  -- metav1.GetControllerOf
  pub get_controller_of : ObjectMeta → Option OwnerReference
  -- metav1.NewControllerRef owner GroupJob
  pub new_controller_ref : ObjectMeta → OwnerReference
  -- schema.ParseGroupVersion: the group and the version
  pub parse_group_version : String → Option (String × String)
  -- the keys QueueNameAnnotationKey and KubeGroupNameAnnotationKey of volcano.sh/apis, and PodGroupLabel
  -- of sigs.k8s.io/scheduler-plugins
  pub queue_name_annotation_key : String
  pub kube_group_name_annotation_key : String
  pub pod_group_label : String

-- "ValidateNonnegativeField validates that given value is not negative."
abbrev pub NonnegativeLaw : Machinery → Type 0
NonnegativeLaw m =
    (z : ℤ) (path : List PathStep) → (m.validate_nonnegative z path ≡ []) ↔ (is_negative z ≡ false)

-- What is documented of controller references: "NewControllerRef creates an OwnerReference pointing to the
-- given owner", "GetControllerOf returns a pointer to a copy of the controllerRef if controllee has a
-- controller", and a text "group/version" is parsed into both.
pub record ControllerLaws (m : Machinery) : Type 0 where
  pub ref_controls : (owner : ObjectMeta) → (m.new_controller_ref owner).controller ≡ true
  pub ref_name : (owner : ObjectMeta) → (m.new_controller_ref owner).name ≡ owner.name
  pub ref_kind : (owner : ObjectMeta) → (m.new_controller_ref owner).kind ≡ group_job_kind
  pub ref_version :
      (owner : ObjectMeta)
      → (m.new_controller_ref owner).api_version ≡ group_name ⧺ "/" ⧺ group_version
  pub controller_found :
      (o : ObjectMeta) (r : OwnerReference)
      → o.owner_references ≡ r ∷ []
      → r.controller ≡ true
      → m.get_controller_of o ≡ some r
  pub version_parsed :
      m.parse_group_version (group_name ⧺ "/" ⧺ group_version) ≡ some (group_name, group_version)
