-- ===== src/Kube/Meta.antt =====
-- Object metadata, and the functions of controller-runtime on it.
use questdb_operator.Prelude.{
  ◌≡◌, ℕ, String, Bool, true, Option, none, some, List, [], ◌∷◌, ◌==◌, if◌then◌else◌,
  String-discrete,
}
use questdb_operator.Kube.Error.{Result, ok}

-- A value of a third-party type that the program only copies and compares: its serialised text.
pub record Blob : Type 0 where
  pub text : String

pub Blob-discrete : Discrete Blob
Blob-discrete = hlevel String-discrete

-- `map[string]string`: `none` is the nil map. Keys stand in order, so equal maps are equal lists.
abbrev pub StringMap : Type 0
StringMap = Option (List (String × String))

abbrev pub lookup_entries : List (String × String) → String → Option String
lookup_entries [] k = none
lookup_entries ((j, v) ∷ m) k = if j == k then some v else lookup_entries m k

-- `v, found := m[k]`
abbrev pub find_key : StringMap → String → Option String
find_key none k = none
find_key (some m) k = lookup_entries m k

abbrev pub or_empty : Option String → String
or_empty none = ""
or_empty (some v) = v

-- `m[k]`: the empty string if the key is missing.
abbrev pub get_key : StringMap → String → String
get_key m k = or_empty (find_key m k)

-- types.NamespacedName, client.ObjectKey
pub record NamespacedName : Type 0 where
  pub namespace : String
  pub name : String

pub record OwnerReference : Type 0 where
  pub uid : String
  pub controller : Bool

-- metav1.ObjectMeta, the fields that the program reads or writes. Times are nanoseconds since the
-- zero time of Go.
pub record ObjectMeta : Type 0 where
  pub name : String
  pub namespace : String
  pub labels : StringMap
  pub annotations : StringMap
  pub uid : String
  pub resource_version : String
  pub creation_timestamp : ℕ
  pub deletion_timestamp : Option ℕ
  pub finalizers : List String
  pub owner_references : List OwnerReference

-- The metadata of a literal that gives name, namespace and labels.
abbrev pub new_meta : String → String → StringMap → ObjectMeta
new_meta name namespace labels = record {
  name = name;
  namespace = namespace;
  labels = labels;
  annotations = none;
  uid = "";
  resource_version = "";
  creation_timestamp = 0;
  deletion_timestamp = none;
  finalizers = [];
  owner_references = [];
}

-- client.ObjectKeyFromObject
abbrev pub object_key : ObjectMeta → NamespacedName
object_key m = record { namespace = m.namespace; name = m.name }

-- The functions of controller-runtime and apimachinery on metadata.
pub record MetaLib : Type 0 where
  -- controllerutil.ContainsFinalizer
  pub contains_finalizer : ObjectMeta → String → Bool
  -- controllerutil.AddFinalizer
  pub add_finalizer : ObjectMeta → String → ObjectMeta
  -- controllerutil.RemoveFinalizer: the new metadata, and whether it was changed
  pub remove_finalizer : ObjectMeta → String → ObjectMeta × Bool
  -- ctrl.SetControllerReference, of an owner on an object
  pub set_controller_reference : ObjectMeta → ObjectMeta → Result ObjectMeta
  -- metav1.IsControlledBy, of an object by an owner
  pub is_controlled_by : ObjectMeta → ObjectMeta → Bool

-- `SetControllerReference` gives an object without an owner one, and changes nothing by which it is
-- found.
abbrev pub Owns : MetaLib → Type 0
Owns lib =
    (owner m : ObjectMeta)
    → m.owner_references ≡ []
    → (m' : ObjectMeta) × (lib.set_controller_reference owner m ≡ ok m')
      × (object_key m' ≡ object_key m)

-- `SetControllerReference` makes the owner the controller, and `IsControlledBy` knows it by its uid.
pub record OwnerLaws (lib : MetaLib) : Type 0 where
  pub controls :
      (owner m m' : ObjectMeta)
      → lib.set_controller_reference owner m ≡ ok m'
      → lib.is_controlled_by m' owner ≡ true
  pub by_uid :
      (owner owner' m : ObjectMeta)
      → owner.uid ≡ owner'.uid
      → lib.is_controlled_by m owner ≡ lib.is_controlled_by m owner'
