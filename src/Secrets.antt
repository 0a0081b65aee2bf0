-- ===== src/Secrets.antt =====
-- internal/secrets: which secrets belong to a QuestDB, and which QuestDB a secret belongs to.
pub mod Select
pub mod Laws
pub mod Wakes
pub mod Examples
use questdb_operator.Prelude.{
  String, Bool, true, false, not, ◌&&◌, Option, none, some, List, [], ◌∷◌, ◌==◌, if◌then◌else◌,
}
use questdb_operator.Kube.Error.{
  Error, Result, ok, err, SecretKind, ilp, psql, multiple_secrets, invalid_secret_type,
  missing_auth_json, empty_auth_json, missing_psql_keys,
}
use questdb_operator.Kube.Meta.{NamespacedName, StringMap, find_key, get_key}
use questdb_operator.Kube.Exec.{Exec, lift, ◌>>=◌}
use questdb_operator.Kube.Objects.Workload.{Secret}
use questdb_operator.Api.Types.{annotation_questdb_name, annotation_questdb_secret_type}

pub record QuestDbSecrets : Type 0 where
  pub ilp_secret : Option Secret
  pub psql_secret : Option Secret

abbrev pub no_secrets : QuestDbSecrets
no_secrets = record { ilp_secret = none; psql_secret = none }

abbrev pub is_for : String → Secret → Bool
is_for name secret = get_key secret.meta.annotations annotation_questdb_name == name

abbrev pub type_of : Secret → String
type_of secret = get_key secret.meta.annotations annotation_questdb_secret_type

-- Two cases of the switch: the second secret of a kind is an error.
set_ilp : Secret → QuestDbSecrets → Result QuestDbSecrets
set_ilp secret acc = elim acc.ilp_secret [
  | none ↦ ok (record acc { ilp_secret = some secret })
  | some first ↦ err (multiple_secrets ilp)
]

set_psql : Secret → QuestDbSecrets → Result QuestDbSecrets
set_psql secret acc = elim acc.psql_secret [
  | none ↦ ok (record acc { psql_secret = some secret })
  | some first ↦ err (multiple_secrets psql)
]

-- The body of the loop of `GetSecrets`.
add_secret : String → Secret → QuestDbSecrets → Result QuestDbSecrets
unfolding set_ilp set_psql
add_secret name secret acc =
    if is_for name secret
    then (if type_of secret == "ilp"
        then set_ilp secret acc
        else if type_of secret == "psql"
        then set_psql secret acc
        else err (invalid_secret_type (type_of secret)))
    else ok acc

pub select_secrets : String → List Secret → QuestDbSecrets → Result QuestDbSecrets
select_secrets name [] acc = ok acc
select_secrets name (secret ∷ items) acc = elim (add_secret name secret acc) [
  | ok acc' ↦ select_secrets name items acc'
  | err e ↦ err e
]

abbrev check_auth_json : Option String → Option Error
check_auth_json none = some missing_auth_json
check_auth_json (some val) = if val == "" then some empty_auth_json else none

pub validate_ilp_secret : Option Secret → Option Error
validate_ilp_secret none = none
validate_ilp_secret (some secret) = check_auth_json (find_key secret.contents "auth.json")

-- `expectedKeys[k] = true` for a key that is found and not empty.
abbrev is_filled : Option String → Bool
is_filled none = false
is_filled (some v) = not (v == "")

abbrev has_key : StringMap → String → Bool
has_key contents k = is_filled (find_key contents k)

abbrev pub expected_keys : List String
expected_keys = "QDB_PG_USER" ∷ "QDB_PG_PASSWORD" ∷ []

-- The two loops over the keys; their order, which Go leaves open, is that of the list.
abbrev mark_keys : StringMap → List String → List (String × Bool)
mark_keys contents [] = []
mark_keys contents (k ∷ keys) = (k, has_key contents k) ∷ mark_keys contents keys

abbrev check_marks : List (String × Bool) → Option Error
check_marks [] = none
check_marks ((k, v) ∷ marks) =
    let rest = check_marks marks in if not v then some missing_psql_keys else rest

pub validate_psql_secret : Option Secret → Option Error
validate_psql_secret none = none
validate_psql_secret (some s) = check_marks (mark_keys s.contents expected_keys)

-- The end of `GetSecrets`.
check_secrets : QuestDbSecrets → Result QuestDbSecrets
check_secrets s = elim (validate_ilp_secret s.ilp_secret) [
  | some e ↦ err e
  | none ↦ elim (validate_psql_secret s.psql_secret) [ some e ↦ err e | none ↦ ok s ]
]

-- `GetSecrets` behind the call of `List`.
pub secrets_of : String → List Secret → Result QuestDbSecrets
secrets_of name items = elim (select_secrets name items no_secrets) [
  | ok s ↦ check_secrets s
  | err e ↦ err e
]

-- `GetSecrets`; the argument lists the secrets of a namespace.
unfoldable pub get_secrets :
    {W L : Type 0} → (String → Exec W L (List Secret)) → NamespacedName → Exec W L QuestDbSecrets
get_secrets list qdb = do items ← list qdb.namespace; lift (secrets_of qdb.name items)

-- `CheckSecretForQdb` of mappers.go: the requests for a changed secret.
pub check_secret_for_qdb : Secret → List NamespacedName
check_secret_for_qdb obj =
    let qdb_name = get_key obj.meta.annotations annotation_questdb_name in
    if not (qdb_name == "")
    then record { name = qdb_name; namespace = obj.meta.namespace } ∷ []
    else []
