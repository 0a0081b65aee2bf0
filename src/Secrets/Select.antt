-- ===== src/Secrets/Select.antt =====
-- The loop of `GetSecrets`: what it selects, and when it fails.
use mathlib.Core.List.{append-nil}
use questdb_operator.Prelude.{
  String, ◌≡◌, ◌⊎◌, inl, inr, true, false, ◌&&◌, Option, none, some, List, [], ◌∷◌, ◌++◌, ◌==◌,
  arith, eq_iff, keep, All, Bool-cases, Option-cases,
}
use questdb_operator.Kube.Error.{Error, ok, err, ilp, psql, multiple_secrets, invalid_secret_type}
use questdb_operator.Kube.Objects.Workload.{Secret}
use questdb_operator.Secrets.{QuestDbSecrets, is_for, type_of, add_secret, select_secrets}

-- The secrets of a QuestDB that have a type.
abbrev pub of_type : String → String → List Secret → List Secret
of_type name kind = keep (λ s. is_for name s && type_of s == kind)

abbrev pub to_list {ℓ} : {A : Type ℓ} → Option A → List A
to_list none = []
to_list (some a) = a ∷ []

-- A secret of the QuestDB has one of the two types.
abbrev pub IsKnown : String → Secret → Type 0
IsKnown name s = is_for name s ≡ true → (type_of s ≡ "ilp") ⊎ (type_of s ≡ "psql")

-- What `select_secrets` returns, from the secrets that were there before and those of the list.
pub record Selects (name : String) (items : List Secret) (acc r : QuestDbSecrets) : Type 0 where
  pub known : All (IsKnown name) items
  pub ilp_only : to_list r.ilp_secret ≡ to_list acc.ilp_secret ++ of_type name "ilp" items
  pub psql_only : to_list r.psql_secret ≡ to_list acc.psql_secret ++ of_type name "psql" items

-- How one secret is taken.
data Added (name : String) (s : Secret) (acc : QuestDbSecrets) : Type 0 where
  skipped : is_for name s ≡ false → add_secret name s acc ≡ ok acc → Added name s acc
  first_ilp :
      is_for name s ≡ true
      → (type_of s == "ilp") ≡ true
      → (type_of s == "psql") ≡ false
      → acc.ilp_secret ≡ none
      → add_secret name s acc ≡ ok (record acc { ilp_secret = some s })
      → Added name s acc
  first_psql :
      is_for name s ≡ true
      → (type_of s == "ilp") ≡ false
      → (type_of s == "psql") ≡ true
      → acc.psql_secret ≡ none
      → add_secret name s acc ≡ ok (record acc { psql_secret = some s })
      → Added name s acc
  second_ilp :
      (f : Secret) (e : Error)
      → is_for name s ≡ true
      → (type_of s == "ilp") ≡ true
      → acc.ilp_secret ≡ some f
      → add_secret name s acc ≡ err e
      → Added name s acc
  second_psql :
      (f : Secret) (e : Error)
      → is_for name s ≡ true
      → (type_of s == "psql") ≡ true
      → acc.psql_secret ≡ some f
      → add_secret name s acc ≡ err e
      → Added name s acc
  untyped :
      (e : Error)
      → is_for name s ≡ true
      → (type_of s == "ilp") ≡ false
      → (type_of s == "psql") ≡ false
      → add_secret name s acc ≡ err e
      → Added name s acc

ilp-ne-psql : (t : String) → (t == "ilp") ≡ true → (t == "psql") ≡ false
ilp-ne-psql t h = rw ((eq_iff t "ilp").0 h)

module _ (name : String) (s : Secret) (acc : QuestDbSecrets) where
  add_secret-Added : Added name s acc
  unfolding add_secret
  add_secret-Added = elim (Bool-cases (is_for name s)) [
    | inr other ↦ skipped other (ground arith)
    | inl mine ↦ elim (Bool-cases (type_of s == "ilp")) [
      | inl is_ilp ↦ elim (Option-cases acc.ilp_secret) [
        | inl free ↦ first_ilp mine is_ilp (ilp-ne-psql (type_of s) is_ilp) free (ground arith)
        | inr (f, taken) ↦ second_ilp f (multiple_secrets ilp) mine is_ilp taken (ground arith)
      ]
      | inr not_ilp ↦ elim (Bool-cases (type_of s == "psql")) [
        | inl is_psql ↦ elim (Option-cases acc.psql_secret) [
          | inl free ↦ first_psql mine not_ilp is_psql free (ground arith)
          | inr (f, taken) ↦ second_psql f (multiple_secrets psql) mine is_psql taken (ground arith)
        ]
        | inr not_psql ↦
            untyped (invalid_secret_type (type_of s)) mine not_ilp not_psql (ground arith)
      ]
    ]
  ]

pub select_secrets-Selects :
    (name : String) (items : List Secret) (acc r : QuestDbSecrets)
    → select_secrets name items acc ≡ ok r
    → Selects name items acc r
unfolding select_secrets
select_secrets-Selects name [] acc r h =
    ground (arith, append-nil (to_list acc.ilp_secret), append-nil (to_list acc.psql_secret))
select_secrets-Selects name (s ∷ items) acc r h = elim (add_secret-Added name s acc) [
  | skipped other e ↦ ground (arith, select_secrets-Selects name items acc r)
  | first_ilp mine is_ilp not_psql free e ↦ ground (
    arith,
    eq_iff (type_of s) "ilp",
    select_secrets-Selects name items (record acc { ilp_secret = some s }) r,
  )
  | first_psql mine not_ilp is_psql free e ↦ ground (
    arith,
    eq_iff (type_of s) "psql",
    select_secrets-Selects name items (record acc { psql_secret = some s }) r,
  )
  | second_ilp f x mine is_ilp taken e ↦ ground arith
  | second_psql f x mine is_psql taken e ↦ ground arith
  | untyped x mine not_ilp not_psql e ↦ ground arith
]

pub Selects-select_secrets :
    (name : String) (items : List Secret) (acc r : QuestDbSecrets)
    → Selects name items acc r
    → select_secrets name items acc ≡ ok r
unfolding select_secrets
Selects-select_secrets name [] acc r h =
    ground (arith, append-nil (to_list acc.ilp_secret), append-nil (to_list acc.psql_secret))
Selects-select_secrets name (s ∷ items) acc r h = elim (add_secret-Added name s acc) [
  | skipped other e ↦
      rw (e, select_secrets) (Selects-select_secrets name items acc r (ground arith))
  | first_ilp mine is_ilp not_psql free e ↦
      rw (e, select_secrets)
        (Selects-select_secrets name items (record acc { ilp_secret = some s }) r (ground arith))
  | first_psql mine not_ilp is_psql free e ↦
      rw (e, select_secrets)
        (Selects-select_secrets name items (record acc { psql_secret = some s }) r (ground arith))
  | second_ilp f x mine is_ilp taken e ↦ ground arith
  | second_psql f x mine is_psql taken e ↦ ground arith
  | untyped x mine not_ilp not_psql e ↦
      ground (arith, h.known, eq_iff (type_of s) "ilp", eq_iff (type_of s) "psql")
]
