-- ===== src/Secrets/Laws.antt =====
-- When `GetSecrets` succeeds and what it returns.
use questdb_operator.Prelude.{
  String, ◌≡◌, refl, ◌≢◌, ◌↔◌, ◌⊎◌, inl, inr, ap, ◌∙◌, true, Option, none, some, List, [], ◌∷◌,
  ◌==◌, arith, eq_iff, All, Bool-cases, Option-cases, subst, Option-cases,
}
use questdb_operator.Kube.Error.{Error, Result-cases, ok, err}
use questdb_operator.Kube.Meta.{NamespacedName, StringMap, find_key, get_key}
use questdb_operator.Kube.Objects.Workload.{Secret}
use questdb_operator.Api.Types.{annotation_questdb_name}
use questdb_operator.Secrets.{
  QuestDbSecrets, is_filled, no_secrets, is_for, select_secrets, validate_ilp_secret,
  check_auth_json, has_key, mark_keys, check_marks, validate_psql_secret, check_secrets, secrets_of,
  check_secret_for_qdb, expected_keys,
}
use questdb_operator.Secrets.Select.{
  to_list, Selects, select_secrets-Selects, Selects-select_secrets,
}

-- A key that is there and not empty.
abbrev pub IsFilled : Option String → Type 0
IsFilled o = (o ≢ none) × (o ≢ some "")

auth_json_iff : (o : Option String) → (check_auth_json o ≡ none) ↔ IsFilled o
auth_json_iff none = (λ e. cc, λ p. absurd (p.0 refl))
auth_json_iff (some v) = elim (Bool-cases (v == "")) [
  | inl h ↦ rw h (λ e. cc, λ p. absurd (p.1 (ap some ((eq_iff v "").0 h))))
  | inr h ↦ rw h (λ e. (λ q. cc, λ q. ground (arith, eq_iff v "")), λ p. refl)
]

is_filled_iff : (o : Option String) → (is_filled o ≡ true) ↔ IsFilled o
is_filled_iff none = (λ e. cc, λ p. absurd (p.0 refl))
is_filled_iff (some v) = elim (Bool-cases (v == "")) [
  | inl h ↦ rw h (λ e. cc, λ p. absurd (p.1 (ap some ((eq_iff v "").0 h))))
  | inr h ↦ rw h (λ e. (λ q. cc, λ q. ground (arith, eq_iff v "")), λ p. refl)
]

marks_iff :
    (contents : StringMap) (keys : List String)
    → (check_marks (mark_keys contents keys) ≡ none)
      ↔ All (λ k. IsFilled (find_key contents k)) keys
marks_iff contents [] = (λ _. tt, λ _. refl)
marks_iff contents (k ∷ keys) = elim (Bool-cases (has_key contents k)) [
  | inl h ↦ rw h (
    λ e. ((is_filled_iff (find_key contents k)).0 h, (marks_iff contents keys).0 e),
    λ p. (marks_iff contents keys).1 p.1,
  )
  | inr h ↦ rw h (λ e. cc, λ p. cc (h, (is_filled_iff (find_key contents k)).1 p.0))
]

-- The credentials of a QuestDB are complete: an ILP secret has its key, a PSQL secret both keys.
pub record IsUsable (s : QuestDbSecrets) : Type 0 where
  pub auth : All (λ x. IsFilled (find_key x.contents "auth.json")) (to_list s.ilp_secret)
  pub login :
      All (λ x. All (λ k. IsFilled (find_key x.contents k)) expected_keys) (to_list s.psql_secret)

validate_ilp_secret_iff :
    (o : Option Secret)
    → (validate_ilp_secret o ≡ none)
      ↔ All (λ x. IsFilled (find_key x.contents "auth.json")) (to_list o)
unfolding validate_ilp_secret
validate_ilp_secret_iff none = (λ _. tt, λ _. refl)
validate_ilp_secret_iff (some x) =
    let d = auth_json_iff (find_key x.contents "auth.json") in (λ e. (d.0 e, tt), λ p. d.1 p.0)

validate_psql_secret_iff :
    (o : Option Secret)
    → (validate_psql_secret o ≡ none)
      ↔ All (λ x. All (λ k. IsFilled (find_key x.contents k)) expected_keys) (to_list o)
unfolding validate_psql_secret
validate_psql_secret_iff none = (λ _. tt, λ _. refl)
validate_psql_secret_iff (some x) =
    let d = marks_iff x.contents expected_keys in (λ e. (d.0 e, tt), λ p. d.1 p.0)

check_secrets-ok : (a r : QuestDbSecrets) → check_secrets a ≡ ok r → (a ≡ r) × IsUsable r
unfolding check_secrets
check_secrets-ok a r e = elim (Option-cases (validate_ilp_secret a.ilp_secret)) [
  | inr (x, bad) ↦ cc (rw (bad, check_secrets) at e)
  | inl auth ↦ elim (Option-cases (validate_psql_secret a.psql_secret)) [
    | inr (x, bad) ↦ cc (rw (auth, bad, check_secrets) at e)
    | inl login ↦
        let same : a ≡ r = cc (rw (auth, login, check_secrets) at e) in
        (
          same,
          subst IsUsable same (record {
            auth = (validate_ilp_secret_iff a.ilp_secret).0 auth;
            login = (validate_psql_secret_iff a.psql_secret).0 login;
          }),
        )
  ]
]

ok-check_secrets : (r : QuestDbSecrets) → IsUsable r → check_secrets r ≡ ok r
unfolding check_secrets
ok-check_secrets r u = rw (
  (validate_ilp_secret_iff r.ilp_secret).1 u.auth,
  (validate_psql_secret_iff r.psql_secret).1 u.login,
  check_secrets,
)

-- `GetSecrets` returns `r` exactly when each secret of the QuestDB has one of the two types, `r`
-- holds the only one of each type, or none where there is none, and their keys are filled in.
pub secrets_of_iff :
    (name : String) (items : List Secret) (r : QuestDbSecrets)
    → (secrets_of name items ≡ ok r) ↔ (Selects name items no_secrets r × IsUsable r)
unfolding secrets_of
secrets_of_iff name items r =
    (λ e. forth (Result-cases (select_secrets name items no_secrets)) e, back)
  where
    forth :
        ((a : QuestDbSecrets) × (select_secrets name items no_secrets ≡ ok a))
          ⊎ ((e : Error) × (select_secrets name items no_secrets ≡ err e))
        → secrets_of name items ≡ ok r
        → Selects name items no_secrets r × IsUsable r
    forth (inl (a, selected)) e =
        let (same, checked) = check_secrets-ok a r (rw (selected, secrets_of) at e) in
        (select_secrets-Selects name items no_secrets r (selected ∙ ap ok same), checked)
    forth (inr (x, failed)) e = cc (rw (failed, secrets_of) at e)

    back : Selects name items no_secrets r × IsUsable r → secrets_of name items ≡ ok r
    back p =
        rw (Selects-select_secrets name items no_secrets r p.0, secrets_of) (ok-check_secrets r p.1)

-- A secret in the namespace of a QuestDB, whose name is not empty, is taken for it by `GetSecrets`
-- exactly when the mapper asks for that QuestDB alone.
pub check_secret_for_qdb-is_for :
    (key : NamespacedName) (s : Secret)
    → s.meta.namespace ≡ key.namespace
    → key.name ≢ ""
    → (is_for key.name s ≡ true) ↔ (check_secret_for_qdb s ≡ key ∷ [])
unfolding check_secret_for_qdb
check_secret_for_qdb-is_for key s here named = (
  λ h. ground (
    arith,
    eq_iff (get_key s.meta.annotations annotation_questdb_name) key.name,
    eq_iff (get_key s.meta.annotations annotation_questdb_name) "",
  ),
  λ h. ground (
    arith,
    eq_iff (get_key s.meta.annotations annotation_questdb_name) key.name,
    eq_iff (get_key s.meta.annotations annotation_questdb_name) "",
  ),
)

pub secrets_of-nil : (name : String) → secrets_of name [] ≡ ok no_secrets
unfolding secrets_of select_secrets check_secrets validate_ilp_secret validate_psql_secret
secrets_of-nil name = refl
