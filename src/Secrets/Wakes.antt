-- ===== src/Secrets/Wakes.antt =====
-- The mapper of secrets beside what `GetSecrets` makes of them.
use questdb_operator.Prelude.{
  String, ◌≡◌, refl, ◌≢◌, ◌⊎◌, inl, inr, ap, sym, ◌∙◌, Bool-cases, false, Option, none, some, List,
  [], ◌∷◌, ◌++◌, arith,
}
use mathlib.Core.List.{Memᴰ}
use mathlib.Core.List.Memᴰ
use questdb_operator.Kube.Error.{Result, ok, err}
use questdb_operator.Kube.Meta.{NamespacedName}
use questdb_operator.Kube.Objects.Workload.{Secret}
use questdb_operator.Secrets.{
  QuestDbSecrets, is_for, add_secret, select_secrets, no_secrets, secrets_of, check_secret_for_qdb,
  check_secrets,
}
use questdb_operator.Secrets.Laws.{check_secret_for_qdb-is_for}

-- A secret that is there or not, in a list.
abbrev pub entry : Option Secret → List Secret
entry none = []
entry (some s) = s ∷ []

-- What the mapper asks for.
abbrev pub mapped : Option Secret → List NamespacedName
mapped none = []
mapped (some s) = check_secret_for_qdb s

-- A secret, if there is one, is in this namespace.
abbrev pub IsIn : String → Option Secret → Type 0
IsIn namespace none = Unit {0}
IsIn namespace (some s) = s.meta.namespace ≡ namespace

-- A secret of another database is passed over.
select_secrets-other :
    (name : String) (s : Secret) (items : List Secret) (acc : QuestDbSecrets)
    → is_for name s ≡ false
    → select_secrets name (s ∷ items) acc ≡ select_secrets name items acc
unfolding select_secrets add_secret
select_secrets-other name s items acc other = ground (arith, other)

-- A secret, if there is one, is another database's.
abbrev IsOther : String → Option Secret → Type 0
IsOther name none = Unit {0}
IsOther name (some s) = is_for name s ≡ false

select_secrets-entry :
    (name : String) (o : Option Secret) (items : List Secret) (acc : QuestDbSecrets)
    → IsOther name o
    → select_secrets name (entry o ++ items) acc ≡ select_secrets name items acc
select_secrets-entry name none items acc other = refl
select_secrets-entry name (some s) items acc other = select_secrets-other name s items acc other

-- Two continuations that agree everywhere agree behind a result.
after-same :
    {A : Type 0} (f g : A → Result A)
    → ((a : A) → f a ≡ g a)
    → (r : Result A)
    → elim r as (λ _. Result A) [ ok a ↦ f a | err e ↦ err e ]
      ≡ elim r as (λ _. Result A) [ ok a ↦ g a | err e ↦ err e ]
after-same f g same (ok a) = same a
after-same f g same (err e) = refl

select_secrets-append :
    (name : String) (xs ys zs : List Secret)
    → ((acc : QuestDbSecrets) → select_secrets name ys acc ≡ select_secrets name zs acc)
    → (acc : QuestDbSecrets)
    → select_secrets name (xs ++ ys) acc ≡ select_secrets name (xs ++ zs) acc
unfolding select_secrets
select_secrets-append name [] ys zs same acc = same acc
select_secrets-append name (x ∷ xs) ys zs same acc =
    after-same (select_secrets name (xs ++ ys)) (select_secrets name (xs ++ zs))
      (select_secrets-append name xs ys zs same) (add_secret name x acc)

secrets_of-other :
    (name : String) (xs ys : List Secret) (old new : Option Secret)
    → IsOther name old
    → IsOther name new
    → secrets_of name (xs ++ (entry old ++ ys)) ≡ secrets_of name (xs ++ (entry new ++ ys))
unfolding secrets_of
secrets_of-other name xs ys old new out out' =
    ap (λ r. elim r as (λ _. Result QuestDbSecrets) [ ok s ↦ check_secrets s | err e ↦ err e ])
      (select_secrets-append name xs (entry old ++ ys) (entry new ++ ys)
        (λ acc.
          select_secrets-entry name old ys acc out
          ∙ sym (select_secrets-entry name new ys acc out'))
        no_secrets)

-- Either the mapper asks for the database, or the secret is another's.
mapped-cases :
    (key : NamespacedName) (o : Option Secret)
    → IsIn key.namespace o
    → key.name ≢ ""
    → (mapped o ≡ key ∷ []) ⊎ IsOther key.name o
mapped-cases key none here named = inr tt
mapped-cases key (some s) here named = elim (Bool-cases (is_for key.name s)) [
  | inl ours ↦ inl ((check_secret_for_qdb-is_for key s here named).0 ours)
  | inr other ↦ inr other
]

-- If a secret in the namespace of a QuestDB, whose name is not empty, is created, changed or deleted,
-- and `GetSecrets` then answers otherwise than before, with other secrets or with another error, then
-- the mapper asks for that QuestDB, for the secret as it was or as it is.
pub secrets_of-mapped :
    (key : NamespacedName) (xs ys : List Secret) (old new : Option Secret)
    → IsIn key.namespace old
    → IsIn key.namespace new
    → key.name ≢ ""
    → secrets_of key.name (xs ++ (entry old ++ ys)) ≢ secrets_of key.name (xs ++ (entry new ++ ys))
    → Memᴰ key (mapped old ++ mapped new)
secrets_of-mapped key xs ys old new here here' named differ =
    elim (mapped-cases key old here named) [
      | inl asked ↦ rw asked (Memᴰ.head refl)
      | inr other ↦ elim (mapped-cases key new here' named) [
        | inl asked ↦ rw asked (Memᴰ.append_right (mapped old) (Memᴰ.head refl))
        | inr other' ↦ absurd (differ (secrets_of-other key.name xs ys old new other other'))
      ]
    ]
