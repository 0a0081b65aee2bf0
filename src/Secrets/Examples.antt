-- ===== src/Secrets/Examples.antt =====
-- The secrets of a database with one ILP secret.
use questdb_operator.Prelude.{◌≡◌, ◌↔◌, refl, eq_iff, none, some, [], ◌∷◌, ◌++◌, arith}
use mathlib.Core.List.{Memᴰ}
use questdb_operator.Kube.Error.{err, multiple_secrets, ilp, ok}
use questdb_operator.Kube.Meta.{NamespacedName}
use questdb_operator.Kube.Objects.Workload.{Secret}
use questdb_operator.Secrets.{
  select_secrets, add_secret, set_ilp, QuestDbSecrets, no_secrets, secrets_of, check_secrets,
  validate_ilp_secret, validate_psql_secret,
}
use questdb_operator.Secrets.Select.{Selects}
use questdb_operator.Secrets.Laws.{IsUsable, secrets_of_iff, secrets_of-nil}
use questdb_operator.Secrets.Wakes.{mapped, secrets_of-mapped}
use questdb_operator.Examples.Data.{two_secrets, secret_of}

abbrev ilp_secret : Secret
ilp_secret = secret_of "ilp" "auth.json"

abbrev found : QuestDbSecrets
found = record { ilp_secret = some ilp_secret; psql_secret = none }

secrets_of_iff_example :
    (secrets_of "db" (ilp_secret ∷ []) ≡ ok found)
    ↔ (Selects "db" (ilp_secret ∷ []) no_secrets found × IsUsable found)
secrets_of_iff_example = secrets_of_iff "db" (ilp_secret ∷ []) found

abbrev key : NamespacedName
key = record { namespace = "prod"; name = "db" }

with_one : secrets_of "db" (ilp_secret ∷ []) ≡ ok found
unfolding secrets_of select_secrets add_secret set_ilp check_secrets validate_ilp_secret
    validate_psql_secret
with_one = refl

secrets_of-mapped_example : Memᴰ key (mapped none ++ mapped (some ilp_secret))
secrets_of-mapped_example =
    secrets_of-mapped key [] [] none (some ilp_secret) tt refl
      (λ e. ground (arith, e, eq_iff "db" "")) (λ e. cc (with_one, e, secrets_of-nil "db"))

-- A test: two ILP secrets are refused.
pub two_ilp_secrets : secrets_of "db" two_secrets ≡ err (multiple_secrets ilp)
unfolding secrets_of select_secrets add_secret set_ilp
two_ilp_secrets = refl
