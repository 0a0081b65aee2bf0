-- ===== src/Kube/Error.antt =====
-- The errors that the program's functions return, and results that may be errors.
use questdb_operator.Prelude.{
  String, Bool, true, false, Option, none, some, ◌≡◌, ◌⊎◌, inl, inr, refl,
}

-- The kinds of secret that `internal/secrets` knows.
pub data SecretKind : Type 0 where
  ilp psql : SecretKind

-- An error of the API server is known by its reason, as far as the program asks for it; the
-- program's own errors have a constructor for each place that makes one.
pub data Error : Type 0 where
  -- API errors
  not_found already_exists conflict : Error
  api_failure : String → Error
  -- internal/secrets/secrets.go, `GetSecrets`
  multiple_secrets : SecretKind → Error
  invalid_secret_type : String → Error
  -- internal/secrets/errors.go, `InvalidSecretError`, by the check that failed
  missing_auth_json empty_auth_json missing_psql_keys : Error
  -- `ctrl.SetControllerReference`
  owner_failure : String → Error
  -- `panic`, in a builder whose owner reference failed
  panicked : Error
  -- the `default` of the snapshot controller's switch
  unknown_phase : String → Error

-- `apierrors.IsNotFound`
unfoldable pub is_not_found : Error → Bool
is_not_found not_found = true
is_not_found _ = false

-- `apierrors.IsAlreadyExists`
unfoldable pub is_already_exists : Error → Bool
is_already_exists already_exists = true
is_already_exists _ = false

pub data Result {ℓ} (A : Type ℓ) : Type ℓ where
  ok : A → Result A
  err : Error → Result A

-- What a Go function with a value and an error returns as its error.
abbrev pub error_of {ℓ} : {A : Type ℓ} → Result A → Option Error
error_of (ok a) = none
error_of (err e) = some e

-- `client.IgnoreNotFound` of an error, as the end of a function that returns no value.
unfoldable pub ignore_not_found : Error → Option Error
ignore_not_found not_found = none
ignore_not_found e = some e

-- `client.IgnoreAlreadyExists`
unfoldable pub ignore_already_exists : Option Error → Option Error
ignore_already_exists (some already_exists) = none
ignore_already_exists e = e

pub Result-cases {ℓ} :
    {A : Type ℓ} (r : Result A) → ((a : A) × (r ≡ ok a)) ⊎ ((e : Error) × (r ≡ err e))
Result-cases (ok a) = inl (a, refl)
Result-cases (err e) = inr (e, refl)
