-- ===== src/Kube/Exec.antt =====
-- Handlers: programs that call the API server, whose state is opaque, and log what they called.
pub mod Moves
use questdb_operator.Prelude.{◌≡◌, refl, ap, List, ◌∷◌, arith}
use questdb_operator.Kube.Error.{Error, Result, ok, err}

-- The server's state, and the calls made so far with their answers, the newest first.
pub record State {ℓ} (W L : Type ℓ) : Type ℓ where
  pub world : W
  pub log : List L

-- A handler returns a value or an error. What was done before an error stays done.
abbrev pub Exec {ℓ} : Type ℓ → Type ℓ → Type ℓ → Type ℓ
Exec W L A = State W L → Result A × State W L

module _ {ℓ} {W L A B : Type ℓ} where
  abbrev pub continue : Result A → (A → Exec W L B) → Exec W L B
  continue (ok a) f s = f a s
  continue (err e) f s = (err e, s)

  infixl 10 ◌>>=◌ ◌>>◌
  abbrev pub ◌>>=◌ : Exec W L A → (A → Exec W L B) → Exec W L B
  ◌>>=◌ m f s = let (r, s') = m s in continue r f s'

  abbrev pub ◌>>◌ : Exec W L A → Exec W L B → Exec W L B
  m >> n = m >>= λ _. n

module _ {ℓ} {W L A : Type ℓ} where
  abbrev pub pure : A → Exec W L A
  pure a s = (ok a, s)

  -- `return ctrl.Result{}, err`
  abbrev pub raise : Error → Exec W L A
  raise e s = (err e, s)

  abbrev pub lift : Result A → Exec W L A
  lift r s = (r, s)

  -- A call of the server, entered in the log with its answer; the caller inspects the error.
  abbrev pub call : (Result A → L) → (W → Result A × W) → Exec W L (Result A)
  call entry op s = let (r, w) = op s.world in (ok r, record { world = w; log = entry r ∷ s.log })

  -- A call whose error ends the handler.
  abbrev pub call! : (Result A → L) → (W → Result A × W) → Exec W L A
  call! entry op s = let (r, w) = op s.world in (r, record { world = w; log = entry r ∷ s.log })

-- A step, and what follows it, by what each leaves in the state.
module _ {ℓ κ} {W L A B : Type ℓ} (P Q : State W L → Type κ) (m : Exec W L A)
    (f : A → Exec W L B) where
  pub bind-keeps :
      (s : State W L)
      → P (m s).1
      → ((s' : State W L) → P s' → Q s')
      → ((a : A) (s' : State W L) → P s' → Q (f a s').1)
      → Q ((m >>= f) s).1
  bind-keeps s first stays next = go (m s) first
    where
      go : (r : Result A × State W L) → P r.1 → Q (continue r.0 f r.1).1
      go (ok a, s') p = next a s' p
      go (err e, s') p = stays s' p

  -- The same where what follows may use that the step gave its argument.
  pub bind-keeps_result :
      (s : State W L)
      → P (m s).1
      → ((s' : State W L) → P s' → Q s')
      → ((a : A) (s' : State W L) → (m s).0 ≡ ok a → P s' → Q (f a s').1)
      → Q ((m >>= f) s).1
  bind-keeps_result s first stays next = go (m s) refl first
    where
      go : (r : Result A × State W L) → m s ≡ r → P r.1 → Q (continue r.0 f r.1).1
      go (ok a, s') e p = next a s' (ap (λ r. r.0) e) p
      go (err x, s') e p = stays s' p

-- A step that succeeds hands its result and its state on.
module _ {ℓ} {W L A B : Type ℓ} (m : Exec W L A) (f : A → Exec W L B) where
  pub bind-ok : (s : State W L) {a : A} → (m s).0 ≡ ok a → (m >>= f) s ≡ f a (m s).1
  bind-ok s e = ap (λ r. continue r f (m s).1) e

  -- What the second step says of every result that it has, holds of the result.
  pub bind-result :
      (P : B → Type ℓ)
      → ((a : A) (s : State W L) (b : B) → (f a s).0 ≡ ok b → P b)
      → (s : State W L) (b : B) → ((m >>= f) s).0 ≡ ok b
      → P b
  bind-result P next s b = go (m s)
    where
      go : (r : Result A × State W L) → (continue r.0 f r.1).0 ≡ ok b → P b
      go (ok a, s') e = next a s' b e
      go (err x, s') e = ground (arith, e)

  -- What holds behind each step that succeeds, holds behind both if they succeed.
  pub bind-succeeds :
      (P : State W L → Type ℓ) (s : State W L)
      → ((a : A) → (m s).0 ≡ ok a → P (m s).1)
      → ((a : A) (s' : State W L) → P s' → (b : B) → (f a s').0 ≡ ok b → P (f a s').1)
      → (b : B) → ((m >>= f) s).0 ≡ ok b
      → P ((m >>= f) s).1
  bind-succeeds P s first next b = go (m s) first
    where
      go :
          (r : Result A × State W L)
          → ((a : A) → r.0 ≡ ok a → P r.1)
          → (continue r.0 f r.1).0 ≡ ok b
          → P (continue r.0 f r.1).1
      go (ok a, s') p e = next a s' (p a refl) b e
      go (err x, s') p e = ground (arith, e)
