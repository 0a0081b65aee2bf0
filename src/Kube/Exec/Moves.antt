-- ===== src/Kube/Exec/Moves.antt =====
-- How a handler may move the state, by a relation that each of its steps respects, and what its
-- result is like.
use questdb_operator.Prelude.{◌≡◌, refl, subst, arith, Bool, true, false, if◌then◌else◌}
use questdb_operator.Kube.Error.{Error, Result, ok, err}
use questdb_operator.Kube.Exec.{State, Exec, continue, pure, raise, lift, call, call!, ◌>>=◌}

-- The moves are closed under standing still and under moving on.
pub record IsPreorder {ℓ} {X : Type ℓ} (R : X → X → Type ℓ) : Type ℓ where
  pub reflexive : (x : X) → R x x
  pub transitive : (x y z : X) → R x y → R y z → R x z

-- `m` moves the state by `R`, and `P` holds of what it returns.
pub record Moves {ℓ} {W L A : Type ℓ} (R : State W L → State W L → Type ℓ) (P : A → Type ℓ)
    (m : Exec W L A) : Type ℓ where
  pub at : (s : State W L) → R s (m s).1
  pub gives : (s : State W L) (a : A) → (m s).0 ≡ ok a → P a

module _ {ℓ} {W L : Type ℓ} {R : State W L → State W L → Type ℓ} (order : IsPreorder R) where
  module _ {A : Type ℓ} {P : A → Type ℓ} where
    pub Moves-pure : (a : A) → P a → Moves R P (pure a)
    Moves-pure a p = record { at = λ s. order.reflexive s; gives = λ s b e. ground (arith, p, e) }

    pub Moves-raise : (e : Error) → Moves R P (raise e)
    Moves-raise e = record { at = λ s. order.reflexive s; gives = λ s b bad. ground (arith, bad) }

    pub Moves-lift : (r : Result A) → ((a : A) → r ≡ ok a → P a) → Moves R P (lift r)
    Moves-lift r p = record { at = λ s. order.reflexive s; gives = λ s a e. p a e }

    pub Moves-call! :
        (entry : Result A → L) (op : W → Result A × W)
        → ((s : State W L) → R s (call! entry op s).1)
        → ((w : W) (a : A) → (op w).0 ≡ ok a → P a)
        → Moves R P (call! entry op)
    Moves-call! entry op moves p = record { at = moves; gives = λ s a e. p s.world a e }

  pub Moves-call :
      {A : Type ℓ} {P : Result A → Type ℓ} (entry : Result A → L) (op : W → Result A × W)
      → ((s : State W L) → R s (call entry op s).1)
      → ((w : W) → P (op w).0)
      → Moves R P (call entry op)
  Moves-call {P = P} entry op moves p = record {
    at = moves;
    gives = λ s a e. subst (λ r. elim r [ ok x ↦ P x | err x ↦ P a ]) e (p s.world);
  }

  module _ {A B : Type ℓ} {P : A → Type ℓ} {Q : B → Type ℓ} where
    pub Moves-bind :
        {m : Exec W L A} {f : A → Exec W L B}
        → Moves R P m
        → ((a : A) → P a → Moves R Q (f a))
        → Moves R Q (m >>= f)
    Moves-bind {m = m} {f = f} first next = record {
      at = λ s. go s (m s) (first.at s) (first.gives s);
      gives = λ s. back (m s) (first.gives s);
    }
      where
        go :
            (s : State W L) (r : Result A × State W L)
            → R s r.1
            → ((a : A) → r.0 ≡ ok a → P a)
            → R s (continue r.0 f r.1).1
        go s (ok a, s') moved p = order.transitive s s' (f a s').1 moved ((next a (p a refl)).at s')
        go s (err e, s') moved p = moved

        back :
            (r : Result A × State W L)
            → ((a : A) → r.0 ≡ ok a → P a)
            → (b : B) → (continue r.0 f r.1).0 ≡ ok b
            → Q b
        back (ok a, s') p b e = (next a (p a refl)).gives s' b e
        back (err x, s') p b e = ground (arith, e)

  module _ {A : Type ℓ} {P : A → Type ℓ} {m n : Exec W L A} where
    pub Moves-if : (b : Bool) → Moves R P m → Moves R P n → Moves R P (if b then m else n)
    Moves-if true first second = first
    Moves-if false first second = second
