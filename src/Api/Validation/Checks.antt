-- ===== src/Api/Validation/Checks.antt =====
-- When a single check passes, and when a chain of checks does.
use questdb_operator.Prelude.{
  String, ◌≡◌, refl, ◌≢◌, ◌↔◌, ◌⊎◌, inl, inr, Bool, true, false, not, ◌&&◌, ◌==◌, eq_iff, Option,
  none, some, arith, deep_equal, deep_equal_iff, Bool-cases,
}
use questdb_operator.Prelude.Int.{ℤ, ◌≤ℤ◌, eq_ℤ, ltb_ℤ, leb_ℤ}
use questdb_operator.Api.Validation.{ValidationError, Verdict, ◌and_then◌, fail_if, is_some}

-- The verdict is `nil` exactly when `P` holds.
abbrev pub Decides {ℓ} : Verdict → Type ℓ → Type ℓ
Decides v P = (v ≡ none) ↔ P

pub Decides-and_then {ℓ κ} :
    {P : Type ℓ} {Q : Type κ} (u v : Verdict)
    → Decides u P
    → Decides v Q
    → Decides (u and_then v) (P × Q)
Decides-and_then none v p q = (λ e. (p.0 refl, q.0 e), λ b. q.1 b.1)
Decides-and_then (some x) v p q = (λ e. cc, λ b. cc (p.1 b.0))

pub Decides-iff {ℓ κ} :
    {P : Type ℓ} {Q : Type κ} {v : Verdict} → (P → Q) → (Q → P) → Decides v P → Decides v Q
Decides-iff f g d = (λ e. f (d.0 e), λ q. d.1 (g q))

module _ (e : ValidationError) where
  pub fail_if_iff : (b : Bool) → Decides (fail_if b e) (b ≡ false)
  fail_if_iff true = (λ h. cc, λ h. cc)
  fail_if_iff false = (λ h. refl, λ h. refl)

  not_iff : {P : Type 0} (b : Bool) → (b ≡ true) ↔ P → Decides (fail_if (not b) e) P
  not_iff true d = (λ h. d.0 refl, λ p. refl)
  not_iff false d = (λ h. cc, λ p. cc (d.1 p))

  pub fail_if-ne : (s t : String) → Decides (fail_if (not (s == t)) e) (s ≡ t)
  fail_if-ne s t = not_iff (s == t) (eq_iff s t)

  pub fail_if-differ :
      {A : Type 0} (d : Discrete A) (a b : A) → Decides (fail_if (not (deep_equal d a b)) e) (a ≡ b)
  fail_if-differ d a b = not_iff (deep_equal d a b) (deep_equal_iff d a b)

  pub fail_if-eq : (s t : String) → Decides (fail_if (s == t) e) (s ≢ t)
  fail_if-eq s t = elim (Bool-cases (s == t)) [
    | inl h ↦ rw h (λ p. cc, λ p. absurd (p ((eq_iff s t).0 h)))
    | inr h ↦ rw h (λ p q. cc (h, (eq_iff s t).1 q), λ p. refl)
  ]

  pub fail_if-lt : (a b : ℤ) → Decides (fail_if (ltb_ℤ a b) e) (b ≤ℤ a)
  fail_if-lt a b = (λ h. ground arith, λ h. ground arith)

  pub fail_if-le : (a b : ℤ) → Decides (fail_if (leb_ℤ a b) e) (¬ (a ≤ℤ b))
  fail_if-le a b = (λ h. ground arith, λ h. ground arith)

  pub fail_if-eq_ℤ : (a b : ℤ) → Decides (fail_if (eq_ℤ a b) e) (a ≢ b)
  fail_if-eq_ℤ a b = (λ h. ground arith, λ h. ground arith)

  pub fail_if-ne_ℤ : (a b : ℤ) → Decides (fail_if (not (eq_ℤ a b)) e) (a ≡ b)
  fail_if-ne_ℤ a b = (λ h. ground arith, λ h. ground arith)

  -- A text that is set, and a pointer that is set.
  pub fail_if-both :
      {A : Type 0} (s : String) (o : Option A)
      → Decides (fail_if (not (s == "") && is_some o) e) ((s ≡ "") ⊎ (o ≡ none))
  fail_if-both s none = (λ h. inr refl, λ h. ground arith)
  fail_if-both s (some a) = elim (Bool-cases (s == "")) [
    | inl h ↦ rw h (λ p. inl ((eq_iff s "").0 h), λ p. refl)
    | inr h ↦ rw h (λ p. cc, λ p. elim p [ inl q ↦ cc (h, (eq_iff s "").1 q) | inr q ↦ cc ])
  ]
