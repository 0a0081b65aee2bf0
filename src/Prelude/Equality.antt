-- ===== src/Prelude/Equality.antt =====
-- Decisions of equality: `==` of Go on texts, and `reflect.DeepEqual` on values.
use Prim.Native.String.{String}
use mathlib.Core.Path.{◌≡◌, refl}
use mathlib.Core.Bool.{Bool, true, false, decide, decide_iff}
use mathlib.Core.Logic.{◌↔◌}
use text.Mathlib.Text.{◌==◌}
use text.Mathlib.TextEquality.{eq_iff}

String_decision : (s t : String) (b : Bool) → (s == t) ≡ b → Dec (s ≡ t)
String_decision s t true e = yes ((eq_iff s t).0 e)
String_decision s t false e = no (λ p. cc ((eq_iff s t).1 p))

unfoldable pub String-discrete : Discrete String
unfolding String_decision
String-discrete s t = String_decision s t (s == t) refl

-- `reflect.DeepEqual`, of values whose equality is decided.
unfoldable pub deep_equal {ℓ} : {A : Type ℓ} → Discrete A → A → A → Bool
unfolding decide
deep_equal d a b = decide (d a b)

pub deep_equal_iff {ℓ} :
    {A : Type ℓ} (d : Discrete A) (a b : A) → (deep_equal d a b ≡ true) ↔ (a ≡ b)
unfolding deep_equal
deep_equal_iff d a b = decide_iff (d a b)
