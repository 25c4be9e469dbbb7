-- ===== src/Prelude/Text.antt =====
-- Equality of texts as a decision.
use Prim.Native.String.{String}
use mathlib.Core.Path.{◌≡◌}
use mathlib.Core.Bool.{false}
use mathlib.Core.Logic.{inl, inr}
use text.Mathlib.Text.{◌==◌}
use text.Mathlib.TextEquality.{eq_iff}
use test_cusa.Prelude.Tests.{Bool-cases}

differ : (s t : String) → (s == t) ≡ false → ¬ (s ≡ t)
differ s t other = λ same. cc (other, (eq_iff s t).1 same)

-- The native comparison decides.
unfoldable pub String_discrete : Discrete String
unfolding Bool-cases differ
String_discrete s t = elim (Bool-cases (s == t)) [
  | inl same ↦ yes ((eq_iff s t).0 same)
  | inr other ↦ no (differ s t other)
]
