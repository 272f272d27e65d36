-- ===== src/Prelude/Float.antt =====
-- Python floats. Their arithmetic is not under the repository, so its operations are a parameter of
-- the definitions that compute with prices, sizes and returns. No law is assumed here.
use Prim.Native.Nat.{ℕ, ◌+◌, ◌-◌, ◌*◌, ◌/◌}
use mathlib.Core.Bool.{Bool, true, false, not}
use mathlib.Core.Path.{◌≡◌}
use mathlib.Core.Logic.{◌↔◌}
use mathlib.Core.List.{List, foldr}
use jepa_btc_forecasting.Prelude.Tests.{
  ◌==◌, ltb, leb, ==_iff, leb-eq-not-ltb, ltb_asymm, not_ltb_trans, not_ltb_antisymm,
}

pub record Float : Type 1 where
  pub F : Type 0
  pub of_ℕ : ℕ → F
  pub add : F → F → F
  pub sub : F → F → F
  pub mul : F → F → F
  pub div : F → F → F
  -- `sum(xs)`, whose compensation is the interpreter's
  pub sum : List F → F
  pub eq : F → F → Bool
  pub lt : F → F → Bool
  pub le : F → F → Bool
  pub is_finite : F → Bool

-- Whole numbers with truncated subtraction and division: a concrete arithmetic to run the code with.
abbrev pub whole : Float
whole = record {
  F = ℕ;
  of_ℕ = λ n. n;
  add = λ a b. a + b;
  sub = λ a b. a - b;
  mul = λ a b. a * b;
  div = λ a b. a / b;
  sum = foldr (λ a b. a + b) 0;
  eq = ◌==◌;
  lt = ltb;
  le = leb;
  is_finite = λ a. true;
}

-- The documented order of the finite floats, the two zeros taken as one value. A theorem that rests
-- on it takes it as a hypothesis.
pub record FloatLaws (fl : Float) : Type 0 where
  pub eq_iff : (a b : fl.F) → (fl.eq a b ≡ true) ↔ (a ≡ b)
  pub le-eq-not_lt : (a b : fl.F) → fl.le a b ≡ not (fl.lt b a)
  pub lt_asymm : (a b : fl.F) → fl.lt a b ≡ true → fl.lt b a ≡ false
  pub not_lt_trans : (a b c : fl.F) → fl.lt a b ≡ false → fl.lt b c ≡ false → fl.lt a c ≡ false
  pub not_lt_antisymm : (a b : fl.F) → fl.lt a b ≡ false → fl.lt b a ≡ false → a ≡ b

abbrev pub whole_laws : FloatLaws whole
whole_laws = record {
  eq_iff = ==_iff;
  le-eq-not_lt = leb-eq-not-ltb;
  lt_asymm = ltb_asymm;
  not_lt_trans = not_ltb_trans;
  not_lt_antisymm = not_ltb_antisymm;
}
