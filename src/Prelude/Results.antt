-- ===== src/Prelude/Results.antt =====
-- Code that raises: a value, or the error that the `raise` names.
use mathlib.Core.Path.{◌≡◌, refl}
use mathlib.Core.Bool.{Bool, true, false}

pub data Result (Raised Value : Type 0) : Type 0 where
  err : Raised → Result Raised Value
  ok : Value → Result Raised Value

module _ {Raised : Type 0} where
  -- `if not b: raise e`, and `if b: raise e`.
  abbrev pub require : Bool → Raised → Result Raised (Unit {0})
  require false e = err e
  require true e = ok tt

  abbrev pub refuse : Bool → Raised → Result Raised (Unit {0})
  refuse false e = ok tt
  refuse true e = err e

  -- `except E as e: raise E'(e)`
  abbrev pub map_err :
      {Other Value : Type 0} → (Raised → Other) → Result Raised Value → Result Other Value
  map_err f (err e) = err (f e)
  map_err f (ok v) = ok v

  -- A statement that may raise, and what comes after it.
  infixl 5 ◌>>=◌
  abbrev pub ◌>>=◌ :
      {Value Next : Type 0}
      → Result Raised Value
      → (Value → Result Raised Next)
      → Result Raised Next
  err e >>= after = err e
  ok v >>= after = after v

  infixl 5 ◌>>◌
  abbrev pub ◌>>◌ :
      {Next : Type 0} → Result Raised (Unit {0}) → Result Raised Next → Result Raised Next
  check >> after = check >>= λ done. after

  pub >>=-eq-ok :
      {Value Next : Type 0} (first : Result Raised Value) (after : Value → Result Raised Next)
      {n : Next}
      → (first >>= after) ≡ ok n
      → (v : Value) × (first ≡ ok v) × (after v ≡ ok n)
  >>=-eq-ok (err e) after h = cc
  >>=-eq-ok (ok v) after h = (v, refl, h)

  pub require->>-eq-ok :
      {Next : Type 0} (test : Bool) (e : Raised) (after : Result Raised Next) {n : Next}
      → (require test e >> after) ≡ ok n
      → (test ≡ true) × (after ≡ ok n)
  require->>-eq-ok false e after h = cc
  require->>-eq-ok true e after h = (refl, h)

  pub >>=-of_ok :
      {Value Next : Type 0} (first : Result Raised Value) (after : Value → Result Raised Next)
      {v : Value} {n : Result Raised Next}
      → first ≡ ok v
      → after v ≡ n
      → (first >>= after) ≡ n
  >>=-of_ok first after h k = rw h k

  -- Checks that pass.
  pub require-passes : (b : Bool) (e : Raised) → b ≡ true → require b e ≡ ok tt
  require-passes b e h = rw h refl

  pub refuse-passes : (b : Bool) (e : Raised) → b ≡ false → refuse b e ≡ ok tt
  refuse-passes b e h = rw h refl

  -- A check that did not raise.
  pub require-ok : (b : Bool) (e : Raised) {u : Unit {0}} → require b e ≡ ok u → b ≡ true
  require-ok true e h = refl
  require-ok false e h = cc

  pub refuse-ok : (b : Bool) (e : Raised) {u : Unit {0}} → refuse b e ≡ ok u → b ≡ false
  refuse-ok false e h = refl
  refuse-ok true e h = cc
