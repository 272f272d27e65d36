-- ===== src/Eval/Json.antt =====
-- The JSON-like values that eval/ hashes and stores, and `_json_safe` of eval/ledger.py.
use Prim.Native.String.{String}
use text.Mathlib.Text.{◌==◌ as str_eq}
use jepa_btc_forecasting.Prelude.{
  ℕ, ◌≡◌, refl, ap, Bool, true, false, ◌&&◌, Option, none, some, List, [], ◌∷◌, if◌then◌else◌,
}
use mathlib.Core.Path.{ap₂}
use native.Mathlib.Omega.{arith}

-- A float that JSON cannot hold (NaN or an infinity) is `non_finite`; other numbers are `num`.
mutual
  pub data Json : Type 0 where
    null : Json
    bool : Bool → Json
    num : ℕ → Json
    non_finite : Json
    str : String → Json
    arr : Items → Json
    obj : Fields → Json

  pub data Items : Type 0 where
    nil : Items
    cons : Json → Items → Items

  pub data Fields : Type 0 where
    end : Fields
    field : String → Json → Fields → Fields

-- `_json_safe`
unfoldable mutual
  pub json_safe : Json → Json
  json_safe null = null
  json_safe (bool b) = bool b
  json_safe (num n) = num n
  json_safe non_finite = null
  json_safe (str s) = str s
  json_safe (arr xs) = arr (items_safe xs)
  json_safe (obj fs) = obj (fields_safe fs)

  pub items_safe : Items → Items
  items_safe nil = nil
  items_safe (cons x xs) = cons (json_safe x) (items_safe xs)

  pub fields_safe : Fields → Fields
  fields_safe end = end
  fields_safe (field k v fs) = field k (json_safe v) (fields_safe fs)

-- Strict JSON: no value that `allow_nan=False` refuses.
mutual
  pub is_strict : Json → Bool
  is_strict null = true
  is_strict (bool b) = true
  is_strict (num n) = true
  is_strict non_finite = false
  is_strict (str s) = true
  is_strict (arr xs) = items_strict xs
  is_strict (obj fs) = fields_strict fs

  pub items_strict : Items → Bool
  items_strict nil = true
  items_strict (cons x xs) = is_strict x && items_strict xs

  pub fields_strict : Fields → Bool
  fields_strict end = true
  fields_strict (field k v fs) = is_strict v && fields_strict fs

mutual
  unfolding json_safe items_safe fields_safe is_strict items_strict fields_strict

  safe-strict : (j : Json) → is_strict (json_safe j) ≡ true
  safe-strict null = refl
  safe-strict (bool b) = refl
  safe-strict (num n) = refl
  safe-strict non_finite = refl
  safe-strict (str s) = refl
  safe-strict (arr xs) = safe-strict_items xs
  safe-strict (obj fs) = safe-strict_fields fs

  safe-strict_items : (xs : Items) → items_strict (items_safe xs) ≡ true
  safe-strict_items nil = refl
  safe-strict_items (cons x xs) = rw (safe-strict x) (safe-strict_items xs)

  safe-strict_fields : (fs : Fields) → fields_strict (fields_safe fs) ≡ true
  safe-strict_fields end = refl
  safe-strict_fields (field k v fs) = rw (safe-strict v) (safe-strict_fields fs)

-- Both halves of a conjunction.
both : (a b : Bool) → (a && b) ≡ true → (a ≡ true) × (b ≡ true)
both a b h = ground arith

mutual
  unfolding json_safe items_safe fields_safe is_strict items_strict fields_strict

  strict-safe : (j : Json) → is_strict j ≡ true → json_safe j ≡ j
  strict-safe null h = refl
  strict-safe (bool b) h = refl
  strict-safe (num n) h = refl
  strict-safe non_finite h = absurd (cc)
  strict-safe (str s) h = refl
  strict-safe (arr xs) h = ap arr (strict-safe_items xs h)
  strict-safe (obj fs) h = ap obj (strict-safe_fields fs h)

  strict-safe_items : (xs : Items) → items_strict xs ≡ true → items_safe xs ≡ xs
  strict-safe_items nil h = refl
  strict-safe_items (cons x xs) h =
      ap₂ cons (strict-safe x (both (is_strict x) (items_strict xs) h).0)
        (strict-safe_items xs (both (is_strict x) (items_strict xs) h).1)

  strict-safe_fields : (fs : Fields) → fields_strict fs ≡ true → fields_safe fs ≡ fs
  strict-safe_fields end h = refl
  strict-safe_fields (field k v fs) h =
      ap₂ (field k) (strict-safe v (both (is_strict v) (fields_strict fs) h).0)
        (strict-safe_fields fs (both (is_strict v) (fields_strict fs) h).1)

-- The sanitized copy is strict JSON, and a value that is strict already is left as it is.
pub json_safe_lem :
    (j : Json) → (is_strict (json_safe j) ≡ true) × (is_strict j ≡ true → json_safe j ≡ j)
json_safe_lem j = (safe-strict j, strict-safe j)

-- The value of a field, and the names of all.
unfoldable pub get : String → Fields → Option Json
get k end = none
get k (field j v fs) = let rest = get k fs in if str_eq j k then some v else rest

unfoldable pub keys : Fields → List String
keys end = []
keys (field k v fs) = k ∷ keys fs
