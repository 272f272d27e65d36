-- ===== src/Tests/Trials.antt =====
-- eval/ledger.py at concrete trials.
use Prim.Native.String.{String}
use text.Mathlib.TextEquality.{eq_iff}
use jepa_btc_forecasting.Prelude.{◌≡◌, refl, true, false, [], ◌∷◌, ok, err, ◌⊎◌, arith}
use jepa_btc_forecasting.Eval.Json.{
  Json, Fields, obj, str, arr, num, non_finite, nil, cons, field, end, json_safe, is_strict,
  json_safe_lem, keys,
}
use jepa_btc_forecasting.Eval.Ledger.{
  conflicting_result, conflicting_import, Entry, TrialLedger, empty_ledger, lookup, insert_entry,
  append, identity_hash, register, import_history, save, load, contains, same_set,
}
use jepa_btc_forecasting.Eval.Ledger.Valid.{IsValid, IsAppended, append-IsValid}
use jepa_btc_forecasting.Eval.Ledger.History.{here, next, imports, registered_stands}
use jepa_btc_forecasting.Eval.Ledger.Import.{Imported, import_history_atomic}
use jepa_btc_forecasting.Eval.Ledger.Reload.{load-save}

json_safe_example :
    (is_strict (json_safe (arr (cons non_finite nil))) ≡ true)
    × (is_strict (arr (cons non_finite nil)) ≡ true
        → json_safe (arr (cons non_finite nil)) ≡ arr (cons non_finite nil))
json_safe_example = json_safe_lem (arr (cons non_finite nil))

-- A hash that tells an object from a number.
abbrev hash : Json → String
hash (num n) = "number"
hash (obj fs) = "object"
hash _ = "other"

abbrev identity : Fields
identity = field "protocol" (str "g0cb") (
    field "arm" (str "a") (
      field "dataset_id" (str "d") (
        field "build_id" (str "b") (
          field "feature_cols" (arr (cons (str "f") nil)) (
            field "config" (str "c") (
              field "horizon" (str "h")
                (field "variant" (str "base") (field "variant_params" (obj end) end))))))))

abbrev first : Entry
first = record {
  identity = identity;
  identity_sha256 = "object";
  result = num 4;
  result_sha256 = "number";
  seq = 0;
}

abbrev one : TrialLedger
one = record { entries = first ∷ []; by_identity = ("object", first) ∷ [] }

empty-IsValid : IsValid hash empty_ledger
unfolding IsValid
empty-IsValid = (refl, tt, tt, tt)

one-IsValid : IsValid hash one
unfolding IsValid identity_hash same_set contains keys
one-IsValid = (refl, (refl, tt), ((refl, refl), tt), (refl, tt))

registered : register hash identity (num 4) empty_ledger ≡ ok (first, one)
unfolding register append identity_hash same_set contains keys lookup insert_entry json_safe
registered = refl

append-IsValid_example : IsValid hash one × IsAppended hash first first empty_ledger one
append-IsValid_example =
    append-IsValid hash first first empty_ledger one empty-IsValid
      (unfold append identity_hash same_set contains keys lookup insert_entry in refl)

-- The trial is imported again from a copy, and then reported with another result.
registered_stands_example :
    (register hash identity (num 4) (import_history hash one one).1
      ≡ ok (first, (import_history hash one one).1))
    × (register hash identity (obj end) (import_history hash one one).1 ≡ err conflicting_result)
registered_stands_example =
    registered_stands hash identity (num 4) (obj end) first empty_ledger one
      (import_history hash one one).1 empty-IsValid registered (next here (imports one one-IsValid))
      (unfold json_safe in
        (λ e. let t : false ≡ true = (eq_iff "number" "object").1 e in absurd (ground arith)))

import_history_atomic_example :
    (import_history hash one empty_ledger ≡ (err conflicting_import, empty_ledger))
    ⊎ Imported hash one.entries 0 empty_ledger (import_history hash one empty_ledger)
import_history_atomic_example =
    import_history_atomic hash one empty_ledger one-IsValid empty-IsValid

load-save_example : load hash (save hash one) ≡ ok one
load-save_example = load-save hash one one-IsValid
