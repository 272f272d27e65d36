-- ===== src/Eval/Consumption/Store.antt =====
-- eval/consumption.py and eval/freeze.py: the artifact, the record and the files of the transaction.
use Prim.Native.String.{String, compare}
use text.Mathlib.Text.{◌==◌ as str_eq, is_lt}
use jepa_btc_forecasting.Prelude.{
  ℕ, ◌+◌, Bool, true, false, ◌&&◌, Option, none, some, List, [], ◌∷◌, if◌then◌else◌,
}
use jepa_btc_forecasting.Eval.Json.{
  Json, bool, num, str, arr, obj, Items, nil, cons, Fields, field, end,
}
use jepa_btc_forecasting.Eval.Ledger.{strings}

pub data HoldoutError : Type 0 where
  unsupported_freeze edited_freeze not_reproducible already_exists no_record unsupported_record
        edited_record other_artifact already_validated bad_day unsorted_days other_days other_venues
        other_thresholds no_report validation_failed_before already_scored not_validated no_result :
      HoldoutError

pub data HoldoutState : Type 0 where
  frozen validated validation_failed scored : HoldoutState

pub data HistoryEvent : Type 0 where
  opened : String → HistoryEvent
  trade_validation : Bool → String → String → HistoryEvent
  holdout_score : String → String → HistoryEvent

pub record HoldoutScope : Type 0 where
  pub days : List String
  pub venues : List String
  pub dataset_id : String
  pub build_id : String
  pub excluded_days : Fields

-- Whether two lists of strings are equal.
unfoldable pub strings_eq : List String → List String → Bool
strings_eq [] [] = true
strings_eq (x ∷ xs) (y ∷ ys) = str_eq x y && strings_eq xs ys
strings_eq _ _ = false

-- `sorted(set(days)) == days`
unfoldable pub is_sorted_unique : List String → Bool
is_sorted_unique [] = true
is_sorted_unique (d ∷ []) = true
is_sorted_unique (d ∷ e ∷ ds) = is_lt (compare d e) && is_sorted_unique (e ∷ ds)

abbrev pub state_name : HoldoutState → String
state_name frozen = "frozen"
state_name validated = "validated"
state_name validation_failed = "validation_failed"
state_name scored = "scored"

abbrev pub record_version : ℕ
record_version = 1

abbrev pub freeze_version : ℕ
freeze_version = 1

unfoldable pub scope_json : HoldoutScope → Json
unfolding strings
scope_json s = obj (
    field "days" (arr (strings s.days)) (
      field "venues" (arr (strings s.venues)) (
        field "dataset_id" (str s.dataset_id)
          (field "build_id" (str s.build_id) (field "excluded_days" (obj s.excluded_days) end)))))

-- The history list, from the step number on.
unfoldable pub event_json : ℕ → HistoryEvent → Json
event_json step (opened artifact) = obj (
    field "step" (num step)
      (field "event" (str "opened") (field "artifact_sha256" (str artifact) end)))
event_json step (trade_validation passed report artifact) = obj (
    field "step" (num step) (
      field "event" (str "trade_validation") (
        field "passed" (bool passed)
          (field "report_sha256" (str report) (field "artifact_sha256" (str artifact) end)))))
event_json step (holdout_score result artifact) = obj (
    field "step" (num step) (
      field "event" (str "holdout_score")
        (field "result_sha256" (str result) (field "artifact_sha256" (str artifact) end))))

unfoldable pub history_json : ℕ → List HistoryEvent → Items
unfolding event_json
history_json step [] = nil
history_json step (e ∷ es) = cons (event_json step e) (history_json (step + 1) es)

abbrev pub exists : {A : Type 0} → Option A → Bool
exists none = false
exists (some r) = true

abbrev pub is_state : HoldoutState → HoldoutState → Bool
is_state frozen frozen = true
is_state validated validated = true
is_state validation_failed validation_failed = true
is_state scored scored = true
is_state _ _ = false

module _ (Thresholds : Type 0) where
  pub record FreezeArtifact : Type 0 where
    pub version : ℕ
    pub sha256 : String
    pub holdout_start_ns : ℕ
    pub holdout_end_ns : ℕ
    pub holdout_scope : HoldoutScope
    pub trade_validation_thresholds : Thresholds
    pub sections : Fields

  pub record HoldoutRecord : Type 0 where
    pub version : ℕ
    pub holdout_id : String
    pub artifact_sha256 : String
    pub holdout_scope : HoldoutScope
    pub trade_validation_thresholds : Thresholds
    pub state : HoldoutState
    pub history : List HistoryEvent
    pub record_sha256 : String

  -- The files under the directory of records.
  abbrev pub Records : Type 0
  Records = String → Option HoldoutRecord

  abbrev pub write_file : String → HoldoutRecord → Records → Records
  write_file path r files p = if str_eq path p then some r else files p
