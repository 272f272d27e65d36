-- ===== src/Eval/Consumption.antt =====
-- eval/consumption.py, with `verify_freeze` and `authorize_freeze` of eval/freeze.py: the one-time
-- consumption of the holdout. Parameters: `hash_obj` (json and hashlib), the path of a record's file,
-- the canonical form of a day (datetime), and the interpreter's equality of two dictionaries of
-- thresholds. The directory of records is a map from paths to files; a file holds a dictionary with
-- the keys that `_write` gives it, and its state is one of the four. The artifact's other sections
-- are one dictionary, and the artifact that `build_freeze_artifact` rebuilds is an argument.
pub mod Store
pub mod Steps
pub mod Lawful
pub mod Complete
use Prim.Native.String.{String, compare}
use text.Mathlib.Text.{◌==◌ as str_eq, is_lt}
use jepa_btc_forecasting.Prelude.{
  ℕ, ◌+◌, Bool, true, false, ◌&&◌, Option, none, some, List, [], ◌∷◌, ◌++◌, ◌==◌, if◌then◌else◌,
  Result, ok, err, ◌>>=◌, ◌>>◌, refuse, require, all,
}
use jepa_btc_forecasting.Eval.Json.{
  Json, bool, num, str, arr, obj, Items, nil, cons, Fields, field, end,
}
use jepa_btc_forecasting.Eval.Ledger.{strings}
use jepa_btc_forecasting.Eval.Consumption.Store.{
  HistoryEvent, HoldoutError, HoldoutScope, HoldoutState, already_exists, already_scored,
  already_validated, bad_day, edited_freeze, edited_record, event_json, exists, freeze_version,
  frozen, history_json, holdout_score, is_sorted_unique, is_state, FreezeArtifact, HoldoutRecord,
  Records, write_file, no_record, no_report, no_result, not_reproducible, not_validated, opened,
  other_artifact, other_days, other_thresholds, other_venues, record_version, scope_json, scored,
  state_name, strings_eq, trade_validation, unsorted_days, unsupported_freeze, unsupported_record,
  validated, validation_failed, validation_failed_before,
}

-- What the transaction takes from libraries and the interpreter.
pub record HoldoutEnv (Thresholds : Type 0) : Type 0 where
  pub hash_obj : Json → String
  pub path_name : String → String
  pub is_canonical_day : String → Bool
  pub same_thresholds : Thresholds → Thresholds → Bool
  pub thresholds_json : Thresholds → Json

module _ {Thresholds : Type 0} (env : HoldoutEnv Thresholds) where
  open env use {hash_obj, path_name, is_canonical_day, same_thresholds, thresholds_json}

  unfoldable pub freeze_hash : FreezeArtifact Thresholds → String
  unfolding scope_json
  freeze_hash a = hash_obj (
      obj (
        field "freeze_version" (num a.version) (
          field "holdout_window"
            (obj (
              field "holdout_start_ns" (num a.holdout_start_ns)
                (field "holdout_end_ns" (num a.holdout_end_ns) end)))
            (field "holdout_scope" (scope_json a.holdout_scope) (
              field "trade_validation_thresholds" (thresholds_json a.trade_validation_thresholds)
                a.sections)))))

  unfoldable pub verify_freeze : FreezeArtifact Thresholds → Result HoldoutError (Unit {0})
  unfolding freeze_hash
  verify_freeze a = do
    require (a.version == freeze_version) unsupported_freeze
    require (str_eq a.sha256 (freeze_hash a)) edited_freeze
    ok tt

  -- `rebuilt` is the hash of the artifact that is built again, or nothing if building it raises.
  unfoldable pub authorize_freeze :
      FreezeArtifact Thresholds → Option String → Result HoldoutError (Unit {0})
  unfolding verify_freeze
  authorize_freeze a none = do verify_freeze a; err not_reproducible
  authorize_freeze a (some rebuilt) = do
    verify_freeze a
    require (str_eq rebuilt a.sha256) not_reproducible
    ok tt

  -- `_record_hash`
  unfoldable pub record_hash : HoldoutRecord Thresholds → String
  unfolding scope_json history_json
  record_hash r = hash_obj (
      obj (
        field "record_version" (num r.version) (
          field "holdout_id" (str r.holdout_id) (
            field "artifact_sha256" (str r.artifact_sha256) (
              field "holdout_scope" (scope_json r.holdout_scope) (
                field "trade_validation_thresholds" (thresholds_json r.trade_validation_thresholds)
                  (field "state" (str (state_name r.state))
                    (field "history" (arr (history_json 0 r.history)) end))))))))

  unfoldable pub holdout_id_of : FreezeArtifact Thresholds → String
  holdout_id_of a = hash_obj (
      obj (
        field "holdout_start_ns" (num a.holdout_start_ns) (
          field "holdout_end_ns" (num a.holdout_end_ns)
            (field "dataset_id" (str a.holdout_scope.dataset_id) end))))

  unfoldable pub record_path_for : FreezeArtifact Thresholds → String
  unfolding holdout_id_of
  record_path_for a = path_name (holdout_id_of a)

  -- `_write`: the record with its hash, which the file then holds.
  unfoldable pub sealed : HoldoutRecord Thresholds → HoldoutRecord Thresholds
  unfolding record_hash
  sealed r = record r { record_sha256 = record_hash r }

  unfoldable pub load_record :
      Option (HoldoutRecord Thresholds) → Result HoldoutError (HoldoutRecord Thresholds)
  unfolding record_hash
  load_record none = err no_record
  load_record (some r) = do
    require (r.version == record_version) unsupported_record
    require (str_eq r.record_sha256 (record_hash r)) edited_record
    ok r

  unfoldable pub require_artifact :
      HoldoutRecord Thresholds → FreezeArtifact Thresholds → Result HoldoutError (Unit {0})
  unfolding verify_freeze
  require_artifact r a = do
    verify_freeze a
    require (str_eq a.sha256 r.artifact_sha256) other_artifact
    ok tt

  unfoldable pub exact_scope :
      HoldoutRecord Thresholds → List String → List String → Result HoldoutError (Unit {0})
  unfolding strings_eq is_sorted_unique
  exact_scope r scope_days scope_venues = do
    require (all is_canonical_day scope_days) bad_day
    require (is_sorted_unique scope_days) unsorted_days
    require (strings_eq scope_days r.holdout_scope.days) other_days
    require (strings_eq scope_venues r.holdout_scope.venues) other_venues
    ok tt

  abbrev pub Files : Type 0
  Files = Records Thresholds

  -- What an operation returns, with the files that it leaves. A raise leaves them as they were.
  abbrev pub Outcome : Type 0
  Outcome = Result HoldoutError (HoldoutRecord Thresholds × Files)

  abbrev pub stored : String → HoldoutRecord Thresholds → Files → Outcome
  stored path r files = ok (r, write_file Thresholds path r files)

  abbrev pub opening : FreezeArtifact Thresholds → HoldoutRecord Thresholds
  opening a = record {
    version = record_version;
    holdout_id = holdout_id_of a;
    artifact_sha256 = a.sha256;
    holdout_scope = a.holdout_scope;
    trade_validation_thresholds = a.trade_validation_thresholds;
    state = frozen;
    history = opened a.sha256 ∷ [];
    record_sha256 = "";
  }

  unfoldable pub open_transaction : FreezeArtifact Thresholds → Option String → Files → Outcome
  unfolding authorize_freeze record_path_for sealed holdout_id_of
  open_transaction a rebuilt files = do
    authorize_freeze a rebuilt
    refuse (exists (files (record_path_for a))) already_exists
    stored (record_path_for a) (sealed (opening a)) files

  abbrev pub validation_state : Bool → HoldoutState
  validation_state passed = if passed then validated else validation_failed

  unfoldable pub record_trade_validation :
      FreezeArtifact Thresholds
      → List String
      → List String
      → Thresholds
      → Bool
      → String
      → Files
      → Outcome
  unfolding record_path_for load_record require_artifact exact_scope sealed
  record_trade_validation a scope_days scope_venues thresholds passed report_sha256 files = do
    r ← load_record (files (record_path_for a))
    require_artifact r a
    require (is_state r.state frozen) already_validated
    exact_scope r scope_days scope_venues
    require (same_thresholds thresholds r.trade_validation_thresholds) other_thresholds
    refuse (str_eq report_sha256 "") no_report
    stored (record_path_for a)
        (sealed (record r {
          state = validation_state passed;
          history = r.history ++ trade_validation passed report_sha256 a.sha256 ∷ [];
        }))
        files

  unfoldable pub record_holdout_score : FreezeArtifact Thresholds → String → Files → Outcome
  unfolding record_path_for load_record require_artifact sealed
  record_holdout_score a result_sha256 files = do
    r ← load_record (files (record_path_for a))
    require_artifact r a
    refuse (is_state r.state validation_failed) validation_failed_before
    refuse (is_state r.state scored) already_scored
    require (is_state r.state validated) not_validated
    refuse (str_eq result_sha256 "") no_result
    stored (record_path_for a)
        (sealed (record r {
          state = scored;
          history = r.history ++ holdout_score result_sha256 a.sha256 ∷ [];
        }))
        files
