-- ===== src/Tests/Holdout.antt =====
-- eval/consumption.py at a concrete holdout.
use jepa_btc_forecasting.Prelude.{ℕ, ◌≡◌, ◌≢◌, refl, inr, true, none, some, [], ◌∷◌, ok, ◌==◌}
use jepa_btc_forecasting.Eval.Json.{num, end}
use jepa_btc_forecasting.Eval.Consumption.Store.{
  HoldoutScope, scored, is_sorted_unique, HoldoutRecord, FreezeArtifact, write_file,
}
use jepa_btc_forecasting.Eval.Consumption.{
  HoldoutEnv, Files, record_path_for, sealed, opening, verify_freeze, open_transaction,
  record_trade_validation, record_holdout_score,
}
use jepa_btc_forecasting.Eval.Consumption.Lawful.{open_step, here, next, AllLawful, Reach-AllLawful}
use jepa_btc_forecasting.Eval.Consumption.Complete.{finished_is_final, consumed_once}

-- One hash for all objects, and thresholds that are one number.
abbrev here_env : HoldoutEnv ℕ
here_env = record {
  hash_obj = λ j. "h";
  path_name = λ id. id;
  is_canonical_day = λ day. true;
  same_thresholds = ◌==◌;
  thresholds_json = num;
}

abbrev april : HoldoutScope
april = record {
  days = "2026-04-01" ∷ [];
  venues = "coinbase" ∷ [];
  dataset_id = "d";
  build_id = "b";
  excluded_days = end;
}

abbrev artifact : FreezeArtifact ℕ
artifact = record {
  version = 1;
  sha256 = "h";
  holdout_start_ns = 1;
  holdout_end_ns = 2;
  holdout_scope = april;
  trade_validation_thresholds = 3;
  sections = end;
}

abbrev no_files : Files here_env
no_files = λ path. none

abbrev opened_files : Files here_env
opened_files =
    write_file ℕ (record_path_for here_env artifact) (sealed here_env (opening here_env artifact))
      no_files

opens :
    open_transaction here_env artifact (some "h") no_files
    ≡ ok (sealed here_env (opening here_env artifact), opened_files)
unfolding open_transaction
opens = refl

Reach-AllLawful_example : AllLawful here_env opened_files
Reach-AllLawful_example =
    Reach-AllLawful here_env opened_files (
      next here (open_step artifact (some "h") (sealed here_env (opening here_env artifact)) opens))

abbrev finished : HoldoutRecord ℕ
finished = record (opening here_env artifact) { state = scored }

abbrev finished_files : Files here_env
finished_files = λ path. some finished

finished_is_final_example :
    (open_transaction here_env artifact (some "h") finished_files ≢ ok (finished, no_files))
    × (record_trade_validation here_env artifact [] [] 3 true "r" finished_files
        ≢ ok (finished, no_files))
    × (record_holdout_score here_env artifact "s" finished_files ≢ ok (finished, no_files))
finished_is_final_example =
    finished_is_final here_env finished_files no_files artifact finished finished (some "h") [] [] 3
      true "r" "s" (refl, inr refl)

verified : verify_freeze here_env artifact ≡ ok tt
unfolding verify_freeze
verified = refl

april_sorted : is_sorted_unique ("2026-04-01" ∷ []) ≡ true
unfolding is_sorted_unique
april_sorted = refl

consumed_once_example :
    (g1 : Files here_env) × (g2 : Files here_env) × (g3 : Files here_env) × (r1 : HoldoutRecord ℕ)
    × (r2 : HoldoutRecord ℕ) × (r3 : HoldoutRecord ℕ) × (open_transaction here_env artifact
          (some "h")
          no_files
        ≡ ok (r1, g1))
    × (record_trade_validation here_env artifact ("2026-04-01" ∷ []) ("coinbase" ∷ []) 3 true "r" g1
        ≡ ok (r2, g2))
    × (record_holdout_score here_env artifact "s" g2 ≡ ok (r3, g3))
    × (r3.state ≡ scored)
    × (g3 (record_path_for here_env artifact) ≡ some r3)
consumed_once_example =
    consumed_once here_env artifact "r" "s" no_files verified refl refl april_sorted refl refl refl
