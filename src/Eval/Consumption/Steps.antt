-- ===== src/Eval/Consumption/Steps.antt =====
-- eval/consumption.py: what an operation that succeeds has read and written.
use Prim.Native.String.{String}
use text.Mathlib.Text.{◌==◌ as str_eq}
use text.Mathlib.TextEquality.{eq_iff}
use jepa_btc_forecasting.Prelude.{
  ◌≡◌, refl, Bool, true, false, Option, none, some, List, [], ◌∷◌, ◌++◌, arith, ok, refuse, require,
  >>=-eq-ok, require-ok, refuse-ok,
}
use jepa_btc_forecasting.Eval.Consumption.Store.{
  HoldoutState, frozen, validated, validation_failed, scored, trade_validation, holdout_score,
  is_state, exists, other_artifact, already_exists, already_validated, other_thresholds, no_report,
  validation_failed_before, already_scored, not_validated, no_result, FreezeArtifact, HoldoutRecord,
  write_file,
}
use jepa_btc_forecasting.Eval.Consumption.{
  HoldoutEnv, Files, verify_freeze, authorize_freeze, record_path_for, sealed, load_record,
  require_artifact, exact_scope, opening, open_transaction, validation_state,
  record_trade_validation, record_holdout_score,
}

is_state_iff : (s t : HoldoutState) → is_state s t ≡ true → s ≡ t
is_state_iff frozen frozen h = refl
is_state_iff validated validated h = refl
is_state_iff validation_failed validation_failed h = refl
is_state_iff scored scored h = refl
is_state_iff frozen validated h = cc
is_state_iff frozen validation_failed h = cc
is_state_iff frozen scored h = cc
is_state_iff validated frozen h = cc
is_state_iff validated validation_failed h = cc
is_state_iff validated scored h = cc
is_state_iff validation_failed frozen h = cc
is_state_iff validation_failed validated h = cc
is_state_iff validation_failed scored h = cc
is_state_iff scored frozen h = cc
is_state_iff scored validated h = cc
is_state_iff scored validation_failed h = cc

module _ {Thresholds : Type 0} (env : HoldoutEnv Thresholds) where
  load_record-ok :
      (o : Option (HoldoutRecord Thresholds)) (r : HoldoutRecord Thresholds)
      → load_record env o ≡ ok r
      → o ≡ some r
  unfolding load_record
  load_record-ok none r h = cc
  load_record-ok (some x) r h = ground arith

  require_artifact-ok :
      (r : HoldoutRecord Thresholds) (a : FreezeArtifact Thresholds) {u : Unit {0}}
      → require_artifact env r a ≡ ok u
      → a.sha256 ≡ r.artifact_sha256
  unfolding require_artifact
  require_artifact-ok r a h =
      let (v, verified, rest) = >>=-eq-ok (verify_freeze env a) _ h in
      let (w, same, done) =
        >>=-eq-ok (require (str_eq a.sha256 r.artifact_sha256) other_artifact) _ rest in
      (eq_iff a.sha256 r.artifact_sha256).0 (require-ok _ other_artifact same)

  pub open_transaction-ok :
      (a : FreezeArtifact Thresholds) (rebuilt : Option String) (f g : Files env)
      (r : HoldoutRecord Thresholds)
      → open_transaction env a rebuilt f ≡ ok (r, g)
      → (exists (f (record_path_for env a)) ≡ false)
        × (r ≡ sealed env (opening env a))
        × (g ≡ write_file Thresholds (record_path_for env a) r f)
  unfolding open_transaction
  open_transaction-ok a rebuilt f g r h =
      let (u, first, rest) = >>=-eq-ok (authorize_freeze env a rebuilt) _ h in
      let (v, fresh, done) =
        >>=-eq-ok (refuse (exists (f (record_path_for env a))) already_exists) _ rest in
      (refuse-ok _ already_exists fresh, cc, cc)

  -- The record after a validation, and after a score.
  abbrev pub after_validation :
      FreezeArtifact Thresholds
      → Bool
      → String
      → HoldoutRecord Thresholds
      → HoldoutRecord Thresholds
  after_validation a passed report r = record r {
    state = validation_state env passed;
    history = r.history ++ trade_validation passed report a.sha256 ∷ [];
  }

  abbrev pub after_score :
      FreezeArtifact Thresholds → String → HoldoutRecord Thresholds → HoldoutRecord Thresholds
  after_score a result r = record r {
    state = scored;
    history = r.history ++ holdout_score result a.sha256 ∷ [];
  }

  pub record_trade_validation-ok :
      (a : FreezeArtifact Thresholds) (days venues : List String) (thresholds : Thresholds)
      (passed : Bool) (report : String) (f g : Files env) (r' : HoldoutRecord Thresholds)
      → record_trade_validation env a days venues thresholds passed report f ≡ ok (r', g)
      → (r : HoldoutRecord Thresholds) × (f (record_path_for env a) ≡ some r)
        × (r.state ≡ frozen)
        × (a.sha256 ≡ r.artifact_sha256)
        × (r' ≡ sealed env (after_validation a passed report r))
        × (g ≡ write_file Thresholds (record_path_for env a) r' f)
  unfolding record_trade_validation
  record_trade_validation-ok a days venues thresholds passed report f g r' h =
      let (r, loaded, h1) = >>=-eq-ok (load_record env (f (record_path_for env a))) _ h in
      let (u, same, h2) = >>=-eq-ok (require_artifact env r a) _ h1 in
      let (v, state, h3) = >>=-eq-ok (require (is_state r.state frozen) already_validated) _ h2 in
      let (w, scope, h4) = >>=-eq-ok (exact_scope env r days venues) _ h3 in
      let (x, rules, h5) =
        >>=-eq-ok
          (require (env.same_thresholds thresholds r.trade_validation_thresholds) other_thresholds)
          _ h4 in
      let (y, report_there, done) = >>=-eq-ok (refuse (str_eq report "") no_report) _ h5 in
      (
        r,
        load_record-ok (f (record_path_for env a)) r loaded,
        is_state_iff r.state frozen (require-ok _ already_validated state),
        require_artifact-ok r a same,
        cc,
        cc,
      )

  pub record_holdout_score-ok :
      (a : FreezeArtifact Thresholds) (result : String) (f g : Files env)
      (r' : HoldoutRecord Thresholds)
      → record_holdout_score env a result f ≡ ok (r', g)
      → (r : HoldoutRecord Thresholds) × (f (record_path_for env a) ≡ some r)
        × (r.state ≡ validated)
        × (a.sha256 ≡ r.artifact_sha256)
        × (r' ≡ sealed env (after_score a result r))
        × (g ≡ write_file Thresholds (record_path_for env a) r' f)
  unfolding record_holdout_score
  record_holdout_score-ok a result f g r' h =
      let (r, loaded, h1) = >>=-eq-ok (load_record env (f (record_path_for env a))) _ h in
      let (u, same, h2) = >>=-eq-ok (require_artifact env r a) _ h1 in
      let (v, not_failed, h3) =
        >>=-eq-ok (refuse (is_state r.state validation_failed) validation_failed_before) _ h2 in
      let (w, not_scored, h4) = >>=-eq-ok (refuse (is_state r.state scored) already_scored) _ h3 in
      let (x, state, h5) = >>=-eq-ok (require (is_state r.state validated) not_validated) _ h4 in
      let (y, result_there, done) = >>=-eq-ok (refuse (str_eq result "") no_result) _ h5 in
      (
        r,
        load_record-ok (f (record_path_for env a)) r loaded,
        is_state_iff r.state validated (require-ok _ not_validated state),
        require_artifact-ok r a same,
        cc,
        cc,
      )
