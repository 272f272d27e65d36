-- ===== src/Eval/Consumption/Complete.antt =====
-- eval/consumption.py: a holdout that is finished, and one that is consumed to its end.
use Prim.Native.String.{String}
use text.Mathlib.Text.{◌==◌ as str_eq}
use text.Mathlib.TextPositions.{eq_refl}
use jepa_btc_forecasting.Prelude.{
  ◌≡◌, ◌≢◌, refl, sym, ap, ◌∙◌, ◌⊎◌, inl, inr, Bool, true, false, Option, some, List, [], ◌∷◌,
  arith, ok, require, refuse, >>=-of_ok, require-passes, refuse-passes, all,
}
use jepa_btc_forecasting.Eval.Consumption.Store.{
  HoldoutState, frozen, validated, validation_failed, scored, exists, strings_eq, is_sorted_unique,
  is_state, not_reproducible, already_exists, already_validated, other_thresholds, no_report,
  validation_failed_before, already_scored, not_validated, no_result, FreezeArtifact, HoldoutRecord,
  write_file,
}
use jepa_btc_forecasting.Eval.Consumption.{
  HoldoutEnv, Files, record_path_for, sealed, opening, verify_freeze, open_transaction,
  record_trade_validation, record_holdout_score, authorize_freeze, load_record, require_artifact,
  exact_scope,
}
use jepa_btc_forecasting.Eval.Consumption.Steps.{
  after_validation, after_score, open_transaction-ok, record_trade_validation-ok,
  record_holdout_score-ok,
}

strings_eq_refl : (xs : List String) → strings_eq xs xs ≡ true
unfolding strings_eq
strings_eq_refl [] = refl
strings_eq_refl (x ∷ xs) = rw (eq_refl x) (strings_eq_refl xs)

module _ {Thresholds : Type 0} (env : HoldoutEnv Thresholds) where
  -- The record of a holdout that failed its validation or was scored.
  abbrev pub IsFinished : Files env → FreezeArtifact Thresholds → HoldoutRecord Thresholds → Type 0
  IsFinished f a r =
      (f (record_path_for env a) ≡ some r) × ((r.state ≡ validation_failed) ⊎ (r.state ≡ scored))

  not_finished :
      (f : Files env) (a : FreezeArtifact Thresholds) (r x : HoldoutRecord Thresholds)
      (s : HoldoutState)
      → IsFinished f a r
      → f (record_path_for env a) ≡ some x
      → x.state ≡ s
      → (s ≡ validation_failed) ⊎ (s ≡ scored)
  not_finished f a r x s h e k =
      let same : x ≡ r = ground (arith, h.0, e) in
      let there : s ≡ r.state = sym k ∙ ap (λ (z : HoldoutRecord Thresholds). z.state) same in
      elim h.1 [ inl failed ↦ inl (there ∙ failed) | inr done ↦ inr (there ∙ done) ]

  -- A holdout whose validation failed, or that was scored, is final: no artifact over the same holdout
  -- opens it again, validates it again or scores it, whatever the arguments.
  pub finished_is_final :
      (f g : Files env) (a : FreezeArtifact Thresholds) (r r' : HoldoutRecord Thresholds)
      (rebuilt : Option String) (days venues : List String) (thresholds : Thresholds)
      (passed : Bool) (report result : String)
      → IsFinished f a r
      → (open_transaction env a rebuilt f ≢ ok (r', g))
        × (record_trade_validation env a days venues thresholds passed report f ≢ ok (r', g))
        × (record_holdout_score env a result f ≢ ok (r', g))
  finished_is_final f g a r r' rebuilt days venues thresholds passed report result h = (
    λ e.
        let (fresh, made, files) = open_transaction-ok env a rebuilt f g r' e in
        ground (arith, fresh, h.0),
    λ e.
        let (x, read, state, pinned, made, files) =
          record_trade_validation-ok env a days venues thresholds passed report f g r' e in
        ground (arith, not_finished f a r x frozen h read state),
    λ e.
        let (x, read, state, pinned, made, files) = record_holdout_score-ok env a result f g r' e in
        ground (arith, not_finished f a r x validated h read state),
  )

  load-sealed :
      (r : HoldoutRecord Thresholds)
      → r.version ≡ 1
      → load_record env (some (sealed env r)) ≡ ok (sealed env r)
  unfolding load_record sealed
  load-sealed r h = rw (h, eq_refl) refl

  require-same :
      (r : HoldoutRecord Thresholds) (a : FreezeArtifact Thresholds)
      → verify_freeze env a ≡ ok tt
      → r.artifact_sha256 ≡ a.sha256
      → require_artifact env r a ≡ ok tt
  unfolding require_artifact
  require-same r a h k = rw (h, k, eq_refl a.sha256) refl

  exact-own :
      (r : HoldoutRecord Thresholds) (days venues : List String)
      → all env.is_canonical_day days ≡ true
      → is_sorted_unique days ≡ true
      → r.holdout_scope.days ≡ days
      → r.holdout_scope.venues ≡ venues
      → exact_scope env r days venues ≡ ok tt
  unfolding exact_scope
  exact-own r days venues h k d v =
      rw (h, k, d, v, strings_eq_refl days, strings_eq_refl venues) refl

  open-succeeds :
      (a : FreezeArtifact Thresholds) (f : Files env)
      → verify_freeze env a ≡ ok tt
      → exists (f (record_path_for env a)) ≡ false
      → open_transaction env a (some a.sha256) f
        ≡ ok (
          sealed env (opening env a),
          write_file Thresholds (record_path_for env a) (sealed env (opening env a)) f,
        )
  unfolding open_transaction
  open-succeeds a f verified fresh =
      >>=-of_ok (authorize_freeze env a (some a.sha256)) _
        (>>=-of_ok (verify_freeze env a) _ verified (
          >>=-of_ok (require (str_eq a.sha256 a.sha256) not_reproducible) _
            (require-passes _ not_reproducible (eq_refl a.sha256)) refl))
        (>>=-of_ok (refuse (exists (f (record_path_for env a))) already_exists) _
          (refuse-passes _ already_exists fresh) refl)

  module _ (a : FreezeArtifact Thresholds) (f : Files env) (r : HoldoutRecord Thresholds)
      (there : f (record_path_for env a) ≡ some r) (loaded : load_record env (some r) ≡ ok r)
      (pinned : require_artifact env r a ≡ ok tt) where
    abbrev path : String
    path = record_path_for env a

    read : load_record env (f path) ≡ ok r
    read = ap (load_record env) there ∙ loaded

    validation-succeeds :
        (days venues : List String) (thresholds : Thresholds) (passed : Bool) (report : String)
        → is_state r.state frozen ≡ true
        → exact_scope env r days venues ≡ ok tt
        → env.same_thresholds thresholds r.trade_validation_thresholds ≡ true
        → str_eq report "" ≡ false
        → record_trade_validation env a days venues thresholds passed report f
          ≡ ok (
            sealed env (after_validation env a passed report r),
            write_file Thresholds path (sealed env (after_validation env a passed report r)) f,
          )
    unfolding record_trade_validation
    validation-succeeds days venues thresholds passed report state scope rules given =
        >>=-of_ok (load_record env (f path)) _ read (
          >>=-of_ok (require_artifact env r a) _ pinned (
            >>=-of_ok (require (is_state r.state frozen) already_validated) _
              (require-passes _ already_validated state)
              (>>=-of_ok (exact_scope env r days venues) _ scope (
                >>=-of_ok
                  (require (env.same_thresholds thresholds r.trade_validation_thresholds)
                    other_thresholds)
                  _ (require-passes _ other_thresholds rules)
                  (>>=-of_ok (refuse (str_eq report "") no_report) _
                    (refuse-passes _ no_report given) refl)))))

    score-succeeds :
        (result : String)
        → r.state ≡ validated
        → str_eq result "" ≡ false
        → record_holdout_score env a result f
          ≡ ok (
            sealed env (after_score env a result r),
            write_file Thresholds path (sealed env (after_score env a result r)) f,
          )
    unfolding record_holdout_score
    score-succeeds result state given = >>=-of_ok (load_record env (f path)) _ read (
        >>=-of_ok (require_artifact env r a) _ pinned (
          >>=-of_ok (refuse (is_state r.state validation_failed) validation_failed_before) _
            (refuse-passes _ validation_failed_before
              (ap (λ s. is_state s validation_failed) state))
            (>>=-of_ok (refuse (is_state r.state scored) already_scored) _
              (refuse-passes _ already_scored (ap (λ s. is_state s scored) state))
              (>>=-of_ok (require (is_state r.state validated) not_validated) _
                (require-passes _ not_validated (ap (λ s. is_state s validated) state))
                (>>=-of_ok (refuse (str_eq result "") no_result) _ (refuse-passes _ no_result given)
                  refl)))))

  write_file-there :
      (path : String) (r : HoldoutRecord Thresholds) (f : Files env)
      → write_file Thresholds path r f path ≡ some r
  write_file-there path r f = rw (eq_refl path) refl

  -- A verified artifact that is reproduced, over a holdout with no record yet: it opens the
  -- transaction; a validation that passes over exactly its scope, under its thresholds, is recorded;
  -- the score is recorded; and the file then holds the scored record.
  pub consumed_once :
      (a : FreezeArtifact Thresholds) (report result : String) (f : Files env)
      → verify_freeze env a ≡ ok tt
      → exists (f (record_path_for env a)) ≡ false
      → all env.is_canonical_day a.holdout_scope.days ≡ true
      → is_sorted_unique a.holdout_scope.days ≡ true
      → env.same_thresholds a.trade_validation_thresholds a.trade_validation_thresholds ≡ true
      → str_eq report "" ≡ false
      → str_eq result "" ≡ false
      → (g1 : Files env) × (g2 : Files env) × (g3 : Files env) × (r1 : HoldoutRecord Thresholds)
        × (r2 : HoldoutRecord Thresholds) × (r3 : HoldoutRecord Thresholds) × (open_transaction env
              a
              (some a.sha256)
              f
            ≡ ok (r1, g1))
        × (record_trade_validation env a a.holdout_scope.days a.holdout_scope.venues
              a.trade_validation_thresholds true report g1
            ≡ ok (r2, g2))
        × (record_holdout_score env a result g2 ≡ ok (r3, g3))
        × (r3.state ≡ scored)
        × (g3 (record_path_for env a) ≡ some r3)
  consumed_once a report result f verified fresh days sorted rules report_there result_there =
      let path = record_path_for env a in
      let r1 = sealed env (opening env a) in
      let g1 = write_file Thresholds path r1 f in
      let r2 = sealed env (after_validation env a true report r1) in
      let g2 = write_file Thresholds path r2 g1 in
      let r3 = sealed env (after_score env a result r2) in
      let g3 = write_file Thresholds path r3 g2 in
      (
        g1,
        g2,
        g3,
        r1,
        r2,
        r3,
        open-succeeds a f verified fresh,
        validation-succeeds a g1 r1 (write_file-there path r1 f) (load-sealed (opening env a) refl)
            (require-same r1 a verified (unfold sealed in refl)) a.holdout_scope.days
            a.holdout_scope.venues a.trade_validation_thresholds true report (unfold sealed in refl)
            (exact-own r1 a.holdout_scope.days a.holdout_scope.venues days sorted
              (unfold sealed in refl) (unfold sealed in refl))
            (unfold sealed in rules) report_there,
        score-succeeds a g2 r2 (write_file-there path r2 g1)
            (load-sealed (after_validation env a true report r1) (unfold sealed in refl))
            (require-same r2 a verified (unfold sealed in refl)) result (unfold sealed in refl)
            result_there,
        unfold sealed in refl,
        write_file-there path r3 g2,
      )
