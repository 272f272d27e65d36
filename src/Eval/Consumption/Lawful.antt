-- ===== src/Eval/Consumption/Lawful.antt =====
-- eval/consumption.py: the histories that any sequence of operations can write.
use Prim.Native.String.{String}
use mathlib.Core.Path.{subst}
use text.Mathlib.Text.{◌==◌ as str_eq}
use jepa_btc_forecasting.Prelude.{
  ◌≡◌, refl, sym, ap, ◌∙◌, inl, inr, Bool, true, false, Option, none, some, List, [], ◌∷◌, ◌++◌,
  arith, Bool-cases, ok,
}
use jepa_btc_forecasting.Eval.Consumption.Store.{
  HoldoutState, frozen, validated, validation_failed, scored, HistoryEvent, opened,
  trade_validation, holdout_score, FreezeArtifact, HoldoutRecord, write_file,
}
use jepa_btc_forecasting.Eval.Consumption.{
  HoldoutEnv, Files, sealed, open_transaction, record_trade_validation, record_holdout_score,
}
use jepa_btc_forecasting.Eval.Consumption.Steps.{
  after_validation, after_score, open_transaction-ok, record_trade_validation-ok,
  record_holdout_score-ok,
}

-- The history of a record in each state, with the artifact that it pins.
abbrev pub IsHistory : HoldoutState → String → List HistoryEvent → Type 0
IsHistory frozen artifact h = h ≡ opened artifact ∷ []
IsHistory validated artifact h =
    (report : String) × (h ≡ opened artifact ∷ trade_validation true report artifact ∷ [])
IsHistory validation_failed artifact h =
    (report : String) × (h ≡ opened artifact ∷ trade_validation false report artifact ∷ [])
IsHistory scored artifact h =
    (report : String) × (result : String) × (h
      ≡ opened artifact
        ∷ trade_validation true report artifact
        ∷ holdout_score result artifact
        ∷ [])

module _ {Thresholds : Type 0} (env : HoldoutEnv Thresholds) where
  -- One operation that succeeds, with any arguments.
  pub data Step (f g : Files env) : Type 0 where
    open_step :
        (a : FreezeArtifact Thresholds) (rebuilt : Option String) (r : HoldoutRecord Thresholds)
        → open_transaction env a rebuilt f ≡ ok (r, g)
        → Step f g
    validate_step :
        (a : FreezeArtifact Thresholds) (days venues : List String) (thresholds : Thresholds)
        (passed : Bool) (report : String) (r : HoldoutRecord Thresholds)
        → record_trade_validation env a days venues thresholds passed report f ≡ ok (r, g)
        → Step f g
    score_step :
        (a : FreezeArtifact Thresholds) (result : String) (r : HoldoutRecord Thresholds)
        → record_holdout_score env a result f ≡ ok (r, g)
        → Step f g

  pub data Reach (f : Files env) : Files env → Type 0 where
    here : Reach f f
    next : {g h : Files env} → Reach f g → Step g h → Reach f h

  abbrev pub IsLawful : HoldoutRecord Thresholds → Type 0
  IsLawful r = IsHistory r.state r.artifact_sha256 r.history

  abbrev pub AllLawful : Files env → Type 0
  AllLawful f = (p : String) (r : HoldoutRecord Thresholds) → f p ≡ some r → IsLawful r

  write-AllLawful :
      (f : Files env) (path : String) (r : HoldoutRecord Thresholds)
      → AllLawful f
      → IsLawful r
      → AllLawful (write_file Thresholds path r f)
  write-AllLawful f path r h k p x e = elim (Bool-cases (str_eq path p)) [
    | inl same ↦ let written : r ≡ x = ground (arith, e, same) in subst IsLawful written k
    | inr other ↦ h p x (ground (arith, e, other))
  ]

  validated-IsLawful :
      (a : FreezeArtifact Thresholds) (passed : Bool) (report : String)
      (r : HoldoutRecord Thresholds)
      → r.state ≡ frozen
      → a.sha256 ≡ r.artifact_sha256
      → IsLawful r
      → IsLawful (sealed env (after_validation env a passed report r))
  unfolding sealed
  validated-IsLawful a true report r s e h =
      let before = subst (λ x. IsHistory x r.artifact_sha256 r.history) s h in
      (report, rw (before, e) refl)
  validated-IsLawful a false report r s e h =
      let before = subst (λ x. IsHistory x r.artifact_sha256 r.history) s h in
      (report, rw (before, e) refl)

  scored-IsLawful :
      (a : FreezeArtifact Thresholds) (result : String) (r : HoldoutRecord Thresholds)
      → r.state ≡ validated
      → a.sha256 ≡ r.artifact_sha256
      → IsLawful r
      → IsLawful (sealed env (after_score env a result r))
  unfolding sealed
  scored-IsLawful a result r s e h =
      let (report, before) = subst (λ x. IsHistory x r.artifact_sha256 r.history) s h in
      (report, result, ap (λ l. l ++ holdout_score result a.sha256 ∷ []) before ∙ rw e refl)

  Step-AllLawful : {f g : Files env} → Step f g → AllLawful f → AllLawful g
  Step-AllLawful {f} {g} (open_step a rebuilt r e) h =
      let (fresh, made, files) = open_transaction-ok env a rebuilt f g r e in
      subst AllLawful (sym files)
        (write-AllLawful f _ r h (subst IsLawful (sym made) (unfold sealed in refl)))
  Step-AllLawful {f} {g} (validate_step a days venues thresholds passed report r' e) h =
      let (r, read, state, pinned, made, files) =
        record_trade_validation-ok env a days venues thresholds passed report f g r' e in
      subst AllLawful (sym files) (
        write-AllLawful f _ r' h (
          subst IsLawful (sym made)
            (validated-IsLawful a passed report r state pinned (h _ r read))))
  Step-AllLawful {f} {g} (score_step a result r' e) h =
      let (r, read, state, pinned, made, files) = record_holdout_score-ok env a result f g r' e in
      subst AllLawful (sym files) (
        write-AllLawful f _ r' h
          (subst IsLawful (sym made) (scored-IsLawful a result r state pinned (h _ r read))))

  -- Whatever operations run in whatever order from an empty directory, each record's history is that of
  -- its state: opened once; then at most one validation; a score only after a validation that passed,
  -- and at most one; all under the artifact that the record pins.
  pub Reach-AllLawful : (f : Files env) → Reach (λ p. none) f → AllLawful f
  Reach-AllLawful f here = λ p r e. absurd (cc)
  Reach-AllLawful f (next {g = g} r st) = Step-AllLawful st (Reach-AllLawful g r)
