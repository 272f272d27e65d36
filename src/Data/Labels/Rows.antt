-- ===== src/Data/Labels/Rows.antt =====
-- data/labels.py: the rows of a run, against those computed from the whole path at each anchor.
use mathlib.Core.Path.{subst, ap₂}
use jepa_btc_forecasting.Prelude.{
  ℕ, ◌≡◌, refl, ap, inl, none, List, [], ◌∷◌, ◌++◌, arith, Result, ok, err, >>=-eq-ok,
}
use jepa_btc_forecasting.Prelude.Float.{Float}
use jepa_btc_forecasting.Data.Labels.Records.{
  MidPoint, Labeler, LabelError, FloatMath, BarrierParams, LabelAnchor, Horizon, LabelOutcome,
}
use jepa_btc_forecasting.Data.Labels.{
  LabelRun, unopened, label_rows, anchor_step, max_horizon, label_iter, triple_barrier_labels,
  ladder_of, validate_barrier_params, continue_with, with_rows,
}
use jepa_btc_forecasting.Data.Labels.Anchor.{anchor_step-Buffered}
use jepa_btc_forecasting.Data.Labels.Reference.{Buffered, reference}

module _ (fl : Float) (math : FloatMath fl) (params : BarrierParams fl.F)
    (path : List (MidPoint fl.F)) where
  open fl use {F}

  -- The rows of the anchors, each from the labeler that the whole path gives.
  pub reference_rows : List Horizon → List (LabelAnchor F) → List (LabelOutcome F)
  reference_rows ladder [] = []
  reference_rows ladder (a ∷ as') =
      label_rows fl math params ladder a
        (reference fl math params path (max_horizon ladder) a.t_event)
      ++ reference_rows ladder as'

  -- The rows of a run are those of the anchors before the one, if any, at which it raises.
  pub record IsReference (ladder : List Horizon) (anchors : List (LabelAnchor F))
      (run : LabelRun fl math params) : Type 0 where
    pub finished : List (LabelAnchor F)
    pub left : List (LabelAnchor F)
    pub joined : finished ++ left ≡ anchors
    pub rows : run.rows ≡ reference_rows ladder finished
    pub complete : run.raised ≡ none → left ≡ []

  label_iter-IsReference :
      (coverage_end : ℕ) (ladder : List Horizon) (anchors : List (LabelAnchor F)) (t0 : ℕ)
      (s : Labeler F)
      → Buffered fl math params path (max_horizon ladder) t0 s
      → IsReference ladder anchors (label_iter fl math params coverage_end ladder anchors s)
  unfolding label_iter reference_rows
  label_iter-IsReference coverage_end ladder [] t0 s b = record {
    finished = [];
    left = [];
    joined = refl;
    rows = refl;
    complete = λ h. refl;
  }
  label_iter-IsReference coverage_end ladder (a ∷ as') t0 s b =
      at (anchor_step fl math params coverage_end ladder a s)
        (λ s'. anchor_step-Buffered fl math params path coverage_end ladder a t0 s s' b)
        (label_iter-IsReference coverage_end ladder as' a.t_event)
    where
      at :
          (r : Result LabelError (Labeler F))
          → ((s' : Labeler F)
              → r ≡ ok s'
              → Buffered fl math params path (max_horizon ladder) a.t_event s'
                × (label_rows fl math params ladder a s'
                    ≡ label_rows fl math params ladder a
                        (reference fl math params path (max_horizon ladder) a.t_event)))
          → ((s' : Labeler F)
              → Buffered fl math params path (max_horizon ladder) a.t_event s'
              → IsReference ladder as' (label_iter fl math params coverage_end ladder as' s'))
          → IsReference ladder (a ∷ as') (
              continue_with fl math params s r (λ s'.
                with_rows fl math params
                  (label_rows fl math params ladder a s')
                  (label_iter fl math params coverage_end ladder as' s')))
      at (err e) step more = record {
        finished = [];
        left = a ∷ as';
        joined = refl;
        rows = refl;
        complete = λ h. cc;
      }
      at (ok s') step more =
          let (buffered, row) = step s' refl in
          let rest = more s' buffered in
          record {
            finished = a ∷ rest.finished;
            left = rest.left;
            joined = ap (◌∷◌ a) rest.joined;
            rows = ap₂ ◌++◌ row rest.rows;
            complete = rest.complete;
          }

  pub unopened-Buffered :
      (longest : ℕ) → Buffered fl math params path longest 0 (unopened fl math params path)
  unopened-Buffered longest = record {
    taken = [];
    joined = refl;
    up_to = tt;
    rises = tt;
    apart = inl refl;
    state = refl;
    since = refl;
  }

  -- The rows that the streaming labeler yields, up to the anchor at which it may raise, are those that
  -- each anchor has on its own from the whole path: an estimator folded over the points up to the
  -- anchor, and the points after it up to the end of the longest window, the path cut at that end and
  -- with the last of neighbours of one timestamp only. A run that does not raise has them all.
  pub triple_barrier_labels-IsReference :
      (anchors : List (LabelAnchor F)) (coverage_end : ℕ) (run : LabelRun fl math params)
      → triple_barrier_labels fl math params path anchors coverage_end ≡ ok run
      → IsReference (ladder_of params.horizons) anchors run
  unfolding triple_barrier_labels
  triple_barrier_labels-IsReference anchors coverage_end run h =
      let (u, valid, done) = >>=-eq-ok (validate_barrier_params fl params) _ h in
      let made : label_iter fl math params coverage_end (ladder_of params.horizons) anchors
            (unopened fl math params path)
          ≡ run =
        ground (arith, done) in
      subst (IsReference (ladder_of params.horizons) anchors) made (
        label_iter-IsReference coverage_end (ladder_of params.horizons) anchors 0
          (unopened fl math params path)
          (unopened-Buffered (max_horizon (ladder_of params.horizons))))
