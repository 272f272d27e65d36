-- ===== src/Data/Labels/Anchor.antt =====
-- data/labels.py: one anchor of the streaming labeler, and the streams at which it never raises.
use mathlib.Core.Path.{subst}
use jepa_btc_forecasting.Prelude.{
  ℕ, ◌+◌, ◌≤◌, ◌≡◌, sym, ap, false, Option, none, some, List, ltb, arith, ok, >>=-eq-ok, require,
  refuse, refuse-ok, ◌&&◌,
}
use jepa_btc_forecasting.Prelude.Float.{Float}
use jepa_btc_forecasting.Data.Labels.Records.{
  MidPoint, Labeler, FloatMath, BarrierParams, LabelAnchor, Horizon, bad_p0, anchor_not_increasing,
  insufficient_support,
}
use jepa_btc_forecasting.Data.Labels.{
  fold_buffered, pull, label_rows, anchor_step, max_horizon, repeats, check_p0,
}
use jepa_btc_forecasting.Data.Labels.Buffer.{pulled}
use jepa_btc_forecasting.Data.Labels.Reference.{Buffered, Since, reference, Agrees, pull-Buffered}

module _ (fl : Float) (math : FloatMath fl) (params : BarrierParams fl.F)
    (path : List (MidPoint fl.F)) where
  open fl use {F, of_ℕ, lt, is_finite}

  pub Since-le : (prev : Option ℕ) (t0 t : ℕ) → repeats prev t ≡ false → Since prev t0 → t0 ≤ t
  Since-le none t0 t k e = omega arith
  Since-le (some p) t0 t k e = ground arith

  pub label_rows-Agrees :
      (ladder : List Horizon) (longest : ℕ) (a : LabelAnchor F) (s : Labeler F)
      → Agrees fl math params path longest a.t_event s
      → label_rows fl math params ladder a s
        ≡ label_rows fl math params ladder a (reference fl math params path longest a.t_event)
  unfolding label_rows
  label_rows-Agrees ladder longest a s h = ap (label_rows fl math params ladder a) (sym h)

  pub anchor_step-Buffered :
      (coverage_end : ℕ) (ladder : List Horizon) (a : LabelAnchor F) (t0 : ℕ) (s s' : Labeler F)
      → Buffered fl math params path (max_horizon ladder) t0 s
      → anchor_step fl math params coverage_end ladder a s ≡ ok s'
      → Buffered fl math params path (max_horizon ladder) a.t_event s'
        × (label_rows fl math params ladder a s'
            ≡ label_rows fl math params ladder a
                (reference fl math params path (max_horizon ladder) a.t_event))
  unfolding anchor_step
  anchor_step-Buffered coverage_end ladder a t0 s s' b h =
      let t = a.t_event in
      let longest = max_horizon ladder in
      let folded = fold_buffered fl math params t s.pts (record s { prev_t = some t }) in
      let (u1, positive, h1) =
        >>=-eq-ok (require (is_finite a.p0 && lt (of_ℕ 0) a.p0) bad_p0) _ h in
      let (u2, fresh, h2) = >>=-eq-ok (refuse (repeats s.prev_t t) anchor_not_increasing) _ h1 in
      let (u3, supported, h3) =
        >>=-eq-ok (refuse (ltb coverage_end (t + longest)) insufficient_support) _ h2 in
      let (mid, pulled, h4) =
        >>=-eq-ok (pull fl math params t (t + longest) folded.path folded) _ h3 in
      let (u5, based, h5) = >>=-eq-ok (check_p0 fl math params mid.last a.p0) _ h4 in
      let same : mid ≡ s' = ground (arith, h5) in
      let le = Since-le s.prev_t t0 t (refuse-ok _ anchor_not_increasing fresh) b.since in
      let (buffered, agrees) = pull-Buffered fl math params path longest t0 t s mid b le pulled in
      subst
        (λ z.
          Buffered fl math params path longest t z
          × (label_rows fl math params ladder a z
              ≡ label_rows fl math params ladder a (reference fl math params path longest t)))
        same (buffered, label_rows-Agrees ladder longest a mid agrees)
