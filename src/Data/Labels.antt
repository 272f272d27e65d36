-- ===== src/Data/Labels.antt =====
-- data/labels.py: forward returns and triple-barrier labels. Timestamps, durations and counts are
-- natural numbers and a path point is a pair, so that the checks of a raw value's type have no
-- counterpart; the detail text of a rejection is left out. A run is the rows that the generator
-- yields, its state after the last anchor that was finished, and the error that ends it, if any.
pub mod Records
pub mod Scan
pub mod Path
pub mod Buffer
pub mod Reference
pub mod Anchor
pub mod Rows
pub mod Total
use Prim.Native.String.{String}
use text.Mathlib.Text.{◌==◌ as str_eq}
use jepa_btc_forecasting.Prelude.{
  ℕ, ◌+◌, ◌-◌, Bool, true, false, ◌&&◌, Option, none, some, List, [], ◌∷◌, ◌++◌, map, ltb, leb,
  ◌==◌, if◌then◌else◌, Result, ok, err, ◌>>=◌, ◌>>◌, refuse, require, any,
}
use jepa_btc_forecasting.Prelude.Float.{Float}
use jepa_btc_forecasting.Prelude.Sort.{sort}
use jepa_btc_forecasting.Data.Labels.Records.{
  BarrierParams, FloatMath, Horizon, Label, LabelAnchor, LabelError, LabelOutcome, LabelRejection,
  LabelRow, Labeler, MidPoint, RejectReason, Resolution, anchor_not_increasing, bad_duration,
  bad_halflife, bad_mid, bad_min_returns, bad_p0, bad_vol_floor, bad_width_mult,
  degenerate_barrier_width, down_barrier, dropped, empty_tag, insufficient_support,
  insufficient_vol_history, labelled, no_horizons, no_path_point, p0_mismatch, path_out_of_order,
  shared_duration, up_barrier, vertical,
}

-- `prev is not None and ts < prev`, and `t <= prev`
abbrev pub falls : Option ℕ → ℕ → Bool
falls none ts = false
falls (some prev) ts = ltb ts prev

abbrev pub repeats : Option ℕ → ℕ → Bool
repeats none t = false
repeats (some prev) t = leb t prev

-- The loop over the horizons, with the durations seen so far.
unfoldable pub check_horizons : List ℕ → List Horizon → Result LabelError (Unit {0})
check_horizons seen [] = ok tt
check_horizons seen ((tag, ns) ∷ hs) = do
  refuse (str_eq tag "") empty_tag
  refuse (leb ns 0) bad_duration
  refuse (any (λ m. m == ns) seen) shared_duration
  check_horizons (ns ∷ seen) hs

abbrev pub has_horizons : List Horizon → Bool
has_horizons [] = false
has_horizons (h ∷ hs) = true

-- `sorted(horizons.items(), key=duration)`
unfoldable pub ladder_of : List Horizon → List Horizon
ladder_of hs = sort (λ a b. leb a.1 b.1) hs

-- `ladder[-1][1]`
unfoldable pub max_horizon : List Horizon → ℕ
max_horizon [] = 0
max_horizon (h ∷ []) = h.1
max_horizon (h ∷ k ∷ hs) = max_horizon (k ∷ hs)

module _ (fl : Float) where
  open fl use {F, of_ℕ, add, sub, mul, div, eq, lt, le, is_finite}

  unfoldable pub validate_barrier_params : BarrierParams F → Result LabelError (Unit {0})
  unfolding check_horizons
  validate_barrier_params p = do
    require (has_horizons p.horizons) no_horizons
    check_horizons [] p.horizons
    refuse (leb p.halflife_ns 0) bad_halflife
    refuse (ltb p.min_returns 1) bad_min_returns
    require (is_finite p.width_mult && lt (of_ℕ 0) p.width_mult) bad_width_mult
    require (is_finite p.vol_floor_bps && le (of_ℕ 0) p.vol_floor_bps) bad_vol_floor
    ok tt

  -- (mid - p0) / p0 * 1e4
  abbrev pub return_bps : F → F → F
  return_bps p0 mid = mul (div (sub mid p0) p0) (of_ℕ 10000)

  unfoldable pub validated_point : MidPoint F → Option ℕ → Result LabelError (Unit {0})
  validated_point p prev_ts = do
    require (is_finite p.mid && lt (of_ℕ 0) p.mid) bad_mid
    refuse (falls prev_ts p.ts) path_out_of_order
    ok tt

  module _ (math : FloatMath fl) (params : BarrierParams F) where
    -- The update of `fold` once there is an earlier point.
    abbrev pub fold_after : Option (MidPoint F) → MidPoint F → Labeler F → Labeler F
    fold_after none p s = s
    fold_after (some last) p s =
        let r = return_bps last.mid p.mid in
        let d = math.half_power (math.ratio (p.ts - last.ts) params.halflife_ns) in
        record s {
          ewma_s = add (mul d s.ewma_s) (mul r r);
          ewma_w = add (mul d s.ewma_w) (of_ℕ 1);
          n_returns = s.n_returns + 1;
        }

    unfoldable pub fold : MidPoint F → Labeler F → Labeler F
    fold p s = record (fold_after s.last p s) { last = some p }

    -- `while pts and pts[0][0] <= t_event: fold(*pts.popleft())`
    unfoldable pub fold_buffered : ℕ → List (MidPoint F) → Labeler F → Labeler F
    unfolding fold
    fold_buffered t [] s = record s { pts = [] }
    fold_buffered t (p ∷ ps) s =
        let rest = fold_buffered t ps (fold p s) in
        if leb p.ts t then rest else record s { pts = p ∷ ps }

    -- The end of a round of the pull: a point up to the anchor is folded, a later one buffered.
    unfoldable pub place : ℕ → MidPoint F → Labeler F → Labeler F
    unfolding fold
    place t p s = if leb p.ts t then fold p s else record s { pts = s.pts ++ p ∷ [] }

    -- The pull of the path up to `bound`, in a round whose point so far is `cur`: points of the same
    -- timestamp replace it, and the first one of another timestamp ends the round.
    unfoldable pub pull_round :
        ℕ → ℕ → MidPoint F → List (MidPoint F) → Labeler F → Result LabelError (Labeler F)
    unfolding validated_point place
    pull_round t bound cur [] s =
        ok (place t cur (record s { path = []; prev_raw_ts = some cur.ts }))
    pull_round t bound cur (q ∷ qs) s =
        let same = (validated_point q (some cur.ts) >> pull_round t bound q qs s) in
        let s' = place t cur (record s { path = q ∷ qs; prev_raw_ts = some cur.ts }) in
        let next = (validated_point q (some cur.ts) >> pull_round t bound q qs s') in
        if q.ts == cur.ts then same else if ltb bound q.ts then ok s' else next

    unfoldable pub pull : ℕ → ℕ → List (MidPoint F) → Labeler F → Result LabelError (Labeler F)
    unfolding pull_round validated_point
    pull t bound [] s = ok s
    pull t bound (p ∷ ps) s =
        if ltb bound p.ts
        then ok s
        else (validated_point p s.prev_raw_ts >> pull_round t bound p ps s)

    -- The scan of a window that ends at `end`, from the as-of mid so far.
    unfoldable pub scan : F → F → ℕ → F → List (MidPoint F) → Resolution F
    scan p0 width end asof [] = record { time = end; ret = return_bps p0 asof; label = vertical }
    scan p0 width end asof (p ∷ ps) =
        let rest = scan p0 width end p.mid ps in
        let ret = return_bps p0 p.mid in
        if ltb end p.ts
        then record { time = end; ret = return_bps p0 asof; label = vertical }
        else if le width ret
        then record { time = p.ts; ret = ret; label = up_barrier }
        else if le ret (math.neg width)
        then record { time = p.ts; ret = ret; label = down_barrier }
        else rest

    abbrev pub row_of : ℕ → F → F → String → Resolution F → LabelRow F
    row_of t p0 width tag r = record {
      t_event = t;
      horizon = tag;
      y_fwd_bps = r.ret;
      label = r.label;
      t_barrier = r.time;
      p0 = p0;
      width_bps = width;
    }

    -- `max(vol_bps, params.vol_floor_bps)`
    abbrev pub floored : F → F
    floored vol = if lt vol params.vol_floor_bps then params.vol_floor_bps else vol

    abbrev pub width_of : Labeler F → F
    width_of s = mul params.width_mult (floored (math.sqrt (div s.ewma_s s.ewma_w)))

    abbrev pub drop_all : ℕ → RejectReason → List Horizon → List (LabelOutcome F)
    drop_all t reason = map (λ h. dropped (record { t_event = t; horizon = h.0; reason = reason }))

    -- The rows of an anchor, once its checks have passed.
    unfoldable pub label_rows : List Horizon → LabelAnchor F → Labeler F → List (LabelOutcome F)
    unfolding scan
    label_rows ladder a s =
        let width = width_of s in
        if ltb s.n_returns params.min_returns
        then drop_all a.t_event insufficient_vol_history ladder
        else if le width (of_ℕ 0)
        then drop_all a.t_event degenerate_barrier_width ladder
        else map
            (λ h.
              labelled
                (row_of a.t_event a.p0 width h.0 (scan a.p0 width (a.t_event + h.1) a.p0 s.pts)))
            ladder

    abbrev pub check_p0 : Option (MidPoint F) → F → Result LabelError (Unit {0})
    check_p0 none p0 = err no_path_point
    check_p0 (some last) p0 = require (eq last.mid p0) p0_mismatch

    -- The body of the loop over the anchors, up to its rows.
    unfoldable pub anchor_step :
        ℕ → List Horizon → LabelAnchor F → Labeler F → Result LabelError (Labeler F)
    unfolding fold_buffered pull
    anchor_step coverage_end ladder a s = do
      require (is_finite a.p0 && lt (of_ℕ 0) a.p0) bad_p0
      refuse (repeats s.prev_t a.t_event) anchor_not_increasing
      refuse (ltb coverage_end (a.t_event + max_horizon ladder)) insufficient_support
      let folded = fold_buffered a.t_event s.pts (record s { prev_t = some a.t_event })
      s' ← pull a.t_event (a.t_event + max_horizon ladder) folded.path folded
      check_p0 s'.last a.p0
      ok s'

    pub record LabelRun : Type 0 where
      pub rows : List (LabelOutcome F)
      pub labeler : Labeler F
      pub raised : Option LabelError

    abbrev pub continue_with :
        Labeler F → Result LabelError (Labeler F) → (Labeler F → LabelRun) → LabelRun
    continue_with s (err e) next = record { rows = []; labeler = s; raised = some e }
    continue_with s (ok s') next = next s'

    abbrev pub with_rows : List (LabelOutcome F) → LabelRun → LabelRun
    with_rows rows run = record run { rows = rows ++ run.rows }

    -- `_label_iter`
    unfoldable pub label_iter : ℕ → List Horizon → List (LabelAnchor F) → Labeler F → LabelRun
    unfolding anchor_step label_rows
    label_iter coverage_end ladder [] s = record { rows = []; labeler = s; raised = none }
    label_iter coverage_end ladder (a ∷ as') s =
        continue_with s (anchor_step coverage_end ladder a s)
          (λ s'. with_rows (label_rows ladder a s') (label_iter coverage_end ladder as' s'))

    abbrev pub unopened : List (MidPoint F) → Labeler F
    unopened path = record {
      pts = [];
      path = path;
      prev_raw_ts = none;
      ewma_s = of_ℕ 0;
      ewma_w = of_ℕ 0;
      n_returns = 0;
      last = none;
      prev_t = none;
    }

    -- `triple_barrier_labels`
    unfoldable pub triple_barrier_labels :
        List (MidPoint F) → List (LabelAnchor F) → ℕ → Result LabelError LabelRun
    unfolding validate_barrier_params label_iter ladder_of
    triple_barrier_labels path anchors coverage_end = do
      validate_barrier_params params
      ok (label_iter coverage_end (ladder_of params.horizons) anchors (unopened path))
