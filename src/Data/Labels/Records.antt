-- ===== src/Data/Labels/Records.antt =====
-- data/labels.py: the points, anchors, rows, parameters and the local variables of the labeler.
use Prim.Native.String.{String}
use jepa_btc_forecasting.Prelude.{ℕ, Option, List}
use jepa_btc_forecasting.Prelude.Float.{Float}

pub record MidPoint (F : Type 0) : Type 0 where
  pub ts : ℕ
  pub mid : F

pub record LabelAnchor (F : Type 0) : Type 0 where
  pub t_event : ℕ
  pub p0 : F

-- +1, -1 and 0
pub data Label : Type 0 where
  up_barrier down_barrier vertical : Label

pub record LabelRow (F : Type 0) : Type 0 where
  pub t_event : ℕ
  pub horizon : String
  pub y_fwd_bps : F
  pub label : Label
  pub t_barrier : ℕ
  pub p0 : F
  pub width_bps : F

pub data RejectReason : Type 0 where
  insufficient_vol_history degenerate_barrier_width : RejectReason

pub record LabelRejection : Type 0 where
  pub t_event : ℕ
  pub horizon : String
  pub reason : RejectReason

pub data LabelOutcome (F : Type 0) : Type 0 where
  labelled : LabelRow F → LabelOutcome F
  dropped : LabelRejection → LabelOutcome F

pub data LabelError : Type 0 where
  no_horizons empty_tag bad_duration shared_duration bad_halflife bad_min_returns bad_width_mult
        bad_vol_floor bad_mid path_out_of_order bad_p0 anchor_not_increasing insufficient_support
        no_path_point p0_mismatch :
      LabelError

-- A horizon's tag and duration; the mapping is a list of them.
abbrev pub Horizon : Type 0
Horizon = String × ℕ

pub record BarrierParams (F : Type 0) : Type 0 where
  pub halflife_ns : ℕ
  pub min_returns : ℕ
  pub width_mult : F
  pub vol_floor_bps : F
  pub horizons : List Horizon

-- What the estimator uses of `math` and of the interpreter beside the arithmetic: the square root,
-- `-x`, `0.5 ** x`, and the quotient of two integers.
pub record FloatMath (fl : Float) : Type 0 where
  pub sqrt : fl.F → fl.F
  pub neg : fl.F → fl.F
  pub half_power : fl.F → fl.F
  pub ratio : ℕ → ℕ → fl.F

-- The local variables of the generator: the buffered points, the points of the path that are left with
-- the lookahead first, and the trailing estimator.
pub record Labeler (F : Type 0) : Type 0 where
  pub pts : List (MidPoint F)
  pub path : List (MidPoint F)
  pub prev_raw_ts : Option ℕ
  pub ewma_s : F
  pub ewma_w : F
  pub n_returns : ℕ
  pub last : Option (MidPoint F)
  pub prev_t : Option ℕ

-- The resolution of a window: the label, its return and its time.
pub record Resolution (F : Type 0) : Type 0 where
  pub time : ℕ
  pub ret : F
  pub label : Label
