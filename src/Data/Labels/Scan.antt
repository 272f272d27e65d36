-- ===== src/Data/Labels/Scan.antt =====
-- data/labels.py: the barrier scan of one window, against the first touch of the path.
use jepa_btc_forecasting.Prelude.{
  ℕ, ◌≡◌, refl, inl, inr, Bool, ◌||◌, Option, none, some, List, [], ◌∷◌, ltb, if◌then◌else◌,
  Bool-cases,
}
use mathlib.Core.List.{foldl}
use jepa_btc_forecasting.Prelude.Float.{Float}
use jepa_btc_forecasting.Data.Labels.Records.{
  MidPoint, up_barrier, down_barrier, vertical, Resolution, FloatMath, BarrierParams,
}
use jepa_btc_forecasting.Data.Labels.{return_bps, scan}

module _ (fl : Float) (math : FloatMath fl) (params : BarrierParams fl.F) where
  open fl use {F, le}

  -- The points up to the end of a window.
  abbrev pub window : ℕ → List (MidPoint F) → List (MidPoint F)
  window end [] = []
  window end (p ∷ ps) = let rest = window end ps in if ltb end p.ts then [] else p ∷ rest

  module _ (p0 width : F) where
    abbrev pub is_up : MidPoint F → Bool
    is_up p = le width (return_bps fl p0 p.mid)

    abbrev pub is_down : MidPoint F → Bool
    is_down p = le (return_bps fl p0 p.mid) (math.neg width)

    -- The first point of a list that touches a barrier.
    abbrev pub first_touch : List (MidPoint F) → Option (MidPoint F)
    first_touch [] = none
    first_touch (p ∷ ps) =
        let rest = first_touch ps in if is_up p || is_down p then some p else rest

    -- The mid of the last point, or one before all.
    abbrev pub last_mid : F → List (MidPoint F) → F
    last_mid = foldl (λ earlier p. p.mid)

    -- The resolution by the first touch; with none, by the end of the window.
    abbrev pub resolved : ℕ → F → Option (MidPoint F) → Resolution F
    resolved end asof none = record { time = end; ret = return_bps fl p0 asof; label = vertical }
    resolved end asof (some p) = record {
      time = p.ts;
      ret = return_bps fl p0 p.mid;
      label = if is_up p then up_barrier else down_barrier;
    }

    -- The scan resolves a window by the first of its points, in time, that touches a barrier: at that
    -- point's time, with its return, up if the upper barrier is touched. If none does, it resolves at
    -- the end of the window with the return of the last point, or of the as-of mid if it has none.
    pub scan-first_touch :
        (end : ℕ) (asof : F) (ps : List (MidPoint F))
        → scan fl math params p0 width end asof ps
          ≡ resolved end (last_mid asof (window end ps)) (first_touch (window end ps))
    unfolding scan
    scan-first_touch end asof [] = refl
    scan-first_touch end asof (p ∷ ps) = elim (Bool-cases (ltb end p.ts)) [
      | inl late ↦ rw late refl
      | inr inside ↦ rw inside (elim (Bool-cases (is_up p)) [
        | inl up ↦ rw up (rw up refl)
        | inr below ↦ rw below (elim (Bool-cases (is_down p)) [
          | inl down ↦ rw down (rw below refl)
          | inr between ↦ rw between (scan-first_touch end p.mid ps)
        ])
      ])
    ]
