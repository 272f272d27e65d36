-- ===== src/Tests/Barriers.antt =====
-- data/labels.py at a concrete window.
use jepa_btc_forecasting.Prelude.{ℕ, ◌≡◌, refl, List, [], ◌∷◌, ◌/◌, ok, none, length, arith}
use jepa_btc_forecasting.Prelude.Float.{whole}
use jepa_btc_forecasting.Data.Labels.Records.{MidPoint, FloatMath, BarrierParams, LabelAnchor}
use jepa_btc_forecasting.Data.Labels.{
  scan, LabelRun, label_iter, unopened, triple_barrier_labels, ladder_of, max_horizon,
}
use jepa_btc_forecasting.Prelude.Sort.{sort, insert}
use jepa_btc_forecasting.Data.Labels.Total.{AreValid, AreSupported, triple_barrier_labels-total}
use jepa_btc_forecasting.Data.Labels.{validate_barrier_params, validated_point, fold}
use jepa_btc_forecasting.Data.Labels.Rows.{
  reference_rows, IsReference, triple_barrier_labels-IsReference,
}
use jepa_btc_forecasting.Data.Labels.Scan.{
  window, first_touch, last_mid, resolved, scan-first_touch,
}

-- The negation of a whole number is zero, and the halving has no effect.
abbrev plain : FloatMath whole
plain = record { sqrt = λ x. x; neg = λ x. 0; half_power = λ x. 1; ratio = λ a b. a / b }

abbrev barriers : BarrierParams ℕ
barriers = record {
  halflife_ns = 10;
  min_returns = 1;
  width_mult = 1;
  vol_floor_bps = 0;
  horizons = ("2s", 5) ∷ [];
}

abbrev mids : List (MidPoint ℕ)
mids = record { ts = 3; mid = 101 } ∷ record { ts = 4; mid = 130 } ∷ []

scan-first_touch_example :
    scan whole plain barriers 100 20 5 100 mids
    ≡ resolved whole plain barriers 100 20 5
        (last_mid whole plain barriers 100 20 100 (window whole plain barriers 5 mids))
        (first_touch whole plain barriers 100 20 (window whole plain barriers 5 mids))
scan-first_touch_example = scan-first_touch whole plain barriers 100 20 5 100 mids

-- Two points of one timestamp, of which the later is the state, and a touch of the upper barrier.
abbrev path : List (MidPoint ℕ)
path =
    record { ts = 1; mid = 100 }
    ∷ record { ts = 2; mid = 90 }
    ∷ record { ts = 2; mid = 200 }
    ∷ record { ts = 4; mid = 900 }
    ∷ []

abbrev anchors : List (LabelAnchor ℕ)
anchors = record { t_event = 2; p0 = 200 } ∷ []

abbrev run : LabelRun whole plain barriers
run =
    label_iter whole plain barriers 10 (("2s", 5) ∷ []) anchors (unopened whole plain barriers path)

runs : triple_barrier_labels whole plain barriers path anchors 10 ≡ ok run
unfolding triple_barrier_labels sort insert
runs = refl

triple_barrier_labels-IsReference_example :
    IsReference whole plain barriers path (ladder_of (("2s", 5) ∷ [])) anchors run
triple_barrier_labels-IsReference_example =
    triple_barrier_labels-IsReference whole plain barriers path anchors 10 run runs

-- The run raises nothing and yields one row.
finishes : (run.raised ≡ none) × (length run.rows ≡ 1)
unfolding label_iter max_horizon
finishes = (refl, refl)

parameters_valid : validate_barrier_params whole barriers ≡ ok tt
unfolding validate_barrier_params
parameters_valid = refl

path_valid : AreValid whole plain barriers none path
unfolding validated_point
path_valid = (refl, (refl, (refl, (refl, tt))))

anchors_supported :
    AreSupported whole plain barriers path 10
      (max_horizon (ladder_of (("2s", 5) ∷ [])))
      none
      anchors
unfolding max_horizon ladder_of sort insert fold
anchors_supported = (refl, refl, omega arith, refl, tt)

triple_barrier_labels-total_example :
    (r : LabelRun whole plain barriers) × (triple_barrier_labels whole plain barriers path anchors
        10
      ≡ ok r)
    × (r.raised ≡ none)
    × (r.rows ≡ reference_rows whole plain barriers path (ladder_of (("2s", 5) ∷ [])) anchors)
triple_barrier_labels-total_example =
    triple_barrier_labels-total whole plain barriers path 10 anchors parameters_valid path_valid
      anchors_supported
