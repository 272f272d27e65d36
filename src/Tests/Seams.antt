-- ===== src/Tests/Seams.antt =====
-- recon/stitch_policy.py at concrete days.
use jepa_btc_forecasting.Prelude.{
  ℕ, ◌+◌, ◌-◌, ◌≤◌, ◌≡◌, refl, true, false, none, some, List, [], ◌∷◌, arith, ok,
}
use jepa_btc_forecasting.Prelude.Int.{wrap_i64}
use jepa_btc_forecasting.Prelude.Float.{whole}
use jepa_btc_forecasting.Recon.Stitch.{
  vendor_source_at, Source, lake, coinapi, Segment, SeamPolicy, lake_trusted, missing_leading,
  warmup_qualified_ts, qualified_from, label_valid, feature_valid, window_crosses_seam, seam_guard,
  window_vendor_sources, seams_of, same_source,
}
use jepa_btc_forecasting.Recon.Stitch.Warmup.{warmup_qualified_ts-append}
use jepa_btc_forecasting.Recon.Stitch.Windows.{
  vendor_source_at-window_vendor_sources, IsSingle, window_vendor_sources-IsSingle,
}
use jepa_btc_forecasting.Recon.Stitch.Guards.{label_valid_lem, feature_valid_lem}
use jepa_btc_forecasting.Recon.Stitch.Plan.{DayStitchPlan, plan_day_stitch}
use jepa_btc_forecasting.Recon.Stitch.Masks.{is_regular}
use jepa_btc_forecasting.Recon.Stitch.Partition.{IsPlanOf, plan_day_stitch-IsPlanOf}

warmup_qualified_ts-append_example :
    warmup_qualified_ts ((10, true) ∷ (20, true) ∷ (30, true) ∷ (40, false) ∷ []) (some 15) 2
    ≡ some 30
warmup_qualified_ts-append_example =
    warmup_qualified_ts-append ((10, true) ∷ (20, true) ∷ (30, true) ∷ []) ((40, false) ∷ [])
      (some 15) 2 30 (unfold warmup_qualified_ts qualified_from in refl)

label_valid_example :
    (window_crosses_seam 30 (30 + 10) (20 ∷ 60 ∷ []) ≡ false)
    × ((u : ℕ) → u ≤ 10 → seam_guard (20 ∷ 60 ∷ []) 5 (30 + u) ≡ false)
label_valid_example =
    label_valid_lem (20 ∷ 60 ∷ []) 10 5 30 (omega arith) (unfold label_valid wrap_i64 in refl)

feature_valid_example :
    (window_crosses_seam (40 - 10) 40 (20 ∷ 60 ∷ []) ≡ false)
    × ((u : ℕ) → u ≤ 10 → seam_guard (20 ∷ 60 ∷ []) 5 (40 - u) ≡ false)
feature_valid_example =
    feature_valid_lem (20 ∷ 60 ∷ []) 10 5 40 (omega arith) (unfold feature_valid in refl)

abbrev fill : Segment
fill = record { source = coinapi; start_ts = 0; end_ts = 20; reason = missing_leading }

abbrev trusted : Segment
trusted = record { source = lake; start_ts = 20; end_ts = 60; reason = lake_trusted }

window_vendor_sources-IsSingle_example :
    (sources : List Source) × (window_vendor_sources 25 35 fill (trusted ∷ []) ≡ ok sources)
    × IsSingle sources
window_vendor_sources-IsSingle_example =
    window_vendor_sources-IsSingle 0 60 25 35 fill (trusted ∷ [])
      (refl, omega arith, (refl, omega arith, refl)) (omega arith) (omega arith) (omega arith)
      (unfold window_crosses_seam seams_of same_source in refl)

abbrev policy : SeamPolicy ℕ
policy = record {
  seam_guard_ns = 5;
  warmup_consecutive = 2;
  fill_min_ns = 20;
  min_lake_segment_ns = 20;
  span_invalid_max = 1;
}

plan_day_stitch-IsPlanOf_example :
    (plan : DayStitchPlan) × (plan_day_stitch whole
        (0 ∷ 10 ∷ 20 ∷ 30 ∷ 40 ∷ [])
        (false ∷ false ∷ true ∷ true ∷ true ∷ [])
        10
        true
        (some 0)
        true
        policy
        none
      ≡ ok plan)
    × IsPlanOf 10 (0 ∷ 10 ∷ 20 ∷ 30 ∷ 40 ∷ []) plan
plan_day_stitch-IsPlanOf_example =
    plan_day_stitch-IsPlanOf whole policy 10 (0 ∷ 10 ∷ 20 ∷ 30 ∷ 40 ∷ [])
      (false ∷ false ∷ true ∷ true ∷ true ∷ []) true (some 0) true none (omega arith)
      (unfold is_regular in refl) (omega arith) refl refl

vendor_source_at-window_vendor_sources_example :
    (x : Source) × (vendor_source_at 20 fill (trusted ∷ []) ≡ ok x)
    × (window_vendor_sources 20 20 fill (trusted ∷ []) ≡ ok (x ∷ []))
vendor_source_at-window_vendor_sources_example =
    vendor_source_at-window_vendor_sources 0 60 20 fill (trusted ∷ [])
      (refl, omega arith, (refl, omega arith, refl)) (omega arith) (omega arith)
