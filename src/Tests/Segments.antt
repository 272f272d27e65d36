-- ===== src/Tests/Segments.antt =====
-- bars/produce.py at a concrete segment of days.
use mathlib.Core.List.{foldl}
use jepa_btc_forecasting.Prelude.{
  ℕ, ◌+◌, ◌*◌, ◌≡◌, refl, none, List, [], ◌∷◌, ◌++◌, arith, ok, ◌>>=◌, lt→leb-false, ltb→lt,
}
use jepa_btc_forecasting.Prelude.Float.{whole}
use jepa_btc_forecasting.Prelude.Sort.{sort, insert}
use jepa_btc_forecasting.Bars.Events.{trade_le}
use jepa_btc_forecasting.Bars.Clock.{Bar, BarClock}
use jepa_btc_forecasting.Bars.Clock.Bounds.{Emits, members_of}
use jepa_btc_forecasting.Bars.Schedule.{threshold_for, record_day, normalized, threshold_on}
use jepa_btc_forecasting.Bars.Day.{day_ns, has_duplicate, bars_for_day, coalesce_decision_bars}
use jepa_btc_forecasting.Bars.Day.Total.{bars_for_day_total}
use jepa_btc_forecasting.Bars.Day.Coalesce.{IsIncreasing, last_at}
use jepa_btc_forecasting.Bars.Produce.{SegmentDay, record_volume, classify_days}
use jepa_btc_forecasting.Bars.Produce.Segment.{
  ended, clock_bars, classify_days-coalesced, classify_days-IsIncreasing,
}
use jepa_btc_forecasting.Tests.Clock.{iso, schedule, warmup, day_start, early, late}

abbrev total : List ℕ → ℕ
total = foldl (λ a x. a + x) 0

abbrev first : SegmentDay ℕ
first = record { day = "2024-10-04"; trades = early ∷ [] }

abbrev second : SegmentDay ℕ
second = record {
  day = "2024-10-05";
  trades = record late { origin_time = day_start + day_ns + 7 } ∷ [];
}

classify_days-coalesced_example :
    classify_days whole iso total day_ns (first ∷ second ∷ []) schedule 0 0 none ≡ (
      clock_bars whole iso total day_ns (first ∷ second ∷ []) schedule 0 0 >>= λ bars.
      ok (coalesce_decision_bars bars).0)
classify_days-coalesced_example =
    classify_days-coalesced whole iso total day_ns (first ∷ second ∷ []) schedule 0 0

first_run :
    (bars : List (Bar ℕ)) × (final : BarClock ℕ) × (bars_for_day whole iso
        (early ∷ [])
        "2024-10-04"
        schedule
        day_ns
        0
        0
      ≡ (bars, ok final))
    × (members_of whole bars ≡ sort trade_le (early ∷ []))
    × Emits whole day_ns (20_000 * day_ns + day_ns) 0 0 bars final.watermark final.index
first_run =
    bars_for_day_total whole (λ x y h. lt→leb-false y x (ltb→lt x y h)) iso (early ∷ [])
      "2024-10-04" schedule day_ns 0 0 20_000 warmup refl
      (unfold threshold_for threshold_on normalized sort in refl) refl refl (omega arith)
      (unfold has_duplicate sort insert trade_le in refl)
      (
        record {
          from_start = omega arith;
          to_end = omega arith;
          absolute = omega arith;
          finite = refl;
          positive = refl;
        },
        tt,
      )

first_clocked : clock_bars whole iso total day_ns (first ∷ []) schedule 0 0 ≡ ok (first_run.0 ++ [])
unfolding clock_bars ended record_volume record_day
first_clocked = rw (first_run.2) refl

classify_days-IsIncreasing_example :
    (out : List (Bar ℕ)) × (classify_days whole iso total day_ns (first ∷ []) schedule 0 0 none
      ≡ ok out)
    × IsIncreasing out
    × ((t : ℕ) → last_at t out ≡ last_at t (first_run.0 ++ []))
classify_days-IsIncreasing_example =
    classify_days-IsIncreasing whole iso total day_ns (first ∷ []) schedule 0 0 (first_run.0 ++ [])
      first_clocked
