-- ===== src/Tests/Clock.antt =====
-- bars/clock.py at concrete days.
use Prim.Native.String.{String}
use text.Mathlib.Text.{◌==◌ as str_eq}
use jepa_btc_forecasting.Prelude.{
  ℕ, ◌+◌, ◌*◌, ◌≡◌, refl, true, false, Option, none, some, List, [], ◌∷◌, arith, if◌then◌else◌, ok,
  err, lt→leb-false, ltb→lt,
}
use jepa_btc_forecasting.Prelude.Float.{whole}
use jepa_btc_forecasting.Prelude.Sort.{sort, insert}
use jepa_btc_forecasting.Bars.Events.{ClockTrade, trade_le}
use jepa_btc_forecasting.Bars.Clock.{Bar, BarClock, close_threshold}
use jepa_btc_forecasting.Bars.Clock.Bounds.{Emits, members_of}
use jepa_btc_forecasting.Bars.Schedule.{
  ThresholdConfig, ThresholdSchedule, DayThreshold, threshold_for, record_day, normalized,
  threshold_on,
}
use jepa_btc_forecasting.Bars.Schedule.Laws.{
  threshold_for-record_day, threshold_for-record_day_comm,
}
use jepa_btc_forecasting.Bars.Day.{
  day_ns, has_duplicate, bars_for_day, coalesce_decision_bars, decreasing_t_event,
}
use jepa_btc_forecasting.Bars.Day.Total.{bars_for_day_total}
use jepa_btc_forecasting.Bars.Day.Coalesce.{
  IsIncreasing, last_at, coalesce_decision_bars_lem, coalesce_decision_bars_refuses,
}

-- Two days by name: 2024-10-04 is 20000 days after 1970-01-01.
abbrev pub iso : String → Option ℕ
iso day =
    if str_eq day "2024-10-04"
    then some 20_000
    else if str_eq day "2024-10-05"
    then some 20_001
    else none

abbrev config : ThresholdConfig ℕ
config = record {
  target_bars_per_day = 2;
  window_days = 2;
  warmup_days = 1;
  seed_threshold = 10;
  min_covered_fraction = 1;
}

abbrev pub schedule : ThresholdSchedule ℕ
schedule = record { config = config; history = [] }

abbrev pub warmup : DayThreshold ℕ
warmup = record { day = "2024-10-04"; threshold = 10; is_warmup = true }

abbrev pub day_start : ℕ
day_start = 20_000 * day_ns

abbrev pub early : ClockTrade ℕ
early = record {
  origin_time = day_start + 5;
  received_time = day_start + 9;
  seq = 1;
  side = "buy";
  price = 4;
  amount = 3;
}

abbrev pub late : ClockTrade ℕ
late = record {
  origin_time = day_start + 7;
  received_time = day_start + 8;
  seq = 2;
  side = "sell";
  price = 4;
  amount = 1;
}

bars_for_day_total_example :
    (bars : List (Bar ℕ)) × (final : BarClock ℕ) × (bars_for_day whole iso
        (late ∷ early ∷ [])
        "2024-10-04"
        schedule
        day_ns
        0
        0
      ≡ (bars, ok final))
    × (members_of whole bars ≡ sort trade_le (late ∷ early ∷ []))
    × Emits whole day_ns (20_000 * day_ns + day_ns) 0 0 bars final.watermark final.index
bars_for_day_total_example =
    bars_for_day_total whole (λ x y h. lt→leb-false y x (ltb→lt x y h)) iso (late ∷ early ∷ [])
      "2024-10-04" schedule day_ns 0 0 20_000 warmup refl
      (unfold threshold_for threshold_on normalized sort in refl) refl refl (omega arith)
      (unfold has_duplicate sort insert trade_le in refl)
      (
        record {
          from_start = omega arith;
          to_end = omega arith;
          absolute = omega arith;
          finite = refl;
          positive = refl;
        },
        (
          record {
            from_start = omega arith;
            to_end = omega arith;
            absolute = omega arith;
            finite = refl;
            positive = refl;
          },
          tt,
        ),
      )

abbrev bar : ℕ → ℕ → List (ClockTrade ℕ) → Bar ℕ
bar index t_event members = record {
  index = index;
  interval_start_ns = 0;
  close_reason = close_threshold;
  cap_fire_ns = none;
  t_event = t_event;
  threshold = 10;
  is_warmup = false;
  notional = 12;
  members = members;
}

coalesce_decision_bars_lem_example :
    ((coalesce_decision_bars (bar 0 5 [] ∷ bar 1 5 [] ∷ bar 2 8 [] ∷ [])).1 ≡ ok tt)
    × IsIncreasing (coalesce_decision_bars (bar 0 5 [] ∷ bar 1 5 [] ∷ bar 2 8 [] ∷ [])).0
    × ((t : ℕ)
        → last_at t (coalesce_decision_bars (bar 0 5 [] ∷ bar 1 5 [] ∷ bar 2 8 [] ∷ [])).0
          ≡ last_at t (bar 0 5 [] ∷ bar 1 5 [] ∷ bar 2 8 [] ∷ []))
coalesce_decision_bars_lem_example =
    coalesce_decision_bars_lem (bar 0 5 [] ∷ bar 1 5 [] ∷ bar 2 8 [] ∷ [])
      (omega arith, (omega arith, (omega arith, tt)))

coalesce_decision_bars_refuses_example :
    (coalesce_decision_bars (bar 0 5 [] ∷ bar 1 7 [] ∷ bar 2 6 [] ∷ [])).1 ≡ err decreasing_t_event
coalesce_decision_bars_refuses_example =
    coalesce_decision_bars_refuses (bar 0 5 [] ∷ []) (bar 1 7 []) (bar 2 6 []) [] (omega arith)

abbrev recorded : ThresholdSchedule ℕ
recorded = record {
  config = config;
  history = record { date = 20_001; notional = 40; coverage = 1 } ∷ [];
}

abbrev recorded_both : ThresholdSchedule ℕ
recorded_both = record {
  config = config;
  history =
      record { date = 20_001; notional = 40; coverage = 1 }
      ∷ record { date = 20_000; notional = 60; coverage = 1 }
      ∷ [];
}

threshold_for-record_day_example :
    threshold_for whole iso recorded "2024-10-04" ≡ threshold_for whole iso schedule "2024-10-04"
threshold_for-record_day_example =
    threshold_for-record_day whole iso schedule recorded "2024-10-04" "2024-10-05" 40 1 20_000
      20_001 refl refl (omega arith) (unfold record_day in refl)

threshold_for-record_day_comm_example :
    (sb : ThresholdSchedule ℕ) × (sba : ThresholdSchedule ℕ) × (record_day whole iso schedule
        "2024-10-04" 60 1
      ≡ ok sb)
    × (record_day whole iso sb "2024-10-05" 40 1 ≡ ok sba)
    × (threshold_for whole iso sba "2024-10-05"
        ≡ threshold_for whole iso recorded_both "2024-10-05")
threshold_for-record_day_comm_example =
    threshold_for-record_day_comm whole iso schedule recorded recorded_both "2024-10-05"
      "2024-10-04" "2024-10-05" 40 1 60 1 20_001 20_000 20_001 refl refl refl
      (unfold record_day in refl) (unfold record_day in refl)
