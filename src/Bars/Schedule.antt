-- ===== src/Bars/Schedule.antt =====
-- bars/clock.py, class ThresholdSchedule: the threshold of a day from the volume of prior days.
pub mod Laws
use Prim.Native.String.{String}
use jepa_btc_forecasting.Prelude.{
  ℕ, ◌+◌, ◌-◌, Bool, true, false, not, ◌&&◌, ◌||◌, Option, none, some, List, [], ◌∷◌, ◌++◌, map,
  ltb, leb, ◌==◌, if◌then◌else◌, Result, ok, err, ◌>>=◌, ◌>>◌, refuse, require, length, filter, any,
}
use jepa_btc_forecasting.Prelude.Float.{Float}
use jepa_btc_forecasting.Prelude.Sort.{sort}

pub data ScheduleError : Type 0 where
  bad_day bad_target bad_warmup bad_window bad_seed bad_min_covered already_recorded
        bad_completed_notional bad_covered_fraction :
      ScheduleError

pub record ThresholdConfig (F : Type 0) : Type 0 where
  pub target_bars_per_day : ℕ
  pub window_days : ℕ
  pub warmup_days : ℕ
  pub seed_threshold : F
  pub min_covered_fraction : F

pub record DayThreshold (F : Type 0) : Type 0 where
  pub day : String
  pub threshold : F
  pub is_warmup : Bool

-- A recorded day: its date, completed notional and covered fraction.
pub record DayVolume (F : Type 0) : Type 0 where
  pub date : ℕ
  pub notional : F
  pub coverage : F

-- The history dictionary in insertion order; its keys are the dates.
pub record ThresholdSchedule (F : Type 0) : Type 0 where
  pub config : ThresholdConfig F
  pub history : List (DayVolume F)

module _ (fl : Float) where
  open fl use {F, of_ℕ, div, sum, lt, le, is_finite}

  -- `ThresholdSchedule.__init__`
  unfoldable pub init : ThresholdConfig F → Result ScheduleError (ThresholdSchedule F)
  init c = do
    refuse (ltb c.target_bars_per_day 1) bad_target
    refuse (ltb c.warmup_days 1) bad_warmup
    refuse (ltb c.window_days c.warmup_days) bad_window
    require (is_finite c.seed_threshold && lt (of_ℕ 0) c.seed_threshold) bad_seed
    require (le (of_ℕ 0) c.min_covered_fraction && le c.min_covered_fraction (of_ℕ 1))
        bad_min_covered
    ok (record { config = c; history = [] })

  abbrev pub by_date : DayVolume F → DayVolume F → Bool
  by_date a b = leb a.date b.date

  -- The comprehension's condition: inside the trailing window, strictly before `d`, covered enough.
  abbrev pub qualifies : ThresholdConfig F → ℕ → DayVolume F → Bool
  qualifies c d v =
      leb (d - c.window_days) v.date && (ltb v.date d && le c.min_covered_fraction v.coverage)

  unfoldable pub normalized : ThresholdSchedule F → ℕ → List F
  normalized s d =
      map (λ v. div v.notional v.coverage) (filter (qualifies s.config d) (sort by_date s.history))

  unfoldable pub threshold_on : ThresholdSchedule F → String → ℕ → DayThreshold F
  threshold_on s day d =
      let xs = normalized s d in
      if ltb (length xs) s.config.warmup_days
      then record { day = day; threshold = s.config.seed_threshold; is_warmup = true }
      else record {
        day = day;
        threshold = div (div (sum xs) (of_ℕ (length xs))) (of_ℕ s.config.target_bars_per_day);
        is_warmup = false;
      }

  abbrev pub parsed : Option ℕ → Result ScheduleError ℕ
  parsed none = err bad_day
  parsed (some d) = ok d

  -- `date.fromisoformat`: the days since 1970-01-01 of an ISO date, or nothing if it is none.
  module _ (from_iso : String → Option ℕ) where
    abbrev pub parse_day : String → Result ScheduleError ℕ
    parse_day day = parsed (from_iso day)

    unfoldable pub record_day :
        ThresholdSchedule F → String → F → F → Result ScheduleError (ThresholdSchedule F)
    record_day s day completed_notional covered_fraction = do
      d ← parse_day day
      refuse (any (λ v. v.date == d) s.history) already_recorded
      require (is_finite completed_notional && le (of_ℕ 0) completed_notional)
          bad_completed_notional
      require (lt (of_ℕ 0) covered_fraction && le covered_fraction (of_ℕ 1)) bad_covered_fraction
      ok (record s {
        history =
            s.history
            ++ record { date = d; notional = completed_notional; coverage = covered_fraction } ∷ [];
      })

    unfoldable pub threshold_for :
        ThresholdSchedule F → String → Result ScheduleError (DayThreshold F)
    unfolding threshold_on normalized
    threshold_for s day = do d ← parse_day day; ok (threshold_on s day d)
