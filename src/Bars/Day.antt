-- ===== src/Bars/Day.antt =====
-- bars/clock.py, `bars_for_day` and `coalesce_decision_bars`. A generator is the list of what it
-- yields beside how it ends: with a value, or with the error that it raises.
pub mod Run
pub mod Total
pub mod Coalesce
pub mod Rises
use Prim.Native.String.{String}
use jepa_btc_forecasting.Prelude.{
  ℕ, zero, suc, ◌+◌, ◌*◌, ◌<◌, Bool, true, false, Option, none, some, List, [], ◌∷◌, ◌++◌, ltb,
  if◌then◌else◌, Result, ok, err, ◌>>=◌, ◌>>◌, refuse, map_err, any,
}
use jepa_btc_forecasting.Prelude.Float.{Float}
use jepa_btc_forecasting.Prelude.Sort.{sort}
use jepa_btc_forecasting.Bars.Events.{
  ClockTrade, clock_order_key, key_eq, trade_le, min_absolute_ns,
}
use jepa_btc_forecasting.Bars.Clock
use jepa_btc_forecasting.Bars.Clock.{ClockError, Bar, BarClock, push, finish}
use jepa_btc_forecasting.Bars.Schedule.{ScheduleError, ThresholdSchedule, parse_day, threshold_for}

pub data DayError : Type 0 where
  schedule_error : ScheduleError → DayError
  clock_error : ClockError → DayError
  duplicate_key not_absolute : DayError

abbrev pub day_ns : ℕ
day_ns = 86_400 * 1_000_000_000

-- What a generator yields, and its end.
abbrev pub Stream : Type 0 → Type 0 → Type 0 → Type 0
Stream E A R = List A × Result E R

-- Two neighbours of the sorted day have one key.
unfoldable pub has_duplicate : {F : Type 0} → List (ClockTrade F) → Bool
has_duplicate [] = false
has_duplicate (t ∷ []) = false
has_duplicate (t ∷ u ∷ ts) =
    let rest = has_duplicate (u ∷ ts) in
    if key_eq (clock_order_key t) (clock_order_key u) then true else rest

module _ (fl : Float) where
  open fl use {F}

  -- `yield from clk.finish()`
  unfoldable pub feed_end :
      Result ClockError (List (Bar F)) × BarClock F → Stream DayError (Bar F) (BarClock F)
  feed_end (ok bars, c) = (bars, ok c)
  feed_end (err e, c) = ([], err (clock_error e))

  -- One trade of `for t in ordered: yield from clk.push(t)`, given the rest of the day.
  unfoldable pub feed_step :
      Result ClockError (List (Bar F))
      → Stream DayError (Bar F) (BarClock F)
      → Stream DayError (Bar F) (BarClock F)
  feed_step (err e) rest = ([], err (clock_error e))
  feed_step (ok bars) rest = (bars ++ rest.0, rest.1)

  unfoldable pub feed : List (ClockTrade F) → BarClock F → Stream DayError (Bar F) (BarClock F)
  unfolding feed_end feed_step
  feed [] c = feed_end (finish fl c)
  feed (t ∷ ts) c = let (r, c') = push fl t c in let rest = feed ts c' in feed_step r rest

  -- `bars_for_day`: up to the clock's construction, then the stream.
  module _ (from_iso : String → Option ℕ) where
    unfoldable pub prepare :
        List (ClockTrade F)
        → String
        → ThresholdSchedule F
        → ℕ
        → ℕ
        → ℕ
        → Result DayError (List (ClockTrade F) × BarClock F)
    prepare trades day schedule time_cap_ns initial_watermark_ns start_index = do
      day_threshold ← map_err schedule_error (threshold_for fl from_iso schedule day)
      d ← map_err schedule_error (parse_day fl from_iso day)
      let ordered = sort trade_le trades
      refuse (has_duplicate ordered) duplicate_key
      refuse (any (λ t. ltb t.received_time min_absolute_ns) ordered) not_absolute
      c ← map_err clock_error (
          Clock.init fl day_threshold.threshold time_cap_ns (d * day_ns) (d * day_ns + day_ns)
            day_threshold.is_warmup initial_watermark_ns start_index)
      ok (ordered, c)

    unfoldable pub stream :
        Result DayError (List (ClockTrade F) × BarClock F) → Stream DayError (Bar F) (BarClock F)
    stream (err e) = ([], err e)
    stream (ok (ordered, c)) = feed ordered c

    unfoldable pub bars_for_day :
        List (ClockTrade F)
        → String
        → ThresholdSchedule F
        → ℕ
        → ℕ
        → ℕ
        → Stream DayError (Bar F) (BarClock F)
    unfolding prepare stream
    bars_for_day trades day schedule time_cap_ns initial_watermark_ns start_index =
        stream (prepare trades day schedule time_cap_ns initial_watermark_ns start_index)

pub data CoalesceError : Type 0 where
  decreasing_t_event : CoalesceError

-- `coalesce_decision_bars`: `pending` is the candidate of the current instant.
module _ {F : Type 0} where
  unfoldable pub coalesce_from : Option (Bar F) → List (Bar F) → Stream CoalesceError (Bar F) Unit
  coalesce_from none [] = ([], ok tt)
  coalesce_from (some p) [] = (p ∷ [], ok tt)
  coalesce_from none (b ∷ bs) = coalesce_from (some b) bs
  coalesce_from (some p) (b ∷ bs) =
      let rest = coalesce_from (some b) bs in
      if ltb b.t_event p.t_event
      then ([], err decreasing_t_event)
      else if ltb p.t_event b.t_event
      then (p ∷ rest.0, rest.1)
      else rest

  unfoldable pub coalesce_decision_bars : List (Bar F) → Stream CoalesceError (Bar F) Unit
  unfolding coalesce_from
  coalesce_decision_bars bars = coalesce_from none bars
