-- ===== src/Bars/Produce.antt =====
-- bars/produce.py, the loop of `_build_frame` over the days of its first segment, for the bars that it
-- classifies and their order. A bar stands for itself with the pair of book reads that it gets: there
-- is one pair for each bar. Parameters: date.fromisoformat, and math.fsum over the day's notionals.
-- The hashes of the objects, the scan of the book, the reads and what `classify` makes of a bar are
-- left out; `prev_segment_last_t` is None, as it is in the first segment.
pub mod Carry
pub mod Segment
use Prim.Native.String.{String}
use jepa_btc_forecasting.Prelude.{
  ℕ, ◌+◌, Option, none, some, List, [], ◌∷◌, ◌++◌, map, ltb, ◌==◌, if◌then◌else◌, Result, ok, err,
  ◌>>=◌, map_err,
}
use jepa_btc_forecasting.Prelude.Float.{Float}
use jepa_btc_forecasting.Bars.Events.{ClockTrade}
use jepa_btc_forecasting.Bars.Clock.{Bar, BarClock}
use jepa_btc_forecasting.Bars.Schedule.{ScheduleError, ThresholdSchedule, record_day}
use jepa_btc_forecasting.Bars.Day.{
  DayError, Stream, bars_for_day, CoalesceError, coalesce_decision_bars,
}

pub data ProduceError : Type 0 where
  day_error : DayError → ProduceError
  coalesce_error : CoalesceError → ProduceError
  record_error : ScheduleError → ProduceError
  regressed : ProduceError

-- A day of the segment, with its normalized trades.
pub record SegmentDay (F : Type 0) : Type 0 where
  pub day : String
  pub trades : List (ClockTrade F)

-- What a day classifies, and the watermark, the index and the bar that it hands to the next one.
pub record Handover (F : Type 0) : Type 0 where
  pub classified : List (Bar F)
  pub watermark : ℕ
  pub next_index : ℕ
  pub carry : Option (Bar F)

module _ {F : Type 0} where
  -- `day_bars[-1]` and `day_bars[:-1]` of a list that starts with `b`
  unfoldable pub last_of : Bar F → List (Bar F) → Bar F
  last_of b [] = b
  last_of b (c ∷ bs) = last_of c bs

  unfoldable pub but_last : Bar F → List (Bar F) → List (Bar F)
  but_last b [] = []
  but_last b (c ∷ bs) = b ∷ but_last c bs

  -- `list(coalesce_decision_bars(bars_for_day(...)))`: the coalescing raises on the bars that it has
  -- drawn, before the end of the stream does.
  unfoldable pub listed : Stream DayError (Bar F) (BarClock F) → Result ProduceError (List (Bar F))
  listed (bars, end) = do
    done ← map_err coalesce_error (coalesce_decision_bars bars).1
    c ← map_err day_error end
    ok (coalesce_decision_bars bars).0

  -- The bar held over from the days before meets the first bar of the day: it is superseded at the
  -- same instant, and classified otherwise.
  unfoldable pub release : Option (Bar F) → Bar F → Result ProduceError (List (Bar F))
  release none b = ok []
  release (some p) b =
      if b.t_event == p.t_event
      then ok []
      else if ltb b.t_event p.t_event
      then err regressed
      else ok (p ∷ [])

  unfoldable pub hand_over :
      Option (Bar F) → ℕ → ℕ → List (Bar F) → Result ProduceError (Handover F)
  unfolding last_of but_last release
  hand_over carry watermark next_index [] =
      ok (record { classified = []; watermark = watermark; next_index = next_index; carry = carry })
  hand_over carry watermark next_index (b ∷ bars) = do
    held ← release carry b
    let newest = last_of b bars
    ok (record {
      classified = held ++ but_last b bars;
      watermark = newest.t_event;
      next_index = newest.index + 1;
      carry = some newest;
    })

  abbrev pub carried : Option (Bar F) → List (Bar F)
  carried none = []
  carried (some b) = b ∷ []

module _ (fl : Float) (from_iso : String → Option ℕ) where
  open fl use {F, of_ℕ, mul}

  module _ (fsum : List F → F) (time_cap_ns : ℕ) where
    -- `schedule.record_day(day, math.fsum(...), 1.0)`
    unfoldable pub record_volume :
        SegmentDay F → ThresholdSchedule F → Result ProduceError (ThresholdSchedule F)
    record_volume d schedule = map_err record_error (
        record_day fl from_iso schedule d.day (fsum (map (λ t. mul t.price t.amount) d.trades))
          (of_ℕ 1))

    -- The loop over the days of a segment.
    unfoldable pub classify_days :
        List (SegmentDay F)
        → ThresholdSchedule F
        → ℕ
        → ℕ
        → Option (Bar F)
        → Result ProduceError (List (Bar F))
    unfolding listed hand_over record_volume
    classify_days [] schedule watermark next_index carry = ok (carried carry)
    classify_days (d ∷ days) schedule watermark next_index carry = do
      bars ←
          listed (bars_for_day fl from_iso d.trades d.day schedule time_cap_ns watermark next_index)
      recorded ← record_volume d schedule
      h ← hand_over carry watermark next_index bars
      rest ← classify_days days recorded h.watermark h.next_index h.carry
      ok (h.classified ++ rest)
