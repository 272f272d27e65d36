-- ===== src/Bars/Clock.antt =====
-- bars/clock.py, class BarClock: the streaming dollar-bar state machine. A method that raises
-- returns the error beside the state that it leaves.
pub mod Bounds
pub mod Sound
pub mod Push
pub mod Finish
use jepa_btc_forecasting.Prelude.{
  ℕ, zero, suc, ◌+◌, Bool, true, false, not, ◌&&◌, Option, none, some, List, [], ◌∷◌, ◌++◌, map,
  max, ltb, leb, if◌then◌else◌, Result, ok, err,
}
use jepa_btc_forecasting.Prelude.Float.{Float}
use jepa_btc_forecasting.Bars.Events.{ClockTrade, clock_order_key, key_le}

-- CLOSE_THRESHOLD, CLOSE_TIME_CAP, CLOSE_DAY_END
pub data CloseReason : Type 0 where
  close_threshold close_time_cap close_day_end : CloseReason

pub data ClockError : Type 0 where
  bad_threshold bad_time_cap bad_day_bounds already_finished outside_day out_of_order bad_notional :
      ClockError

pub record Bar (F : Type 0) : Type 0 where
  pub index : ℕ
  pub interval_start_ns : ℕ
  pub close_reason : CloseReason
  pub cap_fire_ns : Option ℕ
  pub t_event : ℕ
  pub threshold : F
  pub is_warmup : Bool
  pub notional : F
  pub members : List (ClockTrade F)

pub record BarClock (F : Type 0) : Type 0 where
  pub threshold : F
  pub cap_ns : ℕ
  pub day_start : ℕ
  pub day_end : ℕ
  pub is_warmup : Bool
  pub watermark : ℕ
  pub index : ℕ
  pub interval_start : ℕ
  pub members : List (ClockTrade F)
  pub notional : F
  pub last_key : Option (ℕ × ℕ)
  pub finished : Bool

-- `max(xs)` of non-negative times
unfoldable pub max_list : List ℕ → ℕ
max_list [] = 0
max_list (x ∷ xs) = max x (max_list xs)

module _ (fl : Float) where
  open fl use {F, of_ℕ, add, mul, lt, le, is_finite}

  -- `BarClock.__init__`
  unfoldable pub init : F → ℕ → ℕ → ℕ → Bool → ℕ → ℕ → Result ClockError (BarClock F)
  init threshold time_cap_ns day_start_ns day_end_ns is_warmup initial_watermark_ns start_index =
      if not (is_finite threshold && lt (of_ℕ 0) threshold)
      then err bad_threshold
      else if leb time_cap_ns 0
      then err bad_time_cap
      else if leb day_end_ns day_start_ns
      then err bad_day_bounds
      else ok (record {
        threshold = threshold;
        cap_ns = time_cap_ns;
        day_start = day_start_ns;
        day_end = day_end_ns;
        is_warmup = is_warmup;
        watermark = initial_watermark_ns;
        index = start_index;
        interval_start = day_start_ns;
        members = [];
        notional = of_ℕ 0;
        last_key = none;
        finished = false;
      })

  abbrev pub newest : List (ClockTrade F) → List ℕ
  newest [] = []
  newest (m ∷ ms) = max_list (map (λ t. t.received_time) (m ∷ ms)) ∷ []

  abbrev pub forced : Option ℕ → List ℕ
  forced none = []
  forced (some fire) = fire ∷ []

  -- The candidates of the watermark: the last one, the newest receipt, the fire time.
  unfoldable pub candidates : BarClock F → Option ℕ → List ℕ
  unfolding max_list
  candidates c fire_ns = c.watermark ∷ (newest c.members ++ forced fire_ns)

  -- `_close`
  unfoldable pub close : CloseReason → Option ℕ → BarClock F → Bar F × BarClock F
  unfolding max_list candidates
  close reason fire_ns c =
      let watermark = max_list (candidates c fire_ns) in
      (
        record {
          index = c.index;
          interval_start_ns = c.interval_start;
          close_reason = reason;
          cap_fire_ns = fire_ns;
          t_event = watermark;
          threshold = c.threshold;
          is_warmup = c.is_warmup;
          notional = c.notional;
          members = c.members;
        },
        record c { watermark = watermark; index = c.index + 1; members = []; notional = of_ℕ 0 },
      )

  -- One round of the `while` of `push` and of `finish`: close at the deadline and move on to it.
  unfoldable pub fire_cap : BarClock F → Bar F × BarClock F
  fire_cap c =
      let fire = c.interval_start + c.cap_ns in
      let (bar, c') = close close_time_cap (some fire) c in
      (bar, record c' { interval_start = fire })

  -- The `while`: `limit` is the origin of the pushed trade, or the end of the day.
  unfoldable pub fire_caps : ℕ → ℕ → BarClock F → List (Bar F) × BarClock F
  fire_caps zero limit c = ([], c)
  fire_caps (suc fuel) limit c =
      let (bar, c') = fire_cap c in
      let rest = fire_caps fuel limit c' in
      if leb (c.interval_start + c.cap_ns) limit then (bar ∷ rest.0, rest.1) else ([], c)

  -- The last lines of `push`: accumulate, and close when the threshold is met.
  unfoldable pub accumulate : ClockTrade F → F → BarClock F → List (Bar F) × BarClock F
  accumulate t notional c =
      let c' = record c { members = c.members ++ t ∷ []; notional = add c.notional notional } in
      let (bar, c'') = close close_threshold none c' in
      if le c'.threshold c'.notional
      then (bar ∷ [], record c'' { interval_start = t.origin_time })
      else ([], c')

  abbrev pub fresh_key : Option (ℕ × ℕ) → ℕ × ℕ → Bool
  fresh_key none key = true
  fresh_key (some last) key = not (key_le key last)

  -- `push`
  unfoldable pub push : ClockTrade F → BarClock F → Result ClockError (List (Bar F)) × BarClock F
  push t c =
      let notional = mul t.price t.amount in
      let keyed = record c { last_key = some (clock_order_key t) } in
      let (fired, c') = fire_caps (t.origin_time + 1) t.origin_time keyed in
      let (closed, c'') = accumulate t notional c' in
      if c.finished
      then (err already_finished, c)
      else if not (leb c.day_start t.origin_time && ltb t.origin_time c.day_end)
      then (err outside_day, c)
      else if not (fresh_key c.last_key (clock_order_key t))
      then (err out_of_order, c)
      else if not (is_finite notional && lt (of_ℕ 0) notional)
      then (err bad_notional, keyed)
      else (ok (fired ++ closed), c'')

  -- The residual of the day is closed if it holds trades, `members`.
  unfoldable pub close_residual : List (ClockTrade F) → BarClock F → List (Bar F) × BarClock F
  close_residual [] c = ([], c)
  close_residual (m ∷ ms) c =
      let (bar, c') = close close_day_end (some c.day_end) c in (bar ∷ [], c')

  -- `finish`
  unfoldable pub finish : BarClock F → Result ClockError (List (Bar F)) × BarClock F
  finish c =
      let (fired, c') = fire_caps (c.day_end + 1) c.day_end (record c { finished = true }) in
      let (closed, c'') = close_residual c'.members c' in
      if c.finished then (err already_finished, c) else (ok (fired ++ closed), c'')
