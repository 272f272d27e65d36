-- ===== src/Bars/Day/Total.antt =====
-- bars/clock.py, `bars_for_day` on a day of good trades.
use Prim.Native.String.{String}
use jepa_btc_forecasting.Prelude.{
  ℕ, ◌+◌, ◌*◌, ◌≤◌, ◌<◌, ◌≡◌, refl, sym, ap, ◌∙◌, true, false, Option, none, some, List, [], ◌∷◌,
  ◌++◌, arith, ltb, append-nil, ok, All, any, le→ltb-false, lt→leb-false,
}
use jepa_btc_forecasting.Prelude.Float.{Float}
use jepa_btc_forecasting.Prelude.Sort.{sort}
use jepa_btc_forecasting.Prelude.Sort.Laws.{IsSorted, sort-IsSorted, All-sort}
use jepa_btc_forecasting.Bars.Events.{
  ClockTrade, clock_order_key, trade_le, trade_order, min_absolute_ns,
}
use jepa_btc_forecasting.Bars.Clock
use jepa_btc_forecasting.Bars.Clock.{Bar, BarClock}
use jepa_btc_forecasting.Bars.Clock.Bounds.{Emits, members_of}
use jepa_btc_forecasting.Bars.Clock.Push.{IsReady, Accepts}
use jepa_btc_forecasting.Bars.Schedule.{ThresholdSchedule, DayThreshold, threshold_for}
use jepa_btc_forecasting.Bars.Day.{has_duplicate, prepare, bars_for_day, day_ns}
use jepa_btc_forecasting.Bars.Day.Run.{Feeds, feed-IsRun}

module _ (fl : Float) where
  open fl use {F, of_ℕ, mul, lt, le, is_finite}

  -- A trade of the day with an absolute receipt time and a finite positive notional.
  pub record IsGood (day_start day_end : ℕ) (t : ClockTrade F) : Type 0 where
    pub from_start : day_start ≤ t.origin_time
    pub to_end : t.origin_time < day_end
    pub absolute : min_absolute_ns ≤ t.received_time
    pub finite : is_finite (mul t.price t.amount) ≡ true
    pub positive : lt (of_ℕ 0) (mul t.price t.amount) ≡ true

  accept :
      (a b : ℕ) (last : Option (ℕ × ℕ)) (t : ClockTrade F)
      → IsGood a b t
      → Clock.fresh_key fl last (clock_order_key t) ≡ true
      → Accepts fl a b last t
  accept a b last t g h = record {
    from_start = g.from_start;
    to_end = g.to_end;
    newer = h;
    finite = g.finite;
    positive = g.positive;
  }

  newer_of :
      (t u : ClockTrade F) (ts : List (ClockTrade F))
      → trade_le t u ≡ true
      → has_duplicate (t ∷ u ∷ ts) ≡ false
      → Clock.fresh_key fl (some (clock_order_key t)) (clock_order_key u) ≡ true
  unfolding trade_le has_duplicate
  newer_of t u ts h k = ground arith

  tail_of :
      (t u : ClockTrade F) (ts : List (ClockTrade F))
      → has_duplicate (t ∷ u ∷ ts) ≡ false
      → has_duplicate (u ∷ ts) ≡ false
  unfolding has_duplicate
  tail_of t u ts k = ground arith

  ordered-Feeds :
      (a b : ℕ) (t : ClockTrade F) (ts : List (ClockTrade F))
      → IsSorted trade_le (t ∷ ts)
      → has_duplicate (t ∷ ts) ≡ false
      → All (IsGood a b) (t ∷ ts)
      → Feeds fl a b (some (clock_order_key t)) ts
  ordered-Feeds a b t [] s d g = tt
  ordered-Feeds a b t (u ∷ ts) s d g = (
    accept a b _ u g.1.0 (newer_of t u ts s.0.0 d),
    ordered-Feeds a b u ts s.1 (tail_of t u ts d) g.1,
  )

  sorted-Feeds :
      (a b : ℕ) (ts : List (ClockTrade F))
      → IsSorted trade_le ts
      → has_duplicate ts ≡ false
      → All (IsGood a b) ts
      → Feeds fl a b none ts
  sorted-Feeds a b [] s d g = tt
  sorted-Feeds a b (t ∷ ts) s d g = (accept a b none t g.0 refl, ordered-Feeds a b t ts s d g)

  no_offset :
      (a b : ℕ) (ts : List (ClockTrade F))
      → All (IsGood a b) ts
      → any (λ t. ltb t.received_time min_absolute_ns) ts ≡ false
  no_offset a b [] g = refl
  no_offset a b (t ∷ ts) g = rw (le→ltb-false _ _ g.0.absolute) (no_offset a b ts g.1)

  module _ (lt-not_le : (x y : F) → lt x y ≡ true → le y x ≡ false) (from_iso : String → Option ℕ)
      (trades : List (ClockTrade F)) (day : String) (schedule : ThresholdSchedule F)
      (time_cap_ns initial_watermark_ns start_index d : ℕ) (dt : DayThreshold F) where
    -- The clock of the day.
    abbrev started : BarClock F
    started = record {
      threshold = dt.threshold;
      cap_ns = time_cap_ns;
      day_start = d * day_ns;
      day_end = d * day_ns + day_ns;
      is_warmup = dt.is_warmup;
      watermark = initial_watermark_ns;
      index = start_index;
      interval_start = d * day_ns;
      members = [];
      notional = of_ℕ 0;
      last_key = none;
      finished = false;
    }

    prepare-eq :
        from_iso day ≡ some d
        → threshold_for fl from_iso schedule day ≡ ok dt
        → is_finite dt.threshold ≡ true
        → lt (of_ℕ 0) dt.threshold ≡ true
        → 0 < time_cap_ns
        → has_duplicate (sort trade_le trades) ≡ false
        → All (IsGood (d * day_ns) (d * day_ns + day_ns)) (sort trade_le trades)
        → prepare fl from_iso trades day schedule time_cap_ns initial_watermark_ns start_index
          ≡ ok (sort trade_le trades, started)
    unfolding prepare Clock.init
    prepare-eq iso dt_eq fin pos wide dup good =
        rw
          (
            iso,
            dt_eq,
            dup,
            no_offset _ _ _ good,
            fin,
            pos,
            lt→leb-false _ _ wide,
            lt→leb-false (d * day_ns + day_ns) (d * day_ns) (omega arith),
          )
          refl

    started-IsReady : lt (of_ℕ 0) dt.threshold ≡ true → 0 < time_cap_ns → IsReady fl started
    started-IsReady pos wide = record {
      is_open = record {
        within = tt;
        summed = refl;
        below = lt-not_le _ _ pos;
        fresh = lt-not_le _ _ pos;
        cap_pos = wide;
      };
      running = refl;
      anchored = omega arith;
    }

    -- A day of good trades with distinct keys never raises. Its bars have exactly the day's trades as
    -- members, in (origin_time, seq) order; their indices are consecutive from `start_index`; each
    -- bar is sound (decided no earlier than the bar before it, than the receipt of each member and
    -- than its forced close; its members lie in its half-open interval; its notional is their sum
    -- and reaches the threshold exactly if the threshold closed it).
    pub bars_for_day_total :
        from_iso day ≡ some d
        → threshold_for fl from_iso schedule day ≡ ok dt
        → is_finite dt.threshold ≡ true
        → lt (of_ℕ 0) dt.threshold ≡ true
        → 0 < time_cap_ns
        → has_duplicate (sort trade_le trades) ≡ false
        → All (IsGood (d * day_ns) (d * day_ns + day_ns)) trades
        → (bars : List (Bar F)) × (final : BarClock F) × (bars_for_day fl from_iso trades day
              schedule time_cap_ns initial_watermark_ns start_index
            ≡ (bars, ok final))
          × (members_of fl bars ≡ sort trade_le trades)
          × Emits fl time_cap_ns
              (d * day_ns + day_ns)
              initial_watermark_ns
              start_index
              bars
              final.watermark
              final.index
    unfolding bars_for_day
    bars_for_day_total iso dt_eq fin pos wide dup good =
        let ordered = sort trade_le trades in
        let good' = All-sort (IsGood (d * day_ns) (d * day_ns + day_ns)) trade_le trades good in
        let run = feed-IsRun fl ordered started (started-IsReady pos wide) (
          sorted-Feeds (d * day_ns) (d * day_ns + day_ns) ordered (sort-IsSorted trade_order trades)
            dup good') in
        (
          run.bars,
          run.final,
          rw (prepare-eq iso dt_eq fin pos wide dup good') run.runs,
          sym (append-nil (members_of fl run.bars))
              ∙ ap (λ l. members_of fl run.bars ++ l) (sym run.emptied)
              ∙ run.step.conserved,
          run.step.emits,
        )
