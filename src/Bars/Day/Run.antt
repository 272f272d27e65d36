-- ===== src/Bars/Day/Run.antt =====
-- bars/clock.py, the loop of `bars_for_day` over the ordered trades.
use jepa_btc_forecasting.Prelude.{ℕ, ◌≡◌, sym, Option, some, List, [], ◌∷◌, ◌++◌, ok}
use mathlib.Core.Path.{subst₃}
use jepa_btc_forecasting.Prelude.Float.{Float}
use jepa_btc_forecasting.Bars.Events.{ClockTrade, clock_order_key}
use jepa_btc_forecasting.Bars.Clock.{Bar, BarClock}
use jepa_btc_forecasting.Bars.Clock.Sound.{Step, Step-trans}
use jepa_btc_forecasting.Bars.Clock.Push.{IsReady, Accepts, fired, joined, push-eq, push-Step}
use jepa_btc_forecasting.Bars.Clock.Finish.{elapsed, residue, finish-eq, finish-Step}
use jepa_btc_forecasting.Bars.Day.{feed}

module _ (fl : Float) where
  open fl use {F}

  -- Trades that a clock takes one after the other.
  abbrev pub Feeds : ℕ → ℕ → Option (ℕ × ℕ) → List (ClockTrade F) → Type 0
  Feeds day_start day_end last [] = Unit
  Feeds day_start day_end last (t ∷ ts) =
      Accepts fl day_start day_end last t × Feeds day_start day_end (some (clock_order_key t)) ts

  -- The run of a clock over such trades to the day's end.
  pub record IsRun (c : BarClock F) (ts : List (ClockTrade F)) : Type 0 where
    pub final : BarClock F
    pub bars : List (Bar F)
    pub runs : feed fl ts c ≡ (bars, ok final)
    pub step : Step fl ts c bars final
    pub emptied : final.members ≡ []

  pub feed-IsRun :
      (ts : List (ClockTrade F)) (c : BarClock F)
      → IsReady fl c
      → Feeds c.day_start c.day_end c.last_key ts
      → IsRun c ts
  unfolding feed
  feed-IsRun [] c r h =
      let done = finish-Step fl c r in
      record {
        final = (residue fl c).1;
        bars = (elapsed fl c).0 ++ (residue fl c).0;
        runs = rw (finish-eq fl c r.running);
        step = done.0;
        emptied = done.1;
      }
  feed-IsRun (t ∷ ts) c r h =
      let c' = (joined fl t c).1 in
      let bars = (fired fl t c).0 ++ (joined fl t c).0 in
      let first = push-Step fl t c r h.0 in
      let rest = feed-IsRun ts c' first.1 (
        subst₃ (λ a b k. Feeds a b k ts) (sym first.0.day_start) (sym first.0.day_end) (sym first.2)
          h.1) in
      record {
        final = rest.final;
        bars = bars ++ rest.bars;
        runs = rw (push-eq fl t c r h.0) (rw rest.runs);
        step = Step-trans fl (t ∷ []) ts c bars c' rest.bars rest.final first.0 rest.step;
        emptied = rest.emptied;
      }
