-- ===== src/Bars/Clock/Push.antt =====
-- bars/clock.py, `BarClock.push`.
use jepa_btc_forecasting.Prelude.{
  ℕ, zero, suc, ◌+◌, ◌≤◌, ◌<◌, ◌≡◌, refl, ◌∙◌, true, false, Option, none, some, List, [], ◌∷◌, ◌++◌,
  arith, le→leb, lt→ltb, ok,
}
use native.Mathlib.Nat.{le_trans}
use jepa_btc_forecasting.Prelude.Float.{Float}
use jepa_btc_forecasting.Bars.Events.{ClockTrade, clock_order_key}
use jepa_btc_forecasting.Bars.Clock.{
  Bar, BarClock, fire_caps, fire_cap, close, accumulate, fresh_key, push,
}
use jepa_btc_forecasting.Bars.Clock.Bounds.{IsOpen}
use jepa_btc_forecasting.Bars.Clock.Sound.{Step, Step-trans, fire_caps-Step, accumulate-Step}

-- The newest origin that the clock has been shown, or the day's start.
abbrev pub frontier : ℕ → Option (ℕ × ℕ) → ℕ
frontier day_start none = day_start
frontier day_start (some key) = key.0

module _ (fl : Float) where
  open fl use {F, of_ℕ, mul, lt, is_finite}

  -- What holds of a clock that has not been finished.
  pub record IsReady (c : BarClock F) : Type 0 where
    pub is_open : IsOpen fl c
    pub running : c.finished ≡ false
    pub anchored : c.interval_start ≤ frontier c.day_start c.last_key

  -- The trades that `push` takes: inside the day, newer than the last one, of positive notional.
  pub record Accepts (day_start day_end : ℕ) (last_key : Option (ℕ × ℕ)) (t : ClockTrade F)
      : Type 0 where
    pub from_start : day_start ≤ t.origin_time
    pub to_end : t.origin_time < day_end
    pub newer : fresh_key fl last_key (clock_order_key t) ≡ true
    pub finite : is_finite (mul t.price t.amount) ≡ true
    pub positive : lt (of_ℕ 0) (mul t.price t.amount) ≡ true

  frontier-le :
      (day_start : ℕ) (last : Option (ℕ × ℕ)) (t : ClockTrade F)
      → day_start ≤ t.origin_time
      → fresh_key fl last (clock_order_key t) ≡ true
      → frontier day_start last ≤ t.origin_time
  frontier-le d none t h k = h
  frontier-le d (some key) t h k = ground arith

  -- The clock as `push` leaves it for its loop.
  abbrev keyed : ClockTrade F → BarClock F → BarClock F
  keyed t c = record c { last_key = some (clock_order_key t) }

  abbrev pub fired : ClockTrade F → BarClock F → List (Bar F) × BarClock F
  fired t c = fire_caps fl (t.origin_time + 1) t.origin_time (keyed t c)

  abbrev pub joined : ClockTrade F → BarClock F → List (Bar F) × BarClock F
  joined t c = accumulate fl t (mul t.price t.amount) (fired t c).1

  pub push-eq :
      (t : ClockTrade F) (c : BarClock F)
      → IsReady c
      → Accepts c.day_start c.day_end c.last_key t
      → push fl t c ≡ (ok ((fired t c).0 ++ (joined t c).0), (joined t c).1)
  unfolding push
  push-eq t c r a =
      rw (r.running, le→leb _ _ a.from_start, lt→ltb _ _ a.to_end, a.newer, a.finite, a.positive)
        refl

  kept-fire_caps :
      (fuel limit : ℕ) (c : BarClock F)
      → ((fire_caps fl fuel limit c).1.last_key ≡ c.last_key)
        × ((fire_caps fl fuel limit c).1.finished ≡ c.finished)
  unfolding fire_caps fire_cap close
  kept-fire_caps zero limit c = (refl, refl)
  kept-fire_caps (suc fuel) limit c = ground (arith, kept-fire_caps fuel limit (fire_cap fl c).1)

  kept-accumulate :
      (t : ClockTrade F) (n : F) (c : BarClock F)
      → ((accumulate fl t n c).1.last_key ≡ c.last_key)
        × ((accumulate fl t n c).1.finished ≡ c.finished)
  unfolding accumulate close
  kept-accumulate t n c = ground arith

  -- An accepted trade joins the open bar or a bar that it closes; nothing is dropped.
  pub push-Step :
      (t : ClockTrade F) (c : BarClock F)
      → IsReady c
      → Accepts c.day_start c.day_end c.last_key t
      → Step fl (t ∷ []) c ((fired t c).0 ++ (joined t c).0) (joined t c).1
        × IsReady (joined t c).1
        × ((joined t c).1.last_key ≡ some (clock_order_key t))
  push-Step t c r a =
      let o = r.is_open in
      let before = frontier-le c.day_start c.last_key t a.from_start a.newer in
      let first =
        fire_caps-Step fl (t.origin_time + 1) t.origin_time (keyed t c)
          (record {
            within = o.within;
            summed = o.summed;
            below = o.below;
            fresh = o.fresh;
            cap_pos = o.cap_pos;
          })
          (omega arith) in
      let c' = (fired t c).1 in
      let low = first.2 (le_trans r.anchored before) in
      let second =
        accumulate-Step fl t c' first.0.still_open (low, omega (arith, first.0.cap_ns)) in
      let keys = kept-fire_caps (t.origin_time + 1) t.origin_time (keyed t c) in
      let keys' = kept-accumulate t (mul t.price t.amount) c' in
      let whole =
        Step-trans fl [] (t ∷ []) (keyed t c) (fired t c).0 c' (joined t c).0 (joined t c).1 first.0
          second.0 in
      let at_key = keys'.0 ∙ keys.0 in
      (
        record {
          cap_ns = whole.cap_ns;
          day_start = whole.day_start;
          day_end = whole.day_end;
          forward = whole.forward;
          emits = whole.emits;
          conserved = whole.conserved;
          still_open = whole.still_open;
        },
        record {
          is_open = whole.still_open;
          running = keys'.1 ∙ keys.1 ∙ r.running;
          anchored = rw at_key second.1;
        },
        at_key,
      )
