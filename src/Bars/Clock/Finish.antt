-- ===== src/Bars/Clock/Finish.antt =====
-- bars/clock.py, `BarClock.finish`.
use jepa_btc_forecasting.Prelude.{
  ◌+◌, ◌≡◌, refl, true, false, some, List, [], ◌∷◌, ◌++◌, arith, append-nil, ok,
}
use jepa_btc_forecasting.Prelude.Float.{Float}
use jepa_btc_forecasting.Bars.Events.{ClockTrade}
use jepa_btc_forecasting.Bars.Clock.{
  Bar, BarClock, close, close_day_end, fire_caps, close_residual, finish,
}
use jepa_btc_forecasting.Bars.Clock.Bounds.{IsOpen}
use jepa_btc_forecasting.Bars.Clock.Sound.{
  Step, Step-trans, Step-none, fire_caps-Step, close-IsSound, emptied-IsOpen,
}
use jepa_btc_forecasting.Bars.Clock.Push.{IsReady}

module _ (fl : Float) where
  open fl use {F, of_ℕ}

  residual-Step :
      (ms : List (ClockTrade F)) (c : BarClock F)
      → c.members ≡ ms
      → IsOpen fl c
      → Step fl [] c (close_residual fl ms c).0 (close_residual fl ms c).1
        × ((close_residual fl ms c).1.members ≡ [])
  unfolding close_residual close
  residual-Step [] c e h = (Step-none fl c h, e)
  residual-Step (m ∷ ms) c e h = (
    record {
      cap_ns = refl;
      day_start = refl;
      day_end = refl;
      forward = omega arith;
      emits = (
        refl,
        close-IsSound fl close_day_end (some c.day_end) c c.day_end h.within h.summed
            (refl, h.below),
        (refl, refl),
      );
      conserved = append-nil (c.members ++ []);
      still_open = emptied-IsOpen fl c (close_residual fl (m ∷ ms) c).1 h refl refl refl refl;
    },
    refl,
  )

  abbrev ended : BarClock F → BarClock F
  ended c = record c { finished = true }

  abbrev pub elapsed : BarClock F → List (Bar F) × BarClock F
  elapsed c = fire_caps fl (c.day_end + 1) c.day_end (ended c)

  abbrev pub residue : BarClock F → List (Bar F) × BarClock F
  residue c = close_residual fl (elapsed c).1.members (elapsed c).1

  pub finish-eq :
      (c : BarClock F)
      → c.finished ≡ false
      → finish fl c ≡ (ok ((elapsed c).0 ++ (residue c).0), (residue c).1)
  unfolding finish
  finish-eq c h = rw h refl

  -- Finishing closes the open bar: its members are in what is yielded.
  pub finish-Step :
      (c : BarClock F)
      → IsReady fl c
      → Step fl [] c ((elapsed c).0 ++ (residue c).0) (residue c).1 × ((residue c).1.members ≡ [])
  finish-Step c r =
      let o = r.is_open in
      let first =
        fire_caps-Step fl (c.day_end + 1) c.day_end (ended c)
          (record {
            within = o.within;
            summed = o.summed;
            below = o.below;
            fresh = o.fresh;
            cap_pos = o.cap_pos;
          })
          (omega arith) in
      let second = residual-Step (elapsed c).1.members (elapsed c).1 refl first.0.still_open in
      let whole =
        Step-trans fl [] [] (ended c) (elapsed c).0 (elapsed c).1 (residue c).0 (residue c).1
          first.0 second.0 in
      (
        record {
          cap_ns = whole.cap_ns;
          day_start = whole.day_start;
          day_end = whole.day_end;
          forward = whole.forward;
          emits = whole.emits;
          conserved = whole.conserved;
          still_open = whole.still_open;
        },
        second.1,
      )
