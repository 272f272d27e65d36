-- ===== src/Bars/Produce/Segment.antt =====
-- bars/produce.py: the bars of a whole segment, and those of its chained clocks.
use Prim.Native.String.{String}
use jepa_btc_forecasting.Prelude.{
  ℕ, ◌+◌, ◌≡◌, refl, sym, ap, ◌∙◌, Option, none, some, List, [], ◌∷◌, ◌++◌, arith, Result, ok, err,
  ◌>>=◌, map_err, >>=-eq-ok,
}
use mathlib.Core.Path.{subst}
use jepa_btc_forecasting.Prelude.Float.{Float}
use jepa_btc_forecasting.Bars.Clock.{Bar, BarClock}
use jepa_btc_forecasting.Bars.Schedule.{ThresholdSchedule}
use jepa_btc_forecasting.Bars.Day.{
  DayError, Stream, bars_for_day, coalesce_from, coalesce_decision_bars,
}
use jepa_btc_forecasting.Bars.Day.Coalesce.{
  IsMonotone, IsIncreasing, last_at, coalesce_decision_bars_lem,
}
use jepa_btc_forecasting.Bars.Day.Rises.{bars_for_day-IsMonotone}
use jepa_btc_forecasting.Bars.Produce.Carry.{
  front, IsAt, held, coalesce-front, front-IsFirstAt, hand_over-eq, release-eq, coalesce_carried,
}
use jepa_btc_forecasting.Bars.Produce.{
  ProduceError, day_error, SegmentDay, last_of, listed, hand_over, record_volume, classify_days,
}

module _ {F : Type 0} where
  -- The bars of a run that ends without an error.
  unfoldable pub ended : Stream DayError (Bar F) (BarClock F) → Result ProduceError (List (Bar F))
  ended (bars, end) = do c ← map_err day_error end; ok bars

  -- The watermark and the index after a day's bars.
  abbrev pub watermark_after : ℕ → List (Bar F) → ℕ
  watermark_after w [] = w
  watermark_after w (b ∷ bars) = (last_of b bars).t_event

  abbrev pub index_after : ℕ → List (Bar F) → ℕ
  index_after i [] = i
  index_after i (b ∷ bars) = (last_of b bars).index + 1

  IsMonotone-zero : (w : ℕ) (bars : List (Bar F)) → IsMonotone w bars → IsMonotone 0 bars
  IsMonotone-zero w [] h = tt
  IsMonotone-zero w (b ∷ bs) h = (omega arith, h.1)

  listed-eq :
      (bars : List (Bar F)) (end : Result DayError (BarClock F))
      → IsMonotone 0 bars
      → listed (bars, end) ≡ (ended (bars, end) >>= λ xs. ok (coalesce_decision_bars xs).0)
  unfolding listed ended
  listed-eq bars (err e) h = rw ((coalesce_decision_bars_lem bars h).0) refl
  listed-eq bars (ok c) h = rw ((coalesce_decision_bars_lem bars h).0) refl

  IsMonotone-append :
      (w : ℕ) (xs ys : List (Bar F))
      → IsMonotone w xs
      → IsMonotone (watermark_after w xs) ys
      → IsMonotone w (xs ++ ys)
  unfolding last_of
  IsMonotone-append w [] ys h k = k
  IsMonotone-append w (x ∷ []) ys h k = (h.0, k)
  IsMonotone-append w (x ∷ y ∷ xs) ys h k = (h.0, IsMonotone-append x.t_event (y ∷ xs) ys h.1 k)

bind-ok :
    {E A B C : Type 0} (r : Result E A) (r' : Result E B) (f : A → B) (h : B → C) (g : A → C)
    → r' ≡ (r >>= λ x. ok (f x))
    → ((x : A) → h (f x) ≡ g x)
    → (r' >>= λ y. ok (h y)) ≡ (r >>= λ x. ok (g x))
bind-ok (err e) r' f h g eq same = rw eq refl
bind-ok (ok x) r' f h g eq same = rw eq (ap ok (same x))

bind_fuse :
    {E A B C : Type 0} (r : Result E A) (f : A → B) (g : B → C)
    → (r >>= λ x. ok (g (f x))) ≡ (r >>= (λ x. ok (f x)) >>= λ y. ok (g y))
bind_fuse (err e) f g = refl
bind_fuse (ok x) f g = refl

module _ (fl : Float) (from_iso : String → Option ℕ) where
  open fl use {F}

  module _ (fsum : List F → F) (time_cap_ns : ℕ) where
    -- The bars of the chained clocks of a segment: each day starts from the watermark and the index
    -- at which the last bar of the days before left them.
    unfoldable pub clock_bars :
        List (SegmentDay F) → ThresholdSchedule F → ℕ → ℕ → Result ProduceError (List (Bar F))
    unfolding ended
    clock_bars [] schedule watermark next_index = ok []
    clock_bars (d ∷ days) schedule watermark next_index = do
      bars ←
          ended (bars_for_day fl from_iso d.trades d.day schedule time_cap_ns watermark next_index)
      recorded ← record_volume fl from_iso fsum time_cap_ns d schedule
      rest ← clock_bars days recorded (watermark_after watermark bars) (index_after next_index bars)
      ok (bars ++ rest)

    -- One day, given the claim for the days after it.
    classify-step :
        (days : List (SegmentDay F)) (bars : List (Bar F)) (s : ThresholdSchedule F) (w i : ℕ)
        (carry : Option (Bar F))
        → IsAt w carry
        → IsMonotone w bars
        → ((v j : ℕ) (c : Option (Bar F))
            → IsAt v c
            → classify_days fl from_iso fsum time_cap_ns days s v j c
              ≡ (clock_bars days s v j >>= λ xs. ok (coalesce_from c xs).0))
        → (hand_over carry w i (coalesce_decision_bars bars).0 >>= λ h.
            classify_days fl from_iso fsum time_cap_ns days s h.watermark h.next_index h.carry
            >>= λ rest. ok (h.classified ++ rest))
          ≡ (clock_bars days s (watermark_after w bars) (index_after i bars) >>= λ rest.
              ok (coalesce_from carry (bars ++ rest)).0)
    unfolding hand_over coalesce_decision_bars coalesce_from
    classify-step days [] s w i carry at mono claim =
        bind-ok (clock_bars days s w i) _ (λ xs. (coalesce_from carry xs).0) (λ rest. rest) _
          (claim w i carry at) (λ x. refl)
    classify-step days (x ∷ xs) s w i carry at mono claim =
        let l = last_of x xs in
        rw
          (
            coalesce-front x xs mono.1,
            hand_over-eq carry w i x.t_event (front x xs) (held carry x) l
                (front-IsFirstAt x xs mono.1) (λ b same. release-eq carry w x b at mono.0 same),
          )
          (bind-ok (clock_bars days s l.t_event (l.index + 1)) _
            (λ ys. (coalesce_from (some l) ys).0) (λ rest. (held carry x ++ front x xs) ++ rest) _
            (claim l.t_event (l.index + 1) (some l) refl)
            (λ ys. sym (coalesce_carried carry w x xs ys at mono.0 mono.1)))

    ended-IsMonotone :
        (w : ℕ) (out : Stream DayError (Bar F) (BarClock F)) (bars : List (Bar F))
        → IsMonotone w out.0
        → ended out ≡ ok bars
        → IsMonotone w bars
    unfolding ended
    ended-IsMonotone w (xs, err e) bars h k = cc
    ended-IsMonotone w (xs, ok c) bars h k =
        let same : xs ≡ bars = cc in subst (IsMonotone w) same h

    classify-day :
        (days : List (SegmentDay F)) (w i : ℕ) (carry : Option (Bar F))
        (r : Result ProduceError (List (Bar F))) (q : Result ProduceError (ThresholdSchedule F))
        → IsAt w carry
        → ((bars : List (Bar F)) → r ≡ ok bars → IsMonotone w bars)
        → ((s : ThresholdSchedule F) (v j : ℕ) (c : Option (Bar F))
            → IsAt v c
            → classify_days fl from_iso fsum time_cap_ns days s v j c
              ≡ (clock_bars days s v j >>= λ xs. ok (coalesce_from c xs).0))
        → ((r >>= λ xs. ok (coalesce_decision_bars xs).0) >>= λ bars. q >>= λ s.
            hand_over carry w i bars >>= λ h.
            classify_days fl from_iso fsum time_cap_ns days s h.watermark h.next_index h.carry
            >>= λ rest. ok (h.classified ++ rest))
          ≡ ((r >>= λ bars. q >>= λ s.
                clock_bars days s (watermark_after w bars) (index_after i bars) >>= λ rest.
                ok (bars ++ rest))
              >>= λ xs. ok (coalesce_from carry xs).0)
    classify-day days w i carry (err e) q at mono claim = refl
    classify-day days w i carry (ok bars) (err e) at mono claim = refl
    classify-day days w i carry (ok bars) (ok s) at mono claim =
        classify-step days bars s w i carry at (mono bars refl) (claim s)
        ∙ bind_fuse (clock_bars days s (watermark_after w bars) (index_after i bars))
            (λ rest. bars ++ rest) (λ xs. (coalesce_from carry xs).0)

    classify-eq :
        (days : List (SegmentDay F)) (s : ThresholdSchedule F) (w i : ℕ) (carry : Option (Bar F))
        → IsAt w carry
        → classify_days fl from_iso fsum time_cap_ns days s w i carry
          ≡ (clock_bars days s w i >>= λ xs. ok (coalesce_from carry xs).0)
    unfolding classify_days clock_bars coalesce_from
    classify-eq [] s w i none at = refl
    classify-eq [] s w i (some p) at = refl
    classify-eq (d ∷ days) s w i carry at =
        let out = bars_for_day fl from_iso d.trades d.day s time_cap_ns w i in
        let mono = bars_for_day-IsMonotone fl from_iso d.trades d.day s time_cap_ns w i in
        rw (listed-eq out.0 out.1 (IsMonotone-zero w out.0 mono)) (
          classify-day days w i carry (ended out) (record_volume fl from_iso fsum time_cap_ns d s)
            at (λ bars h. ended-IsMonotone w out bars mono h)
            (λ s' v j c at'. classify-eq days s' v j c at'))

    clock_bars-IsMonotone :
        (days : List (SegmentDay F)) (s : ThresholdSchedule F) (w i : ℕ) (bars : List (Bar F))
        → clock_bars days s w i ≡ ok bars
        → IsMonotone w bars
    unfolding clock_bars
    clock_bars-IsMonotone [] s w i bars h =
        let same : [] ≡ bars = cc in subst (IsMonotone w) same tt
    clock_bars-IsMonotone (d ∷ days) s w i bars h =
        let out = bars_for_day fl from_iso d.trades d.day s time_cap_ns w i in
        let xs = >>=-eq-ok (ended out) _ h in
        let q = >>=-eq-ok (record_volume fl from_iso fsum time_cap_ns d s) _ xs.2 in
        let ys =
          >>=-eq-ok (clock_bars days q.0 (watermark_after w xs.0) (index_after i xs.0)) _ q.2 in
        let same : xs.0 ++ ys.0 ≡ bars = cc in
        subst (IsMonotone w) same (
          IsMonotone-append w xs.0 ys.0
            (ended-IsMonotone w out xs.0
              (bars_for_day-IsMonotone fl from_iso d.trades d.day s time_cap_ns w i) xs.1)
            (clock_bars-IsMonotone days q.0 (watermark_after w xs.0) (index_after i xs.0) ys.0
              ys.1))

    -- Whatever the days of a segment are, classifying them one by one, with the last bar of each day
    -- held over to the next, comes to coalescing the bars of the chained clocks in one stream; it
    -- raises exactly the errors of the clocks and of the schedule.
    pub classify_days-coalesced :
        (days : List (SegmentDay F)) (s : ThresholdSchedule F) (w i : ℕ)
        → classify_days fl from_iso fsum time_cap_ns days s w i none
          ≡ (clock_bars days s w i >>= λ bars. ok (coalesce_decision_bars bars).0)
    unfolding coalesce_decision_bars
    classify_days-coalesced days s w i = classify-eq days s w i none tt

    -- When the chained clocks of a segment run without an error, so does the classification: the
    -- decision times of the classified bars rise strictly, and for every instant the bar is the last
    -- one that a clock decided at it.
    pub classify_days-IsIncreasing :
        (days : List (SegmentDay F)) (s : ThresholdSchedule F) (w i : ℕ) (bars : List (Bar F))
        → clock_bars days s w i ≡ ok bars
        → (out : List (Bar F)) × (classify_days fl from_iso fsum time_cap_ns days s w i none
            ≡ ok out)
          × IsIncreasing out
          × ((t : ℕ) → last_at t out ≡ last_at t bars)
    classify_days-IsIncreasing days s w i bars h =
        let mono = IsMonotone-zero w bars (clock_bars-IsMonotone days s w i bars h) in
        let done = coalesce_decision_bars_lem bars mono in
        (
          (coalesce_decision_bars bars).0,
          classify_days-coalesced days s w i ∙ rw h refl,
          done.1,
          done.2,
        )
