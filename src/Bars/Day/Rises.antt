-- ===== src/Bars/Day/Rises.antt =====
-- bars/clock.py: the decision times of one clock, whatever trades it is given and however its run ends.
use Prim.Native.String.{String}
use jepa_btc_forecasting.Prelude.{
  ℕ, zero, suc, ◌+◌, ◌*◌, ◌≤◌, ◌≡◌, refl, sym, ap, ◌∙◌, inl, inr, true, false, not, ◌&&◌, Option,
  none, some, List, [], ◌∷◌, ◌++◌, arith, ltb, leb, Bool-cases, Result, ok, err, >>=-eq-ok,
  if◌then◌else◌, Bool, append-nil, map_err, refuse, any,
}
use mathlib.Core.Path.{subst}
use jepa_btc_forecasting.Prelude.Float.{Float}
use jepa_btc_forecasting.Prelude.Sort.{sort}
use jepa_btc_forecasting.Bars.Events.{ClockTrade, clock_order_key, trade_le, min_absolute_ns}
use jepa_btc_forecasting.Bars.Clock
use jepa_btc_forecasting.Bars.Clock.{
  CloseReason, already_finished, outside_day, out_of_order, bad_notional, close_day_end,
  close_threshold, close_time_cap, ClockError, Bar, BarClock, max_list, candidates, close, fire_cap,
  fire_caps, accumulate, fresh_key, push, close_residual, finish,
}
use jepa_btc_forecasting.Bars.Schedule.{ThresholdSchedule, threshold_for, parse_day}
use jepa_btc_forecasting.Bars.Day.Coalesce.{IsMonotone}
use jepa_btc_forecasting.Bars.Day.{
  DayError, schedule_error, clock_error, not_absolute, Stream, has_duplicate, duplicate_key, day_ns,
  feed_end, feed_step, feed, prepare, stream, bars_for_day,
}

module _ {F : Type 0} where
  -- Bars decided one after the other, from the watermark `w` on to the watermark `w'`.
  abbrev pub Rises : ℕ → List (Bar F) → ℕ → Type 0
  Rises w [] w' = w ≡ w'
  Rises w (b ∷ bs) w' = (w ≤ b.t_event) × Rises b.t_event bs w'

  pub Rises-append :
      (w v u : ℕ) (xs ys : List (Bar F)) → Rises w xs v → Rises v ys u → Rises w (xs ++ ys) u
  Rises-append w v u [] ys h k = rw h k
  Rises-append w v u (x ∷ xs) ys h k = (h.0, Rises-append x.t_event v u xs ys h.1 k)

module _ (fl : Float) where
  open fl use {F, of_ℕ, add, mul, lt, le, is_finite}

  close-Rises :
      (reason : CloseReason) (fire : Option ℕ) (c : BarClock F)
      → (c.watermark ≤ (close fl reason fire c).0.t_event)
        × ((close fl reason fire c).0.t_event ≡ (close fl reason fire c).1.watermark)
  unfolding close candidates max_list
  close-Rises reason fire c = (omega arith, refl)

  fire_cap-le : (c : BarClock F) → c.watermark ≤ (fire_cap fl c).0.t_event
  unfolding fire_cap
  fire_cap-le c = (close-Rises close_time_cap (some (c.interval_start + c.cap_ns)) c).0

  fire_cap-watermark : (c : BarClock F) → (fire_cap fl c).0.t_event ≡ (fire_cap fl c).1.watermark
  unfolding fire_cap close
  fire_cap-watermark c = refl

  fire_caps-Rises :
      (fuel limit : ℕ) (c : BarClock F)
      → Rises c.watermark (fire_caps fl fuel limit c).0 (fire_caps fl fuel limit c).1.watermark
  unfolding fire_caps fire_cap close
  fire_caps-Rises zero limit c = refl
  fire_caps-Rises (suc fuel) limit c = elim (Bool-cases (leb (c.interval_start + c.cap_ns) limit)) [
    | inl t ↦ rw t (fire_cap-le c, fire_caps-Rises fuel limit (fire_cap fl c).1)
    | inr f ↦ rw f refl
  ]

  accumulate-Rises :
      (t : ClockTrade F) (notional : F) (c : BarClock F)
      → Rises c.watermark (accumulate fl t notional c).0 (accumulate fl t notional c).1.watermark
  unfolding accumulate
  accumulate-Rises t notional c =
      let c' = record c { members = c.members ++ t ∷ []; notional = add c.notional notional } in
      elim (Bool-cases (le c.threshold (add c.notional notional))) [
        | inl met ↦ rw met (close-Rises close_threshold none c')
        | inr unmet ↦ rw unmet refl
      ]

  residual-Rises :
      (ms : List (ClockTrade F)) (c : BarClock F)
      → Rises c.watermark (close_residual fl ms c).0 (close_residual fl ms c).1.watermark
  unfolding close_residual
  residual-Rises [] c = refl
  residual-Rises (m ∷ ms) c = close-Rises close_day_end (some c.day_end) c

  -- What a call that does not raise emits.
  abbrev pub Emitted : ℕ → Result ClockError (List (Bar F)) × BarClock F → Type 0
  Emitted w (err e, c) = Unit
  Emitted w (ok bars, c) = Rises w bars c.watermark

  Emitted-checked :
      (w : ℕ) (p q r s : Bool) (e f g h : ClockError) (c d : BarClock F) (bars : List (Bar F))
      (c' : BarClock F)
      → Rises w bars c'.watermark
      → Emitted w (
          if p
          then (err e, c)
          else if q
          then (err f, c)
          else if r
          then (err g, c)
          else if s
          then (err h, d)
          else (ok bars, c'))
  Emitted-checked w true q r s e f g h c d bars c' k = tt
  Emitted-checked w false true r s e f g h c d bars c' k = tt
  Emitted-checked w false false true s e f g h c d bars c' k = tt
  Emitted-checked w false false false true e f g h c d bars c' k = tt
  Emitted-checked w false false false false e f g h c d bars c' k = k

  push-Emitted : (t : ClockTrade F) (c : BarClock F) → Emitted c.watermark (push fl t c)
  unfolding push
  push-Emitted t c =
      let keyed = record c { last_key = some (clock_order_key t) } in
      let fired = fire_caps fl (t.origin_time + 1) t.origin_time keyed in
      let closed = accumulate fl t (mul t.price t.amount) fired.1 in
      let bars =
        Rises-append c.watermark fired.1.watermark closed.1.watermark fired.0 closed.0
          (fire_caps-Rises (t.origin_time + 1) t.origin_time keyed)
          (accumulate-Rises t (mul t.price t.amount) fired.1) in
      let off_day = not (leb c.day_start t.origin_time && ltb t.origin_time c.day_end) in
      let stale = not (fresh_key fl c.last_key (clock_order_key t)) in
      let bad = not (is_finite (mul t.price t.amount) && lt (of_ℕ 0) (mul t.price t.amount)) in
      Emitted-checked c.watermark c.finished off_day stale bad already_finished outside_day
        out_of_order bad_notional c keyed (fired.0 ++ closed.0) closed.1 bars

  finish-Emitted : (c : BarClock F) → Emitted c.watermark (finish fl c)
  unfolding finish
  finish-Emitted c =
      let done = record c { finished = true } in
      let fired = fire_caps fl (c.day_end + 1) c.day_end done in
      let closed = close_residual fl fired.1.members fired.1 in
      let bars =
        Rises-append c.watermark fired.1.watermark closed.1.watermark fired.0 closed.0
          (fire_caps-Rises (c.day_end + 1) c.day_end done)
          (residual-Rises fired.1.members fired.1) in
      elim (Bool-cases c.finished) [ inl d ↦ rw d tt | inr d ↦ simp d bars ]

  Rises-IsMonotone :
      (w v : ℕ) (xs ys : List (Bar F)) → Rises w xs v → IsMonotone v ys → IsMonotone w (xs ++ ys)
  Rises-IsMonotone w v [] ys h k = rw h k
  Rises-IsMonotone w v (x ∷ xs) ys h k = (h.0, Rises-IsMonotone x.t_event v xs ys h.1 k)

  step-IsMonotone :
      (w v : ℕ) (r : Result ClockError (List (Bar F))) (c : BarClock F)
      (rest : Stream DayError (Bar F) (BarClock F))
      → Emitted w (r, c)
      → IsMonotone c.watermark rest.0
      → IsMonotone w (feed_step fl r rest).0
  unfolding feed_step
  step-IsMonotone w v (err e) c rest h k = tt
  step-IsMonotone w v (ok bars) c rest h k = Rises-IsMonotone w c.watermark bars rest.0 h k

  end-IsMonotone :
      (w : ℕ) (out : Result ClockError (List (Bar F)) × BarClock F)
      → Emitted w out
      → IsMonotone w (feed_end fl out).0
  unfolding feed_end
  end-IsMonotone w (err e, c) h = tt
  end-IsMonotone w (ok bars, c) h =
      subst (IsMonotone w) (append-nil bars) (Rises-IsMonotone w c.watermark bars [] h tt)

  feed-IsMonotone :
      (ts : List (ClockTrade F)) (c : BarClock F) → IsMonotone c.watermark (feed fl ts c).0
  unfolding feed
  feed-IsMonotone [] c = end-IsMonotone c.watermark (finish fl c) (finish-Emitted c)
  feed-IsMonotone (t ∷ ts) c =
      step-IsMonotone c.watermark 0 (push fl t c).0 (push fl t c).1 (feed fl ts (push fl t c).1)
        (push-Emitted t c) (feed-IsMonotone ts (push fl t c).1)

  init-watermark :
      (threshold : F) (cap_ns a b : ℕ) (is_warmup : Bool) (w i : ℕ) (c : BarClock F)
      → Clock.init fl threshold cap_ns a b is_warmup w i ≡ ok c
      → c.watermark ≡ w
  unfolding Clock.init
  init-watermark threshold cap_ns a b is_warmup w i c h = ground arith

  map_err-ok :
      (r : Result ClockError (BarClock F)) (c : BarClock F)
      → map_err clock_error r ≡ ok c
      → r ≡ ok c
  map_err-ok (err e) c h = cc
  map_err-ok (ok x) c h = cc

  module _ (from_iso : String → Option ℕ) where
    prepare-watermark :
        (trades : List (ClockTrade F)) (day : String) (s : ThresholdSchedule F) (cap_ns w i : ℕ)
        (ordered : List (ClockTrade F)) (c : BarClock F)
        → prepare fl from_iso trades day s cap_ns w i ≡ ok (ordered, c)
        → c.watermark ≡ w
    unfolding prepare
    prepare-watermark trades day s cap_ns w i ordered c h =
        let a = >>=-eq-ok (map_err schedule_error (threshold_for fl from_iso s day)) _ h in
        let b = >>=-eq-ok (map_err schedule_error (parse_day fl from_iso day)) _ a.2 in
        let u = >>=-eq-ok (refuse (has_duplicate (sort trade_le trades)) duplicate_key) _ b.2 in
        let v =
          >>=-eq-ok
            (refuse (any (λ t. ltb t.received_time min_absolute_ns) (sort trade_le trades))
              not_absolute)
            _ u.2 in
        let k =
          >>=-eq-ok
            (map_err clock_error (
              Clock.init fl a.0.threshold cap_ns (b.0 * day_ns) (b.0 * day_ns + day_ns)
                a.0.is_warmup w i))
            _ v.2 in
        let same : k.0 ≡ c = ground (arith, k.2) in
        ap (λ (x : BarClock F). x.watermark) (sym same)
        ∙ init-watermark a.0.threshold cap_ns (b.0 * day_ns) (b.0 * day_ns + day_ns) a.0.is_warmup w
            i k.0 (map_err-ok _ k.0 k.1)

    -- The bars of a day are decided from the watermark it starts with on, and never fall.
    pub bars_for_day-IsMonotone :
        (trades : List (ClockTrade F)) (day : String) (s : ThresholdSchedule F) (cap_ns w i : ℕ)
        → IsMonotone w (bars_for_day fl from_iso trades day s cap_ns w i).0
    unfolding bars_for_day stream
    bars_for_day-IsMonotone trades day s cap_ns w i =
        go (prepare fl from_iso trades day s cap_ns w i) refl
      where
        go :
            (r : Result DayError (List (ClockTrade F) × BarClock F))
            → prepare fl from_iso trades day s cap_ns w i ≡ r
            → IsMonotone w (stream fl from_iso r).0
        go (err e) h = tt
        go (ok (ordered, c)) h =
            subst (λ x. IsMonotone x (feed fl ordered c).0)
              (prepare-watermark trades day s cap_ns w i ordered c h) (feed-IsMonotone ordered c)
