-- ===== src/Bars/Clock/Sound.antt =====
-- bars/clock.py, class BarClock: the ways in which it closes a bar.
use jepa_btc_forecasting.Prelude.{
  ℕ, zero, suc, ◌+◌, ◌≤◌, ◌<◌, ◌≡◌, refl, sym, ap, ◌∙◌, inl, inr, Option, none, some, List, [], ◌∷◌,
  ◌++◌, map, arith, leb, Bool-cases, leb→le, leb-false→lt, All, All-map, All-append_left,
  All-append_right, All-append, append_assoc, append-nil,
}
use mathlib.Core.List.{foldl-append}
use mathlib.Core.Path.{subst₂}
use native.Mathlib.Nat.{le_trans}
use jepa_btc_forecasting.Prelude.Float.{Float}
use jepa_btc_forecasting.Bars.Events.{ClockTrade}
use jepa_btc_forecasting.Bars.Clock.{
  CloseReason, close_threshold, close_time_cap, Bar, BarClock, max_list, newest, forced, candidates,
  close, fire_cap, fire_caps, accumulate,
}
use jepa_btc_forecasting.Bars.Clock.Bounds.{
  max_list-le, notional_of, members_of-append, Within, Emits-append, Reasoned, Fired, IsSound,
  IsOpen, Emits, members_of,
}

module _ (fl : Float) where
  open fl use {F, of_ℕ, add, mul, lt, le}

  received-le :
      (ts : List (ClockTrade F)) (w : ℕ)
      → All (λ x. x ≤ w) (map (λ t. t.received_time) ts)
      → All (λ t. t.received_time ≤ w) ts
  received-le [] w h = tt
  received-le (t ∷ ts) w h = (h.0, received-le ts w h.1)

  newest_le :
      (ts : List (ClockTrade F)) (w : ℕ)
      → All (λ x. x ≤ w) (newest fl ts)
      → All (λ t. t.received_time ≤ w) ts
  newest_le [] w h = tt
  newest_le (t ∷ ts) w h =
      let xs = map (λ (t : ClockTrade F). t.received_time) (t ∷ ts) in
      received-le (t ∷ ts) w
        (All-map (λ y. y ≤ max_list xs) (λ y. y ≤ w) (λ y k. le_trans k h.0) xs (max_list-le xs))

  forced_le : (fire : Option ℕ) (w : ℕ) → All (λ x. x ≤ w) (forced fl fire) → Fired fl fire w
  forced_le none w h = tt
  forced_le (some f) w h = h.0

  -- The watermark of a close is at least each of its candidates.
  candidates_le :
      (c : BarClock F) (fire : Option ℕ) (w : ℕ)
      → All (λ x. x ≤ w) (candidates fl c fire)
      → (c.watermark ≤ w) × All (λ t. t.received_time ≤ w) c.members × Fired fl fire w
  unfolding candidates
  candidates_le c fire w h = (
    h.0,
    newest_le c.members w (All-append_left _ (newest fl c.members) (forced fl fire) h.1),
    forced_le fire w (All-append_right _ (newest fl c.members) (forced fl fire) h.1),
  )

  pub close-IsSound :
      (reason : CloseReason) (fire : Option ℕ) (c : BarClock F) (day_end : ℕ)
      → All (Within fl c.interval_start c.cap_ns) c.members
      → c.notional ≡ notional_of fl c.members
      → Reasoned fl c.cap_ns day_end (close fl reason fire c).0 reason
      → IsSound fl c.cap_ns day_end c.watermark (close fl reason fire c).0
  unfolding close
  close-IsSound reason fire c day_end within summed reasoned =
      let w = max_list (candidates fl c fire) in
      let bounds = candidates_le c fire w (max_list-le (candidates fl c fire)) in
      record {
        monotone = bounds.0;
        observed = bounds.1;
        fired = bounds.2;
        within = within;
        summed = summed;
        reasoned = reasoned;
      }

  -- What every step of the clock keeps, while it takes in the trades `added` and yields `bars`.
  pub record Step (added : List (ClockTrade F)) (c : BarClock F) (bars : List (Bar F))
      (c' : BarClock F) : Type 0 where
    pub cap_ns : c'.cap_ns ≡ c.cap_ns
    pub day_start : c'.day_start ≡ c.day_start
    pub day_end : c'.day_end ≡ c.day_end
    pub forward : c.interval_start ≤ c'.interval_start
    pub emits : Emits fl c.cap_ns c.day_end c.watermark c.index bars c'.watermark c'.index
    pub conserved : members_of fl bars ++ c'.members ≡ c.members ++ added
    pub still_open : IsOpen fl c'

  pub Step-none : (c : BarClock F) → IsOpen fl c → Step [] c [] c
  Step-none c h = record {
    cap_ns = refl;
    day_start = refl;
    day_end = refl;
    forward = omega arith;
    emits = (refl, refl);
    conserved = sym (append-nil c.members);
    still_open = h;
  }

  pub Step-trans :
      (xs ys : List (ClockTrade F)) (c : BarClock F) (bs : List (Bar F)) (c' : BarClock F)
      (bs' : List (Bar F)) (c'' : BarClock F)
      → Step xs c bs c'
      → Step ys c' bs' c''
      → Step (xs ++ ys) c (bs ++ bs') c''
  Step-trans xs ys c bs c' bs' c'' h k = record {
    cap_ns = k.cap_ns ∙ h.cap_ns;
    day_start = k.day_start ∙ h.day_start;
    day_end = k.day_end ∙ h.day_end;
    forward = le_trans h.forward k.forward;
    emits =
        Emits-append fl c.cap_ns c.day_end c.watermark c.index c'.watermark c'.index c''.watermark
          c''.index bs bs' h.emits
          (subst₂ (λ a b. Emits fl a b c'.watermark c'.index bs' c''.watermark c''.index) h.cap_ns
            h.day_end k.emits);
    conserved =
        ap (λ l. l ++ c''.members) (members_of-append fl bs bs')
        ∙ append_assoc (members_of fl bs) (members_of fl bs') c''.members
        ∙ ap (◌++◌ (members_of fl bs)) k.conserved
        ∙ sym (append_assoc (members_of fl bs) c'.members ys)
        ∙ ap (λ l. l ++ ys) h.conserved
        ∙ append_assoc c.members xs ys;
    still_open = k.still_open;
  }

  -- What a close leaves is an open bar with no member.
  pub emptied-IsOpen :
      (c c' : BarClock F)
      → IsOpen fl c
      → c'.members ≡ []
      → c'.notional ≡ of_ℕ 0
      → c'.threshold ≡ c.threshold
      → c'.cap_ns ≡ c.cap_ns
      → IsOpen fl c'
  emptied-IsOpen c c' h m n t k = record {
    within = rw m tt;
    summed = rw (m, n);
    below = rw (n, t) h.fresh;
    fresh = rw t h.fresh;
    cap_pos = rw k h.cap_pos;
  }

  fire_cap-Step :
      (c : BarClock F) → IsOpen fl c → Step [] c ((fire_cap fl c).0 ∷ []) (fire_cap fl c).1
  unfolding fire_cap close
  fire_cap-Step c h =
      let fire = c.interval_start + c.cap_ns in
      record {
        cap_ns = refl;
        day_start = refl;
        day_end = refl;
        forward = omega arith;
        emits = (
          refl,
          close-IsSound close_time_cap (some fire) c c.day_end h.within h.summed (refl, h.below),
          (refl, refl),
        );
        conserved = append-nil (c.members ++ []);
        still_open = emptied-IsOpen c (fire_cap fl c).1 h refl refl refl refl;
      }

  -- The `while` of `push` and `finish` is a step, and with this fuel it ends by its test.
  pub fire_caps-Step :
      (fuel limit : ℕ) (c : BarClock F)
      → IsOpen fl c
      → limit < c.interval_start + fuel
      → Step [] c (fire_caps fl fuel limit c).0 (fire_caps fl fuel limit c).1
        × (limit < (fire_caps fl fuel limit c).1.interval_start + c.cap_ns)
        × (c.interval_start ≤ limit → (fire_caps fl fuel limit c).1.interval_start ≤ limit)
  unfolding fire_caps
  fire_caps-Step zero limit c h f = (Step-none c h, omega arith, λ k. k)
  fire_caps-Step (suc fuel) limit c h f =
      elim (Bool-cases (leb (c.interval_start + c.cap_ns) limit)) [
        | inr out ↦ rw out (Step-none c h, leb-false→lt _ _ out, λ k. k)
        | inl more ↦
            let c' = (fire_cap fl c).1 in
            let first = fire_cap-Step c h in
            let moved : c'.interval_start ≡ c.interval_start + c.cap_ns = unfold fire_cap in refl in
            let reached = leb→le _ _ more in
            let rest = fire_caps-Step fuel limit c' first.still_open (omega arith) in
            rw more (
              Step-trans [] [] c ((fire_cap fl c).0 ∷ []) c' (fire_caps fl fuel limit c').0
                  (fire_caps fl fuel limit c').1 first rest.0,
              omega (arith, rest.1, first.cap_ns),
              λ _. rest.2 (omega arith),
            )
      ]

  notional_of-append :
      (ts : List (ClockTrade F)) (t : ClockTrade F)
      → add (notional_of fl ts) (mul t.price t.amount) ≡ notional_of fl (ts ++ t ∷ [])
  notional_of-append ts t = rw foldl-append

  -- The open bar with one more trade.
  abbrev joined : ClockTrade F → BarClock F → BarClock F
  joined t c = record c {
    members = c.members ++ t ∷ [];
    notional = add c.notional (mul t.price t.amount);
  }

  pub accumulate-Step :
      (t : ClockTrade F) (c : BarClock F)
      → IsOpen fl c
      → Within fl c.interval_start c.cap_ns t
      → Step
          (t ∷ [])
          c
          (accumulate fl t (mul t.price t.amount) c).0
          (accumulate fl t (mul t.price t.amount) c).1
        × ((accumulate fl t (mul t.price t.amount) c).1.interval_start ≤ t.origin_time)
  unfolding accumulate close
  accumulate-Step t c h w =
      let c' = joined t c in
      let within =
        All-append (Within fl c.interval_start c.cap_ns) c.members (t ∷ []) h.within (w, tt) in
      let summed =
        ap (λ x. add x (mul t.price t.amount)) h.summed ∙ notional_of-append c.members t in
      elim (Bool-cases (le c'.threshold c'.notional)) [
        | inl met ↦ rw met (
          record {
            cap_ns = refl;
            day_start = refl;
            day_end = refl;
            forward = w.0;
            emits = (
              refl,
              close-IsSound close_threshold none c' c.day_end within summed (refl, met),
              (refl, refl),
            );
            conserved = append-nil _ ∙ append-nil _;
            still_open =
                emptied-IsOpen c
                  (record (close fl close_threshold none c').1 { interval_start = t.origin_time }) h
                  refl refl refl refl;
          },
          omega arith,
        )
        | inr below ↦ rw below (
          record {
            cap_ns = refl;
            day_start = refl;
            day_end = refl;
            forward = omega arith;
            emits = (refl, refl);
            conserved = refl;
            still_open = record {
              within = within;
              summed = summed;
              below = below;
              fresh = h.fresh;
              cap_pos = h.cap_pos;
            };
          },
          w.0,
        )
      ]
