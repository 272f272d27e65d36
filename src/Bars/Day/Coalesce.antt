-- ===== src/Bars/Day/Coalesce.antt =====
-- bars/clock.py, `coalesce_decision_bars`.
use jepa_btc_forecasting.Prelude.{
  ℕ, ◌≤◌, ◌<◌, ◌≡◌, refl, inl, inr, Option, none, some, List, [], ◌∷◌, ◌++◌, arith, ltb, ◌==◌,
  if◌then◌else◌, Bool-cases, ok, err, All, All-map, ltb→lt, le→ltb-false,
}
use jepa_btc_forecasting.Bars.Clock.{Bar}
use jepa_btc_forecasting.Bars.Day.{decreasing_t_event, coalesce_from, coalesce_decision_bars}

module _ {F : Type 0} where
  -- Decision times that do not fall, from `w` on.
  abbrev pub IsMonotone : ℕ → List (Bar F) → Type 0
  IsMonotone w [] = Unit
  IsMonotone w (b ∷ bs) = (w ≤ b.t_event) × IsMonotone b.t_event bs

  -- Decision times that rise: each bar is decided before every later one.
  abbrev pub IsIncreasing : List (Bar F) → Type 0
  IsIncreasing [] = Unit
  IsIncreasing (b ∷ bs) = All (λ c. b.t_event < c.t_event) bs × IsIncreasing bs

  -- The last of the bars decided at `t`.
  abbrev pub last_at : ℕ → List (Bar F) → Option (Bar F)
  last_at t [] = none
  last_at t (b ∷ bs) = elim (last_at t bs) [
    | some c ↦ some c
    | none ↦ if b.t_event == t then some b else none
  ]

  from-some :
      (p : Bar F) (bs : List (Bar F))
      → IsMonotone p.t_event bs
      → ((coalesce_from (some p) bs).1 ≡ ok tt)
        × IsIncreasing (coalesce_from (some p) bs).0
        × All (λ c. p.t_event ≤ c.t_event) (coalesce_from (some p) bs).0
        × ((t : ℕ) → last_at t (coalesce_from (some p) bs).0 ≡ last_at t (p ∷ bs))
  unfolding coalesce_from
  from-some p [] h = (refl, (tt, tt), (omega arith, tt), λ t. refl)
  from-some p (b ∷ bs) h =
      let rest = from-some b bs h.1 in
      let out = (coalesce_from (some b) bs).0 in
      elim (Bool-cases (ltb p.t_event b.t_event)) [
        | inl later ↦
            let lt = ltb→lt p.t_event b.t_event later in
            rw (le→ltb-false _ _ h.0, later)
              (
                rest.0,
                (
                  All-map (λ c. b.t_event ≤ c.t_event) (λ c. p.t_event < c.t_event)
                      (λ c k. omega arith) out rest.2,
                  rest.1,
                ),
                (
                  omega arith,
                  All-map (λ c. b.t_event ≤ c.t_event) (λ c. p.t_event ≤ c.t_event)
                      (λ c k. omega arith) out rest.2,
                ),
                λ t. ground (arith, rest.3 t),
              )
        | inr tied ↦
            rw (le→ltb-false _ _ h.0, tied)
              (
                rest.0,
                rest.1,
                All-map (λ c. b.t_event ≤ c.t_event) (λ c. p.t_event ≤ c.t_event)
                    (λ c k. omega arith) out rest.2,
                λ t. ground (arith, rest.3 t),
              )
      ]

  -- On a stream whose decision times do not fall, the coalescing never raises, yields strictly
  -- rising decision times, and keeps for every instant the last bar decided at it.
  pub coalesce_decision_bars_lem :
      (bars : List (Bar F))
      → IsMonotone 0 bars
      → ((coalesce_decision_bars bars).1 ≡ ok tt)
        × IsIncreasing (coalesce_decision_bars bars).0
        × ((t : ℕ) → last_at t (coalesce_decision_bars bars).0 ≡ last_at t bars)
  unfolding coalesce_decision_bars
  coalesce_decision_bars_lem [] h = (refl, tt, λ t. refl)
  coalesce_decision_bars_lem (b ∷ bs) h = let r = from-some b bs h.1 in (r.0, r.1, r.3)

  refuses_now :
      (p b : Bar F) (ys : List (Bar F))
      → b.t_event < p.t_event
      → (coalesce_from (some p) (b ∷ ys)).1 ≡ err decreasing_t_event
  unfolding coalesce_from
  refuses_now p b ys h = ground arith

  refuses_from :
      (q : Bar F) (xs : List (Bar F)) (p b : Bar F) (ys : List (Bar F))
      → b.t_event < p.t_event
      → (coalesce_from (some q) (xs ++ p ∷ b ∷ ys)).1 ≡ err decreasing_t_event
  unfolding coalesce_from
  refuses_from q [] p b ys h = ground (arith, refuses_now p b ys h)
  refuses_from q (x ∷ xs) p b ys h = ground (arith, refuses_from x xs p b ys h)

  -- A stream in which some decision time falls is refused.
  pub coalesce_decision_bars_refuses :
      (xs : List (Bar F)) (p b : Bar F) (ys : List (Bar F))
      → b.t_event < p.t_event
      → (coalesce_decision_bars (xs ++ p ∷ b ∷ ys)).1 ≡ err decreasing_t_event
  unfolding coalesce_decision_bars
  coalesce_decision_bars_refuses [] p b ys h = refuses_now p b ys h
  coalesce_decision_bars_refuses (x ∷ xs) p b ys h = refuses_from x xs p b ys h
