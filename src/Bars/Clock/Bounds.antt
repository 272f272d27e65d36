-- ===== src/Bars/Clock/Bounds.antt =====
-- bars/clock.py, class BarClock: the terms in which its bars and its open bar are described.
use jepa_btc_forecasting.Prelude.{
  ℕ, ◌+◌, ◌≤◌, ◌<◌, ◌≡◌, refl, sym, true, false, Option, none, some, List, [], ◌∷◌, ◌++◌, max,
  arith, All, All-map, append_assoc,
}
use mathlib.Core.List.{foldl}
use jepa_btc_forecasting.Prelude.Float.{Float}
use jepa_btc_forecasting.Bars.Events.{ClockTrade}
use jepa_btc_forecasting.Bars.Clock.{
  CloseReason, close_threshold, close_time_cap, close_day_end, Bar, BarClock, max_list,
}

pub max_list-le : (xs : List ℕ) → All (λ x. x ≤ max_list xs) xs
unfolding max_list
max_list-le [] = tt
max_list-le (x ∷ xs) = (
  omega arith,
  All-map (λ y. y ≤ max_list xs) (λ y. y ≤ max x (max_list xs)) (λ y h. omega arith) xs
      (max_list-le xs),
)

module _ (fl : Float) where
  open fl use {F, of_ℕ, add, mul, lt, le}

  -- The running sum of price times amount.
  abbrev pub notional_of : List (ClockTrade F) → F
  notional_of = foldl (λ acc t. add acc (mul t.price t.amount)) (of_ℕ 0)

  -- Half-open [start, start + cap).
  abbrev pub Within : ℕ → ℕ → ClockTrade F → Type 0
  Within start cap t = (start ≤ t.origin_time) × (t.origin_time < start + cap)

  abbrev pub Reasoned : ℕ → ℕ → Bar F → CloseReason → Type 0
  Reasoned cap day_end b close_threshold =
      (b.cap_fire_ns ≡ none) × (le b.threshold b.notional ≡ true)
  Reasoned cap day_end b close_time_cap =
      (b.cap_fire_ns ≡ some (b.interval_start_ns + cap)) × (le b.threshold b.notional ≡ false)
  Reasoned cap day_end b close_day_end =
      (b.cap_fire_ns ≡ some day_end) × (le b.threshold b.notional ≡ false)

  abbrev pub Fired : Option ℕ → ℕ → Type 0
  Fired none t = Unit
  Fired (some fire) t = fire ≤ t

  -- A bar closed when the watermark stood at `w`: decided no earlier than `w`, than any receipt of
  -- a member and than a forced close; its members lie in the interval; its notional is theirs, and
  -- is at the threshold exactly if the threshold closed it.
  pub record IsSound (cap day_end w : ℕ) (b : Bar F) : Type 0 where
    pub monotone : w ≤ b.t_event
    pub observed : All (λ t. t.received_time ≤ b.t_event) b.members
    pub fired : Fired b.cap_fire_ns b.t_event
    pub within : All (Within b.interval_start_ns cap) b.members
    pub summed : b.notional ≡ notional_of b.members
    pub reasoned : Reasoned cap day_end b b.close_reason

  -- What holds of the open bar between calls.
  pub record IsOpen (c : BarClock F) : Type 0 where
    pub within : All (Within c.interval_start c.cap_ns) c.members
    pub summed : c.notional ≡ notional_of c.members
    pub below : le c.threshold c.notional ≡ false
    pub fresh : le c.threshold (of_ℕ 0) ≡ false
    pub cap_pos : 0 < c.cap_ns

  -- Bars in emission order: consecutive indices, each sound at the watermark of the one before.
  abbrev pub Emits : ℕ → ℕ → ℕ → ℕ → List (Bar F) → ℕ → ℕ → Type 0
  Emits cap day_end w i [] w' i' = (w ≡ w') × (i ≡ i')
  Emits cap day_end w i (b ∷ bs) w' i' =
      (b.index ≡ i) × IsSound cap day_end w b × Emits cap day_end b.t_event (i + 1) bs w' i'

  abbrev pub members_of : List (Bar F) → List (ClockTrade F)
  members_of [] = []
  members_of (b ∷ bs) = b.members ++ members_of bs

  pub members_of-append :
      (xs ys : List (Bar F)) → members_of (xs ++ ys) ≡ members_of xs ++ members_of ys
  members_of-append [] ys = refl
  members_of-append (b ∷ xs) ys = rw (members_of-append xs ys) (sym (append_assoc b.members _ _))

  pub Emits-append :
      (cap day_end w i w' i' w'' i'' : ℕ) (xs ys : List (Bar F))
      → Emits cap day_end w i xs w' i'
      → Emits cap day_end w' i' ys w'' i''
      → Emits cap day_end w i (xs ++ ys) w'' i''
  Emits-append cap d w i w' i' w'' i'' [] ys (p, q) k = rw (p, q) k
  Emits-append cap d w i w' i' w'' i'' (b ∷ xs) ys h k =
      (h.0, h.1, Emits-append cap d b.t_event (i + 1) w' i' w'' i'' xs ys h.2 k)
