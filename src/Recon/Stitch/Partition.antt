-- ===== src/Recon/Stitch/Partition.antt =====
-- recon/stitch_policy.py, `plan_day_stitch`: the plan of each route.
use jepa_btc_forecasting.Prelude.{
  ℕ, ◌+◌, ◌-◌, ◌<◌, ◌≡◌, refl, ◌∙◌, Bool, true, false, Option, none, some, List, [], ◌∷◌,
  Bool-cases, inl, inr, if◌then◌else◌, arith, ok, length, ◌==◌, ==_iff, lt→leb-false,
}
use jepa_btc_forecasting.Prelude.Float.{Float}
use jepa_btc_forecasting.Recon.Stitch.{
  Reason, span_too_short, never_qualified, span_quality, no_seed, crossed_source, SeamPolicy,
  seams_of,
}
use jepa_btc_forecasting.Recon.Stitch.Windows.{IsPartition}
use jepa_btc_forecasting.Recon.Stitch.Plan.{
  DayStitchPlan, segments_from, full_day, mixed, judged, routed, plan_day_stitch, present_mask,
  selected, first_of, last_of, count, count_bad,
}
use jepa_btc_forecasting.Recon.Stitch.Masks.{ts_at, is_regular, lake_mask, flips}
use jepa_btc_forecasting.Recon.Stitch.Grid.{
  span-lt, segments_from-IsPartition, flips-IsBounds, length-lake_mask,
}

-- A plan covers the grid `ts`: its segments follow each other from the first sample to the end of
-- the last, and its seams are where the source changes.
abbrev pub IsPlanOf : ℕ → List ℕ → DayStitchPlan → Type 0
IsPlanOf g ts plan =
    (plan.day_open_ts ≡ ts_at ts 0)
    × (plan.day_end_ts ≡ ts_at ts (length ts - 1) + g)
    × IsPartition plan.day_open_ts plan.day_end_ts plan.segments
    × (plan.seams ≡ seams_of plan.segments)

module _ (fl : Float) where
  open fl use {F, of_ℕ, div, lt}

  full_day-IsPlanOf :
      (g : ℕ) (ts : List ℕ) (a b : Option ℕ) (reason : Reason)
      → 0 < g
      → is_regular g ts ≡ true
      → 0 < length ts
      → IsPlanOf g ts (full_day (ts_at ts 0) (ts_at ts (length ts - 1) + g) g a b reason)
  unfolding seams_of
  full_day-IsPlanOf g ts a b reason pos r some_sample =
      (refl, refl, (refl, span-lt g ts 0 (length ts) pos r some_sample (omega arith), refl), refl)

  mixed-IsPlanOf :
      (f g : ℕ) (ts : List ℕ) (mask : List Bool) (a b : Option ℕ)
      → 0 < g
      → is_regular g ts ≡ true
      → 0 < length ts
      → length mask ≡ length ts
      → IsPlanOf g ts (
          mixed (ts_at ts 0) (ts_at ts (length ts - 1) + g) g a b (
            segments_from f g
              (ts_at ts 0)
              (ts_at ts (length ts - 1) + g)
              ts
              mask
              0
              (flips 0 mask)
              (length ts)))
  unfolding mixed
  mixed-IsPlanOf f g ts [] a b pos r some_sample same = absurd (omega (arith, some_sample, same))
  mixed-IsPlanOf f g ts (m ∷ mask) a b pos r some_sample same =
      let bounds = flips-IsBounds 0 0 (length ts) m mask (omega arith) (omega (arith, same)) in
      (
        refl,
        refl,
        segments_from-IsPartition f g (ts_at ts 0) (ts_at ts (length ts - 1) + g) ts (m ∷ mask) 0
            (flips 0 (m ∷ mask)) pos r bounds,
        refl,
      )

  judged-IsPlanOf :
      (policy : SeamPolicy F) (g : ℕ) (ts : List ℕ) (valid : List Bool) (a b : Option ℕ)
      (mask : List Bool) (any_q : Bool)
      → 0 < g
      → is_regular g ts ≡ true
      → 0 < length ts
      → length mask ≡ length ts
      → IsPlanOf g ts (judged fl policy g ts valid a b (mask, any_q))
  unfolding judged
  judged-IsPlanOf policy g ts valid a b mask any_q pos r some_sample same =
      elim (Bool-cases (count mask == 0)) [
        | inl z ↦ rw z (
            full_day-IsPlanOf g ts a b (if any_q then span_too_short else never_qualified) pos r
              some_sample)
        | inr nz ↦
            elim (Bool-cases (
              lt policy.span_invalid_max (div (of_ℕ (count_bad mask valid)) (of_ℕ (count mask))))) [
                | inl bad ↦ rw (nz, bad) (full_day-IsPlanOf g ts a b span_quality pos r some_sample)
                | inr good ↦
                    rw (nz, good)
                      (mixed-IsPlanOf policy.fill_min_ns g ts mask a b pos r some_sample same)
              ]
      ]

  routed-IsPlanOf :
      (policy : SeamPolicy F) (g : ℕ) (ts : List ℕ) (valid : List Bool) (a b : Option ℕ)
      (accepted : Bool) (seed : Option ℕ) (trusted : Bool)
      → 0 < g
      → is_regular g ts ≡ true
      → 0 < length ts
      → length valid ≡ length ts
      → IsPlanOf g ts (routed fl policy g ts valid a b accepted seed trusted)
  unfolding routed
  routed-IsPlanOf policy g ts valid a b accepted none trusted pos r n same =
      full_day-IsPlanOf g ts a b no_seed pos r n
  routed-IsPlanOf policy g ts valid a b false (some seed) trusted pos r n same =
      full_day-IsPlanOf g ts a b no_seed pos r n
  routed-IsPlanOf policy g ts valid a b true (some seed) false pos r n same =
      full_day-IsPlanOf g ts a b crossed_source pos r n
  routed-IsPlanOf policy g ts valid a b true (some seed) true pos r n same =
      let m = lake_mask policy g seed ts valid in
      judged-IsPlanOf policy g ts valid a b m.0 m.1 pos r n
        (length-lake_mask policy g seed ts valid ∙ same)

  -- On a regular grid of at least one sample, with masks of its length, the day always gets a plan,
  -- whatever the seed and the policy: its segments follow each other without a gap from the first
  -- sample to the end of the last, none is empty, and its seams are where the source changes.
  pub plan_day_stitch-IsPlanOf :
      (policy : SeamPolicy F) (grid_ns : ℕ) (ts : List ℕ) (valid : List Bool) (accepted : Bool)
      (seed : Option ℕ) (trusted : Bool) (present : Option (List Bool))
      → 0 < grid_ns
      → is_regular grid_ns ts ≡ true
      → 0 < length ts
      → length valid ≡ length ts
      → length (present_mask present valid) ≡ length ts
      → (plan : DayStitchPlan) × (plan_day_stitch fl ts valid grid_ns accepted seed trusted policy
            present
          ≡ ok plan)
        × IsPlanOf grid_ns ts plan
  unfolding plan_day_stitch
  plan_day_stitch-IsPlanOf policy g ts valid accepted seed trusted present pos r n same same' =
      let pres = present_mask present valid in
      (
        routed fl policy g ts valid (first_of (selected ts pres)) (last_of g (selected ts pres))
            accepted seed trusted,
        rw
            (
              nonzero (length ts) n,
              (==_iff (length valid) (length ts)).1 same,
              lt→leb-false g 0 pos,
              r,
              (==_iff (length pres) (length ts)).1 same',
            )
            refl,
        routed-IsPlanOf policy g ts valid (first_of (selected ts pres))
            (last_of g (selected ts pres)) accepted seed trusted pos r n same,
      )
    where
      nonzero : (m : ℕ) → 0 < m → (m == 0) ≡ false
      nonzero m h = ground arith
