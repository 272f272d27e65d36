-- ===== src/Recon/Stitch/Masks.antt =====
-- recon/stitch_policy.py, `plan_day_stitch`: the masks over the day's grid.
use mathlib.Core.List.{foldl}
use jepa_btc_forecasting.Prelude.{
  ℕ, zero, suc, ◌+◌, ◌-◌, ◌*◌, Bool, true, false, not, ◌&&◌, ◌||◌, Option, none, some, List, [],
  ◌∷◌, map, ltb, leb, ◌==◌, if◌then◌else◌,
}
use jepa_btc_forecasting.Recon.Stitch.{SeamPolicy, runs}

-- xs[i] of two arrays; the index is in range wherever the code reads one.
unfoldable pub ts_at : List ℕ → ℕ → ℕ
ts_at [] i = 0
ts_at (x ∷ xs) zero = x
ts_at (x ∷ xs) (suc i) = ts_at xs i

unfoldable pub ok_at : List Bool → ℕ → Bool
ok_at [] i = false
ok_at (x ∷ xs) zero = x
ok_at (x ∷ xs) (suc i) = ok_at xs i

-- `np.all(np.diff(ts) == grid_ns)`
unfoldable pub is_regular : ℕ → List ℕ → Bool
is_regular grid_ns [] = true
is_regular grid_ns (a ∷ []) = true
is_regular grid_ns (a ∷ b ∷ ts) = b == a + grid_ns && is_regular grid_ns (b ∷ ts)

-- `mask[i0:i1] = True`, the mask's first element having the index `i`.
unfoldable pub mark : ℕ → ℕ → ℕ → List Bool → List Bool
mark i i0 i1 [] = []
mark i i0 i1 (m ∷ mask) = (m || leb i0 i && ltb i i1) ∷ mark (suc i) i0 i1 mask

abbrev pub zeros : List Bool → List Bool
zeros = map (λ m. false)

abbrev pub negated : List Bool → List Bool
negated = map not

-- The invalid runs that are worth a fill window.
unfoldable pub long_fill : ℕ → ℕ → List Bool → List Bool
unfolding mark runs
long_fill fill_min_ns grid_ns valid =
    foldl (λ mask r. if leb fill_min_ns ((r.1 - r.0) * grid_ns) then mark 0 r.0 r.1 mask else mask)
      (zeros valid) (runs (negated valid))

-- The inner loop: the index in `range(i, i + n)` at which the warm-up qualifies.
unfoldable pub qualify : List ℕ → List Bool → ℕ → ℕ → ℕ → ℕ → ℕ → Option ℕ
unfolding ts_at ok_at
qualify ts valid seed_ts warmup run i zero = none
qualify ts valid seed_ts warmup run i (suc n) =
    let run' = if ok_at valid i && leb seed_ts (ts_at ts i) then suc run else 0 in
    let rest = qualify ts valid seed_ts warmup run' (suc i) n in
    if leb warmup run' then some i else rest

-- One span of the loop over `_runs(~long_fill)`: the lake mask and whether any span qualified.
unfoldable pub take_span : ℕ → ℕ → ℕ → Option ℕ → List Bool × Bool → List Bool × Bool
unfolding mark
take_span min_lake_ns grid_ns i1 none acc = acc
take_span min_lake_ns grid_ns i1 (some q) (mask, any_qualified) =
    (if leb min_lake_ns ((i1 - q) * grid_ns) then mark 0 q i1 mask else mask, true)

unfoldable pub lake_mask :
    {F : Type 0} → SeamPolicy F → ℕ → ℕ → List ℕ → List Bool → List Bool × Bool
unfolding take_span qualify long_fill runs
lake_mask policy grid_ns seed_ts ts valid =
    foldl
      (λ acc r.
        take_span policy.min_lake_segment_ns grid_ns r.1
          (qualify ts valid seed_ts policy.warmup_consecutive 0 r.0 (r.1 - r.0)) acc)
      (zeros valid, false) (runs (negated (long_fill policy.fill_min_ns grid_ns valid)))

-- `np.flatnonzero(np.diff(mask)) + 1`, the mask's first element having the index `i`.
unfoldable pub flips : ℕ → List Bool → List ℕ
flips i [] = []
flips i (a ∷ []) = []
flips i (a ∷ b ∷ mask) =
    let rest = flips (suc i) (b ∷ mask) in if a && not b || not a && b then suc i ∷ rest else rest
