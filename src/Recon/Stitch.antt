-- ===== src/Recon/Stitch.antt =====
-- recon/stitch_policy.py: the segments of a day by vendor, and the masks around their seams. Arrays
-- are lists. The constants of the JSON contract are constructors.
pub mod Masks
pub mod Plan
pub mod Guards
pub mod Grid
pub mod Warmup
pub mod Windows
pub mod Partition
use Prim.Native.String.{String}
use jepa_btc_forecasting.Prelude.Int.{sub_ℕ, lt_ℤ, wrap_i64}
use jepa_btc_forecasting.Prelude.Sort.{searchsorted}
use jepa_btc_forecasting.Prelude.{
  ◌-◌, ℕ, zero, suc, ◌+◌, Bool, true, false, not, ◌&&◌, ◌||◌, Option, none, some, List, [], ◌∷◌,
  map, ltb, leb, any, all, if◌then◌else◌, Result, ok, err, ◌>>◌, require, ◌++◌, filter,
}

-- LAKE, COINAPI, EXCLUDED, and UNCOVERED of windows.
pub data Source : Type 0 where
  lake coinapi excluded uncovered : Source

-- FILL_PROFILES
pub data FillProfile : Type 0 where
  lake_only full_day_fill leading_partial_fill trailing_partial_fill internal_gap_fill
        mixed_partial_fill :
      FillProfile

-- The reasons of segments and of full-day routes.
pub data Reason : Type 0 where
  lake_trusted missing_leading missing_internal missing_trailing warmup_excluded no_seed
        crossed_source never_qualified span_too_short span_quality :
      Reason

-- The policy, with its seconds as nanoseconds (seam_guard_ns, fill_min_ns, min_lake_segment_ns).
pub record SeamPolicy (F : Type 0) : Type 0 where
  pub seam_guard_ns : ℕ
  pub warmup_consecutive : ℕ
  pub fill_min_ns : ℕ
  pub min_lake_segment_ns : ℕ
  pub span_invalid_max : F

pub record Segment : Type 0 where
  pub source : Source
  pub start_ts : ℕ
  pub end_ts : ℕ
  pub reason : Reason

pub data StitchError : Type 0 where
  bad_arrays bad_grid irregular_grid bad_present bad_day outside_day reversed_window : StitchError

-- The loop of `warmup_qualified_ts` over the zipped samples; `run` is the counter.
unfoldable pub qualified_from : ℕ → ℕ → ℕ → List (ℕ × Bool) → Option ℕ
qualified_from seed_ts warmup run [] = none
qualified_from seed_ts warmup run ((ts, valid) ∷ samples) =
    let run' = if valid && leb seed_ts ts then suc run else 0 in
    let rest = qualified_from seed_ts warmup run' samples in
    if leb warmup run' then some ts else rest

-- `warmup_qualified_ts`
unfoldable pub warmup_qualified_ts : List (ℕ × Bool) → Option ℕ → ℕ → Option ℕ
unfolding qualified_from
warmup_qualified_ts samples none warmup = none
warmup_qualified_ts samples (some seed_ts) warmup = qualified_from seed_ts warmup 0 samples

-- `_runs`, from the index `i` on; the run that is open starts at `start`.
unfoldable pub runs_from : ℕ → Option ℕ → List Bool → List (ℕ × ℕ)
runs_from i none [] = []
runs_from i (some start) [] = (start, i) ∷ []
runs_from i none (true ∷ mask) = runs_from (suc i) (some i) mask
runs_from i none (false ∷ mask) = runs_from (suc i) none mask
runs_from i (some start) (true ∷ mask) = runs_from (suc i) (some start) mask
runs_from i (some start) (false ∷ mask) = (start, i) ∷ runs_from (suc i) none mask

unfoldable pub runs : List Bool → List (ℕ × ℕ)
unfolding runs_from
runs mask = runs_from 0 none mask

-- `seam_guard_mask`, at one sample. A bound below zero is moved to the other side.
unfoldable pub seam_guard : List ℕ → ℕ → ℕ → Bool
seam_guard seams guard_ns ts = any (λ s. leb s (ts + guard_ns) && ltb ts (s + guard_ns)) seams

-- `window_crosses_seam`
unfoldable pub window_crosses_seam : ℕ → ℕ → List ℕ → Bool
window_crosses_seam start_ts end_ts seams = any (λ s. ltb start_ts s && leb s end_ts) seams

-- `label_valid_mask`, at one sample. The horizon is an int64, and so is the end of the window, a sum that
-- wraps around; `s - guard_ns` is a Python integer.
unfoldable pub label_valid : List ℕ → ℕ → ℕ → ℕ → Bool
label_valid seams horizon_ns guard_ns ts =
    all (λ s. lt_ℤ (wrap_i64 (ts + horizon_ns)) (sub_ℕ s guard_ns) || leb (s + guard_ns) ts) seams

-- `feature_valid_mask`, at one sample.
unfoldable pub feature_valid : List ℕ → ℕ → ℕ → ℕ → Bool
feature_valid seams lookback_ns guard_ns ts =
    all (λ s. ltb (ts + guard_ns) s || leb (s + guard_ns + lookback_ns) ts) seams

-- The seams: the starts of the segments that differ in source from the one before.
unfoldable pub same_source : Source → Source → Bool
same_source lake lake = true
same_source coinapi coinapi = true
same_source excluded excluded = true
same_source uncovered uncovered = true
same_source _ _ = false

unfoldable pub seams_of : List Segment → List ℕ
unfolding same_source
seams_of [] = []
seams_of (a ∷ []) = []
seams_of (a ∷ b ∷ segments) =
    let rest = seams_of (b ∷ segments) in
    if same_source a.source b.source then rest else b.start_ts ∷ rest

-- The segments that a window touches.
abbrev pub touches : ℕ → ℕ → Segment → Bool
touches start_ts end_ts s = leb s.start_ts end_ts && ltb start_ts s.end_ts

-- The end of the last segment; the list is not empty.
unfoldable pub last_end : ℕ → List Segment → ℕ
last_end e [] = e
last_end e (s ∷ segments) = last_end s.end_ts segments

-- `window_vendor_sources`, with the set as a list.
unfoldable pub window_vendor_sources :
    ℕ → ℕ → Segment → List Segment → Result StitchError (List Source)
unfolding last_end
window_vendor_sources start_ts end_ts first segments =
    let touched =
      map (λ (s : Segment). s.source) (filter (touches start_ts end_ts) (first ∷ segments)) in
    if ltb end_ts start_ts
    then err reversed_window
    else if ltb start_ts first.start_ts || leb (last_end first.end_ts segments) end_ts
    then ok (touched ++ uncovered ∷ [])
    else ok touched

-- `segments[i].source`; the index is in range wherever the code reads one.
unfoldable pub source_at : List Segment → ℕ → Source
source_at [] i = uncovered
source_at (s ∷ segments) zero = s.source
source_at (s ∷ segments) (suc i) = source_at segments i

-- `vendor_source_at`, at one sample.
unfoldable pub vendor_source_at : ℕ → Segment → List Segment → Result StitchError Source
unfolding source_at searchsorted last_end
vendor_source_at ts first segments =
    let starts = map (λ (s : Segment). s.start_ts) (first ∷ segments) in
    if ltb ts first.start_ts || leb (last_end first.end_ts segments) ts
    then err outside_day
    else ok (source_at (first ∷ segments) (searchsorted starts ts - 1))
