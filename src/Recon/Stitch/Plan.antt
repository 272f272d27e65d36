-- ===== src/Recon/Stitch/Plan.antt =====
-- recon/stitch_policy.py, `plan_day_stitch`: the fill segments of a day from its validity mask.
use jepa_btc_forecasting.Prelude.{
  ℕ, ◌+◌, ◌-◌, ◌*◌, Bool, true, false, not, ◌&&◌, ◌||◌, Option, none, some, List, [], ◌∷◌, map, leb,
  ◌==◌, all, filter, length, if◌then◌else◌, Result, ok, ◌>>◌, require, refuse,
}
use jepa_btc_forecasting.Prelude.Float.{Float}
use jepa_btc_forecasting.Recon.Stitch.{
  Source, lake, coinapi, excluded, FillProfile, lake_only, full_day_fill, leading_partial_fill,
  trailing_partial_fill, internal_gap_fill, mixed_partial_fill, Reason, lake_trusted,
  missing_leading, missing_internal, missing_trailing, warmup_excluded, no_seed, crossed_source,
  never_qualified, span_too_short, span_quality, SeamPolicy, Segment, StitchError, bad_arrays,
  bad_grid, irregular_grid, bad_present, bad_day, seams_of, same_source,
}
use jepa_btc_forecasting.Recon.Stitch.Masks.{ts_at, ok_at, is_regular, lake_mask, flips}

-- The day name and the policy, which a plan only carries along, are left out. The reason of
-- `full_day_plan`, a text of the caller, is one of the constructors.
pub record DayStitchPlan : Type 0 where
  pub day_open_ts : ℕ
  pub day_end_ts : ℕ
  pub grid_ns : ℕ
  pub fill_profile : FillProfile
  pub full_day_reason : Option Reason
  pub segments : List Segment
  pub seams : List ℕ
  pub trusted_lake_start_ts : Option ℕ
  pub trusted_lake_end_ts : Option ℕ
  pub lake_present_start_ts : Option ℕ
  pub lake_present_end_ts : Option ℕ

abbrev pub segment_of : ℕ → ℕ → ℕ → Bool → ℕ → ℕ → ℕ → Segment
segment_of fill_min_ns day_open day_end true n start end = record {
  source = lake;
  start_ts = start;
  end_ts = end;
  reason = lake_trusted;
}
segment_of fill_min_ns day_open day_end false n start end =
    if leb fill_min_ns n
    then record {
      source = coinapi;
      start_ts = start;
      end_ts = end;
      reason =
          if start == day_open
          then missing_leading
          else if end == day_end
          then missing_trailing
          else missing_internal;
    }
    else record { source = excluded; start_ts = start; end_ts = end; reason = warmup_excluded }

-- The loop over `zip(bounds, bounds[1:])`, from the bound `b0` on; the last bound is `n`.
unfoldable pub segments_from : ℕ → ℕ → ℕ → ℕ → List ℕ → List Bool → ℕ → List ℕ → ℕ → List Segment
unfolding ts_at ok_at
segments_from fill_min_ns grid_ns day_open day_end ts mask b0 [] n =
    segment_of fill_min_ns day_open day_end (ok_at mask b0) ((n - b0) * grid_ns) (ts_at ts b0)
      (ts_at ts (n - 1) + grid_ns)
    ∷ []
segments_from fill_min_ns grid_ns day_open day_end ts mask b0 (b1 ∷ bounds) n =
    segment_of fill_min_ns day_open day_end (ok_at mask b0) ((b1 - b0) * grid_ns) (ts_at ts b0)
      (ts_at ts (b1 - 1) + grid_ns)
    ∷ segments_from fill_min_ns grid_ns day_open day_end ts mask b1 bounds n

-- The kind of a fill segment, and the profile of the set of kinds.
unfoldable pub kind_of : ℕ → ℕ → Segment → FillProfile
kind_of day_open day_end s =
    if s.start_ts == day_open
    then leading_partial_fill
    else if s.end_ts == day_end
    then trailing_partial_fill
    else internal_gap_fill

abbrev pub same_kind : FillProfile → FillProfile → Bool
same_kind leading_partial_fill leading_partial_fill = true
same_kind trailing_partial_fill trailing_partial_fill = true
same_kind internal_gap_fill internal_gap_fill = true
same_kind _ _ = false

unfoldable pub profile_of : List FillProfile → FillProfile
profile_of [] = lake_only
profile_of (k ∷ kinds) = if all (same_kind k) kinds then k else mixed_partial_fill

abbrev pub of_source : Source → List Segment → List Segment
of_source source = filter (λ (s : Segment). same_source source s.source)

abbrev pub first_start : List Segment → Option ℕ
first_start [] = none
first_start (s ∷ segments) = some s.start_ts

unfoldable pub last_end_ts : List Segment → Option ℕ
last_end_ts [] = none
last_end_ts (s ∷ []) = some s.end_ts
last_end_ts (s ∷ t ∷ segments) = last_end_ts (t ∷ segments)

-- The times of the samples that the mask selects.
unfoldable pub selected : List ℕ → List Bool → List ℕ
selected [] mask = []
selected (t ∷ ts) [] = []
selected (t ∷ ts) (m ∷ mask) = if m then t ∷ selected ts mask else selected ts mask

abbrev pub first_of : List ℕ → Option ℕ
first_of [] = none
first_of (t ∷ ts) = some t

unfoldable pub last_of : ℕ → List ℕ → Option ℕ
last_of grid_ns [] = none
last_of grid_ns (t ∷ []) = some (t + grid_ns)
last_of grid_ns (t ∷ u ∷ ts) = last_of grid_ns (u ∷ ts)

-- `_full_day`, and the plan of `full_day_plan`.
abbrev pub full_day : ℕ → ℕ → ℕ → Option ℕ → Option ℕ → Reason → DayStitchPlan
full_day day_open day_end grid_ns present_start present_end reason = record {
  day_open_ts = day_open;
  day_end_ts = day_end;
  grid_ns = grid_ns;
  fill_profile = full_day_fill;
  full_day_reason = some reason;
  segments =
      record { source = coinapi; start_ts = day_open; end_ts = day_end; reason = reason } ∷ [];
  seams = [];
  trusted_lake_start_ts = none;
  trusted_lake_end_ts = none;
  lake_present_start_ts = present_start;
  lake_present_end_ts = present_end;
}

-- `full_day_plan`
unfoldable pub full_day_plan : ℕ → ℕ → ℕ → Reason → Result StitchError DayStitchPlan
full_day_plan day_open_ts day_end_ts grid_ns reason = do
  refuse (leb grid_ns 0) bad_grid
  refuse (leb day_end_ts day_open_ts) bad_day
  ok (full_day day_open_ts day_end_ts grid_ns none none reason)

-- `int((lake & ~ok).sum())`
unfoldable pub count_bad : List Bool → List Bool → ℕ
count_bad [] valid = 0
count_bad (m ∷ mask) [] = 0
count_bad (m ∷ mask) (v ∷ valid) = (if m && not v then 1 else 0) + count_bad mask valid

-- `mask.sum()`
abbrev pub count : List Bool → ℕ
count mask = length (filter (λ m. m) mask)

-- The plan of a day that mixes sources, from its segments.
unfoldable pub mixed : ℕ → ℕ → ℕ → Option ℕ → Option ℕ → List Segment → DayStitchPlan
unfolding seams_of profile_of kind_of same_source last_end_ts
mixed day_open day_end grid_ns present_start present_end segments =
    let lake_segs = of_source lake segments in
    record {
      day_open_ts = day_open;
      day_end_ts = day_end;
      grid_ns = grid_ns;
      fill_profile = profile_of (map (kind_of day_open day_end) (of_source coinapi segments));
      full_day_reason = none;
      segments = segments;
      seams = seams_of segments;
      trusted_lake_start_ts = first_start lake_segs;
      trusted_lake_end_ts = last_end_ts lake_segs;
      lake_present_start_ts = present_start;
      lake_present_end_ts = present_end;
    }

abbrev pub present_mask : Option (List Bool) → List Bool → List Bool
present_mask none valid = valid
present_mask (some present) valid = present

module _ (fl : Float) where
  open fl use {F, of_ℕ, div, lt}

  -- From the lake mask on: the last two full-day routes, or the segments.
  unfoldable pub judged :
      SeamPolicy F → ℕ → List ℕ → List Bool → Option ℕ → Option ℕ → List Bool × Bool → DayStitchPlan
  unfolding count_bad mixed segments_from flips ts_at
  judged policy grid_ns ts valid present_start present_end (mask, any_qualified) =
      let n = length ts in
      let day_open = ts_at ts 0 in
      let day_end = ts_at ts (n - 1) + grid_ns in
      if count mask == 0
      then full_day day_open day_end grid_ns present_start present_end
          (if any_qualified then span_too_short else never_qualified)
      else if lt policy.span_invalid_max (div (of_ℕ (count_bad mask valid)) (of_ℕ (count mask)))
      then full_day day_open day_end grid_ns present_start present_end span_quality
      else mixed day_open day_end grid_ns present_start present_end
          (segments_from policy.fill_min_ns grid_ns day_open day_end ts mask 0 (flips 0 mask) n)

  -- The routing by the seed.
  unfoldable pub routed :
      SeamPolicy F
      → ℕ
      → List ℕ
      → List Bool
      → Option ℕ
      → Option ℕ
      → Bool
      → Option ℕ
      → Bool
      → DayStitchPlan
  unfolding judged lake_mask ts_at
  routed policy grid_ns ts valid present_start present_end seed_accepted none trusted =
      full_day (ts_at ts 0) (ts_at ts (length ts - 1) + grid_ns) grid_ns present_start present_end
        no_seed
  routed policy grid_ns ts valid present_start present_end seed_accepted (some seed_ts) trusted =
      let day_open = ts_at ts 0 in
      let day_end = ts_at ts (length ts - 1) + grid_ns in
      if not seed_accepted
      then full_day day_open day_end grid_ns present_start present_end no_seed
      else if not trusted
      then full_day day_open day_end grid_ns present_start present_end crossed_source
      else judged policy grid_ns ts valid present_start present_end
          (lake_mask policy grid_ns seed_ts ts valid)

  -- `plan_day_stitch`
  unfoldable pub plan_day_stitch :
      List ℕ
      → List Bool
      → ℕ
      → Bool
      → Option ℕ
      → Bool
      → SeamPolicy F
      → Option (List Bool)
      → Result StitchError DayStitchPlan
  unfolding routed selected last_of is_regular
  plan_day_stitch ts valid grid_ns seed_accepted seed_ts seed_source_trusted policy present = do
    refuse (length ts == 0 || not (length valid == length ts)) bad_arrays
    refuse (leb grid_ns 0) bad_grid
    require (is_regular grid_ns ts) irregular_grid
    let pres = present_mask present valid
    require (length pres == length ts) bad_present
    ok (
        routed policy grid_ns ts valid (first_of (selected ts pres))
          (last_of grid_ns (selected ts pres)) seed_accepted seed_ts seed_source_trusted)
