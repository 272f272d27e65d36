-- ===== src/Recon/Stitch/Grid.antt =====
-- recon/stitch_policy.py, `plan_day_stitch`: the grid, and the bounds of the segments on it.
use mathlib.Core.List.{foldl}
use mathlib.Core.Path.{subst}
use jepa_btc_forecasting.Prelude.{
  ℕ, zero, suc, ◌+◌, ◌-◌, ◌*◌, ◌≤◌, ◌<◌, ◌≡◌, refl, sym, ap, ◌∙◌, Bool, true, false, not, ◌&&◌,
  ◌||◌, Option, none, some, List, [], ◌∷◌, map, leb, Bool-cases, inl, inr, arith, length,
}
use jepa_btc_forecasting.Recon.Stitch.{SeamPolicy, runs}
use jepa_btc_forecasting.Recon.Stitch.Windows.{IsPartition}
use jepa_btc_forecasting.Recon.Stitch.Plan.{segment_of, segments_from}
use jepa_btc_forecasting.Recon.Stitch.Masks.{
  ts_at, ok_at, is_regular, mark, zeros, take_span, qualify, long_fill, negated, lake_mask, flips,
}

ts_at-step :
    (g : ℕ) (ts : List ℕ) (i : ℕ)
    → is_regular g ts ≡ true
    → suc i < length ts
    → ts_at ts (suc i) ≡ ts_at ts i + g
unfolding is_regular ts_at
ts_at-step g [] i r h = absurd (omega (arith, h))
ts_at-step g (a ∷ []) i r h = absurd (omega (arith, h))
ts_at-step g (a ∷ b ∷ ts) zero r h = ground (arith, r)
ts_at-step g (a ∷ b ∷ ts) (suc i) r h =
    ts_at-step g (b ∷ ts) i (ground (arith, r)) (omega (arith, h))

-- The grid rises.
ts_at-le :
    (g : ℕ) (ts : List ℕ) (i d : ℕ)
    → is_regular g ts ≡ true
    → i + d < length ts
    → ts_at ts i ≤ ts_at ts (i + d)
ts_at-le g ts i zero r h = let here : i + 0 ≡ i = omega arith in omega (arith, ap (ts_at ts) here)
ts_at-le g ts i (suc d) r h =
    let next : i + suc d ≡ suc (i + d) = omega arith in
    omega (
      arith,
      ap (ts_at ts) next,
      ts_at-le g ts i d r (omega (arith, h)),
      ts_at-step g ts (i + d) r (omega (arith, h)),
    )

-- Bounds that rise from `b` and stay below `n`.
abbrev pub IsBounds : ℕ → ℕ → List ℕ → Type 0
IsBounds b n [] = b < n
IsBounds b n (c ∷ bounds) = (b < c) × IsBounds c n bounds

IsBounds-below : (b n : ℕ) (bounds : List ℕ) → IsBounds b n bounds → b < n
IsBounds-below b n [] h = h
IsBounds-below b n (c ∷ bounds) h = omega (arith, h.0, IsBounds-below c n bounds h.1)

pub flips-IsBounds :
    (b i n : ℕ) (m : Bool) (mask : List Bool)
    → b ≤ i
    → i + suc (length mask) ≡ n
    → IsBounds b n (flips i (m ∷ mask))
unfolding flips
flips-IsBounds b i n m [] h k = omega (arith, h, k)
flips-IsBounds b i n m (x ∷ mask) h k = elim (Bool-cases (m && not x || not m && x)) [
  | inl t ↦
      rw t
        (omega (arith, h), flips-IsBounds (suc i) (suc i) n x mask (omega arith) (omega (arith, k)))
  | inr f ↦ rw f (flips-IsBounds b (suc i) n x mask (omega (arith, h)) (omega (arith, k)))
]

segment_of-bounds :
    (f o e : ℕ) (m : Bool) (n start end : ℕ)
    → ((segment_of f o e m n start end).start_ts ≡ start)
      × ((segment_of f o e m n start end).end_ts ≡ end)
segment_of-bounds f o e true n start end = (refl, refl)
segment_of-bounds f o e false n start end = elim (Bool-cases (leb f n)) [
  | inl t ↦ rw t (refl, refl)
  | inr x ↦ rw x (refl, refl)
]

-- A segment between two bounds begins before it ends, and ends where the next sample is.
pub span-lt :
    (g : ℕ) (ts : List ℕ) (b c : ℕ)
    → 0 < g
    → is_regular g ts ≡ true
    → b < c
    → c ≤ length ts
    → ts_at ts b < ts_at ts (c - 1) + g
span-lt g ts b c pos r h k =
    let reach : b + (c - 1 - b) ≡ c - 1 = omega (arith, h) in
    omega (arith, pos, ap (ts_at ts) reach, ts_at-le g ts b (c - 1 - b) r (omega (arith, h, k)))

span-end :
    (g : ℕ) (ts : List ℕ) (b c : ℕ)
    → is_regular g ts ≡ true
    → b < c
    → c < length ts
    → ts_at ts (c - 1) + g ≡ ts_at ts c
span-end g ts b c r h k =
    let next : suc (c - 1) ≡ c = omega (arith, h) in
    sym (ts_at-step g ts (c - 1) r (omega (arith, h, k))) ∙ ap (ts_at ts) next

pub segments_from-IsPartition :
    (f g o e : ℕ) (ts : List ℕ) (mask : List Bool) (b : ℕ) (bounds : List ℕ)
    → 0 < g
    → is_regular g ts ≡ true
    → IsBounds b (length ts) bounds
    → IsPartition
        (ts_at ts b)
        (ts_at ts (length ts - 1) + g)
        (segments_from f g o e ts mask b bounds (length ts))
unfolding segments_from
segments_from-IsPartition f g o e ts mask b [] pos r h =
    let n = length ts in
    let s =
      segment_of-bounds f o e (ok_at mask b) ((n - b) * g) (ts_at ts b) (ts_at ts (n - 1) + g) in
    (s.0, omega (arith, s.0, s.1, span-lt g ts b n pos r h (omega arith)), s.1)
segments_from-IsPartition f g o e ts mask b (c ∷ bounds) pos r h =
    let n = length ts in
    let below = IsBounds-below c n bounds h.1 in
    let s =
      segment_of-bounds f o e (ok_at mask b) ((c - b) * g) (ts_at ts b) (ts_at ts (c - 1) + g) in
    let rest = segments_from-IsPartition f g o e ts mask c bounds pos r h.1 in
    (
      s.0,
      omega (arith, s.0, s.1, span-lt g ts b c pos r h.0 (omega (arith, below))),
      subst (λ x. IsPartition x (ts_at ts (n - 1) + g) (segments_from f g o e ts mask c bounds n))
          (sym (s.1 ∙ span-end g ts b c r h.0 below)) rest,
    )

length-mark : (i a b : ℕ) (mask : List Bool) → length (mark i a b mask) ≡ length mask
unfolding mark
length-mark i a b [] = refl
length-mark i a b (m ∷ mask) = ap suc (length-mark (suc i) a b mask)

length-map : {A B : Type 0} (h : A → B) (xs : List A) → length (map h xs) ≡ length xs
length-map h [] = refl
length-map h (x ∷ xs) = ap suc (length-map h xs)

length-take_span :
    (m g i1 : ℕ) (q : Option ℕ) (acc : List Bool × Bool)
    → length (take_span m g i1 q acc).0 ≡ length acc.0
unfolding take_span
length-take_span m g i1 none acc = refl
length-take_span m g i1 (some q) (mask, a) = elim (Bool-cases (leb m ((i1 - q) * g))) [
  | inl t ↦ rw t (length-mark 0 q i1 mask)
  | inr f ↦ rw f refl
]

pub length-lake_mask :
    {F : Type 0} (policy : SeamPolicy F) (g seed : ℕ) (ts : List ℕ) (valid : List Bool)
    → length (lake_mask policy g seed ts valid).0 ≡ length valid
unfolding lake_mask
length-lake_mask policy g seed ts valid =
    go (runs (negated (long_fill policy.fill_min_ns g valid))) (zeros valid, false)
    ∙ length-map (λ m. false) valid
  where
    go :
        (rs : List (ℕ × ℕ)) (acc : List Bool × Bool)
        → length
            (foldl
              (λ a (r : ℕ × ℕ).
                take_span policy.min_lake_segment_ns g r.1
                  (qualify ts valid seed policy.warmup_consecutive 0 r.0 (r.1 - r.0))
                  a)
              acc
              rs).0
          ≡ length acc.0
    go [] acc = refl
    go (r ∷ rs) acc =
        let q = qualify ts valid seed policy.warmup_consecutive 0 r.0 (r.1 - r.0) in
        go rs (take_span policy.min_lake_segment_ns g r.1 q acc)
        ∙ length-take_span policy.min_lake_segment_ns g r.1 q acc
