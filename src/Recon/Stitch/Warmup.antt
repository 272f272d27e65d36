-- ===== src/Recon/Stitch/Warmup.antt =====
-- recon/stitch_policy.py, `warmup_qualified_ts`.
use jepa_btc_forecasting.Prelude.{
  ℕ, suc, ◌≡◌, Bool, ◌&&◌, Option, none, some, List, [], ◌∷◌, ◌++◌, leb, if◌then◌else◌, arith,
}
use jepa_btc_forecasting.Recon.Stitch.{qualified_from, warmup_qualified_ts}

qualified_from-append :
    (seed w run : ℕ) (xs ys : List (ℕ × Bool)) (q : ℕ)
    → qualified_from seed w run xs ≡ some q
    → qualified_from seed w run (xs ++ ys) ≡ some q
unfolding qualified_from
qualified_from-append seed w run [] ys q h = absurd (cc)
qualified_from-append seed w run ((ts, valid) ∷ xs) ys q h =
    ground
      (arith, h, qualified_from-append seed w (if valid && leb seed ts then suc run else 0) xs ys q)

-- No later sample moves the time at which the warm-up qualified.
pub warmup_qualified_ts-append :
    (samples later : List (ℕ × Bool)) (seed_ts : Option ℕ) (warmup q : ℕ)
    → warmup_qualified_ts samples seed_ts warmup ≡ some q
    → warmup_qualified_ts (samples ++ later) seed_ts warmup ≡ some q
unfolding warmup_qualified_ts
warmup_qualified_ts-append xs ys none w q h = absurd (cc)
warmup_qualified_ts-append xs ys (some seed) w q h = qualified_from-append seed w 0 xs ys q h
