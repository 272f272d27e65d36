-- ===== src/Recon/Stitch/Windows.antt =====
-- recon/stitch_policy.py, the sources of windows and samples on a partition of the day.
use mathlib.Core.Path.{subst}
use jepa_btc_forecasting.Prelude.Sort.{searchsorted}
use jepa_btc_forecasting.Prelude.{
  suc, leb-false→lt, ap, leb→le, ℕ, ◌-◌, ◌≤◌, ◌<◌, ◌≡◌, refl, sym, ◌∙◌, true, false, List, [], ◌∷◌,
  map, filter, ltb, leb, Bool-cases, inl, inr, arith, All, All-map, ok, lt→ltb, le→leb,
  lt→leb-false, le→ltb-false, ltb-false→le, ltb→lt,
}
use jepa_btc_forecasting.Recon.Stitch.{
  Source, lake, coinapi, excluded, uncovered, Segment, window_crosses_seam, same_source, seams_of,
  touches, source_at, vendor_source_at, last_end, window_vendor_sources,
}

-- Segments that follow each other without a gap from one time to another.
abbrev pub IsPartition : ℕ → ℕ → List Segment → Type 0
IsPartition open_ts end_ts [] = open_ts ≡ end_ts
IsPartition open_ts end_ts (s ∷ segments) =
    (s.start_ts ≡ open_ts) × (s.start_ts < s.end_ts) × IsPartition s.end_ts end_ts segments

-- The sources of the touched segments.
abbrev touched : ℕ → ℕ → List Segment → List Source
touched a b segments = map (λ (s : Segment). s.source) (filter (touches a b) segments)

same_source-eq : (x y : Source) → same_source x y ≡ true → y ≡ x
unfolding same_source
same_source-eq lake lake h = refl
same_source-eq coinapi coinapi h = refl
same_source-eq excluded excluded h = refl
same_source-eq uncovered uncovered h = refl
same_source-eq lake coinapi h = cc
same_source-eq lake excluded h = cc
same_source-eq lake uncovered h = cc
same_source-eq coinapi lake h = cc
same_source-eq coinapi excluded h = cc
same_source-eq coinapi uncovered h = cc
same_source-eq excluded lake h = cc
same_source-eq excluded coinapi h = cc
same_source-eq excluded uncovered h = cc
same_source-eq uncovered lake h = cc
same_source-eq uncovered coinapi h = cc
same_source-eq uncovered excluded h = cc

-- No segment from `o` on is touched by a window that ends before it.
untouched :
    (o e a b : ℕ) (segments : List Segment)
    → IsPartition o e segments
    → b < o
    → touched a b segments ≡ []
untouched o e a b [] p h = refl
untouched o e a b (s ∷ segments) p h =
    let rest = untouched s.end_ts e a b segments p.2 (omega (arith, p.0, p.1, h)) in
    rw (lt→leb-false s.start_ts b (omega (arith, p.0, h))) rest

touched-cons :
    (x : Source) (a b : ℕ) (s : Segment) (segments : List Segment)
    → s.source ≡ x
    → All (λ y. y ≡ x) (touched a b segments)
    → All (λ y. y ≡ x) (touched a b (s ∷ segments))
touched-cons x a b s segments h k = elim (Bool-cases (touches a b s)) [
  | inl t ↦ rw t (h, k)
  | inr f ↦ rw f k
]

seams_of-tail :
    (a b : ℕ) (s t : Segment) (segments : List Segment)
    → window_crosses_seam a b (seams_of (s ∷ t ∷ segments)) ≡ false
    → window_crosses_seam a b (seams_of (t ∷ segments)) ≡ false
unfolding seams_of window_crosses_seam
seams_of-tail a b s t segments h = elim (Bool-cases (same_source s.source t.source)) [
  | inl y ↦ ground (arith, h, y)
  | inr n ↦ ground (arith, h, n)
]

-- Two sources that differ make a seam, which a window over it crosses.
seams_of-same :
    (a b : ℕ) (s t : Segment) (segments : List Segment)
    → a < t.start_ts
    → t.start_ts ≤ b
    → window_crosses_seam a b (seams_of (s ∷ t ∷ segments)) ≡ false
    → t.source ≡ s.source
unfolding seams_of window_crosses_seam
seams_of-same a b s t segments l u h = elim (Bool-cases (same_source s.source t.source)) [
  | inl y ↦ same_source-eq s.source t.source y
  | inr n ↦ absurd (ground (arith, h, n, l, u))
]

-- From a segment that the window reaches, every touched one has its source.
touched-same :
    (o e a b : ℕ) (s : Segment) (segments : List Segment)
    → IsPartition o e (s ∷ segments)
    → a < s.end_ts
    → window_crosses_seam a b (seams_of (s ∷ segments)) ≡ false
    → All (λ y. y ≡ s.source) (touched a b (s ∷ segments))
touched-same o e a b s [] p h c = touched-cons s.source a b s [] refl tt
touched-same o e a b s (t ∷ segments) p h c =
    touched-cons s.source a b s (t ∷ segments) refl (elim (Bool-cases (ltb b t.start_ts)) [
      | inl before ↦
          subst (All (λ y. y ≡ s.source))
            (sym (
              untouched s.end_ts e a b (t ∷ segments) p.2
                (omega (arith, ltb→lt b t.start_ts before, p.2.0))))
            tt
      | inr reached ↦
          let same =
            seams_of-same a b s t segments (omega (arith, h, p.2.0))
              (ltb-false→le b t.start_ts reached) c in
          let rest =
            touched-same s.end_ts e a b t segments p.2 (omega (arith, h, p.2.0, p.2.1))
              (seams_of-tail a b s t segments c) in
          All-map (λ y. y ≡ t.source) (λ y. y ≡ s.source) (λ y q. q ∙ same)
            (touched a b (t ∷ segments)) rest
    ])

-- The sources of a window that crosses no seam: one source, of at least one segment.
abbrev pub IsSingle : List Source → Type 0
IsSingle sources =
    (x : Source) × (rest : List Source) × (sources ≡ x ∷ rest) × All (λ y. y ≡ x) rest

touched-in :
    (a b : ℕ) (s : Segment) (segments : List Segment)
    → s.start_ts ≤ b
    → a < s.end_ts
    → touched a b (s ∷ segments) ≡ s.source ∷ touched a b segments
touched-in a b s segments h k = rw (le→leb s.start_ts b h, lt→ltb a s.end_ts k) refl

touched-out :
    (a b : ℕ) (s : Segment) (segments : List Segment)
    → s.start_ts ≤ b
    → s.end_ts ≤ a
    → touched a b (s ∷ segments) ≡ touched a b segments
touched-out a b s segments h k = rw (le→leb s.start_ts b h, le→ltb-false a s.end_ts k) refl

touched-IsSingle_here :
    (o e a b : ℕ) (s : Segment) (segments : List Segment)
    → IsPartition o e (s ∷ segments)
    → s.start_ts ≤ b
    → a < s.end_ts
    → window_crosses_seam a b (seams_of (s ∷ segments)) ≡ false
    → IsSingle (touched a b (s ∷ segments))
touched-IsSingle_here o e a b s segments p h k c =
    let here = touched-in a b s segments h k in
    (
      s.source,
      touched a b segments,
      here,
      (subst (All (λ y. y ≡ s.source)) here (touched-same o e a b s segments p k c)).1,
    )

touched-IsSingle :
    (o e a b : ℕ) (s : Segment) (segments : List Segment)
    → IsPartition o e (s ∷ segments)
    → o ≤ a
    → a ≤ b
    → b < e
    → window_crosses_seam a b (seams_of (s ∷ segments)) ≡ false
    → IsSingle (touched a b (s ∷ segments))
touched-IsSingle o e a b s [] p from order to c =
    touched-IsSingle_here o e a b s [] p (omega (arith, p.0, from, order))
      (omega (arith, p.2, order, to)) c
touched-IsSingle o e a b s (t ∷ segments) p from order to c = elim (Bool-cases (ltb a s.end_ts)) [
  | inl here ↦
      touched-IsSingle_here o e a b s (t ∷ segments) p (omega (arith, p.0, from, order))
        (ltb→lt a s.end_ts here) c
  | inr later ↦
      let past = ltb-false→le a s.end_ts later in
      subst IsSingle (sym (touched-out a b s (t ∷ segments) (omega (arith, p.0, from, order)) past))
        (touched-IsSingle s.end_ts e a b t segments p.2 past order to
          (seams_of-tail a b s t segments c))
]

last_end-eq :
    (o e : ℕ) (segments : List Segment) → IsPartition o e segments → last_end o segments ≡ e
unfolding last_end
last_end-eq o e [] p = p
last_end-eq o e (s ∷ segments) p = last_end-eq s.end_ts e segments p.2

-- On a partition of the day, a window inside the day that crosses no seam has the sources of one
-- vendor alone, and no uncovered part.
pub window_vendor_sources-IsSingle :
    (o e a b : ℕ) (s : Segment) (segments : List Segment)
    → IsPartition o e (s ∷ segments)
    → o ≤ a
    → a ≤ b
    → b < e
    → window_crosses_seam a b (seams_of (s ∷ segments)) ≡ false
    → (sources : List Source) × (window_vendor_sources a b s segments ≡ ok sources)
      × IsSingle sources
unfolding window_vendor_sources
window_vendor_sources-IsSingle o e a b s segments p from order to c = (
  touched a b (s ∷ segments),
  rw
      (
        le→ltb-false b a order,
        le→ltb-false a s.start_ts (omega (arith, p.0, from)),
        last_end-eq s.end_ts e segments p.2,
        lt→leb-false e b to,
      )
      refl,
  touched-IsSingle o e a b s segments p from order to c,
)

starts_of : List Segment → List ℕ
starts_of = map (λ (s : Segment). s.start_ts)

located :
    (o e t : ℕ) (s : Segment) (segments : List Segment)
    → IsPartition o e (s ∷ segments)
    → o ≤ t
    → t < e
    → touched t t (s ∷ segments)
      ≡ source_at (s ∷ segments) (searchsorted (starts_of segments) t) ∷ []
unfolding source_at searchsorted starts_of
located o e t s [] p from to =
    touched-in t t s [] (omega (arith, p.0, from)) (omega (arith, p.2, to))
located o e t s (b ∷ segments) p from to = elim (Bool-cases (leb b.start_ts t)) [
  | inl past ↦
      touched-out t t s (b ∷ segments) (omega (arith, p.0, from))
        (omega (arith, p.2.0, leb→le b.start_ts t past))
      ∙ located s.end_ts e t b segments p.2 (omega (arith, p.2.0, leb→le b.start_ts t past)) to
      ∙ rw past refl
  | inr here ↦
      let before = leb-false→lt b.start_ts t here in
      touched-in t t s (b ∷ segments) (omega (arith, p.0, from)) (omega (arith, p.2.0, before))
      ∙ ap (◌∷◌ s.source)
          (untouched s.end_ts e t t (b ∷ segments) p.2 (omega (arith, p.2.0, before)))
      ∙ rw here refl
]

-- On a partition of the day, the source of a sample inside the day is the one source of the window
-- that holds just this sample.
pub vendor_source_at-window_vendor_sources :
    (o e t : ℕ) (s : Segment) (segments : List Segment)
    → IsPartition o e (s ∷ segments)
    → o ≤ t
    → t < e
    → (x : Source) × (vendor_source_at t s segments ≡ ok x)
      × (window_vendor_sources t t s segments ≡ ok (x ∷ []))
unfolding vendor_source_at window_vendor_sources searchsorted starts_of
vendor_source_at-window_vendor_sources o e t s segments p from to =
    let inside = le→ltb-false t s.start_ts (omega (arith, p.0, from)) in
    let ended = lt→leb-false e t to in
    let started = le→leb s.start_ts t (omega (arith, p.0, from)) in
    let end = last_end-eq s.end_ts e segments p.2 in
    let same = le→ltb-false t t (omega arith) in
    let back : suc (searchsorted (starts_of segments) t) - 1 ≡ searchsorted (starts_of segments) t =
      omega arith in
    (
      source_at (s ∷ segments) (searchsorted (starts_of segments) t),
      rw (inside, end, ended, started) (ap (λ i. ok (source_at (s ∷ segments) i)) back),
      rw (inside, end, ended, same) (ap ok (located o e t s segments p from to)),
    )
