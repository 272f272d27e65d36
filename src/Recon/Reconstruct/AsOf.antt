-- ===== src/Recon/Reconstruct/AsOf.antt =====
-- recon/reconstruct.py, `sample_topk_as_of` beside the book as of each sample.
use jepa_btc_forecasting.Prelude.{
  ℕ, ◌≤◌, ◌<◌, ◌≡◌, refl, sym, ap, ◌∙◌, inl, inr, List, [], ◌∷◌, ◌++◌, arith, map, ltb, leb,
  Bool-cases, ltb→lt, ltb-false→le, All, All-map, filter, lt→leb-false, le→leb,
}
use mathlib.Core.List.{foldl}
use mathlib.Core.Path.{ap₂}
use jepa_btc_forecasting.Recon.Reconstruct.{emit_before, emit_all, sample_topk_as_of}

module _ {B E R : Type 0} (snap : B → R) (step : B → E → B) (time_of : E → ℕ) where
  -- The book after exactly the events up to `g`.
  abbrev pub as_of : ℕ → List E → B → B
  as_of g evs b = foldl step b (filter (λ e. leb (time_of e) g) evs)

  -- The specification: one row per sample, of the book as of the sample.
  abbrev pub samples_as_of : List ℕ → List E → B → List (ℕ × R)
  samples_as_of gs evs b = map (λ g. (g, snap (as_of g evs b))) gs

  -- Events in non-decreasing time.
  abbrev pub InOrder : List E → Type 0
  InOrder [] = Unit
  InOrder (e ∷ es) = All (λ f. time_of e ≤ time_of f) es × InOrder es

  -- Sample times in ascending order.
  abbrev pub Ascending : List ℕ → Type 0
  Ascending [] = Unit
  Ascending (g ∷ gs) = All (λ h. g ≤ h) gs × Ascending gs

  none_before :
      (g : ℕ) (evs : List E)
      → All (λ e. g < time_of e) evs
      → filter (λ e. leb (time_of e) g) evs ≡ []
  none_before g [] h = refl
  none_before g (e ∷ es) h = rw (lt→leb-false _ _ h.0) (none_before g es h.1)

  emit_all-eq : (gs : List ℕ) (b : B) → emit_all snap step time_of gs b ≡ samples_as_of gs [] b
  unfolding emit_all
  emit_all-eq [] b = refl
  emit_all-eq (g ∷ gs) b = ap (◌∷◌ (g, snap b)) (emit_all-eq gs b)

  one_in :
      (e : E) (evs : List E) (g : ℕ)
      → time_of e ≤ g
      → filter (λ f. leb (time_of f) g) (e ∷ evs) ≡ e ∷ filter (λ f. leb (time_of f) g) evs
  one_in e evs g h = rw (le→leb _ _ h) refl

  taken_in :
      (e : E) (evs : List E) (gs : List ℕ) (b : B)
      → All (λ g. time_of e ≤ g) gs
      → samples_as_of gs evs (step b e) ≡ samples_as_of gs (e ∷ evs) b
  taken_in e evs [] b h = refl
  taken_in e evs (g ∷ gs) b h =
      ap₂ ◌∷◌ (ap (λ l. (g, snap (foldl step b l))) (sym (one_in e evs g h.0)))
        (taken_in e evs gs b h.1)

  -- Emitting up to an event, then going on from the samples that are left.
  emit_before-eq :
      (e : E) (evs : List E) (gs : List ℕ) (b : B)
      → Ascending gs
      → All (λ f. time_of e ≤ time_of f) evs
      → (emit_before snap step time_of (time_of e) gs b).0
          ++ samples_as_of (emit_before snap step time_of (time_of e) gs b).1 evs (step b e)
        ≡ samples_as_of gs (e ∷ evs) b
  unfolding emit_before
  emit_before-eq e evs [] b a h = refl
  emit_before-eq e evs (g ∷ gs) b a h = elim (Bool-cases (ltb g (time_of e))) [
    | inl early ↦ rw early (
        ap₂ ◌∷◌
          (ap (λ l. (g, snap (foldl step b l)))
            (sym (
              none_before g (e ∷ evs) (
                ltb→lt _ _ early,
                All-map (λ f. time_of e ≤ time_of f) (λ f. g < time_of f)
                    (λ f k. omega (arith, ltb→lt g (time_of e) early)) evs h,
              ))))
          (emit_before-eq e evs gs b a.1 h))
    | inr late ↦ rw late (
        taken_in e evs (g ∷ gs) b (
          ltb-false→le _ _ late,
          All-map (λ f. g ≤ f) (λ f. time_of e ≤ f)
              (λ f k. omega (arith, ltb-false→le g (time_of e) late)) gs a.0,
        ))
  ]

  emit_before-Ascending :
      (t : ℕ) (gs : List ℕ) (b : B)
      → Ascending gs
      → Ascending (emit_before snap step time_of t gs b).1
  unfolding emit_before
  emit_before-Ascending t [] b a = tt
  emit_before-Ascending t (g ∷ gs) b a = elim (Bool-cases (ltb g t)) [
    | inl early ↦ rw early (emit_before-Ascending t gs b a.1)
    | inr late ↦ rw late a
  ]

  -- For ascending samples and events in non-decreasing time, the streaming sampler gives each sample
  -- the book after exactly the events at or before it.
  pub sample_topk_as_of_lem :
      (gs : List ℕ) (evs : List E) (b : B)
      → Ascending gs
      → InOrder evs
      → sample_topk_as_of snap step time_of gs evs b ≡ samples_as_of gs evs b
  unfolding sample_topk_as_of
  sample_topk_as_of_lem gs [] b a h = emit_all-eq gs b
  sample_topk_as_of_lem gs (e ∷ evs) b a h =
      ap (λ l. (emit_before snap step time_of (time_of e) gs b).0 ++ l)
        (sample_topk_as_of_lem (emit_before snap step time_of (time_of e) gs b).1 evs (step b e)
          (emit_before-Ascending (time_of e) gs b a) h.1)
      ∙ emit_before-eq e evs gs b a h.0
