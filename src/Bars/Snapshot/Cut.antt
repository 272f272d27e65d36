-- ===== src/Bars/Snapshot/Cut.antt =====
-- bars/snapshot.py: the events that a decision may read, cut on the two time axes.
use mathlib.Core.List.{foldl}
use jepa_btc_forecasting.Prelude.{
  ℕ, ◌≡◌, refl, ap, inl, inr, true, Option, some, List, [], ◌∷◌, ◌++◌, leb, if◌then◌else◌,
  Bool-cases, filter, All,
}
use jepa_btc_forecasting.Prelude.Float.{Float}
use jepa_btc_forecasting.Bars.Snapshot.Records.{BookDelta, Pending}
use jepa_btc_forecasting.Bars.Snapshot.{read_ts}
use jepa_btc_forecasting.Bars.Snapshot.Cells.{key_of}
use jepa_btc_forecasting.Bars.Snapshot.Stream.{received_by, seen, events_of}

module _ {F : Type 0} where
  -- The events before the first whose origin is after the cut.
  abbrev pub up_to : ℕ → List (BookDelta F) → List (BookDelta F)
  up_to t [] = []
  up_to t (e ∷ es) = let rest = up_to t es in if leb e.origin_time t then e ∷ rest else []

  abbrev pub beyond : ℕ → List (BookDelta F) → List (BookDelta F)
  beyond t [] = []
  beyond t (e ∷ es) = let rest = beyond t es in if leb e.origin_time t then rest else e ∷ es

  -- Those of them that had been received by the cut.
  abbrev pub observable : ℕ → List (BookDelta F) → List (BookDelta F)
  observable t es = filter (λ e. leb e.received_time t) (up_to t es)

  -- The origin of the last event.
  abbrev pub last_origin : List (BookDelta F) → ℕ
  last_origin = foldl (λ earlier e. e.origin_time) 0

  abbrev pub Within : ℕ → List (BookDelta F) → Type 0
  Within t = All (λ e. leb e.origin_time t ≡ true)

  pub up_to-due :
      (t : ℕ) (e : BookDelta F) (es : List (BookDelta F))
      → leb e.origin_time t ≡ true
      → up_to t (e ∷ es) ≡ e ∷ up_to t es
  up_to-due t e es h = rw h refl

  pub up_to-beyond : (t : ℕ) (es : List (BookDelta F)) → up_to t es ++ beyond t es ≡ es
  up_to-beyond t [] = refl
  up_to-beyond t (e ∷ es) = elim (Bool-cases (leb e.origin_time t)) [
    | inl h ↦ rw h (ap (◌∷◌ e) (up_to-beyond t es))
    | inr h ↦ rw h refl
  ]

  pub up_to-Within : (t : ℕ) (es : List (BookDelta F)) → Within t (up_to t es)
  up_to-Within t [] = tt
  up_to-Within t (e ∷ es) = elim (Bool-cases (leb e.origin_time t)) [
    | inl h ↦ rw h (h, up_to-Within t es)
    | inr h ↦ rw h tt
  ]

  pub up_to-append :
      (t : ℕ) (xs ys : List (BookDelta F)) → Within t xs → up_to t (xs ++ ys) ≡ xs ++ up_to t ys
  up_to-append t [] ys h = refl
  up_to-append t (x ∷ xs) ys h = rw h.0 (ap (◌∷◌ x) (up_to-append t xs ys h.1))

module _ (fl : Float) where
  open fl use {F}

  pub events-seen :
      (t : ℕ) (ps : List (Pending F))
      → events_of fl (seen fl t ps) ≡ filter (λ e. leb e.received_time t) (events_of fl ps)
  events-seen t [] = refl
  events-seen t (p ∷ ps) = elim (Bool-cases (received_by t p)) [
    | inl h ↦ rw h (ap (◌∷◌ p.event) (events-seen t ps))
    | inr h ↦ rw h (events-seen t ps)
  ]

  pub last_from :
      (ps : List (Pending F)) (c : Option (Pending F))
      → read_ts fl (key_of (foldl (λ earlier p. some p) c ps))
        ≡ foldl (λ earlier e. e.origin_time) (read_ts fl (key_of c)) (events_of fl ps)
  last_from [] c = refl
  last_from (p ∷ ps) c = last_from ps (some p)
