-- ===== src/Bars/Produce/Carry.antt =====
-- bars/produce.py: the carry between the days of a segment, and the coalescing of the whole segment.
use jepa_btc_forecasting.Prelude.{
  ℕ, ◌+◌, ◌≤◌, ◌≡◌, refl, sym, ap, ◌∙◌, inl, inr, Option, none, some, List, [], ◌∷◌, ◌++◌, arith,
  ltb, if◌then◌else◌, Bool-cases, ok, append-nil, le→ltb-false,
}
use mathlib.Core.Path.{subst}
use jepa_btc_forecasting.Bars.Clock.{Bar}
use jepa_btc_forecasting.Bars.Day.{coalesce_from, coalesce_decision_bars}
use jepa_btc_forecasting.Bars.Day.Coalesce.{IsMonotone}
use jepa_btc_forecasting.Bars.Produce.{last_of, but_last, release, Handover, hand_over}

module _ {F : Type 0} where
  -- What coalescing yields before the last bar, from the pending bar `p` on.
  abbrev pub front : Bar F → List (Bar F) → List (Bar F)
  front p [] = []
  front p (x ∷ xs) = let rest = front x xs in if ltb p.t_event x.t_event then p ∷ rest else rest

  coalesce-split :
      (p : Bar F) (xs ys : List (Bar F))
      → IsMonotone p.t_event xs
      → (coalesce_from (some p) (xs ++ ys)).0
        ≡ front p xs ++ (coalesce_from (some (last_of p xs)) ys).0
  unfolding coalesce_from last_of
  coalesce-split p [] ys h = refl
  coalesce-split p (x ∷ xs) ys h = elim (Bool-cases (ltb p.t_event x.t_event)) [
    | inl t ↦ rw (le→ltb-false _ _ h.0, t) (ap (λ l. p ∷ l) (coalesce-split x xs ys h.1))
    | inr f ↦ rw (le→ltb-false _ _ h.0, f) (coalesce-split x xs ys h.1)
  ]

  pub coalesce-front :
      (x : Bar F) (xs : List (Bar F))
      → IsMonotone x.t_event xs
      → (coalesce_decision_bars (x ∷ xs)).0 ≡ front x xs ++ last_of x xs ∷ []
  unfolding coalesce_decision_bars coalesce_from
  coalesce-front x xs h =
      ap (λ l. (coalesce_from (some x) l).0) (sym (append-nil xs)) ∙ coalesce-split x xs [] h

  -- A list that ends in `l`.
  last_of-append : (b l : Bar F) (bs : List (Bar F)) → last_of b (bs ++ l ∷ []) ≡ l
  unfolding last_of
  last_of-append b l [] = refl
  last_of-append b l (c ∷ bs) = last_of-append c l bs

  but_last-append : (b l : Bar F) (bs : List (Bar F)) → but_last b (bs ++ l ∷ []) ≡ b ∷ bs
  unfolding but_last
  but_last-append b l [] = refl
  but_last-append b l (c ∷ bs) = ap (λ x. b ∷ x) (but_last-append c l bs)

  -- The first of the coalesced bars is decided at the instant of the first bar.
  abbrev pub IsFirstAt : ℕ → List (Bar F) → Type 0
  IsFirstAt t [] = ⊥
  IsFirstAt t (b ∷ bs) = b.t_event ≡ t

  pub front-IsFirstAt :
      (x : Bar F) (xs : List (Bar F))
      → IsMonotone x.t_event xs
      → IsFirstAt x.t_event (front x xs ++ last_of x xs ∷ [])
  unfolding last_of
  front-IsFirstAt x [] h = refl
  front-IsFirstAt x (y ∷ ys) h = elim (Bool-cases (ltb x.t_event y.t_event)) [
    | inl t ↦ rw t refl
    | inr f ↦
        let same : y.t_event ≡ x.t_event = ground (arith, h.0, f) in
        rw f (
          subst (λ t. IsFirstAt t (front y ys ++ last_of y ys ∷ [])) same
            (front-IsFirstAt y ys h.1))
  ]

  abbrev pub handed : List (Bar F) → Bar F → Handover F
  handed classified l = record {
    classified = classified;
    watermark = l.t_event;
    next_index = l.index + 1;
    carry = some l;
  }

  pub hand_over-eq :
      (carry : Option (Bar F)) (w i t : ℕ) (fs held : List (Bar F)) (l : Bar F)
      → IsFirstAt t (fs ++ l ∷ [])
      → ((b : Bar F) → b.t_event ≡ t → release carry b ≡ ok held)
      → hand_over carry w i (fs ++ l ∷ []) ≡ ok (handed (held ++ fs) l)
  unfolding hand_over last_of but_last
  hand_over-eq carry w i t [] held l at h = rw (h l at) refl
  hand_over-eq carry w i t (f ∷ fs) held l at h =
      rw (h f at, last_of-append f l fs, but_last-append f l fs) refl

  -- The carry was decided at the watermark.
  abbrev pub IsAt : ℕ → Option (Bar F) → Type 0
  IsAt w none = Unit
  IsAt w (some p) = p.t_event ≡ w

  -- What a carry adds before the bars of a day that starts with `x`.
  abbrev pub held : Option (Bar F) → Bar F → List (Bar F)
  held none x = []
  held (some p) x = if ltb p.t_event x.t_event then p ∷ [] else []

  pub release-eq :
      (carry : Option (Bar F)) (w : ℕ) (x b : Bar F)
      → IsAt w carry
      → w ≤ x.t_event
      → b.t_event ≡ x.t_event
      → release carry b ≡ ok (held carry x)
  unfolding release
  release-eq none w x b at le same = refl
  release-eq (some p) w x b at le same = ground (arith, at, le, same)

  pub coalesce_carried :
      (carry : Option (Bar F)) (w : ℕ) (x : Bar F) (xs ys : List (Bar F))
      → IsAt w carry
      → w ≤ x.t_event
      → IsMonotone x.t_event xs
      → (coalesce_from carry (x ∷ xs ++ ys)).0
        ≡ (held carry x ++ front x xs) ++ (coalesce_from (some (last_of x xs)) ys).0
  unfolding coalesce_from last_of
  coalesce_carried none w x xs ys at le h = coalesce-split x xs ys h
  coalesce_carried (some p) w x xs ys at le h =
      coalesce-split p (x ∷ xs) ys (omega (arith, at, le), h)
      ∙ elim (Bool-cases (ltb p.t_event x.t_event)) [ inl t ↦ rw t refl | inr f ↦ rw f refl ]
