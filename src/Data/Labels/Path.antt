-- ===== src/Data/Labels/Path.antt =====
-- data/labels.py: the path of mids with one point for each timestamp, cut at a bound.
use jepa_btc_forecasting.Prelude.{
  ℕ, ◌≤◌, ◌<◌, ◌≡◌, refl, ap, inl, inr, true, false, not, List, [], ◌∷◌, ◌++◌, ltb, leb, ◌==◌,
  arith, if◌then◌else◌, Bool-cases, filter, All,
}
use jepa_btc_forecasting.Data.Labels.Records.{MidPoint}

module _ {F : Type 0} where
  -- The points before the first one after the bound, and the rest.
  abbrev pub until : ℕ → List (MidPoint F) → List (MidPoint F)
  until bound [] = []
  until bound (p ∷ ps) = let rest = until bound ps in if ltb bound p.ts then [] else p ∷ rest

  abbrev pub past : ℕ → List (MidPoint F) → List (MidPoint F)
  past bound [] = []
  past bound (p ∷ ps) = let rest = past bound ps in if ltb bound p.ts then p ∷ ps else rest

  -- Of neighbours with one timestamp the last stays.
  abbrev pub coalesced : List (MidPoint F) → List (MidPoint F)
  coalesced [] = []
  coalesced (p ∷ []) = p ∷ []
  coalesced (p ∷ q ∷ ps) = let rest = coalesced (q ∷ ps) in if q.ts == p.ts then rest else p ∷ rest

  abbrev pub early : ℕ → List (MidPoint F) → List (MidPoint F)
  early t = filter (λ p. leb p.ts t)

  abbrev pub later : ℕ → List (MidPoint F) → List (MidPoint F)
  later t = filter (λ p. not (leb p.ts t))

  abbrev pub AllUpTo : ℕ → List (MidPoint F) → Type 0
  AllUpTo t = All (λ p. p.ts ≤ t)

  -- Timestamps that do not fall, from a first one on.
  abbrev pub Rises : ℕ → List (MidPoint F) → Type 0
  Rises t [] = Unit
  Rises t (p ∷ ps) = (t ≤ p.ts) × Rises p.ts ps

  -- A list that starts after the bound, if at all.
  abbrev pub StartsAfter : ℕ → List (MidPoint F) → Type 0
  StartsAfter t [] = Unit
  StartsAfter t (p ∷ ps) = t < p.ts

  pub until-past : (t : ℕ) (ps : List (MidPoint F)) → until t ps ++ past t ps ≡ ps
  until-past t [] = refl
  until-past t (p ∷ ps) = elim (Bool-cases (ltb t p.ts)) [
    | inl h ↦ rw h refl
    | inr h ↦ rw h (ap (◌∷◌ p) (until-past t ps))
  ]

  pub until-AllUpTo : (t : ℕ) (ps : List (MidPoint F)) → AllUpTo t (until t ps)
  until-AllUpTo t [] = tt
  until-AllUpTo t (p ∷ ps) = elim (Bool-cases (ltb t p.ts)) [
    | inl h ↦ rw h tt
    | inr h ↦ rw h (ground arith, until-AllUpTo t ps)
  ]

  pub past-StartsAfter : (t : ℕ) (ps : List (MidPoint F)) → StartsAfter t (past t ps)
  past-StartsAfter t [] = tt
  past-StartsAfter t (p ∷ ps) = elim (Bool-cases (ltb t p.ts)) [
    | inl h ↦ rw h (ground arith)
    | inr h ↦ rw h (past-StartsAfter t ps)
  ]

  -- A bound at or before which the list has nothing does not cut it later.
  pub until-StartsAfter :
      (t u : ℕ) (ps : List (MidPoint F)) → StartsAfter t ps → StartsAfter t (until u ps)
  until-StartsAfter t u [] h = tt
  until-StartsAfter t u (p ∷ ps) h = elim (Bool-cases (ltb u p.ts)) [
    | inl k ↦ rw k tt
    | inr k ↦ rw k h
  ]

  pub until-append :
      (t : ℕ) (xs ys : List (MidPoint F)) → AllUpTo t xs → until t (xs ++ ys) ≡ xs ++ until t ys
  until-append t [] ys h = refl
  until-append t (x ∷ xs) ys h =
      let inside : ltb t x.ts ≡ false = ground arith in
      rw inside (ap (◌∷◌ x) (until-append t xs ys h.1))

  -- Points up to a bound and points after it coalesce apart.
  pub coalesced-append :
      (t : ℕ) (xs ys : List (MidPoint F))
      → AllUpTo t xs
      → StartsAfter t ys
      → coalesced (xs ++ ys) ≡ coalesced xs ++ coalesced ys
  coalesced-append t [] ys h k = refl
  coalesced-append t (x ∷ []) [] h k = refl
  coalesced-append t (x ∷ []) (y ∷ ys) h k =
      let apart : (y.ts == x.ts) ≡ false = ground arith in rw apart refl
  coalesced-append t (x ∷ z ∷ xs) ys h k = elim (Bool-cases (z.ts == x.ts)) [
    | inl e ↦ rw e (coalesced-append t (z ∷ xs) ys h.1 k)
    | inr e ↦ rw e (ap (◌∷◌ x) (coalesced-append t (z ∷ xs) ys h.1 k))
  ]

  Rises-from : (t u : ℕ) (ps : List (MidPoint F)) → t ≤ u → Rises u ps → Rises t ps
  Rises-from t u [] le h = tt
  Rises-from t u (p ∷ ps) le h = (omega arith, h.1)

  pub coalesced-Rises : (t : ℕ) (ps : List (MidPoint F)) → Rises t ps → Rises t (coalesced ps)
  coalesced-Rises t [] h = tt
  coalesced-Rises t (p ∷ []) h = h
  coalesced-Rises t (p ∷ q ∷ ps) h = elim (Bool-cases (q.ts == p.ts)) [
    | inl e ↦ rw e (Rises-from t p.ts (coalesced (q ∷ ps)) h.0 (coalesced-Rises p.ts (q ∷ ps) h.1))
    | inr e ↦ rw e (h.0, coalesced-Rises p.ts (q ∷ ps) h.1)
  ]

  -- In a rising list, nothing after a point that is late is early.
  pub early-none : (t u : ℕ) (ps : List (MidPoint F)) → Rises u ps → t < u → early t ps ≡ []
  early-none t u [] h lt = refl
  early-none t u (p ∷ ps) h lt =
      let late : leb p.ts t ≡ false = ground arith in
      rw late (early-none t p.ts ps h.1 (omega arith))

  pub later-all : (t u : ℕ) (ps : List (MidPoint F)) → Rises u ps → t < u → later t ps ≡ ps
  later-all t u [] h lt = refl
  later-all t u (p ∷ ps) h lt =
      let late : leb p.ts t ≡ false = ground arith in
      rw late (ap (◌∷◌ p) (later-all t p.ts ps h.1 (omega arith)))

  -- The early points of a rising list, by way of an earlier cut.
  pub early-later :
      (t u v : ℕ) (ps : List (MidPoint F))
      → t ≤ u
      → Rises v ps
      → early u ps ≡ early t ps ++ early u (later t ps)
  early-later t u v [] le h = refl
  early-later t u v (p ∷ ps) le h = elim (Bool-cases (leb p.ts t)) [
    | inl e ↦
        let also : leb p.ts u ≡ true = ground arith in
        rw (e, also) (ap (◌∷◌ p) (early-later t u p.ts ps le h.1))
    | inr e ↦
        let none_early : early t ps ≡ [] = early-none t p.ts ps h.1 (ground arith) in
        let all_later : later t ps ≡ ps = later-all t p.ts ps h.1 (ground arith) in
        rw (e, none_early, all_later) refl
  ]

  pub later-Rises : (t v : ℕ) (ps : List (MidPoint F)) → Rises v ps → Rises v (later t ps)
  later-Rises t v [] h = tt
  later-Rises t v (p ∷ ps) h = elim (Bool-cases (leb p.ts t)) [
    | inl e ↦ rw e (Rises-from v p.ts (later t ps) h.0 (later-Rises t p.ts ps h.1))
    | inr e ↦ rw e (h.0, later-Rises t p.ts ps h.1)
  ]

  pub Rises-append :
      (t v : ℕ) (xs ys : List (MidPoint F))
      → v ≤ t
      → AllUpTo t xs
      → Rises v xs
      → StartsAfter t ys
      → Rises 0 ys
      → Rises v (xs ++ ys)
  Rises-append t v [] [] le h k s r = tt
  Rises-append t v [] (y ∷ ys) le h k s r = (omega arith, r.1)
  Rises-append t v (x ∷ xs) ys le h k s r = (k.0, Rises-append t x.ts xs ys h.0 h.1 k.1 s r)
