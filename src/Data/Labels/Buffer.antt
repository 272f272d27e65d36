-- ===== src/Data/Labels/Buffer.antt =====
-- data/labels.py: the trailing estimator, the buffer and the pull, against lists of points.
use mathlib.Core.List.{foldl, foldl-append}
use jepa_btc_forecasting.Prelude.{
  ℕ, ◌≤◌, ◌≡◌, refl, sym, ap, ◌∙◌, inl, inr, false, not, Option, none, some, List, [], ◌∷◌, ◌++◌,
  append_assoc, append-nil, ltb, leb, ◌==◌, arith, Bool-cases, filter-append, ok, >>=-eq-ok,
  require, refuse, refuse-ok, if-of_true, if-of_false, ltb-false→le, ◌&&◌,
}
use jepa_btc_forecasting.Prelude.Float.{Float}
use jepa_btc_forecasting.Data.Labels.Records.{
  MidPoint, Labeler, FloatMath, BarrierParams, bad_mid, path_out_of_order,
}
use jepa_btc_forecasting.Data.Labels.{
  fold, fold_after, fold_buffered, place, pull_round, validated_point,
}
use jepa_btc_forecasting.Data.Labels.Path.{
  until, past, coalesced, early, later, Rises, early-none, later-all,
}

module _ (fl : Float) (math : FloatMath fl) (params : BarrierParams fl.F) where
  open fl use {F, of_ℕ, lt, is_finite}

  -- The estimator after a list of points.
  abbrev pub folds : List (MidPoint F) → Labeler F → Labeler F
  folds ps s = foldl (λ s p. fold fl math params p s) s ps

  -- A labeler with another buffer, path and times, and the same estimator.
  abbrev pub frame :
      List (MidPoint F) → List (MidPoint F) → Option ℕ → Option ℕ → Labeler F → Labeler F
  frame pts path raw prev s = record s { pts = pts; path = path; prev_raw_ts = raw; prev_t = prev }

  fold-frame :
      (p : MidPoint F) (pts path : List (MidPoint F)) (raw prev : Option ℕ) (s : Labeler F)
      → fold fl math params p (frame pts path raw prev s)
        ≡ frame pts path raw prev (fold fl math params p s)
  unfolding fold
  fold-frame p pts path raw prev s = at s.last
    where
      at :
          (o : Option (MidPoint F))
          → record (fold_after fl math params o p (frame pts path raw prev s)) { last = some p }
            ≡ frame pts path raw prev (record (fold_after fl math params o p s) { last = some p })
      at none = refl
      at (some q) = refl

  pub folds-frame :
      (ps pts path : List (MidPoint F)) (raw prev : Option ℕ) (s : Labeler F)
      → folds ps (frame pts path raw prev s) ≡ frame pts path raw prev (folds ps s)
  folds-frame [] pts path raw prev s = refl
  folds-frame (p ∷ ps) pts path raw prev s =
      ap (folds ps) (fold-frame p pts path raw prev s)
      ∙ folds-frame ps pts path raw prev (fold fl math params p s)

  pub fold-kept :
      (p : MidPoint F) (s : Labeler F)
      → fold fl math params p s
        ≡ frame s.pts s.path s.prev_raw_ts s.prev_t (fold fl math params p s)
  fold-kept p s = fold-frame p s.pts s.path s.prev_raw_ts s.prev_t s

  -- The first loop of an anchor moves the early points of a rising buffer into the estimator.
  pub fold_buffered_lem :
      (t v : ℕ) (ps : List (MidPoint F)) (s : Labeler F)
      → Rises v ps
      → fold_buffered fl math params t ps s
        ≡ frame (later t ps) s.path s.prev_raw_ts s.prev_t (folds (early t ps) s)
  unfolding fold_buffered
  fold_buffered_lem t v [] s h = refl
  fold_buffered_lem t v (p ∷ ps) s h = elim (Bool-cases (leb p.ts t)) [
    | inl e ↦ rw e (
        fold_buffered_lem t p.ts ps (fold fl math params p s) h.1
        ∙ ap
            (λ (z : Labeler F).
              frame (later t ps) z.path z.prev_raw_ts z.prev_t
                (folds (early t ps) (fold fl math params p s)))
            (fold-kept p s))
    | inr e ↦
        let none_early : early t ps ≡ [] = early-none t p.ts ps h.1 (ground arith) in
        let all_later : later t ps ≡ ps = later-all t p.ts ps h.1 (ground arith) in
        rw (e, none_early, all_later) refl
  ]

  -- One point that is placed.
  pub place-frame :
      (t : ℕ) (p : MidPoint F) (path : List (MidPoint F)) (raw : Option ℕ) (s : Labeler F)
      → place fl math params t p (record s { path = path; prev_raw_ts = raw })
        ≡ frame (s.pts ++ later t (p ∷ [])) path raw s.prev_t (folds (early t (p ∷ [])) s)
  unfolding place
  place-frame t p path raw s = elim (Bool-cases (leb p.ts t)) [
    | inl e ↦ rw (e, append-nil) (fold-frame p s.pts path raw s.prev_t s)
    | inr e ↦ rw e refl
  ]

  -- The timestamp of the last point, or an earlier one.
  abbrev pub last_ts : ℕ → List (MidPoint F) → ℕ
  last_ts = foldl (λ earlier p. p.ts)

  -- What a round of the pull leaves, with the points `ps` still to come and `cur` so far.
  abbrev pub pulled : ℕ → ℕ → MidPoint F → List (MidPoint F) → Labeler F → Labeler F
  pulled t bound cur qs s =
      let ps = coalesced (cur ∷ until bound qs) in
      frame (s.pts ++ later t ps) (past bound qs) (some (last_ts cur.ts (until bound qs))) s.prev_t
        (folds (early t ps) s)

  valid-rises :
      (q : MidPoint F) (ts : ℕ) {u : Unit {0}} → validated_point fl q (some ts) ≡ ok u → ts ≤ q.ts
  unfolding validated_point
  valid-rises q ts h =
      let (u, positive, h1) =
        >>=-eq-ok (require (is_finite q.mid && lt (of_ℕ 0) q.mid) bad_mid) _ h in
      let (v, order, done) = >>=-eq-ok (refuse (ltb q.ts ts) path_out_of_order) _ h1 in
      ltb-false→le q.ts ts (refuse-ok _ path_out_of_order order)

  pulled-next :
      (t bound : ℕ) (cur q : MidPoint F) (qs : List (MidPoint F)) (s : Labeler F)
      → ltb bound q.ts ≡ false
      → (q.ts == cur.ts) ≡ false
      → pulled t bound cur (q ∷ qs) s
        ≡ pulled t bound q qs
            (place fl math params t cur (record s { path = q ∷ qs; prev_raw_ts = some cur.ts }))
  pulled-next t bound cur q qs s inside apart =
      let ps = coalesced (q ∷ until bound qs) in
      let raw = some (last_ts q.ts (until bound qs)) in
      let first = folds (early t (cur ∷ [])) s in
      let pts : s.pts ++ later t (cur ∷ ps) ≡ (s.pts ++ later t (cur ∷ [])) ++ later t ps =
        ap (◌++◌ s.pts) (filter-append (λ p. not (leb p.ts t)) (cur ∷ []) ps)
        ∙ sym (append_assoc s.pts (later t (cur ∷ [])) (later t ps)) in
      let estimator : folds (early t (cur ∷ ps)) s ≡ folds (early t ps) first =
        ap (λ l. folds l s) (filter-append (λ p. leb p.ts t) (cur ∷ []) ps)
        ∙ foldl-append _ s (early t (cur ∷ [])) (early t ps) in
      rw (inside, apart)
        (ap (λ l. frame l (past bound qs) raw s.prev_t (folds (early t (cur ∷ ps)) s)) pts
          ∙ ap (frame ((s.pts ++ later t (cur ∷ [])) ++ later t ps) (past bound qs) raw s.prev_t)
              estimator
          ∙ ap (frame ((s.pts ++ later t (cur ∷ [])) ++ later t ps) (past bound qs) raw s.prev_t) (
              sym (
                folds-frame (early t ps) (s.pts ++ later t (cur ∷ [])) (q ∷ qs) (some cur.ts)
                  s.prev_t first))
          ∙ ap (pulled t bound q qs) (sym (place-frame t cur (q ∷ qs) (some cur.ts) s)))

  pub pull_round_lem :
      (t bound : ℕ) (cur : MidPoint F) (qs : List (MidPoint F)) (s s' : Labeler F)
      → cur.ts ≤ bound
      → pull_round fl math params t bound cur qs s ≡ ok s'
      → (pulled t bound cur qs s ≡ s') × Rises cur.ts (until bound qs)
  unfolding pull_round
  pull_round_lem t bound cur [] s s' le h =
      (sym (place-frame t cur [] (some cur.ts) s) ∙ ground (arith, h), tt)
  pull_round_lem t bound cur (q ∷ qs) s s' le h = elim (Bool-cases (q.ts == cur.ts)) [
    | inl same ↦
        let inside : ltb bound q.ts ≡ false = ground arith in
        let (u, valid, rest) =
          >>=-eq-ok (validated_point fl q (some cur.ts))
            (λ u. pull_round fl math params t bound q qs s) (if-of_true _ _ _ same h) in
        let (made, rises) = pull_round_lem t bound q qs s s' (ground arith) rest in
        (rw (inside, same) made, rw inside (valid-rises q cur.ts valid, rises))
    | inr apart ↦ elim (Bool-cases (ltb bound q.ts)) [
      | inl late ↦ (
        rw late (sym (place-frame t cur (q ∷ qs) (some cur.ts) s) ∙ ground (arith, h)),
        rw late tt,
      )
      | inr inside ↦
          let s1 =
            place fl math params t cur (record s { path = q ∷ qs; prev_raw_ts = some cur.ts }) in
          let (u, valid, rest) =
            >>=-eq-ok (validated_point fl q (some cur.ts))
              (λ u. pull_round fl math params t bound q qs s1)
              (if-of_false _ _ _ inside (if-of_false _ _ _ apart h)) in
          let (made, rises) = pull_round_lem t bound q qs s1 s' (ground arith) rest in
          (
            pulled-next t bound cur q qs s inside apart ∙ made,
            rw inside (valid-rises q cur.ts valid, rises),
          )
    ]
  ]
