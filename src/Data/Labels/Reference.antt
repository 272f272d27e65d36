-- ===== src/Data/Labels/Reference.antt =====
-- data/labels.py: the streaming labeler, against one computed from the whole path at each anchor.
use mathlib.Core.Path.{subst}
use mathlib.Core.List.{foldl-append}
use jepa_btc_forecasting.Prelude.{
  ℕ, ◌+◌, ◌≤◌, ◌≡◌, refl, sym, ◌⊎◌, ap, ◌∙◌, inl, inr, not, Option, none, some, List, [], ◌∷◌, ◌++◌,
  append_assoc, append-nil, ltb, leb, arith, Bool-cases, filter-append, filter-filter_sub, ok,
  >>=-eq-ok, All-map, if-of_true, if-of_false,
}
use jepa_btc_forecasting.Prelude.Float.{Float}
use jepa_btc_forecasting.Data.Labels.Records.{MidPoint, Labeler, FloatMath, BarrierParams}
use jepa_btc_forecasting.Data.Labels.{fold_buffered, pull_round, pull, validated_point, unopened}
use jepa_btc_forecasting.Data.Labels.Path.{
  until, past, coalesced, early, later, Rises, AllUpTo, StartsAfter, early-later, later-Rises,
  coalesced-Rises, Rises-append, coalesced-append, until-append, until-past, until-AllUpTo,
  past-StartsAfter, until-StartsAfter,
}
use jepa_btc_forecasting.Data.Labels.Buffer.{
  folds, frame, folds-frame, fold_buffered_lem, pulled, pull_round_lem, last_ts,
}

-- The time of the last anchor; none before the first.
abbrev pub Since : Option ℕ → ℕ → Type 0
Since none t0 = t0 ≡ 0
Since (some prev) t0 = prev ≡ t0

module _ (fl : Float) (math : FloatMath fl) (params : BarrierParams fl.F) where
  open fl use {F, of_ℕ, lt, is_finite}

  folds-append :
      (xs ys : List (MidPoint F)) (s : Labeler F)
      → folds fl math params (xs ++ ys) s ≡ folds fl math params ys (folds fl math params xs s)
  folds-append xs ys s = foldl-append _ s xs ys

  -- The first loop of an anchor, from a state given by the points taken so far.
  fold_buffered-frame :
      (t0 t : ℕ) (ps rest : List (MidPoint F)) (raw prev : Option ℕ) (s : Labeler F)
      → t0 ≤ t
      → Rises 0 ps
      → fold_buffered fl math params t (later t0 ps) (
          frame fl math params
            (later t0 ps)
            rest
            raw
            (some t)
            (folds fl math params (early t0 ps) s))
        ≡ frame fl math params (later t ps) rest raw (some t) (folds fl math params (early t ps) s)
  fold_buffered-frame t0 t ps rest raw prev s le h =
      let old = folds fl math params (early t0 ps) s in
      let pts : later t (later t0 ps) ≡ later t ps =
        filter-filter_sub (λ p. not (leb p.ts t)) (λ p. not (leb p.ts t0)) ps
          (λ p k. ground arith) in
      let estimator : folds fl math params (early t (later t0 ps)) old
          ≡ folds fl math params (early t ps) s =
        sym (folds-append (early t0 ps) (early t (later t0 ps)) s)
        ∙ ap (λ l. folds fl math params l s) (sym (early-later t0 t 0 ps le h)) in
      fold_buffered_lem fl math params t 0 (later t0 ps)
        (frame fl math params (later t0 ps) rest raw (some t) old) (later-Rises t0 0 ps h)
      ∙ ap (frame fl math params (later t (later t0 ps)) rest raw (some t))
          (folds-frame fl math params (early t (later t0 ps)) (later t0 ps) rest raw (some t) old)
      ∙ ap
          (λ l.
            frame fl math params l rest raw (some t)
              (folds fl math params (early t (later t0 ps)) old))
          pts
      ∙ ap (frame fl math params (later t ps) rest raw (some t)) estimator

  -- The pull, from a state given by its buffer and the points folded so far.
  pull-frame :
      (t bound : ℕ) (pts es rest : List (MidPoint F)) (raw prev : Option ℕ) (s s' : Labeler F)
      → pull fl math params t bound rest
          (frame fl math params pts rest raw prev (folds fl math params es s))
        ≡ ok s'
      → (raw' : Option ℕ) × (frame fl math params
            (pts ++ later t (coalesced (until bound rest)))
            (past bound rest)
            raw'
            prev
            (folds fl math params (es ++ early t (coalesced (until bound rest))) s)
          ≡ s')
        × Rises 0 (until bound rest)
  unfolding pull
  pull-frame t bound pts es [] raw prev s s' h =
      (raw, rw (append-nil pts, append-nil es) (ground (arith, h)), tt)
  pull-frame t bound pts es (p ∷ ps) raw prev s s' h = elim (Bool-cases (ltb bound p.ts)) [
    | inl late ↦ (
      raw,
      rw late (rw (append-nil pts, append-nil es) (ground (arith, if-of_true _ _ _ late h))),
      rw late tt,
    )
    | inr inside ↦
        let old = folds fl math params es s in
        let here = frame fl math params pts (p ∷ ps) raw prev old in
        let c = coalesced (p ∷ until bound ps) in
        let raw' = some (last_ts fl math params p.ts (until bound ps)) in
        let (u, valid, rest) =
          >>=-eq-ok (validated_point fl p raw) (λ u. pull_round fl math params t bound p ps here)
            (if-of_false _ _ _ inside h) in
        let (made, rises) =
          pull_round_lem fl math params t bound p ps here s' (ground arith) rest in
        (
          raw',
          rw inside (
              ap (frame fl math params (pts ++ later t c) (past bound ps) raw' prev)
                (folds-append es (early t c) s)
              ∙ ap (frame fl math params (pts ++ later t c) (past bound ps) raw' prev)
                  (sym (folds-frame fl math params (early t c) pts (p ∷ ps) raw prev old))
              ∙ made),
          rw inside (omega arith, rises),
        )
  ]

  module _ (path : List (MidPoint F)) where
    -- The labeler that the whole path up to the end of an anchor's longest window gives.
    abbrev pub reference : ℕ → ℕ → Labeler F
    reference longest t =
        let c = coalesced (until (t + longest) path) in
        frame fl math params (later t c) [] none none
          (folds fl math params (early t c) (unopened fl math params path))

    -- Between anchors: the points taken are those up to the end of the last anchor's longest window.
    pub record Buffered (longest t0 : ℕ) (s : Labeler F) : Type 0 where
      pub taken : List (MidPoint F)
      pub joined : taken ++ s.path ≡ path
      pub up_to : AllUpTo (t0 + longest) taken
      pub rises : Rises 0 taken
      pub apart : (taken ≡ []) ⊎ StartsAfter (t0 + longest) s.path
      pub state :
          s
          ≡ frame fl math params
              (later t0 (coalesced taken))
              s.path
              s.prev_raw_ts
              s.prev_t
              (folds fl math params (early t0 (coalesced taken)) (unopened fl math params path))
      pub since : Since s.prev_t t0

    coalesced-split :
        (longest t0 bound : ℕ) (taken rest : List (MidPoint F))
        → AllUpTo (t0 + longest) taken
        → (taken ≡ []) ⊎ StartsAfter (t0 + longest) rest
        → coalesced (taken ++ until bound rest) ≡ coalesced taken ++ coalesced (until bound rest)
    coalesced-split longest t0 bound taken rest h (inl first) = rw first refl
    coalesced-split longest t0 bound taken rest h (inr after) =
        coalesced-append (t0 + longest) taken (until bound rest) h
          (until-StartsAfter (t0 + longest) bound rest after)

    Rises-split :
        (longest t0 bound : ℕ) (taken rest : List (MidPoint F))
        → AllUpTo (t0 + longest) taken
        → (taken ≡ []) ⊎ StartsAfter (t0 + longest) rest
        → Rises 0 taken
        → Rises 0 (until bound rest)
        → Rises 0 (taken ++ until bound rest)
    Rises-split longest t0 bound taken rest h (inl first) k r = rw first r
    Rises-split longest t0 bound taken rest h (inr after) k r =
        Rises-append (t0 + longest) 0 taken (until bound rest) (omega arith) h k
          (until-StartsAfter (t0 + longest) bound rest after) r

    -- The labeler is the reference, but for the path that is left and the times.
    abbrev pub Agrees : ℕ → ℕ → Labeler F → Type 0
    Agrees longest t z =
        frame fl math params (reference longest t).pts z.path z.prev_raw_ts z.prev_t
          (reference longest t)
        ≡ z

    pub pull-Buffered :
        (longest t0 t : ℕ) (s mid : Labeler F)
        → Buffered longest t0 s
        → t0 ≤ t
        → (let folded = fold_buffered fl math params t s.pts (record s { prev_t = some t }) in
            pull fl math params t (t + longest) folded.path folded ≡ ok mid)
        → Buffered longest t mid × Agrees longest t mid
    pull-Buffered longest t0 t s mid b le pulled =
        let bound = t + longest in
        let start = unopened fl math params path in
        let c0 = coalesced b.taken in
        let c1 = coalesced (until bound s.path) in
        let taken' = b.taken ++ until bound s.path in
        let folded = fold_buffered fl math params t s.pts (record s { prev_t = some t }) in
        let buffered : folded
            ≡ frame fl math params (later t c0) s.path s.prev_raw_ts (some t)
                (folds fl math params (early t c0) start) =
          ap
            (λ (z : Labeler F).
              fold_buffered fl math params t z.pts
                (frame fl math params z.pts z.path z.prev_raw_ts (some t) z))
            b.state
          ∙ fold_buffered-frame t0 t c0 s.path s.prev_raw_ts s.prev_t start le
              (coalesced-Rises 0 b.taken b.rises) in
        let (raw', made, rises') =
          pull-frame t bound (later t c0) (early t c0) s.path s.prev_raw_ts (some t) start mid (
            subst (λ (z : Labeler F). pull fl math params t bound z.path z ≡ ok mid) buffered
              pulled) in
        let split : coalesced taken' ≡ c0 ++ c1 =
          coalesced-split longest t0 bound b.taken s.path b.up_to b.apart in
        let result : frame fl math params (later t (coalesced taken')) (past bound s.path) raw'
              (some t) (folds fl math params (early t (coalesced taken')) start)
            ≡ mid =
          ap
            (λ c.
              frame fl math params (later t c) (past bound s.path) raw' (some t)
                (folds fl math params (early t c) start))
            split
          ∙ ap
              (λ l.
                frame fl math params l (past bound s.path) raw' (some t)
                  (folds fl math params (early t (c0 ++ c1)) start))
              (filter-append (λ p. not (leb p.ts t)) c0 c1)
          ∙ ap
              (λ l.
                frame fl math params (later t c0 ++ later t c1) (past bound s.path) raw' (some t)
                  (folds fl math params l start))
              (filter-append (λ p. leb p.ts t) c0 c1)
          ∙ made in
        let inside : AllUpTo bound b.taken = All-map _ _ (λ p k. omega arith) b.taken b.up_to in
        let cut : taken' ≡ until bound path =
          sym (until-append bound b.taken s.path inside) ∙ ap (until bound) b.joined in
        subst (λ z. Buffered longest t z × Agrees longest t z) result
          (
            record {
              taken = taken';
              joined =
                  append_assoc b.taken (until bound s.path) (past bound s.path)
                  ∙ ap (◌++◌ b.taken) (until-past bound s.path)
                  ∙ b.joined;
              up_to = subst (AllUpTo bound) (sym cut) (until-AllUpTo bound path);
              rises = Rises-split longest t0 bound b.taken s.path b.up_to b.apart b.rises rises';
              apart = inr (past-StartsAfter bound s.path);
              state = refl;
              since = refl;
            },
            ap
                (λ c.
                  frame fl math params (later t (coalesced c)) (past bound s.path) raw' (some t)
                    (folds fl math params (early t (coalesced c)) start))
                (sym cut),
          )
