-- ===== src/Data/Labels/Total.antt =====
-- data/labels.py: the streams and anchors at which the labeler never raises.
use mathlib.Core.Path.{subst}
use jepa_btc_forecasting.Prelude.{
  ℕ, ◌+◌, ◌≤◌, ◌≡◌, refl, sym, ap, ◌∙◌, inl, inr, true, false, ◌&&◌, Option, none, some, List, [],
  ◌∷◌, ◌++◌, append-nil, ltb, leb, ◌==◌, Bool-cases, Result, ok, require, refuse, >>=-of_ok,
  require-passes, refuse-passes, le→ltb-false,
}
use jepa_btc_forecasting.Prelude.Float.{Float}
use jepa_btc_forecasting.Data.Labels.Records.{
  MidPoint, LabelAnchor, Horizon, Labeler, LabelError, FloatMath, BarrierParams, bad_p0,
  anchor_not_increasing, insufficient_support,
}
use jepa_btc_forecasting.Data.Labels.{
  LabelRun, fold, fold_buffered, place, pull_round, pull, validated_point, unopened, anchor_step,
  max_horizon, ladder_of, repeats, check_p0, label_iter, validate_barrier_params,
  triple_barrier_labels,
}
use jepa_btc_forecasting.Data.Labels.Buffer.{place-frame, fold-kept}
use jepa_btc_forecasting.Data.Labels.Reference.{Buffered, reference, pull-Buffered}
use jepa_btc_forecasting.Data.Labels.Anchor.{anchor_step-Buffered, Since-le}
use jepa_btc_forecasting.Data.Labels.Rows.{
  reference_rows, triple_barrier_labels-IsReference, unopened-Buffered,
}

module _ (fl : Float) (math : FloatMath fl) (params : BarrierParams fl.F) where
  open fl use {F, of_ℕ, lt, is_finite}

  -- Points that pass the checks after a timestamp: finite, positive and in order.
  abbrev pub AreValid : Option ℕ → List (MidPoint F) → Type 0
  AreValid raw [] = Unit
  AreValid raw (p ∷ ps) = (validated_point fl p raw ≡ ok tt) × AreValid (some p.ts) ps

  -- The points that are left are valid after the last timestamp.
  abbrev IsFed : Labeler F → Type 0
  IsFed s = AreValid s.prev_raw_ts s.path

  -- The state after an operation that keeps the last anchor's time.
  abbrev Goes : Labeler F → Result LabelError (Labeler F) → Type 0
  Goes s r = (s' : Labeler F) × (r ≡ ok s') × IsFed s' × (s'.prev_t ≡ s.prev_t)

  place-IsFed :
      (t : ℕ) (p : MidPoint F) (path : List (MidPoint F)) (raw : Option ℕ) (s : Labeler F)
      → AreValid raw path
      → Goes s (ok (place fl math params t p (record s { path = path; prev_raw_ts = raw })))
  place-IsFed t p path raw s h =
      let e = place-frame fl math params t p path raw s in
      (
        place fl math params t p (record s { path = path; prev_raw_ts = raw }),
        refl,
        subst IsFed (sym e) h,
        ap (λ (z : Labeler F). z.prev_t) e,
      )

  pull_round-total :
      (t bound : ℕ) (cur : MidPoint F) (qs : List (MidPoint F)) (s : Labeler F)
      → AreValid (some cur.ts) qs
      → Goes s (pull_round fl math params t bound cur qs s)
  unfolding pull_round
  pull_round-total t bound cur [] s h = place-IsFed t cur [] (some cur.ts) s tt
  pull_round-total t bound cur (q ∷ qs) s h = elim (Bool-cases (q.ts == cur.ts)) [
    | inl same ↦
        let (s', done, fed, prev) = pull_round-total t bound q qs s h.1 in
        (s', rw same (>>=-of_ok (validated_point fl q (some cur.ts)) _ h.0 done), fed, prev)
    | inr apart ↦
        let (s1, made, fed1, prev1) = place-IsFed t cur (q ∷ qs) (some cur.ts) s h in
        elim (Bool-cases (ltb bound q.ts)) [
          | inl late ↦ (s1, rw (apart, late) made, fed1, prev1)
          | inr inside ↦
              let placed =
                place fl math params t cur
                  (record s { path = q ∷ qs; prev_raw_ts = some cur.ts }) in
              let (s', done, fed, prev) = pull_round-total t bound q qs placed h.1 in
              (
                s',
                rw (apart, inside) (>>=-of_ok (validated_point fl q (some cur.ts)) _ h.0 done),
                fed,
                prev
                    ∙ ap (λ (z : Labeler F). z.prev_t)
                        (place-frame fl math params t cur (q ∷ qs) (some cur.ts) s),
              )
        ]
  ]

  pull-total :
      (t bound : ℕ) (ps : List (MidPoint F)) (s : Labeler F)
      → AreValid s.prev_raw_ts ps
      → s.path ≡ ps
      → Goes s (pull fl math params t bound ps s)
  unfolding pull
  pull-total t bound [] s h e = (s, refl, subst (AreValid s.prev_raw_ts) (sym e) h, refl)
  pull-total t bound (p ∷ ps) s h e = elim (Bool-cases (ltb bound p.ts)) [
    | inl late ↦ (s, rw late refl, subst (AreValid s.prev_raw_ts) (sym e) h, refl)
    | inr inside ↦
        let (s', done, fed, prev) = pull_round-total t bound p ps s h.1 in
        (s', rw inside (>>=-of_ok (validated_point fl p s.prev_raw_ts) _ h.0 done), fed, prev)
  ]

  fold_buffered-IsFed :
      (t : ℕ) (ps : List (MidPoint F)) (s : Labeler F)
      → IsFed s
      → IsFed (fold_buffered fl math params t ps s)
        × ((fold_buffered fl math params t ps s).prev_t ≡ s.prev_t)
  unfolding fold_buffered
  fold_buffered-IsFed t [] s h = (h, refl)
  fold_buffered-IsFed t (p ∷ ps) s h = elim (Bool-cases (leb p.ts t)) [
    | inl e ↦
        let kept = fold-kept fl math params p s in
        let (fed, prev) =
          fold_buffered-IsFed t ps (fold fl math params p s) (subst IsFed (sym kept) h) in
        rw e (fed, prev ∙ ap (λ (z : Labeler F). z.prev_t) kept)
    | inr e ↦ rw e (h, refl)
  ]

  module _ (path : List (MidPoint F)) (coverage_end : ℕ) where
    -- Anchors in order whose longest windows are covered and whose p0 is the true mid of the path.
    abbrev pub AreSupported : ℕ → Option ℕ → List (LabelAnchor F) → Type 0
    AreSupported longest prev [] = Unit
    AreSupported longest prev (a ∷ as') =
        ((is_finite a.p0 && lt (of_ℕ 0) a.p0) ≡ true)
        × (repeats prev a.t_event ≡ false)
        × (a.t_event + longest ≤ coverage_end)
        × (check_p0 fl math params (reference fl math params path longest a.t_event).last a.p0
            ≡ ok tt)
        × AreSupported longest (some a.t_event) as'

    anchor_step-total :
        (ladder : List Horizon) (a : LabelAnchor F) (as' : List (LabelAnchor F)) (t0 : ℕ)
        (s : Labeler F)
        → Buffered fl math params path (max_horizon ladder) t0 s
        → IsFed s
        → AreSupported (max_horizon ladder) s.prev_t (a ∷ as')
        → (s' : Labeler F) × (anchor_step fl math params coverage_end ladder a s ≡ ok s')
          × IsFed s'
          × (s'.prev_t ≡ some a.t_event)
    unfolding anchor_step
    anchor_step-total ladder a as' t0 s b fed h =
        let t = a.t_event in
        let longest = max_horizon ladder in
        let marked : Labeler F = record s { prev_t = some t } in
        let folded = fold_buffered fl math params t s.pts marked in
        let (fed1, prev1) = fold_buffered-IsFed t s.pts marked fed in
        let (mid, pulled, fed2, prev2) = pull-total t (t + longest) folded.path folded fed1 refl in
        let le = Since-le fl math params path s.prev_t t0 t h.1 b.since in
        let (buffered, agrees) = pull-Buffered fl math params path longest t0 t s mid b le pulled in
        let based : check_p0 fl math params mid.last a.p0 ≡ ok tt =
          ap (λ (z : Labeler F). check_p0 fl math params z.last a.p0) (sym agrees) ∙ h.3 in
        (
          mid,
          >>=-of_ok (require (is_finite a.p0 && lt (of_ℕ 0) a.p0) bad_p0) _
              (require-passes _ bad_p0 h.0)
              (>>=-of_ok (refuse (repeats s.prev_t t) anchor_not_increasing) _
                (refuse-passes _ anchor_not_increasing h.1)
                (>>=-of_ok (refuse (ltb coverage_end (t + longest)) insufficient_support) _
                  (refuse-passes _ insufficient_support
                    (le→ltb-false coverage_end (t + longest) h.2))
                  (>>=-of_ok (pull fl math params t (t + longest) folded.path folded) _ pulled
                    (>>=-of_ok (check_p0 fl math params mid.last a.p0) _ based refl)))),
          fed2,
          prev2 ∙ prev1,
        )

    label_iter-total :
        (ladder : List Horizon) (anchors : List (LabelAnchor F)) (t0 : ℕ) (s : Labeler F)
        → Buffered fl math params path (max_horizon ladder) t0 s
        → IsFed s
        → AreSupported (max_horizon ladder) s.prev_t anchors
        → (label_iter fl math params coverage_end ladder anchors s).raised ≡ none
    unfolding label_iter
    label_iter-total ladder [] t0 s b fed h = refl
    label_iter-total ladder (a ∷ as') t0 s b fed h =
        let (s', done, fed', prev) = anchor_step-total ladder a as' t0 s b fed h in
        let (buffered, rows) =
          anchor_step-Buffered fl math params path coverage_end ladder a t0 s s' b done in
        rw done (
          label_iter-total ladder as' a.t_event s' buffered fed'
            (subst (λ p. AreSupported (max_horizon ladder) p as') (sym prev) h.4))

    -- Under valid parameters, on a path of finite positive mids that is in order, at anchors that
    -- increase, whose longest windows end within the coverage and whose p0 is the mid that the whole
    -- path has at the anchor, the labeler raises nothing and yields the rows of every anchor, each from
    -- the whole path.
    pub triple_barrier_labels-total :
        (anchors : List (LabelAnchor F))
        → validate_barrier_params fl params ≡ ok tt
        → AreValid none path
        → AreSupported (max_horizon (ladder_of params.horizons)) none anchors
        → (run : LabelRun fl math params) × (triple_barrier_labels fl math params path anchors
              coverage_end
            ≡ ok run)
          × (run.raised ≡ none)
          × (run.rows ≡ reference_rows fl math params path (ladder_of params.horizons) anchors)
    unfolding triple_barrier_labels
    triple_barrier_labels-total anchors valid fed supported =
        let ladder = ladder_of params.horizons in
        let run =
          label_iter fl math params coverage_end ladder anchors (unopened fl math params path) in
        let made : triple_barrier_labels fl math params path anchors coverage_end ≡ ok run =
          >>=-of_ok (validate_barrier_params fl params) _ valid refl in
        let raised =
          label_iter-total ladder anchors 0 (unopened fl math params path)
            (unopened-Buffered fl math params path (max_horizon ladder)) fed supported in
        let same =
          triple_barrier_labels-IsReference fl math params path anchors coverage_end run made in
        let all : same.finished ≡ anchors =
          sym (append-nil same.finished)
          ∙ ap (◌++◌ same.finished) (sym (same.complete raised))
          ∙ same.joined in
        (run, made, raised, same.rows ∙ ap (reference_rows fl math params path ladder) all)
