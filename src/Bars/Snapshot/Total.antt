-- ===== src/Bars/Snapshot/Total.antt =====
-- bars/snapshot.py: runs over a stream that keeps its contract.
use mathlib.Core.Path.{subst, ap₂}
use jepa_btc_forecasting.Prelude.{
  ℕ, ◌+◌, ◌≤◌, ◌≡◌, refl, sym, ◌∙◌, inl, inr, false, Option, none, some, List, [], ◌∷◌, map, ltb,
  leb, Bool-cases, ok, le→ltb-false,
}
use jepa_btc_forecasting.Prelude.Float.{Float}
use jepa_btc_forecasting.Bars.Snapshot.Records.{
  BookDelta, Pending, Sampler, BookRow, Reason, reads, rejection, book_order_key,
}
use jepa_btc_forecasting.Bars.Snapshot.{
  validate_book_top, label_row, fresh_row, validate_event, before_last, promote, take_event,
  consume, promote_ready, advance, row, decisions, dual_book_reads, start, read_ts, not_after,
}
use jepa_btc_forecasting.Bars.Snapshot.Stream.{received_by}
use jepa_btc_forecasting.Bars.Snapshot.Loops.{took}
use jepa_btc_forecasting.Bars.Snapshot.Loops.{promote-rest}

module _ (fl : Float) where
  open fl use {F}

  -- A stream in order of (origin_time, seq) whose events pass the checks, after a last key.
  abbrev pub IsStream : Option (ℕ × ℕ) → List (BookDelta F) → Type 0
  IsStream last [] = Unit
  IsStream last (e ∷ es) =
      (validate_event fl e ≡ ok tt)
      × (before_last last (book_order_key e) ≡ false)
      × IsStream (some (book_order_key e)) es

  abbrev pub IsIncreasing : Option ℕ → List ℕ → Type 0
  IsIncreasing prev [] = Unit
  IsIncreasing prev (t ∷ ts) = (not_after prev t ≡ false) × IsIncreasing (some t) ts

  -- The time of a row's decision.
  abbrev pub time_of : BookRow F → ℕ
  time_of (reads r) = r.t_event
  time_of (rejection r) = r.t_event

  consume-total :
      (t : ℕ) (es : List (BookDelta F)) (s : Sampler F)
      → IsStream s.last_event_key es
      → (s' : Sampler F) × (consume fl t es s ≡ ok s')
        × IsStream s'.last_event_key s'.events
        × (s'.prev_t ≡ s.prev_t)
  unfolding consume take_event
  consume-total t [] s h = (record s { events = [] }, refl, tt, refl)
  consume-total t (e ∷ es) s h = elim (Bool-cases (leb e.origin_time t)) [
    | inl due ↦
        let (s', done, rest, prev) = consume-total t es (took fl e s) h.2 in
        (s', rw (due, h.0, h.1) done, rest, prev)
    | inr late ↦ (record s { events = e ∷ es }, rw late refl, h, refl)
  ]

  promote_ready-rest :
      (t : ℕ) (ps : List (Pending F)) (s : Sampler F)
      → ((promote_ready fl t ps s).last_event_key ≡ s.last_event_key)
        × ((promote_ready fl t ps s).events ≡ s.events)
        × ((promote_ready fl t ps s).prev_t ≡ s.prev_t)
  unfolding promote_ready
  promote_ready-rest t [] s = (refl, refl, refl)
  promote_ready-rest t (p ∷ ps) s = elim (Bool-cases (received_by t p)) [
    | inl due ↦
        let (label, last, position, events, prev) = promote-rest fl s p in
        let (last', events', prev') = promote_ready-rest t ps (promote fl s p) in
        rw due (last' ∙ last, events' ∙ events, prev' ∙ prev)
    | inr late ↦ rw late (refl, refl, refl)
  ]

  row-time :
      (staleness_cap top_k t : ℕ) (s : Sampler F) → time_of (row fl staleness_cap top_k t s) ≡ t
  unfolding row
  row-time staleness_cap top_k t s = fresh (validate_book_top fl s.obs_book)
    where
      labelled : (v : Option Reason) → time_of (label_row fl top_k t v s) ≡ t
      labelled (some r) = refl
      labelled none = refl

      fresh : (v : Option Reason) → time_of (fresh_row fl staleness_cap top_k t v s) ≡ t
      fresh (some r) = refl
      fresh none = elim (Bool-cases (ltb (read_ts fl s.obs_last_key + staleness_cap) t)) [
        | inl f ↦ rw f refl
        | inr f ↦ rw f (labelled (validate_book_top fl s.label_book))
      ]

  advance-total :
      (t : ℕ) (s : Sampler F)
      → not_after s.prev_t t ≡ false
      → IsStream s.last_event_key s.events
      → (s' : Sampler F) × (advance fl t s ≡ ok s')
        × IsStream s'.last_event_key s'.events
        × (s'.prev_t ≡ some t)
  unfolding advance
  advance-total t s fresh h =
      let (mid, done, rest, prev) = consume-total t s.events (record s { prev_t = some t }) h in
      let (last', events', prev') = promote_ready-rest t mid.pending mid in
      (
        promote_ready fl t mid.pending mid,
        rw (fresh, done) refl,
        rw (last', events') rest,
        prev' ∙ prev,
      )

  decisions-total :
      (staleness_cap top_k : ℕ) (ts : List ℕ) (s : Sampler F)
      → IsIncreasing s.prev_t ts
      → IsStream s.last_event_key s.events
      → ((decisions fl staleness_cap top_k ts s).raised ≡ none)
        × (map time_of (decisions fl staleness_cap top_k ts s).rows ≡ ts)
  unfolding decisions
  decisions-total staleness_cap top_k [] s h k = (refl, refl)
  decisions-total staleness_cap top_k (t ∷ ts) s h k =
      let (s', done, rest, prev) = advance-total t s h.0 k in
      let (raised, rows) =
        decisions-total staleness_cap top_k ts s' (subst (λ p. IsIncreasing p ts) (sym prev) h.1)
          rest in
      rw done (raised, ap₂ (λ (x : ℕ) xs. x ∷ xs) (row-time staleness_cap top_k t s') rows)

  -- A run over a stream in order whose events pass the checks, with strictly increasing decisions and
  -- at least one level asked for, never raises, and yields exactly one row for each decision, in order.
  pub dual_book_reads-total :
      (events : List (BookDelta F)) (ts : List ℕ) (staleness_cap top_k : ℕ)
      → IsStream none events
      → IsIncreasing none ts
      → 1 ≤ top_k
      → ((dual_book_reads fl events ts staleness_cap top_k).raised ≡ none)
        × (map time_of (dual_book_reads fl events ts staleness_cap top_k).rows ≡ ts)
  unfolding dual_book_reads
  dual_book_reads-total events ts staleness_cap top_k h k le =
      rw (le→ltb-false top_k 1 le) (decisions-total staleness_cap top_k ts (start fl events) k h)
