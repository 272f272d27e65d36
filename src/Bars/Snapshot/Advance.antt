-- ===== src/Bars/Snapshot/Advance.antt =====
-- bars/snapshot.py: one decision, from the events taken before it to those taken after.
use mathlib.Core.Path.{subst}
use mathlib.Core.List.{map-append}
use jepa_btc_forecasting.Prelude.{
  ℕ, ◌≤◌, ◌≡◌, refl, sym, ap, ◌∙◌, inl, inr, Bool, true, false, Option, none, some, List, [], ◌∷◌,
  ◌++◌, append_assoc, append-nil, arith, leb, if◌then◌else◌, Bool-cases, filter, All-map, Result,
  ok, ◌>>=◌, refuse, >>=-eq-ok,
}
use jepa_btc_forecasting.Prelude.Float.{Float, FloatLaws}
use jepa_btc_forecasting.Recon.Events.{Side}
use jepa_btc_forecasting.Recon.OrderBook.{level}
use jepa_btc_forecasting.Recon.OrderBook.Levels.{IsBook, levels_of}
use jepa_btc_forecasting.Bars.Snapshot.Records.{
  BookDelta, Pending, Sampler, SnapshotError, t_event_not_increasing,
}
use jepa_btc_forecasting.Bars.Snapshot.{
  take_event, consume, promote_ready, advance, read_ts, not_after,
}
use jepa_btc_forecasting.Bars.Snapshot.Cells.{settle, key_of}
use jepa_btc_forecasting.Bars.Snapshot.Observable.{at_level, left_by}
use jepa_btc_forecasting.Bars.Snapshot.Stream.{
  rebuild, seen, events_of, Taken, Held, Held-later, last_of,
}
use jepa_btc_forecasting.Bars.Snapshot.Loops.{
  took, entry, take_event-ok, Held-take, Taken-take, promote_ready-Drained,
}
use jepa_btc_forecasting.Bars.Snapshot.Cut.{
  up_to, beyond, observable, last_origin, Within, up_to-due, up_to-beyond, up_to-Within,
  up_to-append, events-seen, last_from,
}

-- The time of the last decision; none before the first.
abbrev pub Since : Option ℕ → ℕ → Type 0
Since none t0 = t0 ≡ 0
Since (some prev) t0 = prev ≡ t0

module _ (fl : Float) where
  open fl use {F}

  module _ (laws : FloatLaws fl) where
    -- The first loop takes the events up to the cut, in their order, and no other.
    record Consumed (t t0 : ℕ) (taken : List (Pending F)) (es : List (BookDelta F))
        (s s' : Sampler F) : Type 0 where
      now : List (Pending F)
      taken_now : Taken fl now s'
      held_now : Held fl laws t0 now s'.pending s'
      events_now : events_of fl now ≡ events_of fl taken ++ up_to t es
      left : s'.events ≡ beyond t es
      prev : s'.prev_t ≡ s.prev_t

    -- Neither depends on the events that are left or the last decision.
    abbrev moved : List (BookDelta F) → Option ℕ → Sampler F → Sampler F
    moved es prev s = record s { events = es; prev_t = prev }

    Taken-moved :
        (taken : List (Pending F)) (es : List (BookDelta F)) (prev : Option ℕ) (s : Sampler F)
        → Taken fl taken s
        → Taken fl taken (moved es prev s)
    Taken-moved taken es prev s k = record {
      label = k.label;
      below = k.below;
      waiting = k.waiting;
      ordered = k.ordered;
      sorted = k.sorted;
    }

    Held-moved :
        (t : ℕ) (taken : List (Pending F)) (es : List (BookDelta F)) (prev : Option ℕ)
        (s : Sampler F)
        → Held fl laws t taken s.pending s
        → Held fl laws t taken s.pending (moved es prev s)
    Held-moved t taken es prev s h = record {
      book = h.book;
      cells = λ side q.
          let (c, shows, tracks) = h.cells side q in
          (c, record { key = shows.key; size = shows.size }, tracks);
      greatest = h.greatest;
      levels = h.levels;
      ends = h.ends;
    }

    consume-Consumed :
        (t t0 : ℕ) (taken : List (Pending F)) (es : List (BookDelta F)) (s s' : Sampler F)
        → Taken fl taken s
        → Held fl laws t0 taken s.pending s
        → consume fl t es s ≡ ok s'
        → Consumed t t0 taken es s s'
    unfolding consume
    consume-Consumed t t0 taken [] s s' k h e =
        let same : record s { events = [] } ≡ s' = ground arith in
        subst (Consumed t t0 taken [] s) same (record {
          now = taken;
          taken_now = Taken-moved taken [] s.prev_t s k;
          held_now = Held-moved t0 taken [] s.prev_t s h;
          events_now = sym (append-nil (events_of fl taken));
          left = refl;
          prev = refl;
        })
    consume-Consumed t t0 taken (x ∷ es) s s' k h e = elim (Bool-cases (leb x.origin_time t)) [
      | inl due ↦
          let (mid, first, rest) =
            >>=-eq-ok (take_event fl x s) (consume fl t es) (subst (branch x es) due e) in
          let (order, same) = take_event-ok fl x s mid first in
          let more =
            consume-Consumed t t0 (taken ++ entry fl x s ∷ []) es (took fl x s) s'
              (Taken-take fl laws taken x s order k) (Held-take fl laws t0 taken x s order k h)
              (subst (λ m. consume fl t es m ≡ ok s') (sym same) rest) in
          record {
            now = more.now;
            taken_now = more.taken_now;
            held_now = more.held_now;
            events_now =
                more.events_now
                ∙ rw (map-append (λ p. p.event) taken (entry fl x s ∷ []))
                    (append_assoc (events_of fl taken) (x ∷ []) (up_to t es))
                ∙ ap (◌++◌ (events_of fl taken)) (sym (up_to-due t x es due));
            left = rw due more.left;
            prev = more.prev;
          }
      | inr late ↦
          let same : record s { events = x ∷ es } ≡ s' =
            ground (arith, subst (branch x es) late e) in
          subst (Consumed t t0 taken (x ∷ es) s) same (record {
            now = taken;
            taken_now = Taken-moved taken (x ∷ es) s.prev_t s k;
            held_now = Held-moved t0 taken (x ∷ es) s.prev_t s h;
            events_now = rw late (sym (append-nil (events_of fl taken)));
            left = rw late refl;
            prev = refl;
          })
    ]
      where
        branch : BookDelta F → List (BookDelta F) → Bool → Type 0
        branch x es b =
            ◌≡◌ {A = Result SnapshotError (Sampler F)}
              (if b
                then (take_event fl x s >>= consume fl t es)
                else ok (record s { events = x ∷ es }))
              (ok s')

    -- Between decisions: the events taken are those up to the last cut.
    pub record Between (all : List (BookDelta F)) (t0 : ℕ) (s : Sampler F) : Type 0 where
      pub now : List (Pending F)
      pub taken_now : Taken fl now s
      pub held_now : Held fl laws t0 now s.pending s
      pub stream : events_of fl now ++ s.events ≡ all
      pub within : Within t0 (events_of fl now)
      pub since : Since s.prev_t t0

    -- The books of a decision: each level of the observable book is that of the book rebuilt from the
    -- events that had been received, and the label book is the one rebuilt from all up to the cut.
    pub record Decided (all : List (BookDelta F)) (t : ℕ) (s : Sampler F) : Type 0 where
      pub book : IsBook fl s.obs_book
      pub observable_level :
          (side : Side) (q : F)
          → level fl q (levels_of fl side s.obs_book)
            ≡ level fl q (levels_of fl side (rebuild fl (observable t all)))
      pub last_read : read_ts fl s.obs_last_key ≡ last_origin (observable t all)
      pub label_book : s.label_book ≡ rebuild fl (up_to t all)

    Held-Decided :
        (all : List (BookDelta F)) (t : ℕ) (now : List (Pending F)) (s : Sampler F)
        → events_of fl now ≡ up_to t all
        → Taken fl now s
        → Held fl laws t now s.pending s
        → seen fl t s.pending ≡ []
        → Decided all t s
    unfolding settle
    Held-Decided all t now s e k h none_left = record {
      book = h.book;
      observable_level = λ side q.
          let (c, shows, tracks) = h.cells side q in
          let now_held : c ≡ settle (at_level fl side q) none (seen fl t now) =
            ap (settle (at_level fl side q) c) (sym none_left) ∙ tracks t (omega arith) in
          shows.size
          ∙ ap (left_by fl laws) now_held
          ∙ sym (h.levels t side q)
          ∙ ap (λ es. level fl q (levels_of fl side (rebuild fl es))) seen_events;
      last_read =
          let (c, key, tracks) = h.greatest in
          let now_held : c ≡ last_of fl laws (seen fl t now) =
            ap (settle (λ p. true) c) (sym none_left) ∙ tracks t (omega arith) ∙ h.ends t in
          ap (read_ts fl) (key ∙ ap key_of now_held)
          ∙ last_from fl (seen fl t now) none
          ∙ ap last_origin seen_events;
      label_book = k.label ∙ ap (rebuild fl) e;
    }
      where
        seen_events : events_of fl (seen fl t now) ≡ observable t all
        seen_events = events-seen fl t now ∙ ap (filter (λ e. leb e.received_time t)) e

    pub advance-Between :
        (all : List (BookDelta F)) (t t0 : ℕ) (s s' : Sampler F)
        → Between all t0 s
        → advance fl t s ≡ ok s'
        → Between all t s' × Decided all t s'
    unfolding advance
    advance-Between all t t0 s s' b e =
        let (u, fresh, rest) =
          >>=-eq-ok (refuse (not_after s.prev_t t) t_event_not_increasing) _ e in
        let (mid, consumed, done) =
          >>=-eq-ok (consume fl t s.events (record s { prev_t = some t })) _ rest in
        let le : t0 ≤ t = since_le s.prev_t b.since (fresh_test (not_after s.prev_t t) fresh) in
        let c =
          consume-Consumed t t0 b.now s.events (record s { prev_t = some t }) mid
            (Taken-moved b.now s.events (some t) s b.taken_now)
            (Held-moved t0 b.now s.events (some t) s b.held_now) consumed in
        let d =
          promote_ready-Drained fl laws t c.now mid.pending mid c.taken_now
            (Held-later fl laws t0 t c.now mid.pending mid le c.held_now) in
        let same : promote_ready fl t mid.pending mid ≡ s' = ground (arith, done) in
        let within : Within t (events_of fl b.now) =
          All-map _ _ (λ x k. ground arith) (events_of fl b.now) b.within in
        let cut : events_of fl c.now ≡ up_to t all =
          c.events_now
          ∙ sym (up_to-append t (events_of fl b.now) s.events within)
          ∙ ap (up_to t) b.stream in
        subst (λ z. Between all t z × Decided all t z) same
          (
            record {
              now = c.now;
              taken_now = d.taken_kept;
              held_now = d.held;
              stream =
                  ap (◌++◌ (events_of fl c.now)) (d.events_kept ∙ c.left)
                  ∙ ap (λ es. es ++ beyond t s.events) c.events_now
                  ∙ append_assoc (events_of fl b.now) (up_to t s.events) (beyond t s.events)
                  ∙ ap (◌++◌ (events_of fl b.now)) (up_to-beyond t s.events)
                  ∙ b.stream;
              within = subst (Within t) (sym cut) (up_to-Within t all);
              since = subst (λ k. Since k t) (sym (d.prev_t_kept ∙ c.prev)) refl;
            },
            Held-Decided all t c.now (promote_ready fl t mid.pending mid) cut d.taken_kept d.held
                d.none_left,
          )
      where
        fresh_test : (b : Bool) → refuse b t_event_not_increasing ≡ ok tt → b ≡ false
        fresh_test true h = cc
        fresh_test false h = refl

        since_le : (prev : Option ℕ) → Since prev t0 → not_after prev t ≡ false → t0 ≤ t
        since_le none h k = omega arith
        since_le (some p) h k = ground arith
