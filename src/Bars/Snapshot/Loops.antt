-- ===== src/Bars/Snapshot/Loops.antt =====
-- bars/snapshot.py: the loops of the sampler run to their ends.
use mathlib.Core.Path.{subst}
use jepa_btc_forecasting.Prelude.{
  ℕ, ◌+◌, ◌≡◌, refl, sym, ap, ◌∙◌, inl, inr, true, false, Option, none, some, List, [], ◌∷◌, ◌++◌,
  append-nil, arith, Bool-cases, filter-append, All, All-append, All-map, All-filter, ok, >>=-eq-ok,
}
use jepa_btc_forecasting.Prelude.Float.{Float, FloatLaws}
use jepa_btc_forecasting.Prelude.Sort.{insert}
use jepa_btc_forecasting.Prelude.Sort.Laws.{insert-IsSorted, All-insert}
use jepa_btc_forecasting.Recon.OrderBook.{apply}
use jepa_btc_forecasting.Bars.Snapshot.Records.{
  BookDelta, Pending, Sampler, to_delta, fold_key, book_order_key, pending_le,
}
use jepa_btc_forecasting.Bars.Snapshot.{
  newer, promote, before_last, take_event, promote_ready, validate_event,
}
use jepa_btc_forecasting.Bars.Snapshot.Cells.{AllBelow}
use jepa_btc_forecasting.Bars.Snapshot.Stream.{
  pending_order, received_by, NotAfter, seen, Taken, Tracks-take, Rebuilds, Rebuilds-snoc, Ends,
  Ends-snoc, Held, Held-promote, rebuild-snoc,
}

module _ (fl : Float) where
  open fl use {F}

  -- The sampler after an event is taken.
  abbrev pub took : BookDelta F → Sampler F → Sampler F
  took e s = record s {
    last_event_key = some (book_order_key e);
    label_book = (apply fl s.label_book (to_delta e)).1;
    pending = insert pending_le (record { position = s.position; event = e }) s.pending;
    position = s.position + 1;
  }

  abbrev pub entry : BookDelta F → Sampler F → Pending F
  entry e s = record { position = s.position; event = e }

  pub take_event-ok :
      (e : BookDelta F) (s s' : Sampler F)
      → take_event fl e s ≡ ok s'
      → (before_last s.last_event_key (book_order_key e) ≡ false) × (took e s ≡ s')
  unfolding take_event
  take_event-ok e s s' h =
      let (u, valid, rest) = >>=-eq-ok (validate_event fl e) _ h in ground arith

  -- What promotion leaves as it was.
  pub promote-rest :
      (s : Sampler F) (p : Pending F)
      → ((promote fl s p).label_book ≡ s.label_book)
        × ((promote fl s p).last_event_key ≡ s.last_event_key)
        × ((promote fl s p).position ≡ s.position)
        × ((promote fl s p).events ≡ s.events)
        × ((promote fl s p).prev_t ≡ s.prev_t)
  unfolding promote
  promote-rest s p = (ground arith, ground arith, ground arith, ground arith, ground arith)

  module _ (laws : FloatLaws fl) where
    -- An event that is taken has a greater key than all before it.
    All-newer :
        (taken : List (Pending F)) (e : BookDelta F) (s : Sampler F)
        → Taken fl taken s
        → before_last s.last_event_key (book_order_key e) ≡ false
        → All (λ z. newer (some (fold_key z)) (fold_key (entry e s)) ≡ true) taken
    All-newer taken e s h order = go taken s.last_event_key order h.below h.ordered
      where
        go :
            (xs : List (Pending F)) (last : Option (ℕ × ℕ))
            → before_last last (book_order_key e) ≡ false
            → AllBelow s.position xs
            → All (NotAfter last) xs
            → All (λ z. newer (some (fold_key z)) (fold_key (entry e s)) ≡ true) xs
        go [] last o b k = tt
        go (x ∷ xs) none o b k = absurd k.0
        go (x ∷ xs) (some last) o b k = (ground arith, go xs (some last) o b.1 k.1)

    snoc-seen :
        (u : ℕ) (taken : List (Pending F)) (p : Pending F) (P : List (Pending F) → Type 0)
        → P (seen fl u taken)
        → P (seen fl u taken ++ p ∷ [])
        → P (seen fl u (taken ++ p ∷ []))
    snoc-seen u taken p P h k =
        rw (filter-append (received_by u) taken (p ∷ []))
          (elim (Bool-cases (received_by u p)) [ inl e ↦ rw e k | inr e ↦ rw (e, append-nil) h ])

    pub Held-take :
        (t : ℕ) (taken : List (Pending F)) (e : BookDelta F) (s : Sampler F)
        → before_last s.last_event_key (book_order_key e) ≡ false
        → Taken fl taken s
        → Held fl laws t taken s.pending s
        → Held fl laws t (taken ++ entry e s ∷ []) (took e s).pending (took e s)
    Held-take t taken e s order old h =
        let p = entry e s in
        let newest = All-newer taken e s old order in
        record {
          book = h.book;
          cells = λ side q.
              let (c, shows, tracks) = h.cells side q in
              (
                c,
                record { key = shows.key; size = shows.size },
                Tracks-take fl _ t c p s.pending taken old.waiting tracks,
              );
          greatest =
              let (c, key, tracks) = h.greatest in
              (c, key, Tracks-take fl (λ p. true) t c p s.pending taken old.waiting tracks);
          levels = λ u. snoc-seen u taken p (Rebuilds fl laws) (h.levels u) (
              Rebuilds-snoc fl laws (seen fl u taken) p (All-filter _ (received_by u) taken newest)
                (h.levels u));
          ends = λ u.
              snoc-seen u taken p (Ends fl laws) (h.ends u)
                (Ends-snoc fl laws (seen fl u taken) p (All-filter _ (received_by u) taken newest));
        }

    pub Taken-take :
        (taken : List (Pending F)) (e : BookDelta F) (s : Sampler F)
        → before_last s.last_event_key (book_order_key e) ≡ false
        → Taken fl taken s
        → Taken fl (taken ++ entry e s ∷ []) (took e s)
    Taken-take taken e s order h =
        let p = entry e s in
        record {
          label =
              ap (λ b. (apply fl b (to_delta e)).1) h.label ∙ sym (rebuild-snoc fl laws taken p);
          below =
              All-append _ taken (p ∷ []) (All-map _ _ (λ z k. omega arith) taken h.below)
                (omega arith, tt);
          waiting =
              All-insert _ pending_le p s.pending (omega arith)
                (All-map _ _ (λ z k. omega arith) s.pending h.waiting);
          ordered =
              All-append _ taken (p ∷ [])
                (All-map _ _ (λ z k. later s.last_event_key z order k) taken h.ordered)
                (ground arith, tt);
          sorted = insert-IsSorted (pending_order F) p s.pending h.sorted;
        }
      where
        later :
            (last : Option (ℕ × ℕ)) (z : Pending F)
            → before_last last (book_order_key e) ≡ false
            → NotAfter last z
            → NotAfter (some (book_order_key e)) z
        later none z o k = absurd k
        later (some last) z o k = ground arith

    none_due :
        (t : ℕ) (p : Pending F) (ps : List (Pending F))
        → received_by t p ≡ false
        → All (λ y. pending_le p y ≡ true) ps
        → seen fl t ps ≡ []
    none_due t p [] h k = refl
    none_due t p (y ∷ ys) h k =
        let late : received_by t y ≡ false = ground (arith, h, k.0) in
        rw late (none_due t p ys h k.1)

    -- The second loop ends with no event due.
    pub record Drained (t : ℕ) (taken : List (Pending F)) (s s' : Sampler F) : Type 0 where
      pub held : Held fl laws t taken s'.pending s'
      pub taken_kept : Taken fl taken s'
      pub none_left : seen fl t s'.pending ≡ []
      pub events_kept : s'.events ≡ s.events
      pub prev_t_kept : s'.prev_t ≡ s.prev_t

    abbrev waits : List (Pending F) → Sampler F → Sampler F
    waits ps s = record s { pending = ps }

    Held-waits :
        (t : ℕ) (taken w ps : List (Pending F)) (s : Sampler F)
        → Held fl laws t taken w s
        → Held fl laws t taken w (waits ps s)
    Held-waits t taken w ps s h = record {
      book = h.book;
      cells = λ side q.
          let (c, shows, tracks) = h.cells side q in
          (c, record { key = shows.key; size = shows.size }, tracks);
      greatest = h.greatest;
      levels = h.levels;
      ends = h.ends;
    }

    Taken-promote :
        (taken : List (Pending F)) (p : Pending F) (ps : List (Pending F)) (s : Sampler F)
        → Taken fl taken (waits (p ∷ ps) s)
        → Taken fl taken (waits ps (promote fl s p))
    Taken-promote taken p ps s h =
        let (label, last, position, events, prev) = promote-rest s p in
        record {
          label = label ∙ h.label;
          below = subst (λ n. AllBelow n taken) (sym position) h.below;
          waiting = subst (λ n. AllBelow n ps) (sym position) h.waiting.1;
          ordered = subst (λ k. All (NotAfter k) taken) (sym last) h.ordered;
          sorted = h.sorted.1;
        }

    pub promote_ready-Drained :
        (t : ℕ) (taken ps : List (Pending F)) (s : Sampler F)
        → Taken fl taken (waits ps s)
        → Held fl laws t taken ps s
        → Drained t taken s (promote_ready fl t ps s)
    unfolding promote_ready
    promote_ready-Drained t taken [] s k h = record {
      held = Held-waits t taken [] [] s h;
      taken_kept = k;
      none_left = refl;
      events_kept = refl;
      prev_t_kept = refl;
    }
    promote_ready-Drained t taken (p ∷ ps) s k h = elim (Bool-cases (received_by t p)) [
      | inl due ↦
          let (label, last, position, events, prev) = promote-rest s p in
          let d =
            promote_ready-Drained t taken ps (promote fl s p) (Taken-promote taken p ps s k)
              (Held-promote fl laws t taken ps s p due h) in
          rw due (record {
            held = d.held;
            taken_kept = d.taken_kept;
            none_left = d.none_left;
            events_kept = d.events_kept ∙ events;
            prev_t_kept = d.prev_t_kept ∙ prev;
          })
      | inr late ↦ rw late (record {
        held = Held-waits t taken (p ∷ ps) (p ∷ ps) s h;
        taken_kept = k;
        none_left = none_due t p (p ∷ ps) late (ground arith, k.sorted.0);
        events_kept = refl;
        prev_t_kept = refl;
      })
    ]
