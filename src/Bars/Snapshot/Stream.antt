-- ===== src/Bars/Snapshot/Stream.antt =====
-- bars/snapshot.py: the two inner loops of the sampler, with the list of the events taken so far.
use mathlib.Core.Path.{subst}
use mathlib.Core.List.{foldl, foldl-append, map-append}
use jepa_btc_forecasting.Prelude.{
  ℕ, ◌≤◌, ◌≡◌, refl, sym, ap, ◌∙◌, inl, inr, Bool, true, false, Option, none, some, List, [], ◌∷◌,
  ◌++◌, map, arith, leb, if◌then◌else◌, Bool-cases, filter, filter-append, All,
}
use jepa_btc_forecasting.Prelude.Float.{Float, FloatLaws}
use jepa_btc_forecasting.Prelude.Order.{Preorder}
use jepa_btc_forecasting.Prelude.Sort.{insert}
use jepa_btc_forecasting.Prelude.Sort.Laws.{IsSorted}
use jepa_btc_forecasting.Recon.Events.{Side}
use jepa_btc_forecasting.Recon.OrderBook.{OrderBook, empty_book, apply, level}
use jepa_btc_forecasting.Recon.OrderBook.Levels.{IsBook, levels_of, apply-reseed-IsBook}
use jepa_btc_forecasting.Bars.Snapshot.Records.{
  BookDelta, Pending, Sampler, to_delta, fold_key, key_lt, book_order_key, pending_le,
}
use jepa_btc_forecasting.Bars.Snapshot.{newer, promote, max_key}
use jepa_btc_forecasting.Bars.Snapshot.Cells.{
  cell, key_of, settle, settle-append, settle-insert, settle-Holds, Holds, AllBelow,
}
use jepa_btc_forecasting.Bars.Snapshot.Observable.{
  at_level, left_by, level-event, Shows, promote-IsBook, promote-Shows,
}

pub pending_total : {F : Type 0} (a b : Pending F) → pending_le a b ≡ false → pending_le b a ≡ true
pending_total a b h = ground arith

pub pending_trans :
    {F : Type 0} (a b c : Pending F)
    → pending_le a b ≡ true
    → pending_le b c ≡ true
    → pending_le a c ≡ true
pending_trans a b c h k = ground arith

abbrev pub pending_order : (F : Type 0) → Preorder (Pending F)
pending_order F = record { le = pending_le; total = pending_total; trans = pending_trans }

-- The events that had been received by a time.
abbrev pub received_by : {F : Type 0} → ℕ → Pending F → Bool
received_by t p = leb p.event.received_time t

-- The key of the last event is at least that of the event.
abbrev pub NotAfter : {F : Type 0} → Option (ℕ × ℕ) → Pending F → Type 0
NotAfter none p = ⊥
NotAfter (some last) p = key_lt last (book_order_key p.event) ≡ false

module _ (fl : Float) where
  open fl use {F}

  -- The book after a list of events, from nothing.
  abbrev pub rebuild : List (BookDelta F) → OrderBook F
  rebuild = foldl (λ b e. (apply fl b (to_delta e)).1) empty_book

  -- The events that were taken and had been received by a time.
  abbrev pub seen : ℕ → List (Pending F) → List (Pending F)
  seen t = filter (received_by t)

  abbrev pub events_of : List (Pending F) → List (BookDelta F)
  events_of = map (λ p. p.event)

  -- What the first loop keeps of the events that it has taken.
  pub record Taken (taken : List (Pending F)) (s : Sampler F) : Type 0 where
    pub label : s.label_book ≡ rebuild (events_of taken)
    pub below : AllBelow s.position taken
    pub waiting : AllBelow s.position s.pending
    pub ordered : All (NotAfter s.last_event_key) taken
    pub sorted : IsSorted pending_le s.pending

  -- The event held by a cell, once those that wait and are due are folded in, is the one left by all
  -- events taken that are due; whatever the time from `t` on.
  abbrev pub Tracks :
      (Pending F → Bool) → ℕ → Option (Pending F) → List (Pending F) → List (Pending F) → Type 0
  Tracks m t c waiting taken =
      (u : ℕ) → t ≤ u → settle m c (seen u waiting) ≡ settle m none (seen u taken)

  pub Tracks-take :
      (m : Pending F → Bool) (t : ℕ) (c : Option (Pending F)) (p : Pending F)
      (waiting taken : List (Pending F))
      → AllBelow p.position waiting
      → Tracks m t c waiting taken
      → Tracks m t c (insert pending_le p waiting) (taken ++ p ∷ [])
  Tracks-take m t c p waiting taken h k u le =
      settle-insert m (received_by u) c p waiting h
      ∙ ap (settle m c) (filter-append (received_by u) waiting (p ∷ []))
      ∙ settle-append m c (seen u waiting) (seen u (p ∷ []))
      ∙ ap (λ d. settle m d (seen u (p ∷ []))) (k u le)
      ∙ sym (settle-append m none (seen u taken) (seen u (p ∷ [])))
      ∙ ap (settle m none) (sym (filter-append (received_by u) taken (p ∷ [])))

  Tracks-promote :
      (m : Pending F → Bool) (t : ℕ) (c : Option (Pending F)) (p : Pending F)
      (waiting taken : List (Pending F))
      → received_by t p ≡ true
      → Tracks m t c (p ∷ waiting) taken
      → Tracks m t (cell m c p) waiting taken
  unfolding settle
  Tracks-promote m t c p waiting taken h k u le =
      let due : received_by u p ≡ true = ground arith in
      subst
        (λ (b : Bool).
          settle m c (if b then p ∷ seen u waiting else seen u waiting)
          ≡ settle m none (seen u taken))
        due (k u le)

  module _ (laws : FloatLaws fl) where
    pub rebuild-IsBook :
        (es : List (BookDelta F)) (b : OrderBook F)
        → IsBook fl b
        → IsBook fl (foldl (λ b e. (apply fl b (to_delta e)).1) b es)
    rebuild-IsBook [] b h = h
    rebuild-IsBook (e ∷ es) b h =
        rebuild-IsBook es (apply fl b (to_delta e)).1
          (apply-reseed-IsBook fl laws b (to_delta e) [] [] h).0

    newest :
        (c : Option (Pending F)) (p : Pending F)
        → Holds (λ z. newer (some (fold_key z)) (fold_key p) ≡ true) c
        → newer (key_of c) (fold_key p) ≡ true
    newest none p h = refl
    newest (some z) p h = h

    pub rebuild-snoc :
        (xs : List (Pending F)) (p : Pending F)
        → rebuild (events_of (xs ++ p ∷ []))
          ≡ (apply fl (rebuild (events_of xs)) (to_delta p.event)).1
    rebuild-snoc xs p = rw (map-append (λ p. p.event) xs (p ∷ [])) (rw foldl-append refl)

    -- The levels of the rebuilt book are those that the events of greatest key leave.
    abbrev pub Rebuilds : List (Pending F) → Type 0
    Rebuilds xs =
        (side : Side) (q : F)
        → level fl q (levels_of fl side (rebuild (events_of xs)))
          ≡ left_by fl laws (settle (at_level fl side q) none xs)

    pub Rebuilds-snoc :
        (xs : List (Pending F)) (p : Pending F)
        → All (λ z. newer (some (fold_key z)) (fold_key p) ≡ true) xs
        → Rebuilds xs
        → Rebuilds (xs ++ p ∷ [])
    unfolding settle
    Rebuilds-snoc xs p h k side q =
        let m = at_level fl side q in
        let old = settle m none xs in
        let last : newer (key_of old) (fold_key p) ≡ true =
          newest old p
            (settle-Holds m (λ z. newer (some (fold_key z)) (fold_key p) ≡ true) none xs h tt) in
        ap (λ b. level fl q (levels_of fl side b)) (rebuild-snoc xs p)
        ∙ level-event fl laws (rebuild (events_of xs)) p side q
            (rebuild-IsBook (events_of xs) empty_book (record { bids = tt; asks = tt }))
        ∙ elim (Bool-cases (m p)) [
          | inl e ↦ rw (settle-append m none xs (p ∷ []), e, last) refl
          | inr e ↦ rw (settle-append m none xs (p ∷ []), e) (k side q)
        ]

    -- The last event of a list.
    abbrev pub last_of : List (Pending F) → Option (Pending F)
    last_of = foldl (λ earlier p. some p) none

    last_of-snoc : (xs : List (Pending F)) (p : Pending F) → last_of (xs ++ p ∷ []) ≡ some p
    last_of-snoc xs p = rw foldl-append refl

    abbrev pub Ends : List (Pending F) → Type 0
    Ends xs = settle (λ p. true) none xs ≡ last_of xs

    pub Ends-snoc :
        (xs : List (Pending F)) (p : Pending F)
        → All (λ z. newer (some (fold_key z)) (fold_key p) ≡ true) xs
        → Ends (xs ++ p ∷ [])
    unfolding settle
    Ends-snoc xs p h =
        let old = settle (λ p. true) none xs in
        let last : newer (key_of old) (fold_key p) ≡ true = newest old p (
          settle-Holds (λ p. true) (λ z. newer (some (fold_key z)) (fold_key p) ≡ true) none xs h
            tt) in
        settle-append (λ p. true) none xs (p ∷ []) ∙ rw last (sym (last_of-snoc xs p))

    -- What the second loop keeps: the observable book and the keys, against the events taken.
    pub record Held (t : ℕ) (taken waiting : List (Pending F)) (s : Sampler F) : Type 0 where
      pub book : IsBook fl s.obs_book
      pub cells :
          (side : Side) (q : F)
          → (c : Option (Pending F)) × Shows fl laws side q s c
            × Tracks (at_level fl side q) t c waiting taken
      pub greatest :
          (c : Option (Pending F)) × (s.obs_last_key ≡ key_of c)
          × Tracks (λ p. true) t c waiting taken
      pub levels : (u : ℕ) → Rebuilds (seen u taken)
      pub ends : (u : ℕ) → Ends (seen u taken)

    pub Held-later :
        (t t' : ℕ) (taken waiting : List (Pending F)) (s : Sampler F)
        → t ≤ t'
        → Held t taken waiting s
        → Held t' taken waiting s
    Held-later t t' taken waiting s le h = record {
      book = h.book;
      cells = λ side q.
          let (c, shows, tracks) = h.cells side q in (c, shows, λ u later. tracks u (omega arith));
      greatest = let (c, key, tracks) = h.greatest in (c, key, λ u later. tracks u (omega arith));
      levels = h.levels;
      ends = h.ends;
    }

    max_key-cell :
        (c : Option (Pending F)) (p : Pending F)
        → max_key (key_of c) (fold_key p) ≡ key_of (cell (λ p. true) c p)
    max_key-cell c p = elim (Bool-cases (newer (key_of c) (fold_key p))) [
      | inl e ↦ rw e refl
      | inr e ↦ rw e refl
    ]

    promote-last :
        (s : Sampler F) (p : Pending F)
        → (promote fl s p).obs_last_key ≡ max_key s.obs_last_key (fold_key p)
    unfolding promote
    promote-last s p = ground arith

    pub Held-promote :
        (t : ℕ) (taken waiting : List (Pending F)) (s : Sampler F) (p : Pending F)
        → received_by t p ≡ true
        → Held t taken (p ∷ waiting) s
        → Held t taken waiting (promote fl s p)
    Held-promote t taken waiting s p due h = record {
      book = promote-IsBook fl laws s p h.book;
      cells = λ side q.
          let (c, shows, tracks) = h.cells side q in
          (
            cell (at_level fl side q) c p,
            promote-Shows fl laws s p side q c h.book shows,
            Tracks-promote (at_level fl side q) t c p waiting taken due tracks,
          );
      greatest =
          let (c, key, tracks) = h.greatest in
          (
            cell (λ p. true) c p,
            promote-last s p ∙ ap (λ k. max_key k (fold_key p)) key ∙ max_key-cell c p,
            Tracks-promote (λ p. true) t c p waiting taken due tracks,
          );
      levels = h.levels;
      ends = h.ends;
    }
