-- ===== src/Bars/Snapshot.antt =====
-- bars/snapshot.py: the two target books of a bar decision. Times, sequence numbers and the staleness
-- cap are natural numbers, so that the refusal of a negative cap has no counterpart. The detail text
-- of a rejection is left out. A run is the rows that the generator yields, its state after the last of
-- them, and the error that ends it, if there is one.
pub mod Records
pub mod Cells
pub mod Observable
pub mod Stream
pub mod Loops
pub mod Cut
pub mod Advance
pub mod Reads
pub mod Reference
pub mod Accepted
pub mod Total
use Prim.Native.String.{String}
use text.Mathlib.Text.{◌==◌ as str_eq}
use mathlib.Core.List.{foldl}
use jepa_btc_forecasting.Prelude.{
  ℕ, ◌+◌, ◌-◌, Bool, true, false, ◌&&◌, ◌||◌, Option, none, some, List, [], ◌∷◌, map, ltb, leb,
  ◌==◌, if◌then◌else◌, Result, ok, err, ◌>>=◌, ◌>>◌, refuse, require, all,
}
use jepa_btc_forecasting.Prelude.Float.{Float}
use jepa_btc_forecasting.Prelude.Sort.{insert}
use jepa_btc_forecasting.Recon.Events.{Side, bid, ask, Delta}
use jepa_btc_forecasting.Recon.OrderBook.{
  OrderBook, empty_book, apply, level, size_at, best_bid, best_ask, mid, microprice, nlargest,
  nsmallest,
}
use jepa_btc_forecasting.Bars.Snapshot.Records.{
  BarBookReads, BookDelta, BookRow, FoldKey, LabelBookRead, LevelKey, ObservableBookRead, Pending,
  Reason, Role, Sampler, SnapshotError, SnapshotRejection, bad_price, bad_side, bad_size, bad_top_k,
  book_order_key, crossed_book, fold_key, fold_key_lt, invalid_book, key_lt, label_role,
  missing_book, observable_role, one_sided_book, out_of_order, pending_le, reads,
  receipt_before_origin, rejection, side_of, stale_book, t_event_not_increasing, to_delta,
}

-- `key < last_event_key`, if there is one.
abbrev pub before_last : Option (ℕ × ℕ) → ℕ × ℕ → Bool
before_last none key = false
before_last (some last) key = key_lt key last

-- `prev_t is not None and t_event <= prev_t`
abbrev pub not_after : Option ℕ → ℕ → Bool
not_after none t = false
not_after (some prev) t = leb t prev

-- Whether a key is new: an unset one stands for a key below all others.
abbrev pub newer : Option FoldKey → FoldKey → Bool
newer none key = true
newer (some k) key = fold_key_lt k key

abbrev pub max_key : Option FoldKey → FoldKey → Option FoldKey
max_key last key = if newer last key then some key else last

abbrev pub side_eq : Side → Side → Bool
side_eq bid bid = true
side_eq ask ask = true
side_eq _ _ = false

module _ (fl : Float) where
  open fl use {F, of_ℕ, eq, lt, le, is_finite}

  abbrev pub usable : F → Bool
  usable v = is_finite v && lt (of_ℕ 0) v

  -- The checks of `validate_book_top` on both best levels.
  abbrev pub top_reason : Option F → Option F → Option F → Option F → Option Reason
  top_reason (some bb) (some ba) (some bs) (some as') =
      if all usable (bb ∷ ba ∷ bs ∷ as' ∷ [])
      then (if le ba bb then some crossed_book else none)
      else some invalid_book
  top_reason none none bs as' = some missing_book
  top_reason bb ba bs as' = some one_sided_book

  unfoldable pub validate_book_top : OrderBook F → Option Reason
  validate_book_top b =
      top_reason (best_bid fl b) (best_ask fl b) (size_at fl (best_bid fl b) b.bids)
        (size_at fl (best_ask fl b) b.asks)

  unfoldable pub validate_event : BookDelta F → Result SnapshotError (Unit {0})
  validate_event e = do
    require (str_eq e.side "bid" || str_eq e.side "ask") bad_side
    require (usable e.price) bad_price
    require (is_finite e.size && le (of_ℕ 0) e.size) bad_size
    refuse (ltb e.received_time e.origin_time) receipt_before_origin
    ok tt

  unfoldable pub level_key : Side → F → List (LevelKey F) → Option FoldKey
  level_key s p [] = none
  level_key s p (k ∷ ks) =
      let rest = level_key s p ks in if side_eq k.side s && eq k.price p then some k.key else rest

  unfoldable pub put_key : Side → F → FoldKey → List (LevelKey F) → List (LevelKey F)
  put_key s p key [] = record { side = s; price = p; key = key } ∷ []
  put_key s p key (k ∷ ks) =
      let rest = put_key s p key ks in
      if side_eq k.side s && eq k.price p then record k { key = key } ∷ ks else k ∷ rest

  -- The body of the first inner loop: one event is checked, folded into the label book and queued.
  unfoldable pub take_event : BookDelta F → Sampler F → Result SnapshotError (Sampler F)
  unfolding validate_event
  take_event e s = do
    validate_event e
    refuse (before_last s.last_event_key (book_order_key e)) out_of_order
    ok (record s {
      last_event_key = some (book_order_key e);
      label_book = (apply fl s.label_book (to_delta e)).1;
      pending = insert pending_le (record { position = s.position; event = e }) s.pending;
      position = s.position + 1;
    })

  -- The first inner loop, over the events that are left.
  unfoldable pub consume : ℕ → List (BookDelta F) → Sampler F → Result SnapshotError (Sampler F)
  unfolding take_event
  consume t [] s = ok (record s { events = [] })
  consume t (e ∷ es) s =
      let rest = (take_event e s >>= consume t es) in
      if leb e.origin_time t then rest else ok (record s { events = e ∷ es })

  -- The body of the second inner loop, for one event that became observable.
  unfoldable pub promote : Sampler F → Pending F → Sampler F
  unfolding level_key put_key
  promote s p =
      let e = p.event in
      let s' = record s { obs_last_key = max_key s.obs_last_key (fold_key p) } in
      if newer (level_key (side_of e) e.price s.level_keys) (fold_key p)
      then record s' {
        level_keys = put_key (side_of e) e.price (fold_key p) s.level_keys;
        obs_book = (apply fl s.obs_book (to_delta e)).1;
      }
      else s'

  -- The second inner loop, over the heap in its order.
  unfoldable pub promote_ready : ℕ → List (Pending F) → Sampler F → Sampler F
  unfolding promote
  promote_ready t [] s = record s { pending = [] }
  promote_ready t (p ∷ ps) s =
      let rest = promote_ready t ps (promote s p) in
      if leb p.event.received_time t then rest else record s { pending = p ∷ ps }

  -- The part of the outer loop's body that comes before the reads.
  unfoldable pub advance : ℕ → Sampler F → Result SnapshotError (Sampler F)
  unfolding consume promote_ready
  advance t s = do
    refuse (not_after s.prev_t t) t_event_not_increasing
    s' ← consume t s.events (record s { prev_t = some t })
    ok (promote_ready t s'.pending s')

  -- `obs_last_key[0]`
  abbrev pub read_ts : Option FoldKey → ℕ
  read_ts none = 0
  read_ts (some k) = k.0

  unfoldable pub observable_read : ℕ → ℕ → OrderBook F → ObservableBookRead F
  observable_read top_k ts b =
      let bid_px = nlargest fl top_k b.bids in
      let ask_px = nsmallest fl top_k b.asks in
      record {
        target_read_ts = ts;
        mid = mid fl b;
        microprice = microprice fl b;
        best_bid = best_bid fl b;
        best_ask = best_ask fl b;
        best_bid_size = size_at fl (best_bid fl b) b.bids;
        best_ask_size = size_at fl (best_ask fl b) b.asks;
        bid_prices = bid_px;
        bid_sizes = map (λ p. level fl p b.bids) bid_px;
        ask_prices = ask_px;
        ask_sizes = map (λ p. level fl p b.asks) ask_px;
      }

  abbrev pub rejected : ℕ → Role → Reason → BookRow F
  rejected t role reason = rejection (record { t_event = t; role = role; reason = reason })

  -- The last `yield`, after the check of the label book.
  abbrev pub label_row : ℕ → ℕ → Option Reason → Sampler F → BookRow F
  label_row top_k t (some reason) s = rejected t label_role reason
  label_row top_k t none s = reads (record {
    t_event = t;
    observable = observable_read top_k (read_ts s.obs_last_key) s.obs_book;
    label = record {
      label_cut_ts = t;
      mid = mid fl s.label_book;
      microprice = microprice fl s.label_book;
    };
  })

  -- The staleness check, after that of the observable book.
  abbrev pub fresh_row : ℕ → ℕ → ℕ → Option Reason → Sampler F → BookRow F
  fresh_row staleness_cap top_k t (some reason) s = rejected t observable_role reason
  fresh_row staleness_cap top_k t none s =
      if ltb (read_ts s.obs_last_key + staleness_cap) t
      then rejected t observable_role stale_book
      else label_row top_k t (validate_book_top s.label_book) s

  -- The row of a decision, from the books that the step before has brought forward.
  unfoldable pub row : ℕ → ℕ → ℕ → Sampler F → BookRow F
  unfolding validate_book_top observable_read
  row staleness_cap top_k t s = fresh_row staleness_cap top_k t (validate_book_top s.obs_book) s

  pub record Run : Type 0 where
    pub rows : List (BookRow F)
    pub sampler : Sampler F
    pub raised : Option SnapshotError

  abbrev pub yielded : BookRow F → Run → Run
  yielded r run = record run { rows = r ∷ run.rows }

  abbrev pub resume : Sampler F → Result SnapshotError (Sampler F) → (Sampler F → Run) → Run
  resume s (err e) next = record { rows = []; sampler = s; raised = some e }
  resume s (ok s') next = next s'

  -- The outer loop.
  unfoldable pub decisions : ℕ → ℕ → List ℕ → Sampler F → Run
  unfolding advance row
  decisions staleness_cap top_k [] s = record { rows = []; sampler = s; raised = none }
  decisions staleness_cap top_k (t ∷ ts) s =
      resume s (advance t s)
        (λ s'. yielded (row staleness_cap top_k t s') (decisions staleness_cap top_k ts s'))

  abbrev pub start : List (BookDelta F) → Sampler F
  start events = record {
    events = events;
    label_book = empty_book;
    obs_book = empty_book;
    level_keys = [];
    pending = [];
    last_event_key = none;
    position = 0;
    obs_last_key = none;
    prev_t = none;
  }

  -- `dual_book_reads(events, t_events, staleness_cap_ns=..., top_k=...)`
  unfoldable pub dual_book_reads : List (BookDelta F) → List ℕ → ℕ → ℕ → Run
  unfolding decisions
  dual_book_reads events t_events staleness_cap top_k =
      if ltb top_k 1
      then record { rows = []; sampler = start events; raised = some bad_top_k }
      else decisions staleness_cap top_k t_events (start events)
