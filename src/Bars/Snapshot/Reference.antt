-- ===== src/Bars/Snapshot/Reference.antt =====
-- bars/snapshot.py: the rows of a run, against rows read from books rebuilt from scratch.
use mathlib.Core.Path.{ap₂}
use jepa_btc_forecasting.Prelude.{
  ℕ, suc, ◌+◌, ◌≡◌, refl, ap, ◌∙◌, Option, none, some, List, [], ◌∷◌, ◌++◌, map, arith,
  if◌then◌else◌, ltb, All, Result, ok, err, le→ltb-false,
}
use jepa_btc_forecasting.Prelude.Float.{Float, FloatLaws}
use jepa_btc_forecasting.Recon.Events.{bid, ask}
use jepa_btc_forecasting.Recon.OrderBook.{
  OrderBook, empty_book, level, size_at, best_bid, best_ask, nlargest, nsmallest, mid, microprice,
}
use jepa_btc_forecasting.Recon.OrderBook.Same.{
  SameBook, nlargest_same, nsmallest_same, best_bid_same, best_ask_same, size_at_bid, size_at_ask,
  mid_same, microprice_same,
}
use jepa_btc_forecasting.Bars.Snapshot.Records.{
  BookDelta, Sampler, SnapshotError, BookRow, Reason, reads, observable_role, stale_book,
  ObservableBookRead, BarBookReads,
}
use jepa_btc_forecasting.Bars.Snapshot.{
  Run, row, start, validate_book_top, top_reason, observable_read, fresh_row, label_row, read_ts,
  rejected, decisions, dual_book_reads, advance, resume, yielded,
}
use jepa_btc_forecasting.Bars.Snapshot.Stream.{rebuild, rebuild-IsBook}
use jepa_btc_forecasting.Bars.Snapshot.Cut.{up_to, observable, last_origin}
use jepa_btc_forecasting.Bars.Snapshot.Advance.{Decided}
use jepa_btc_forecasting.Bars.Snapshot.Reads.{trace, traced, dual_book_reads-rebuild}

module _ (fl : Float) (laws : FloatLaws fl) where
  open fl use {F}

  validate_same :
      (a b : OrderBook F) → SameBook fl laws a b → validate_book_top fl a ≡ validate_book_top fl b
  unfolding validate_book_top
  validate_same a b h =
      let bb = best_bid_same fl laws a b h in
      let ba = best_ask_same fl laws a b h in
      let bs = size_at_bid fl laws a b h in
      let as' = size_at_ask fl laws a b h in
      ap
        (λ x.
          top_reason fl x (best_ask fl a) (size_at fl x a.bids) (size_at fl (best_ask fl a) a.asks))
        bb
      ∙ ap
          (λ x.
            top_reason fl (best_bid fl b) x (size_at fl (best_bid fl b) a.bids)
              (size_at fl x a.asks))
          ba
      ∙ ap
          (λ x. top_reason fl (best_bid fl b) (best_ask fl b) x (size_at fl (best_ask fl b) a.asks))
          (bs (best_bid fl b))
      ∙ ap
          (λ x. top_reason fl (best_bid fl b) (best_ask fl b) (size_at fl (best_bid fl b) b.bids) x)
          (as' (best_ask fl b))

  map_same : (f g : F → Option F) (ps : List F) → ((p : F) → f p ≡ g p) → map f ps ≡ map g ps
  map_same f g [] h = refl
  map_same f g (p ∷ ps) h = ground (arith, h p, map_same f g ps h)

  observable_read_same :
      (k ts : ℕ) (a b : OrderBook F)
      → SameBook fl laws a b
      → observable_read fl k ts a ≡ observable_read fl k ts b
  unfolding observable_read
  observable_read_same k ts a b h =
      let bids =
        nlargest_same fl laws a.bids b.bids h.first_IsBook.bids h.second_IsBook.bids (h.levels bid)
          k in
      let asks =
        nsmallest_same fl laws a.asks b.asks h.first_IsBook.asks h.second_IsBook.asks (h.levels ask)
          k in
      rw
        (
          mid_same fl laws a b h,
          microprice_same fl laws a b h,
          best_bid_same fl laws a b h,
          best_ask_same fl laws a b h,
          size_at_bid fl laws a b h (best_bid fl b),
          size_at_ask fl laws a b h (best_ask fl b),
          bids,
          asks,
        )
        (rw
          (
            map_same (λ p. level fl p a.bids) (λ p. level fl p b.bids) (nlargest fl k b.bids)
                (λ p. h.levels bid p),
            map_same (λ p. level fl p a.asks) (λ p. level fl p b.asks) (nsmallest fl k b.asks)
                (λ p. h.levels ask p),
          )
          refl)

  -- The state at a decision, with books that are rebuilt from the stream.
  abbrev pub rebuilt : List (BookDelta F) → ℕ → Sampler F
  rebuilt events t = record (start fl events) {
    obs_book = rebuild fl (observable t events);
    label_book = rebuild fl (up_to t events);
    obs_last_key = some (last_origin (observable t events), 0, 0);
  }

  abbrev pub reference_row : ℕ → ℕ → List (BookDelta F) → ℕ → BookRow F
  reference_row staleness_cap top_k events t = row fl staleness_cap top_k t (rebuilt events t)

  module _ (events : List (BookDelta F)) (staleness_cap top_k t : ℕ) (s : Sampler F)
      (d : Decided fl laws events t s) where
    same_book : SameBook fl laws s.obs_book (rebuild fl (observable t events))
    same_book = record {
      first_IsBook = d.book;
      second_IsBook =
          rebuild-IsBook fl laws (observable t events) empty_book (record { bids = tt; asks = tt });
      levels = d.observable_level;
    }

    label_row_same :
        (v : Option Reason) → label_row fl top_k t v s ≡ label_row fl top_k t v (rebuilt events t)
    label_row_same (some r) = refl
    label_row_same none =
        ap
          (λ b.
            reads (with_label (observable_read fl top_k (read_ts fl s.obs_last_key) s.obs_book) b))
          d.label_book
        ∙ ap
            (λ ts.
              reads
                (with_label (observable_read fl top_k ts s.obs_book) (rebuild fl (up_to t events))))
            d.last_read
        ∙ ap (λ o. reads (with_label o (rebuild fl (up_to t events))))
            (observable_read_same top_k (last_origin (observable t events)) s.obs_book
              (rebuild fl (observable t events)) same_book)
      where
        with_label : ObservableBookRead F → OrderBook F → BarBookReads F
        with_label o b = record {
          t_event = t;
          observable = o;
          label = record { label_cut_ts = t; mid = mid fl b; microprice = microprice fl b };
        }

    fresh_row_same :
        (v : Option Reason)
        → fresh_row fl staleness_cap top_k t v s
          ≡ fresh_row fl staleness_cap top_k t v (rebuilt events t)
    fresh_row_same (some r) = refl
    fresh_row_same none =
        let stale = rejected fl t observable_role stale_book in
        ap
          (λ ts.
            if ltb (ts + staleness_cap) t
            then stale
            else label_row fl top_k t (validate_book_top fl s.label_book) s)
          d.last_read
        ∙ ap
            (λ b.
              if ltb (last_origin (observable t events) + staleness_cap) t
              then stale
              else label_row fl top_k t (validate_book_top fl b) s)
            d.label_book
        ∙ ap (λ r. if ltb (last_origin (observable t events) + staleness_cap) t then stale else r)
            (label_row_same (validate_book_top fl (rebuild fl (up_to t events))))

    row_same : row fl staleness_cap top_k t s ≡ reference_row staleness_cap top_k events t
    unfolding row
    row_same =
        fresh_row_same (validate_book_top fl s.obs_book)
        ∙ ap (λ v. fresh_row fl staleness_cap top_k t v (rebuilt events t))
            (validate_same s.obs_book (rebuild fl (observable t events)) same_book)

  -- The rows of a run are the reference rows of the decisions before the one, if any, at which it
  -- raises.
  pub record IsRebuilt (staleness_cap top_k : ℕ) (events : List (BookDelta F)) (ts : List ℕ)
      (run : Run fl) : Type 0 where
    pub finished : List ℕ
    pub left : List ℕ
    pub joined : finished ++ left ≡ ts
    pub rows : run.rows ≡ map (reference_row staleness_cap top_k events) finished
    pub complete : run.raised ≡ none → left ≡ []

  decisions-IsRebuilt :
      (staleness_cap top_k : ℕ) (events : List (BookDelta F)) (ts : List ℕ) (s : Sampler F)
      → All (λ d. Decided fl laws events d.0 d.1) (trace fl ts s)
      → IsRebuilt staleness_cap top_k events ts (decisions fl staleness_cap top_k ts s)
  unfolding decisions trace
  decisions-IsRebuilt staleness_cap top_k events [] s h = record {
    finished = [];
    left = [];
    joined = refl;
    rows = refl;
    complete = λ e. refl;
  }
  decisions-IsRebuilt staleness_cap top_k events (t ∷ ts) s h =
      at (advance fl t s) h (decisions-IsRebuilt staleness_cap top_k events ts)
    where
      at :
          (a : Result SnapshotError (Sampler F))
          → All (λ d. Decided fl laws events d.0 d.1) (traced fl a t (trace fl ts))
          → ((s' : Sampler F)
              → All (λ d. Decided fl laws events d.0 d.1) (trace fl ts s')
              → IsRebuilt staleness_cap top_k events ts (decisions fl staleness_cap top_k ts s'))
          → IsRebuilt staleness_cap top_k events (t ∷ ts) (
              resume fl s a (λ s'.
                yielded fl
                  (row fl staleness_cap top_k t s')
                  (decisions fl staleness_cap top_k ts s')))
      at (err e) k more = record {
        finished = [];
        left = t ∷ ts;
        joined = refl;
        rows = refl;
        complete = λ x. cc;
      }
      at (ok s') k more =
          let rest = more s' k.1 in
          record {
            finished = t ∷ rest.finished;
            left = rest.left;
            joined = ap (◌∷◌ t) rest.joined;
            rows = ap₂ ◌∷◌ (row_same events staleness_cap top_k t s' k.0) rest.rows;
            complete = rest.complete;
          }

  -- The rows that a run yields, up to the decision at which it may raise, are those that each decision
  -- has from two books rebuilt from scratch: the label book from all events up to the first one whose
  -- origin is after the decision, the observable book and its timestamp from those of them that had
  -- been received by it, both in the order of the stream. A run that does not raise has them all.
  pub dual_book_reads-IsRebuilt :
      (events : List (BookDelta F)) (ts : List ℕ) (staleness_cap top_k : ℕ)
      → IsRebuilt staleness_cap
          (suc top_k)
          events
          ts
          (dual_book_reads fl events ts staleness_cap (suc top_k))
  unfolding dual_book_reads
  dual_book_reads-IsRebuilt events ts staleness_cap top_k =
      let (rows, decided) = dual_book_reads-rebuild fl laws events ts staleness_cap top_k in
      rw (le→ltb-false (suc top_k) 1 (omega arith))
        (decisions-IsRebuilt staleness_cap (suc top_k) events ts (start fl events) decided)
