-- ===== src/Bars/Snapshot/Reads.antt =====
-- bars/snapshot.py: the rows of a run, against books rebuilt from the stream at each decision.
use jepa_btc_forecasting.Prelude.{
  ℕ, suc, ◌≡◌, refl, ap, none, List, [], ◌∷◌, map, arith, All, Result, ok, err, le→ltb-false,
}
use jepa_btc_forecasting.Prelude.Float.{Float, FloatLaws}
use jepa_btc_forecasting.Recon.Events.{Side, bid, ask}
use jepa_btc_forecasting.Recon.OrderBook.{empty_book, level}
use jepa_btc_forecasting.Recon.OrderBook.Levels.{levels_of}
use jepa_btc_forecasting.Bars.Snapshot.Records.{BookDelta, Sampler, SnapshotError}
use jepa_btc_forecasting.Bars.Snapshot.{
  advance, row, decisions, dual_book_reads, start, level_key, resume, yielded,
}
use jepa_btc_forecasting.Bars.Snapshot.Cells.{settle}
use jepa_btc_forecasting.Bars.Snapshot.Advance.{Between, Decided, advance-Between}

module _ (fl : Float) where
  open fl use {F}

  abbrev pub traced :
      Result SnapshotError (Sampler F)
      → ℕ
      → (Sampler F → List (ℕ × Sampler F))
      → List (ℕ × Sampler F)
  traced (err e) t next = []
  traced (ok s) t next = (t, s) ∷ next s

  -- The decisions that were reached, each with the state that its row is read from.
  unfoldable pub trace : List ℕ → Sampler F → List (ℕ × Sampler F)
  trace [] s = []
  trace (t ∷ ts) s = traced (advance fl t s) t (trace ts)

  rows-trace :
      (staleness_cap top_k : ℕ) (ts : List ℕ) (s : Sampler F)
      → (decisions fl staleness_cap top_k ts s).rows
        ≡ map (λ d. row fl staleness_cap top_k d.0 d.1) (trace ts s)
  unfolding decisions trace
  rows-trace staleness_cap top_k [] s = refl
  rows-trace staleness_cap top_k (t ∷ ts) s =
      elim (advance fl t s)
        as (λ a.
          (resume fl s a (λ s'.
            yielded fl (row fl staleness_cap top_k t s')
              (decisions fl staleness_cap top_k ts s'))).rows
          ≡ map (λ d. row fl staleness_cap top_k d.0 d.1) (traced a t (trace ts))) [
            | err e ↦ refl
            | ok s' ↦
                ap (◌∷◌ (row fl staleness_cap top_k t s')) (rows-trace staleness_cap top_k ts s')
          ]

  module _ (laws : FloatLaws fl) where
    trace-Decided :
        (all : List (BookDelta F)) (ts : List ℕ) (t0 : ℕ) (s : Sampler F)
        → Between fl laws all t0 s
        → All (λ d. Decided fl laws all d.0 d.1) (trace ts s)
    unfolding trace
    trace-Decided all [] t0 s b = tt
    trace-Decided all (t ∷ ts) t0 s b =
        go (advance fl t s) (λ s' e. advance-Between fl laws all t t0 s s' b e)
          (trace-Decided all ts t)
      where
        go :
            (a : Result SnapshotError (Sampler F))
            → ((s' : Sampler F) → a ≡ ok s' → Between fl laws all t s' × Decided fl laws all t s')
            → ((s' : Sampler F)
                → Between fl laws all t s'
                → All (λ d. Decided fl laws all d.0 d.1) (trace ts s'))
            → All (λ d. Decided fl laws all d.0 d.1) (traced a t (trace ts))
        go (err e) k next = tt
        go (ok s') k next = let (between, decided) = k s' refl in (decided, next s' between)

    start-Between : (events : List (BookDelta F)) → Between fl laws events 0 (start fl events)
    unfolding level_key level settle
    start-Between events = record {
      now = [];
      taken_now = record { label = refl; below = tt; waiting = tt; ordered = tt; sorted = tt };
      held_now = record {
        book = record { bids = tt; asks = tt };
        cells = λ side q. (none, record { key = refl; size = no_level side q }, λ u le. refl);
        greatest = (none, refl, λ u le. refl);
        levels = λ u side q. no_level side q;
        ends = λ u. refl;
      };
      stream = refl;
      within = tt;
      since = refl;
    }
      where
        no_level : (side : Side) (q : F) → level fl q (levels_of fl side empty_book) ≡ none
        no_level bid q = refl
        no_level ask q = refl

    -- Every row of a run, up to the error that may end it, is read from a label book that is the one
    -- rebuilt from all events up to the cut, and from an observable book each of whose levels is that
    -- of the book rebuilt from the events up to the cut that had also been received by it, applied in
    -- the order of the stream; the read's timestamp is the origin of the last of these events.
    pub dual_book_reads-rebuild :
        (events : List (BookDelta F)) (ts : List ℕ) (staleness_cap top_k : ℕ)
        → ((dual_book_reads fl events ts staleness_cap (suc top_k)).rows
            ≡ map (λ d. row fl staleness_cap (suc top_k) d.0 d.1) (trace ts (start fl events)))
          × All (λ d. Decided fl laws events d.0 d.1) (trace ts (start fl events))
    unfolding dual_book_reads
    dual_book_reads-rebuild events ts staleness_cap top_k = (
      rw (le→ltb-false (suc top_k) 1 (omega arith))
          (rows-trace staleness_cap (suc top_k) ts (start fl events)),
      trace-Decided events ts 0 (start fl events) (start-Between events),
    )
