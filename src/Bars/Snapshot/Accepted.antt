-- ===== src/Bars/Snapshot/Accepted.antt =====
-- bars/snapshot.py: the rows that are accepted, and the runs that reach their end.
use mathlib.Core.Path.{subst}
use mathlib.Core.List.{foldl}
use jepa_btc_forecasting.Prelude.{
  ℕ, suc, ◌+◌, ◌≤◌, ◌≡◌, refl, sym, inl, inr, true, false, Option, none, some, List, [], ◌∷◌, map,
  arith, ltb, Bool-cases, All, All-filter, ltb-false→le,
}
use jepa_btc_forecasting.Prelude.Float.{Float, FloatLaws}
use jepa_btc_forecasting.Recon.OrderBook.{OrderBook, best_bid, best_ask}
use jepa_btc_forecasting.Bars.Snapshot.Records.{
  BookDelta, Sampler, BookRow, Reason, reads, rejection,
}
use jepa_btc_forecasting.Bars.Snapshot.{
  top_reason, validate_book_top, label_row, fresh_row, row, dual_book_reads, start, read_ts,
}
use jepa_btc_forecasting.Bars.Snapshot.Cut.{up_to, observable, Within, up_to-Within}
use jepa_btc_forecasting.Bars.Snapshot.Advance.{Decided}
use jepa_btc_forecasting.Bars.Snapshot.Reads.{trace, dual_book_reads-rebuild}

module _ (fl : Float) where
  open fl use {F, lt, le}

  -- A row with reads: the observable book is fresh, not ahead of the decision and not crossed.
  abbrev pub IsAccepted : ℕ → BookRow F → Type 0
  IsAccepted staleness_cap (rejection r) = Unit
  IsAccepted staleness_cap (reads r) =
      (r.observable.target_read_ts ≤ r.t_event)
      × (r.t_event ≤ r.observable.target_read_ts + staleness_cap)
      × (bb : F) × (ba : F) × (r.observable.best_bid ≡ some bb)
      × (r.observable.best_ask ≡ some ba)
      × (lt bb ba ≡ true)

  top-none :
      (x y z w : Option F)
      → top_reason fl x y z w ≡ none
      → (bb : F) × (ba : F) × (x ≡ some bb) × (y ≡ some ba) × (le ba bb ≡ false)
  top-none (some bb) (some ba) (some bs) (some as') h = (bb, ba, refl, refl, ground arith)
  top-none (some bb) (some ba) none w h = cc
  top-none (some bb) (some ba) (some bs) none h = cc
  top-none none none z w h = cc
  top-none none (some ba) z w h = cc
  top-none (some bb) none z w h = cc

  validate-none :
      (b : OrderBook F)
      → validate_book_top fl b ≡ none
      → (bb : F) × (ba : F) × (best_bid fl b ≡ some bb)
        × (best_ask fl b ≡ some ba)
        × (le ba bb ≡ false)
  unfolding validate_book_top
  validate-none b h = top-none (best_bid fl b) (best_ask fl b) _ _ h

  last_origin-le :
      (t : ℕ) (es : List (BookDelta F)) (o : ℕ)
      → o ≤ t
      → Within t es
      → foldl (λ earlier e. e.origin_time) o es ≤ t
  last_origin-le t [] o h k = h
  last_origin-le t (e ∷ es) o h k = last_origin-le t es e.origin_time (ground arith) k.1

  module _ (laws : FloatLaws fl) where
    row-IsAccepted :
        (events : List (BookDelta F)) (staleness_cap top_k t : ℕ) (s : Sampler F)
        → Decided fl laws events t s
        → IsAccepted staleness_cap (row fl staleness_cap top_k t s)
    unfolding row
    row-IsAccepted events staleness_cap top_k t s d = at (validate_book_top fl s.obs_book) refl
      where
        ahead : read_ts fl s.obs_last_key ≤ t
        ahead =
            subst (λ n. n ≤ t) (sym d.last_read)
              (last_origin-le t (observable t events) 0 (omega arith)
                (All-filter _ _ (up_to t events) (up_to-Within t events)))

        labelled :
            (v : Option Reason)
            → validate_book_top fl s.obs_book ≡ none
            → ltb (read_ts fl s.obs_last_key + staleness_cap) t ≡ false
            → IsAccepted staleness_cap (label_row fl top_k t v s)
        labelled (some r) e f = tt
        labelled none e f =
            let (bb, ba, x, y, apart) = validate-none s.obs_book e in
            (ahead, ltb-false→le _ _ f, bb, ba, x, y, ground (arith, laws.le-eq-not_lt ba bb))

        at :
            (v : Option Reason)
            → validate_book_top fl s.obs_book ≡ v
            → IsAccepted staleness_cap (fresh_row fl staleness_cap top_k t v s)
        at (some r) e = tt
        at none e = elim (Bool-cases (ltb (read_ts fl s.obs_last_key + staleness_cap) t)) [
          | inl f ↦ rw f tt
          | inr f ↦ rw f (labelled (validate_book_top fl s.label_book) e f)
        ]

    -- Every row with reads, in any run, is fresh: its timestamp is neither after the decision nor older
    -- than the staleness cap, and its best bid lies below its best ask.
    pub dual_book_reads-IsAccepted :
        (events : List (BookDelta F)) (ts : List ℕ) (staleness_cap top_k : ℕ)
        → All
            (IsAccepted staleness_cap)
            (dual_book_reads fl events ts staleness_cap (suc top_k)).rows
    dual_book_reads-IsAccepted events ts staleness_cap top_k =
        let (rows, decided) = dual_book_reads-rebuild fl laws events ts staleness_cap top_k in
        subst (All (IsAccepted staleness_cap)) (sym rows)
          (All_rows (trace fl ts (start fl events)) decided)
      where
        All_rows :
            (ds : List (ℕ × Sampler F))
            → All (λ d. Decided fl laws events d.0 d.1) ds
            → All
                (IsAccepted staleness_cap)
                (map (λ d. row fl staleness_cap (suc top_k) d.0 d.1) ds)
        All_rows [] h = tt
        All_rows (d ∷ ds) h =
            (row-IsAccepted events staleness_cap (suc top_k) d.0 d.1 h.0, All_rows ds h.1)
