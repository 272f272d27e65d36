-- ===== src/Recon/Reconstruct/Streams.antt =====
-- recon/merge.py: the two streams of a merged event list.
use jepa_btc_forecasting.Prelude.{
  ◌≡◌, refl, sym, ap, ◌∙◌, inl, inr, Bool, true, false, not, List, [], ◌∷◌, ◌++◌, map, filter,
  append-nil, arith, ltb, Bool-cases,
}
use mathlib.Core.Path.{ap₂}
use jepa_btc_forecasting.Prelude.Sort.{sort}
use jepa_btc_forecasting.Prelude.Sort.Laws.{filter-sort, sort-map}
use jepa_btc_forecasting.Prelude.Sort.Batches.{Untied, sort_streams}
use jepa_btc_forecasting.Recon.Events.{
  Delta, Trade, Event, delta, trade, order_key, event_le, event_order, merge_sorted,
}
use jepa_btc_forecasting.Recon.Reconstruct.{delta_le}

module _ {F : Type 0} where
  abbrev pub is_delta : Event F → Bool
  is_delta (delta d) = true
  is_delta (trade t) = false

  abbrev pub deltas_of : List (Event F) → List (Delta F)
  deltas_of [] = []
  deltas_of (delta d ∷ es) = d ∷ deltas_of es
  deltas_of (trade t ∷ es) = deltas_of es

  abbrev pub trades_of : List (Event F) → List (Trade F)
  trades_of [] = []
  trades_of (delta d ∷ es) = trades_of es
  trades_of (trade t ∷ es) = t ∷ trades_of es

  abbrev pub trade_le : Trade F → Trade F → Bool
  trade_le a b = event_le (trade a) (trade b)

  filter-is_delta : (es : List (Event F)) → filter is_delta es ≡ map delta (deltas_of es)
  filter-is_delta [] = refl
  filter-is_delta (delta d ∷ es) = ap (◌∷◌ (delta d)) (filter-is_delta es)
  filter-is_delta (trade t ∷ es) = filter-is_delta es

  filter-is_trade :
      (es : List (Event F)) → filter (λ e. not (is_delta e)) es ≡ map trade (trades_of es)
  filter-is_trade [] = refl
  filter-is_trade (delta d ∷ es) = filter-is_trade es
  filter-is_trade (trade t ∷ es) = ap (◌∷◌ (trade t)) (filter-is_trade es)

  deltas_of-map : (ds : List (Delta F)) → deltas_of (map delta ds) ≡ ds
  deltas_of-map [] = refl
  deltas_of-map (d ∷ ds) = ap (◌∷◌ d) (deltas_of-map ds)

  trades_of-map : (ts : List (Trade F)) → trades_of (map trade ts) ≡ ts
  trades_of-map [] = refl
  trades_of-map (t ∷ ts) = ap (◌∷◌ t) (trades_of-map ts)

  deltas_of-filter : (es : List (Event F)) → deltas_of (filter is_delta es) ≡ deltas_of es
  deltas_of-filter es = ap deltas_of (filter-is_delta es) ∙ deltas_of-map (deltas_of es)

  trades_of-filter :
      (es : List (Event F)) → trades_of (filter (λ e. not (is_delta e)) es) ≡ trades_of es
  trades_of-filter es = ap trades_of (filter-is_trade es) ∙ trades_of-map (trades_of es)

  -- The deltas of a sorted list are the sorted deltas; so for the trades.
  pub deltas_of-sort :
      (es : List (Event F)) → deltas_of (sort event_le es) ≡ sort delta_le (deltas_of es)
  deltas_of-sort es =
      sym (deltas_of-filter (sort event_le es))
      ∙ ap deltas_of (
          filter-sort event_order is_delta es
          ∙ ap (sort event_le) (filter-is_delta es)
          ∙ sort-map delta event_le (deltas_of es))
      ∙ deltas_of-map (sort delta_le (deltas_of es))

  pub trades_of-sort :
      (es : List (Event F)) → trades_of (sort event_le es) ≡ sort trade_le (trades_of es)
  trades_of-sort es =
      sym (trades_of-filter (sort event_le es))
      ∙ ap trades_of (
          filter-sort event_order (λ e. not (is_delta e)) es
          ∙ ap (sort event_le) (filter-is_trade es)
          ∙ sort-map trade event_le (trades_of es))
      ∙ trades_of-map (sort trade_le (trades_of es))

  pub deltas_of-append :
      (xs ys : List (Event F)) → deltas_of (xs ++ ys) ≡ deltas_of xs ++ deltas_of ys
  deltas_of-append [] ys = refl
  deltas_of-append (delta d ∷ xs) ys = ap (◌∷◌ d) (deltas_of-append xs ys)
  deltas_of-append (trade t ∷ xs) ys = deltas_of-append xs ys

  pub trades_of-append :
      (xs ys : List (Event F)) → trades_of (xs ++ ys) ≡ trades_of xs ++ trades_of ys
  trades_of-append [] ys = refl
  trades_of-append (delta d ∷ xs) ys = trades_of-append xs ys
  trades_of-append (trade t ∷ xs) ys = ap (◌∷◌ t) (trades_of-append xs ys)

  deltas_of-trades : (ts : List (Trade F)) → deltas_of (map trade ts) ≡ []
  deltas_of-trades [] = refl
  deltas_of-trades (t ∷ ts) = deltas_of-trades ts

  trades_of-deltas : (ds : List (Delta F)) → trades_of (map delta ds) ≡ []
  trades_of-deltas [] = refl
  trades_of-deltas (d ∷ ds) = trades_of-deltas ds

  pub deltas_of-merge_sorted :
      (ds : List (Delta F)) (ts : List (Trade F))
      → deltas_of (merge_sorted ds ts) ≡ sort delta_le ds
  unfolding merge_sorted
  deltas_of-merge_sorted ds ts =
      deltas_of-sort (map delta ds ++ map trade ts)
      ∙ ap (sort delta_le) (
          deltas_of-append (map delta ds) (map trade ts)
          ∙ ap₂ ◌++◌ (deltas_of-map ds) (deltas_of-trades ts)
          ∙ append-nil ds)

  pub trades_of-merge_sorted :
      (ds : List (Delta F)) (ts : List (Trade F))
      → trades_of (merge_sorted ds ts) ≡ sort trade_le ts
  unfolding merge_sorted
  trades_of-merge_sorted ds ts =
      trades_of-sort (map delta ds ++ map trade ts)
      ∙ ap (sort trade_le) (
          trades_of-append (map delta ds) (map trade ts)
          ∙ ap₂ ◌++◌ (trades_of-deltas ds) (trades_of-map ts))

  delta-trade-Untied :
      (a b : Event F) → is_delta a ≡ true → is_delta b ≡ false → Untied event_order a b
  unfolding event_le order_key
  delta-trade-Untied (delta d) (trade t) h k = elim (Bool-cases (ltb t.ts_engine d.ts_engine)) [
    | inl before ↦ inr (ground arith)
    | inr after ↦ inl (ground arith)
  ]
  delta-trade-Untied (delta d) (delta e) h k = absurd (cc)
  delta-trade-Untied (trade u) b h k = absurd (cc)

  -- A delta and a trade are never tied, so the merge of the two streams of an event list is its sort.
  pub merge_sorted-streams :
      (es : List (Event F)) → merge_sorted (deltas_of es) (trades_of es) ≡ sort event_le es
  unfolding merge_sorted
  merge_sorted-streams es =
      ap (sort event_le) (ap₂ ◌++◌ (sym (filter-is_delta es)) (sym (filter-is_trade es)))
      ∙ sort_streams event_order is_delta delta-trade-Untied es
