-- ===== src/Recon/OrderBook/Best.antt =====
-- recon/orderbook.py: the best prices, by one scan and by the sorted top of the book.
use mathlib.Core.Path.{subst, ap₂}
use jepa_btc_forecasting.Prelude.{
  ℕ, suc, ◌≡◌, refl, sym, ap, ◌∙◌, inl, inr, Bool, true, false, not, ◌||◌, some, List, [], ◌∷◌,
  arith, if◌then◌else◌, Bool-cases, All, All-map, any,
}
use jepa_btc_forecasting.Prelude.Float.{Float, FloatLaws}
use jepa_btc_forecasting.Prelude.Order.{Preorder}
use jepa_btc_forecasting.Prelude.Sort.{sort}
use jepa_btc_forecasting.Prelude.Sort.Laws.{IsSorted, sort-IsSorted, All-of_sort, any-sort}
use jepa_btc_forecasting.Recon.OrderBook.{
  OrderBook, Levels, prices, max_from, min_from, best, best_bid, best_ask, half_sum, mid,
  microprice_of, microprice, first, take, nlargest, nsmallest, snapshot,
}

module _ (fl : Float) where
  open fl use {F, eq, lt, le}

  module _ (laws : FloatLaws fl) (worse : F → F → Bool)
      (asymm : (a b : F) → worse a b ≡ true → worse b a ≡ false)
      (not_trans : (a b c : F) → worse a b ≡ false → worse b c ≡ false → worse a c ≡ false)
      (not_antisymm : (a b : F) → worse a b ≡ false → worse b a ≡ false → a ≡ b) where
    -- An element of the list that is worse than none of it.
    abbrev IsBest : F → List F → Type 0
    IsBest m xs = All (λ x. worse m x ≡ false) xs × (any (eq m) xs ≡ true)

    pick_from : F → List F → F
    pick_from m [] = m
    pick_from m (x ∷ xs) = pick_from (if worse m x then x else m) xs

    not_worse : (a : F) → worse a a ≡ false
    not_worse a = elim (Bool-cases (worse a a)) [ inl t ↦ asymm a a t | inr f ↦ f ]

    eq_same : (a : F) → eq a a ≡ true
    eq_same a = (laws.eq_iff a a).1 refl

    pick_from-next :
        (m x : F) (xs : List F) → worse m x ≡ true → pick_from x xs ≡ pick_from m (x ∷ xs)
    unfolding pick_from
    pick_from-next m x xs h = rw h refl

    pick_from-stay :
        (m x : F) (xs : List F) → worse m x ≡ false → pick_from m xs ≡ pick_from m (x ∷ xs)
    unfolding pick_from
    pick_from-stay m x xs h = rw h refl

    or-right : (a b : Bool) → b ≡ true → (a || b) ≡ true
    or-right a b h = ground arith

    or-swap : (a b c : Bool) → (a || c) ≡ true → (a || (b || c)) ≡ true
    or-swap a b c h = ground arith

    pick_from-IsBest : (m : F) (xs : List F) → IsBest (pick_from m xs) (m ∷ xs)
    pick_from-IsBest m [] = unfold pick_from in ((not_worse m, tt), rw (eq_same m) refl)
    pick_from-IsBest m (x ∷ xs) = elim (Bool-cases (worse m x)) [
      | inl t ↦
          let (above, there) = pick_from-IsBest x xs in
          subst (λ r. IsBest r (m ∷ x ∷ xs)) (pick_from-next m x xs t)
            (
              (not_trans _ _ _ above.0 (asymm m x t), above),
              or-right (eq (pick_from x xs) m) _ there,
            )
      | inr f ↦
          let (above, there) = pick_from-IsBest m xs in
          subst (λ r. IsBest r (m ∷ x ∷ xs)) (pick_from-stay m x xs f)
            (
              (above.0, (not_trans _ _ _ above.0 f, above.1)),
              or-swap (eq (pick_from m xs) m) (eq (pick_from m xs) x) _ there,
            )
    ]

    All-at : (P : F → Type 0) (m : F) (xs : List F) → All P xs → any (eq m) xs ≡ true → P m
    All-at P m [] h k = absurd (cc)
    All-at P m (x ∷ xs) h k = elim (Bool-cases (eq m x)) [
      | inl t ↦ subst P (sym ((laws.eq_iff m x).0 t)) h.0
      | inr f ↦ All-at P m xs h.1 (ground (arith, k, f))
    ]

    IsBest-unique : (a b : F) (xs : List F) → IsBest a xs → IsBest b xs → a ≡ b
    IsBest-unique a b xs h k =
        not_antisymm a b (All-at (λ x. worse a x ≡ false) b xs h.0 k.1)
          (All-at (λ x. worse b x ≡ false) a xs k.0 h.1)

    -- The order that sorts the best element to the front.
    module _ (before : F → F → Bool) (before-eq : (a b : F) → before a b ≡ not (worse a b)) where
      before_total : (a b : F) → before a b ≡ false → before b a ≡ true
      before_total a b h = elim (Bool-cases (worse a b)) [
        | inl t ↦ before-eq b a ∙ rw (asymm a b t) refl
        | inr f ↦ absurd (ground (arith, h, before-eq a b, f))
      ]

      before_trans : (a b c : F) → before a b ≡ true → before b c ≡ true → before a c ≡ true
      before_trans a b c h k =
          let ab : worse a b ≡ false = ground (arith, h, before-eq a b) in
          let bc : worse b c ≡ false = ground (arith, k, before-eq b c) in
          before-eq a c ∙ rw (not_trans a b c ab bc) refl

      abbrev before_order : Preorder F
      before_order = record { le = before; total = before_total; trans = before_trans }

      head-IsBest : (xs : List F) (y : F) (ys : List F) → sort before xs ≡ y ∷ ys → IsBest y xs
      head-IsBest xs y ys e =
          let sorted = subst (IsSorted before) e (sort-IsSorted before_order xs) in
          let above : All (λ x. worse y x ≡ false) (y ∷ ys) = (
            not_worse y,
            All-map (λ x. before y x ≡ true) (λ x. worse y x ≡ false)
                (λ x h. ground (arith, h, before-eq y x)) ys sorted.0,
          ) in
          let there : any (eq y) (y ∷ ys) ≡ true = rw (eq_same y) refl in
          (
            All-of_sort (λ x. worse y x ≡ false) before xs
                (subst (All (λ x. worse y x ≡ false)) (sym e) above),
            sym (any-sort (eq y) before xs) ∙ ap (any (eq y)) e ∙ there,
          )

      top_from :
          (k : ℕ) (x : F) (xs s : List F)
          → sort before (x ∷ xs) ≡ s
          → first fl (take fl (suc k) s) ≡ some (pick_from x xs)
      unfolding first take
      top_from k x xs [] e =
          let none_there : any (eq x) (x ∷ xs) ≡ false =
            sym (any-sort (eq x) before (x ∷ xs)) ∙ ap (any (eq x)) e in
          absurd (ground (arith, none_there, eq_same x))
      top_from k x xs (y ∷ ys) e = ap some (
          IsBest-unique y (pick_from x xs) (x ∷ xs) (head-IsBest (x ∷ xs) y ys e)
            (pick_from-IsBest x xs))

  max_from-pick :
      (laws : FloatLaws fl) (m : F) (xs : List F)
      → max_from fl m xs
        ≡ pick_from laws lt laws.lt_asymm laws.not_lt_trans laws.not_lt_antisymm m xs
  unfolding max_from pick_from
  max_from-pick laws m [] = refl
  max_from-pick laws m (x ∷ xs) = max_from-pick laws (if lt m x then x else m) xs

  module _ (laws : FloatLaws fl) where
    min_from-pick :
        (m : F) (xs : List F)
        → min_from fl m xs
          ≡ pick_from laws
              (λ a b. lt b a)
              (λ a b. laws.lt_asymm b a)
              (λ a b c h k. laws.not_lt_trans c b a k h)
              (λ a b h k. laws.not_lt_antisymm a b k h)
              m
              xs
    unfolding min_from pick_from
    min_from-pick m [] = refl
    min_from-pick m (x ∷ xs) = min_from-pick (if lt x m then x else m) xs

    pub top_bid :
        (k : ℕ) (l : Levels F)
        → first fl (nlargest fl (suc k) l) ≡ best fl (max_from fl) (prices fl l)
    unfolding nlargest best
    top_bid k [] = unfold sort first take in refl
    top_bid k ((p, s) ∷ l) =
        top_from laws lt laws.lt_asymm laws.not_lt_trans laws.not_lt_antisymm (λ a b. le b a)
          (λ a b. laws.le-eq-not_lt b a) k p (prices fl l)
          (sort (λ a b. le b a) (prices fl ((p, s) ∷ l))) refl
        ∙ ap some (sym (max_from-pick laws p (prices fl l)))

    pub top_ask :
        (k : ℕ) (l : Levels F)
        → first fl (nsmallest fl (suc k) l) ≡ best fl (min_from fl) (prices fl l)
    unfolding nsmallest best
    top_ask k [] = unfold sort first take in refl
    top_ask k ((p, s) ∷ l) =
        top_from laws (λ a b. lt b a) (λ a b. laws.lt_asymm b a)
          (λ a b c h k. laws.not_lt_trans c b a k h) (λ a b h k. laws.not_lt_antisymm a b k h) le
          (λ a b. laws.le-eq-not_lt a b) k p (prices fl l) (sort le (prices fl ((p, s) ∷ l))) refl
        ∙ ap some (sym (min_from-pick p (prices fl l)))

    -- A snapshot of at least one level shows the mid and the microprice of the whole book: the head
    -- of the sorted prices is the best price that the scan of all of them finds.
    pub snapshot-mid :
        (k : ℕ) (b : OrderBook F)
        → ((snapshot fl (suc k) b).mid ≡ mid fl b)
          × ((snapshot fl (suc k) b).microprice ≡ microprice fl b)
    unfolding snapshot mid microprice best_bid best_ask
    snapshot-mid k b = (
      ap₂ (half_sum fl) (top_bid k b.bids) (top_ask k b.asks),
      ap₂ (λ bb ba. microprice_of fl bb ba b.bids b.asks) (top_bid k b.bids) (top_ask k b.asks),
    )
