-- ===== src/Data/Uniqueness/Covering.antt =====
-- data/uniqueness.py, `concurrency_uniqueness`.
use mathlib.Core.Path.{ap₂}
use jepa_btc_forecasting.Prelude.{
  ℕ, suc, ◌+◌, ◌<◌, ◌≤◌, ◌≡◌, refl, sym, ◌∙◌, ap, Bool, true, false, ◌&&◌, List, [], ◌∷◌, map, ltb,
  leb, arith, ok, length, All-map, ltb→lt, filter, all, All, Bool-cases, inl, inr, ◌==◌,
}
use jepa_btc_forecasting.Prelude.Float.{Float}
use jepa_btc_forecasting.Prelude.Order.{Preorder}
use jepa_btc_forecasting.Prelude.Sort.{insert, sort, searchsorted}
use jepa_btc_forecasting.Prelude.Sort.Laws.{IsSorted, sort-IsSorted, filter-sort}
use jepa_btc_forecasting.Data.Uniqueness.{
  zip, validated_spans, has_duplicate, concurrency, concurrency_uniqueness,
}

leb_total : (a b : ℕ) → leb a b ≡ false → leb b a ≡ true
leb_total a b h = ground arith

leb_trans : (a b c : ℕ) → leb a b ≡ true → leb b c ≡ true → leb a c ≡ true
leb_trans a b c h k = ground arith

abbrev leb_order : Preorder ℕ
leb_order = record { le = leb; total = leb_total; trans = leb_trans }

none_below :
    (x v : ℕ) (xs : List ℕ)
    → leb x v ≡ false
    → All (λ y. leb x y ≡ true) xs
    → length (filter (λ y. leb y v) xs) ≡ 0
none_below x v [] f h = refl
none_below x v (y ∷ xs) f h = rw (above x y v f h.0) (none_below x v xs f h.1)
  where
    above : (x y v : ℕ) → leb x v ≡ false → leb x y ≡ true → leb y v ≡ false
    above x y v f h = ground arith

searchsorted-count :
    (xs : List ℕ) (v : ℕ) → IsSorted leb xs → searchsorted xs v ≡ length (filter (λ x. leb x v) xs)
unfolding searchsorted
searchsorted-count [] v s = refl
searchsorted-count (x ∷ xs) v s = elim (Bool-cases (leb x v)) [
  | inl t ↦ rw t (ap suc (searchsorted-count xs v s.1))
  | inr f ↦ rw f (sym (none_below x v xs f s.0))
]

length-insert : (x : ℕ) (xs : List ℕ) → length (insert leb x xs) ≡ suc (length xs)
unfolding insert
length-insert x [] = refl
length-insert x (y ∷ ys) = ground (arith, length-insert x ys)

length-sort : (xs : List ℕ) → length (sort leb xs) ≡ length xs
unfolding sort
length-sort [] = refl
length-sort (x ∷ xs) = length-insert x (sort leb xs) ∙ ap suc (length-sort xs)

count_sort :
    (xs : List ℕ) (v : ℕ) → searchsorted (sort leb xs) v ≡ length (filter (λ x. leb x v) xs)
count_sort xs v =
    searchsorted-count (sort leb xs) v (sort-IsSorted leb_order xs)
    ∙ ap length (filter-sort leb_order (λ x. leb x v) xs)
    ∙ length-sort (filter (λ x. leb x v) xs)

-- How many half-open spans cover a time.
abbrev pub covering : List ℕ → List ℕ → ℕ → ℕ
covering t0 t1 t = length (filter (λ s. leb s.0 t && ltb t s.1) (zip t0 t1))

-- Every span that has ended has started, and the others that have started cover the time.
count_zip :
    (t0 t1 : List ℕ) (t : ℕ)
    → length t0 ≡ length t1
    → all (λ s. ltb s.0 s.1) (zip t0 t1) ≡ true
    → length (filter (λ x. leb x t) t0) ≡ length (filter (λ x. leb x t) t1) + covering t0 t1 t
unfolding zip
count_zip [] [] t n h = refl
count_zip [] (y ∷ t1) t n h = omega (arith, n)
count_zip (x ∷ t0) [] t n h = omega (arith, n)
count_zip (x ∷ t0) (y ∷ t1) t n h = ground (arith, count_zip t0 t1 t)

and-true : (a b : Bool) → (a && b) ≡ true → (a ≡ true) × (b ≡ true)
and-true a b h = ground arith

==-same : (n : ℕ) → (n == n) ≡ true
==-same n = ground arith

covering_tail : (x y : ℕ) (t0 t1 : List ℕ) (t : ℕ) → covering t0 t1 t ≤ covering (x ∷ t0) (y ∷ t1) t
unfolding zip
covering_tail x y t0 t1 t = ground arith

covering_head : (x y : ℕ) (t0 t1 : List ℕ) → x < y → 1 ≤ covering (x ∷ t0) (y ∷ t1) x
unfolding zip
covering_head x y t0 t1 h = ground arith

-- Each row's own span covers its decision time.
covering_own :
    (t0 t1 : List ℕ)
    → length t0 ≡ length t1
    → all (λ s. ltb s.0 s.1) (zip t0 t1) ≡ true
    → All (λ t. 1 ≤ covering t0 t1 t) t0
unfolding zip
covering_own [] t1 n h = tt
covering_own (x ∷ t0) [] n h = absurd (omega (arith, n))
covering_own (x ∷ t0) (y ∷ t1) n h =
    let parts = and-true (ltb x y) _ h in
    (
      covering_head x y t0 t1 (ltb→lt x y parts.0),
      All-map (λ t. 1 ≤ covering t0 t1 t) (λ t. 1 ≤ covering (x ∷ t0) (y ∷ t1) t)
          (λ t c. omega (arith, c, covering_tail x y t0 t1 t)) t0
          (covering_own t0 t1 (omega (arith, n)) parts.1),
    )

concurrency-covering :
    (t0 t1 : List ℕ) (t : ℕ)
    → length t0 ≡ length t1
    → all (λ s. ltb s.0 s.1) (zip t0 t1) ≡ true
    → 1 ≤ covering t0 t1 t
    → concurrency t0 t1 t ≡ covering t0 t1 t
unfolding concurrency
concurrency-covering t0 t1 t n h own =
    omega (arith, own, count_sort t0 t, count_sort t1 t, count_zip t0 t1 t n h)

map_same :
    {A B : Type 0} (f g : A → B) (xs : List A) → All (λ x. f x ≡ g x) xs → map f xs ≡ map g xs
map_same f g [] h = refl
map_same f g (x ∷ xs) h = ap₂ ◌∷◌ h.0 (map_same f g xs h.1)

module _ (fl : Float) where
  open fl use {F, of_ℕ, div}

  -- For rows of positive spans with distinct decision times, the weight of each row is one over the
  -- number of half-open spans that cover its decision time, and that number is at least one.
  pub concurrency_uniqueness_lem :
      (t_event t_barrier : List ℕ)
      → length t_event ≡ length t_barrier
      → all (λ s. ltb s.0 s.1) (zip t_event t_barrier) ≡ true
      → has_duplicate t_event ≡ false
      → (concurrency_uniqueness fl t_event t_barrier
          ≡ ok (map (λ t. div (of_ℕ 1) (of_ℕ (covering t_event t_barrier t))) t_event))
        × All (λ t. 1 ≤ covering t_event t_barrier t) t_event
  unfolding concurrency_uniqueness validated_spans
  concurrency_uniqueness_lem t0 t1 n h d =
      let own = covering_own t0 t1 n h in
      let same =
        All-map (λ t. 1 ≤ covering t0 t1 t)
          (λ t. div (of_ℕ 1) (of_ℕ (concurrency t0 t1 t)) ≡ div (of_ℕ 1) (of_ℕ (covering t0 t1 t)))
          (λ t o. ap (λ c. div (of_ℕ 1) (of_ℕ c)) (concurrency-covering t0 t1 t n h o)) t0 own in
      (rw (n, h, d, ==-same (length t1)) (ap ok (map_same _ _ t0 same)), own)
