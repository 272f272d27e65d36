-- ===== src/Prelude/Sort/Batches.antt =====
-- Sorts of lists that fall in two parts.
use mathlib.Core.List.{List, [], ◌∷◌, ◌++◌}
use mathlib.Core.Bool.{Bool, true, false, not}
use mathlib.Core.Path.{◌≡◌, refl, sym, ap, ◌∙◌}
use mathlib.Core.Logic.{◌⊎◌, inl, inr}
use native.Mathlib.Omega.{arith}
use jepa_btc_forecasting.Prelude.Tests.{Bool-cases}
use jepa_btc_forecasting.Prelude.Lists.{All, filter}
use jepa_btc_forecasting.Prelude.Order.{Preorder}
use jepa_btc_forecasting.Prelude.Sort.{insert, sort}
use jepa_btc_forecasting.Prelude.Sort.Laws.{All-sort}

module _ {A : Type 0} (o : Preorder A) where
  -- Strictly before: the key of `b` is not at most that of `a`.
  abbrev pub Before : A → A → Type 0
  Before a b = o.le b a ≡ false

  -- Insertions of untied elements commute.
  pub insert_comm :
      (a b : A) (xs : List A)
      → Before a b
      → insert o.le a (insert o.le b xs) ≡ insert o.le b (insert o.le a xs)
  unfolding insert
  insert_comm a b [] h = ground (arith, o.total b a h)
  insert_comm a b (x ∷ xs) h =
      ground (arith, o.total b a h, o.trans a b x, o.trans b x a, insert_comm a b xs h)

  insert-append_left :
      (x : A) (xs ys : List A)
      → All (λ y. o.le x y ≡ true) ys
      → insert o.le x (xs ++ ys) ≡ insert o.le x xs ++ ys
  unfolding insert
  insert-append_left x [] [] h = refl
  insert-append_left x [] (y ∷ ys) h = rw h.0
  insert-append_left x (z ∷ xs) ys h = ground (arith, insert-append_left x xs ys h)

  insert-append_right :
      (x : A) (xs ys : List A)
      → All (λ y. o.le x y ≡ false) xs
      → insert o.le x (xs ++ ys) ≡ xs ++ insert o.le x ys
  unfolding insert
  insert-append_right x [] ys h = refl
  insert-append_right x (z ∷ xs) ys h = rw h.0 (rw (insert-append_right x xs ys h.1))

  module _ (p : A → Bool) where
    All-filter {κ} :
        (P : A → Type κ) (xs : List A) → ((a : A) → p a ≡ true → P a) → All P (filter p xs)
    All-filter P [] h = tt
    All-filter P (x ∷ xs) h = elim (Bool-cases (p x)) [
      | inl e ↦ rw e (h x e, All-filter P xs h)
      | inr e ↦ rw e (All-filter P xs h)
    ]

  module _ (p : A → Bool) (before : (a b : A) → p a ≡ true → p b ≡ false → Before a b) where
    -- A first batch that is strictly before the rest can be sorted and taken off on its own.
    pub sort_batches :
        (xs : List A)
        → sort o.le xs ≡ sort o.le (filter p xs) ++ sort o.le (filter (λ a. not (p a)) xs)
    unfolding sort
    sort_batches [] = refl
    sort_batches (x ∷ xs) = elim (Bool-cases (p x)) [
      | inl e ↦
          rw (e, sort_batches xs)
            (insert-append_left x _ _ (
              All-sort (λ y. o.le x y ≡ true) o.le _
                (All-filter (λ a. not (p a)) _ xs
                  (λ a k. o.total a x (before x a e (ground arith))))))
      | inr e ↦
          rw (e, sort_batches xs)
            (insert-append_right x _ _
              (All-sort (λ y. o.le x y ≡ false) o.le _ (All-filter p _ xs (λ a k. before a x k e))))
    ]

  -- Two elements with different keys.
  abbrev pub Untied : A → A → Type 0
  Untied a b = Before a b ⊎ Before b a

  insert_comm-Untied :
      (a b : A) (xs : List A)
      → Untied a b
      → insert o.le a (insert o.le b xs) ≡ insert o.le b (insert o.le a xs)
  insert_comm-Untied a b xs (inl h) = insert_comm a b xs h
  insert_comm-Untied a b xs (inr h) = sym (insert_comm b a xs h)

  -- Moving an element over others that it is never tied with does not change the sort.
  sort_middle :
      (x : A) (xs ys : List A)
      → All (λ a. Untied a x) xs
      → sort o.le (xs ++ x ∷ ys) ≡ insert o.le x (sort o.le (xs ++ ys))
  unfolding sort
  sort_middle x [] ys h = refl
  sort_middle x (a ∷ xs) ys h =
      rw (sort_middle x xs ys h.1) (insert_comm-Untied a x (sort o.le (xs ++ ys)) h.0)

  module _ (p : A → Bool) (untied : (a b : A) → p a ≡ true → p b ≡ false → Untied a b) where
    -- Two streams whose elements are never tied sort alike, interleaved or one after the other.
    pub sort_streams :
        (xs : List A) → sort o.le (filter p xs ++ filter (λ a. not (p a)) xs) ≡ sort o.le xs
    unfolding sort
    sort_streams [] = refl
    sort_streams (x ∷ xs) = elim (Bool-cases (p x)) [
      | inl e ↦ rw e (ap (insert o.le x) (sort_streams xs))
      | inr e ↦ rw e (
          sort_middle x (filter p xs) _ (All-filter p _ xs (λ a k. untied a x k e))
          ∙ ap (insert o.le x) (sort_streams xs))
    ]
