-- ===== src/Prelude/Sort/Laws.antt =====
-- Lemmas on the sort, with ordered lists as a predicate.
use mathlib.Core.List.{List, [], ◌∷◌, map}
use mathlib.Core.Bool.{Bool, true, false, ◌||◌}
use mathlib.Core.Path.{◌≡◌, refl, sym, ap, ◌∙◌, subst}
use mathlib.Core.Logic.{inl, inr}
use native.Mathlib.Omega.{arith}
use jepa_btc_forecasting.Prelude.Tests.{Bool-cases, if◌then◌else◌}
use jepa_btc_forecasting.Prelude.Lists.{All, All-filter, All-map, any, filter}
use jepa_btc_forecasting.Prelude.Order.{Preorder}
use jepa_btc_forecasting.Prelude.Sort.{insert, sort}

-- Every element is at most each later one.
abbrev pub IsSorted : {A : Type 0} → (A → A → Bool) → List A → Type 0
IsSorted le [] = Unit
IsSorted le (x ∷ xs) = All (λ y. le x y ≡ true) xs × IsSorted le xs

module _ {A : Type 0} (P : A → Type 0) (le : A → A → Bool) where
  pub All-insert : (x : A) (xs : List A) → P x → All P xs → All P (insert le x xs)
  unfolding insert
  All-insert x [] p h = (p, tt)
  All-insert x (y ∷ ys) p h = elim (Bool-cases (le x y)) [
    | inl e ↦ rw e (p, h)
    | inr e ↦ rw e (h.0, All-insert x ys p h.1)
  ]

  pub All-sort : (xs : List A) → All P xs → All P (sort le xs)
  unfolding sort
  All-sort [] h = tt
  All-sort (x ∷ xs) h = All-insert x (sort le xs) h.0 (All-sort xs h.1)

module _ {A : Type 0} (o : Preorder A) where
  pub insert-IsSorted : (x : A) (xs : List A) → IsSorted o.le xs → IsSorted o.le (insert o.le x xs)
  unfolding insert
  insert-IsSorted x [] h = (tt, tt)
  insert-IsSorted x (y ∷ ys) h = elim (Bool-cases (o.le x y)) [
    | inl e ↦ rw e ((e, All-map _ (λ z. o.le x z ≡ true) (λ z k. o.trans x y z e k) ys h.0), h)
    | inr e ↦
        rw e (
          All-insert (λ z. o.le y z ≡ true) o.le x ys (o.total x y e) h.0,
          insert-IsSorted x ys h.1,
        )
  ]

  -- The result of the sort is ordered.
  pub sort-IsSorted : (xs : List A) → IsSorted o.le (sort o.le xs)
  unfolding sort
  sort-IsSorted [] = tt
  sort-IsSorted (x ∷ xs) = insert-IsSorted x (sort o.le xs) (sort-IsSorted xs)

module _ {A : Type 0} (le : A → A → Bool) where
  insert_front : (x : A) (xs : List A) → All (λ y. le x y ≡ true) xs → insert le x xs ≡ x ∷ xs
  unfolding insert
  insert_front x [] h = refl
  insert_front x (y ∷ ys) h = rw h.0

  -- An ordered list is its own sort.
  pub sort-IsSorted_id : (xs : List A) → IsSorted le xs → sort le xs ≡ xs
  unfolding sort
  sort-IsSorted_id [] h = refl
  sort-IsSorted_id (x ∷ xs) h = rw (sort-IsSorted_id xs h.1) (insert_front x xs h.0)

module _ {A : Type 0} (o : Preorder A) (p : A → Bool) where
  filter-insert :
      (x : A) (xs : List A)
      → IsSorted o.le xs
      → filter p (insert o.le x xs) ≡ (if p x then insert o.le x (filter p xs) else filter p xs)
  unfolding insert
  filter-insert x [] h = refl
  filter-insert x (y ∷ ys) h = elim (Bool-cases (o.le x y)) [
    | inl e ↦ rw e (
        ap (λ l. if p x then l else filter p (y ∷ ys))
          (sym (
            insert_front o.le x (filter p (y ∷ ys)) (
              All-filter (λ z. o.le x z ≡ true) p (y ∷ ys)
                (e, All-map _ (λ z. o.le x z ≡ true) (λ z k. o.trans x y z e k) ys h.0)))))
    | inr e ↦ rw e (ground (arith, filter-insert x ys h.1))
  ]

  -- Sorting and filtering commute.
  pub filter-sort : (xs : List A) → filter p (sort o.le xs) ≡ sort o.le (filter p xs)
  unfolding sort
  filter-sort [] = refl
  filter-sort (x ∷ xs) =
      filter-insert x (sort o.le xs) (sort-IsSorted o xs) ∙ ground (arith, filter-sort xs)

module _ {A B : Type 0} (f : A → B) (le : B → B → Bool) where
  insert-map :
      (x : A) (xs : List A)
      → insert le (f x) (map f xs) ≡ map f (insert (λ a b. le (f a) (f b)) x xs)
  unfolding insert
  insert-map x [] = refl
  insert-map x (y ∷ ys) = elim (Bool-cases (le (f x) (f y))) [
    | inl e ↦ rw e refl
    | inr e ↦ rw e (ap (◌∷◌ (f y)) (insert-map x ys))
  ]

  -- Sorting the images by a key is sorting by the key of the image.
  pub sort-map : (xs : List A) → sort le (map f xs) ≡ map f (sort (λ a b. le (f a) (f b)) xs)
  unfolding sort
  sort-map [] = refl
  sort-map (x ∷ xs) =
      ap (insert le (f x)) (sort-map xs) ∙ insert-map x (sort (λ a b. le (f a) (f b)) xs)

module _ {A : Type 0} (P : A → Type 0) (le : A → A → Bool) where
  insert-here : (x y : A) (ys : List A) → le x y ≡ true → insert le x (y ∷ ys) ≡ x ∷ y ∷ ys
  unfolding insert
  insert-here x y ys h = rw h refl

  insert-later :
      (x y : A) (ys : List A) → le x y ≡ false → insert le x (y ∷ ys) ≡ y ∷ insert le x ys
  unfolding insert
  insert-later x y ys h = rw h refl

  -- What holds of all elements of an insertion or a sort holds of all that went in.
  All-of_insert : (x : A) (xs : List A) → All P (insert le x xs) → P x × All P xs
  unfolding insert
  All-of_insert x [] h = h
  All-of_insert x (y ∷ ys) h = elim (Bool-cases (le x y)) [
    | inl t ↦ subst (All P) (insert-here x y ys t) h
    | inr f ↦
        let h' = subst (All P) (insert-later x y ys f) h in
        let parts = All-of_insert x ys h'.1 in (parts.0, (h'.0, parts.1))
  ]

  pub All-of_sort : (xs : List A) → All P (sort le xs) → All P xs
  unfolding sort
  All-of_sort [] h = tt
  All-of_sort (x ∷ xs) h =
      let parts = All-of_insert x (sort le xs) h in (parts.0, All-of_sort xs parts.1)

module _ {A : Type 0} (p : A → Bool) (le : A → A → Bool) where
  any-insert : (x : A) (xs : List A) → any p (insert le x xs) ≡ (p x || any p xs)
  unfolding insert
  any-insert x [] = refl
  any-insert x (y ∷ ys) = ground (arith, any-insert x ys)

  -- Sorting adds and loses no element.
  pub any-sort : (xs : List A) → any p (sort le xs) ≡ any p xs
  unfolding sort
  any-sort [] = refl
  any-sort (x ∷ xs) = any-insert x (sort le xs) ∙ ap (λ b. p x || b) (any-sort xs)
