-- ===== src/Feeds/Collector/Sorting.antt =====
-- collector.py, the stable sort: it keeps every element, orders them, and keeps the order of those that
-- it does not tell apart.
use us_stock_helper.Prelude.{
  ◌+◌, ◌≡◌, refl, ap, ◌∙◌, arith, Bool-cases, Bool, true, false, List, [], ◌∷◌, All, count_where,
  inl, inr, ◌⊎◌, if◌then◌else◌,
}
use us_stock_helper.Feeds.Collector.{insert_by, sort_by}

-- Each element stands so to all that follow it.
abbrev pub Pairwise : {A : Type 0} → (A → A → Type 0) → List A → Type 0
Pairwise R [] = Unit
Pairwise R (x ∷ xs) = All (R x) xs × Pairwise R xs

module _ {A : Type 0} (before : A → A → Bool) where
  -- The later is not before the earlier; and if the earlier is not before it, they are in the order of
  -- before the sort.
  abbrev pub Ordered : (A → A → Type 0) → A → A → Type 0
  Ordered S x y = (before y x ≡ false) × ((before x y ≡ true) ⊎ S x y)

  insert_by-count :
      (p : A → Bool) (x : A) (ys : List A)
      → count_where p (insert_by before x ys) ≡ count_where p (x ∷ ys)
  unfolding insert_by
  insert_by-count p x [] = refl
  insert_by-count p x (y ∷ ys) = ground (arith, insert_by-count p x ys)

  -- The sort keeps every element as often as it was there.
  pub sort_by-count :
      (p : A → Bool) (xs : List A) → count_where p (sort_by before xs) ≡ count_where p xs
  unfolding sort_by
  sort_by-count p [] = refl
  sort_by-count p (x ∷ xs) =
      insert_by-count p x (sort_by before xs)
      ∙ ap (λ n. (if p x then 1 else 0) + n) (sort_by-count p xs)

  insert_by-All :
      (P : A → Type 0) (x : A) (ys : List A) → P x → All P ys → All P (insert_by before x ys)
  unfolding insert_by
  insert_by-All P x [] px h = (px, tt)
  insert_by-All P x (y ∷ ys) px (py, h) = elim (Bool-cases (before y x)) [
    | inl later ↦ rw later (py, insert_by-All P x ys px h)
    | inr here ↦ rw here (px, (py, h))
  ]

  pub sort_by-All : (P : A → Type 0) (xs : List A) → All P xs → All P (sort_by before xs)
  unfolding sort_by
  sort_by-All P [] h = tt
  sort_by-All P (x ∷ xs) (px, h) = insert_by-All P x (sort_by before xs) px (sort_by-All P xs h)

  module _ (asym : (x y : A) → before x y ≡ true → before y x ≡ false)
      (negtrans : (x y z : A) → before y x ≡ false → before z y ≡ false → before z x ≡ false)
      (S : A → A → Type 0) where
    All-after :
        (x y : A) (ys : List A)
        → before y x ≡ false
        → All (Ordered S y) ys
        → All (S x) ys
        → All (Ordered S x) ys
    All-after x y [] h later same = tt
    All-after x y (z ∷ zs) h (first, later) (s, same) =
        ((negtrans x y z h first.0, inr s), All-after x y zs h later same)

    insert_by-Pairwise :
        (x : A) (ys : List A)
        → All (S x) ys
        → Pairwise (Ordered S) ys
        → Pairwise (Ordered S) (insert_by before x ys)
    unfolding insert_by
    insert_by-Pairwise x [] same h = (tt, tt)
    insert_by-Pairwise x (y ∷ ys) (s, same) (later, h) = elim (Bool-cases (before y x)) [
      | inl first ↦ rw first (
        insert_by-All (Ordered S y) x ys (asym y x first, inl first) later,
        insert_by-Pairwise x ys same h,
      )
      | inr here ↦ rw here (((here, inr s), All-after x y ys here later same), (later, h))
    ]

    -- The sort orders the elements, and keeps the order in which it met those that it does not tell
    -- apart.
    pub sort_by-Pairwise : (xs : List A) → Pairwise S xs → Pairwise (Ordered S) (sort_by before xs)
    unfolding sort_by
    sort_by-Pairwise [] h = tt
    sort_by-Pairwise (x ∷ xs) (same, h) =
        insert_by-Pairwise x (sort_by before xs) (sort_by-All (S x) xs same) (sort_by-Pairwise xs h)
