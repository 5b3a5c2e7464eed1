-- ===== src/Prelude/Lists.antt =====
-- Lists measured by native numbers and filtered by Boolean tests.
use Prim.Native.Nat.{ℕ, zero, suc, ◌+◌, ◌≤◌, ◌<◌}
use mathlib.Core.Path.{◌≡◌, refl}
use mathlib.Core.Bool.{Bool, true, false, ◌||◌, ◌&&◌}
use mathlib.Core.List.{List, [], ◌∷◌, ◌++◌}
use mathlib.Core.Option.{Option, none, some}
use mathlib.Core.Logic.{◌⊎◌, inl, inr}
use native.Mathlib.Omega.{arith}
use us_stock_helper.Prelude.Tests.{if◌then◌else◌}

module _ {ℓ} {A : Type ℓ} where
  abbrev pub length : List A → ℕ
  length [] = 0
  length (x ∷ xs) = suc (length xs)

  abbrev pub take : ℕ → List A → List A
  take zero xs = []
  take (suc n) [] = []
  take (suc n) (x ∷ xs) = x ∷ take n xs

  abbrev pub drop : ℕ → List A → List A
  drop zero xs = xs
  drop (suc n) [] = []
  drop (suc n) (x ∷ xs) = drop n xs

  -- the rows of a table that a WHERE clause selects
  abbrev pub select : (A → Bool) → List A → List A
  select p [] = []
  select p (x ∷ xs) = let rest = select p xs in if p x then x ∷ rest else rest

  -- `SELECT count(*) … WHERE p`
  abbrev pub count_where : (A → Bool) → List A → ℕ
  count_where p [] = 0
  count_where p (x ∷ xs) = (if p x then 1 else 0) + count_where p xs

  abbrev pub exists : (A → Bool) → List A → Bool
  exists p [] = false
  exists p (x ∷ xs) = p x || exists p xs

  abbrev pub every : (A → Bool) → List A → Bool
  every p [] = true
  every p (x ∷ xs) = p x && every p xs

  -- the first row that a WHERE clause selects
  abbrev pub find : (A → Bool) → List A → Option A
  find p [] = none
  find p (x ∷ xs) = if p x then some x else find p xs

  -- `UPDATE … SET x = f x WHERE p x`
  abbrev pub update_where : (A → Bool) → (A → A) → List A → List A
  update_where p f [] = []
  update_where p f (x ∷ xs) = (if p x then f x else x) ∷ update_where p f xs

-- Some element of the list satisfies `P`; every element does.
abbrev pub Any {ℓ} : {A : Type ℓ} → (A → Type 0) → List A → Type 0
Any P [] = ⊥
Any P (x ∷ xs) = P x ⊎ Any P xs

abbrev pub All {ℓ} : {A : Type ℓ} → (A → Type 0) → List A → Type 0
All P [] = Unit
All P (x ∷ xs) = P x × All P xs

module _ {ℓ} {A : Type ℓ} where
  pub length-append : (xs ys : List A) → length (xs ++ ys) ≡ length xs + length ys
  length-append [] ys = omega arith
  length-append (x ∷ xs) ys = omega (arith, length-append xs ys)

  pub count_where-append :
      (p : A → Bool) (xs ys : List A)
      → count_where p (xs ++ ys) ≡ count_where p xs + count_where p ys
  count_where-append p [] ys = omega arith
  count_where-append p (x ∷ xs) ys = omega (arith, count_where-append p xs ys)

  pub count_where_mono :
      (p q : A → Bool)
      → ((x : A) → p x ≡ true → q x ≡ true)
      → (xs : List A) → count_where p xs ≤ count_where q xs
  count_where_mono p q h [] = omega arith
  count_where_mono p q h (x ∷ xs) = ground (arith, h x, count_where_mono p q h xs)

  -- What a deletion removes does not count for a test that only kept rows pass.
  pub count_where-select :
      (keep p : A → Bool)
      → ((x : A) → p x ≡ true → keep x ≡ true)
      → (xs : List A) → count_where p (select keep xs) ≡ count_where p xs
  count_where-select keep p h [] = refl
  count_where-select keep p h (x ∷ xs) = ground (arith, h x, count_where-select keep p h xs)

  pub length-select : (p : A → Bool) (xs : List A) → length (select p xs) ≡ count_where p xs
  length-select p [] = refl
  length-select p (x ∷ xs) = ground (arith, length-select p xs)

  pub count_where-select_le :
      (keep p : A → Bool) (xs : List A) → count_where p (select keep xs) ≤ count_where p xs
  count_where-select_le keep p [] = omega arith
  count_where-select_le keep p (x ∷ xs) = ground (arith, count_where-select_le keep p xs)

module _ {ℓ} {A : Type ℓ} where
  pub find-append :
      (p : A → Bool) (xs ys : List A) (r : A) → find p xs ≡ some r → find p (xs ++ ys) ≡ some r
  find-append p [] ys r h = cc
  find-append p (x ∷ xs) ys r h = ground (arith, find-append p xs ys r)

  -- An update that leaves the searched key alone updates the row that is found.
  pub find-update_where :
      (p q : A → Bool) (f : A → A)
      → ((x : A) → p (f x) ≡ p x)
      → (xs : List A) (r : A) → find p xs ≡ some r
      → find p (update_where q f xs) ≡ some (if q r then f r else r)
  find-update_where p q f h [] r e = cc
  find-update_where p q f h (x ∷ xs) r e = ground (arith, h x, find-update_where p q f h xs r)

  pub exists-find : (p : A → Bool) (xs : List A) (r : A) → find p xs ≡ some r → exists p xs ≡ true
  exists-find p [] r h = cc
  exists-find p (x ∷ xs) r h = ground (arith, exists-find p xs r)

  pub find_holds : (p : A → Bool) (xs : List A) (r : A) → find p xs ≡ some r → p r ≡ true
  find_holds p [] r h = cc
  find_holds p (x ∷ xs) r h = ground (arith, find_holds p xs r)

  pub count_where-update_where :
      (p q : A → Bool) (f : A → A)
      → ((x : A) → q x ≡ true → p (f x) ≡ true → p x ≡ true)
      → (xs : List A) → count_where p (update_where q f xs) ≤ count_where p xs
  count_where-update_where p q f h [] = omega arith
  count_where-update_where p q f h (x ∷ xs) =
      ground (arith, h x, count_where-update_where p q f h xs)

  pub count_where-update_same :
      (p q : A → Bool) (f : A → A)
      → ((x : A) → p (f x) ≡ p x)
      → (xs : List A) → count_where p (update_where q f xs) ≡ count_where p xs
  count_where-update_same p q f h [] = refl
  count_where-update_same p q f h (x ∷ xs) = ground (arith, h x, count_where-update_same p q f h xs)

  pub count_where-le-length : (p : A → Bool) (xs : List A) → count_where p xs ≤ length xs
  count_where-le-length p [] = omega arith
  count_where-le-length p (x ∷ xs) = ground (arith, count_where-le-length p xs)

  -- A test that some selected row fails counts fewer rows than there are.
  pub count_where-lt-length :
      (p : A → Bool) (xs : List A) → Any (λ x. p x ≡ false) xs → count_where p xs < length xs
  count_where-lt-length p [] h = absurd h
  count_where-lt-length p (x ∷ xs) (inl h) = ground (arith, count_where-le-length p xs)
  count_where-lt-length p (x ∷ xs) (inr h) = ground (arith, count_where-lt-length p xs h)

module _ {ℓ} {A : Type ℓ} where
  pub count_where-none : (p : A → Bool) (xs : List A) → exists p xs ≡ false → count_where p xs ≡ 0
  count_where-none p [] h = refl
  count_where-none p (x ∷ xs) h = ground (arith, count_where-none p xs)

  pub none-count_where : (p : A → Bool) (xs : List A) → count_where p xs ≡ 0 → exists p xs ≡ false
  none-count_where p [] h = refl
  none-count_where p (x ∷ xs) h = ground (arith, none-count_where p xs)

module _ {ℓ} {A : Type ℓ} where
  pub All-select : (P : A → Type 0) (p : A → Bool) (xs : List A) → All P xs → All P (select p xs)
  All-select P p [] h = tt
  All-select P p (x ∷ xs) h = ground (arith, All-select P p xs h.1)

  pub Any-map : (P Q : A → Type 0) → ((x : A) → P x → Q x) → (xs : List A) → Any P xs → Any Q xs
  Any-map P Q f [] h = absurd h
  Any-map P Q f (x ∷ xs) (inl h) = inl (f x h)
  Any-map P Q f (x ∷ xs) (inr h) = inr (Any-map P Q f xs h)

module _ {ℓ} {A : Type ℓ} where
  pub every-append :
      (p : A → Bool) (xs ys : List A) → every p (xs ++ ys) ≡ (every p xs && every p ys)
  every-append p [] ys = refl
  every-append p (x ∷ xs) ys = ground (arith, every-append p xs ys)

  pub every_mono :
      (p q : A → Bool)
      → ((x : A) → p x ≡ true → q x ≡ true)
      → (xs : List A) → every p xs ≡ true
      → every q xs ≡ true
  every_mono p q h [] e = refl
  every_mono p q h (x ∷ xs) e = ground (arith, h x, every_mono p q h xs)

  pub select-every : (p : A → Bool) (xs : List A) → every p xs ≡ true → select p xs ≡ xs
  select-every p [] h = refl
  select-every p (x ∷ xs) h = ground (arith, select-every p xs)

  pub every-select : (p : A → Bool) (xs : List A) → every p (select p xs) ≡ true
  every-select p [] = refl
  every-select p (x ∷ xs) = ground (arith, every-select p xs)

  pub select-append :
      (p : A → Bool) (xs ys : List A) → select p (xs ++ ys) ≡ select p xs ++ select p ys
  select-append p [] ys = refl
  select-append p (x ∷ xs) ys = ground (arith, select-append p xs ys)

  pub take-append-drop : (n : ℕ) (xs : List A) → take n xs ++ drop n xs ≡ xs
  take-append-drop zero xs = refl
  take-append-drop (suc n) [] = refl
  take-append-drop (suc n) (x ∷ xs) = rw (take-append-drop n xs)

module _ {ℓ} {A : Type ℓ} where
  -- A row that is new under its key is the one found.
  pub find-append_new :
      (p : A → Bool) (xs : List A) (new : A)
      → exists p xs ≡ false
      → p new ≡ true
      → find p (xs ++ new ∷ []) ≡ some new
  find-append_new p [] new h k = rw k
  find-append_new p (x ∷ xs) new h k = ground (arith, find-append_new p xs new)
