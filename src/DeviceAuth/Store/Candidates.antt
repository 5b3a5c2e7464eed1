-- ===== src/DeviceAuth/Store/Candidates.antt =====
-- `candidate_pairing_codes` of store.py never drops a live code at its LIMIT, and the number of live
-- codes stays under the limit of `insert_pairing_code`.
use us_stock_helper.Prelude.{
  ℕ, zero, suc, ◌+◌, ◌≤◌, ◌<◌, ◌≡◌, refl, ap, sym, subst, ◌∙◌, Bool, true, false, List, [], ◌∷◌,
  map, inl, inr, arith, Any, Bool-cases, select, take, count_where, count_where-append,
  count_where_mono, count_where-select_le, if◌then◌else◌,
}
use us_stock_helper.DeviceAuth.Store.Rows.{Instant, Duration, CodeEntry, DeviceStore}
use us_stock_helper.DeviceAuth.Store.Codes.{
  NewCode, new_code, is_live, is_retained, insert_pairing_code, sorts_before, insert_sorted,
  order_codes, to_row, max_candidate_codes, candidate_pairing_codes,
}

module _ (now : Instant) where
  -- No live row stands behind a dead one.
  abbrev LiveFirst : List CodeEntry → Type 0
  LiveFirst [] = Unit
  LiveFirst (r ∷ rs) = (is_live now r ≡ false → count_where (is_live now) rs ≡ 0) × LiveFirst rs

  count-insert_sorted :
      (r : CodeEntry) (rows : List CodeEntry)
      → count_where (is_live now) (insert_sorted now r rows)
        ≡ (if is_live now r then 1 else 0) + count_where (is_live now) rows
  unfolding insert_sorted
  count-insert_sorted r [] = refl
  count-insert_sorted r (x ∷ xs) = ground (arith, count-insert_sorted r xs)

  insert_sorted-LiveFirst :
      (r : CodeEntry) (rows : List CodeEntry)
      → LiveFirst rows
      → LiveFirst (insert_sorted now r rows)
  unfolding insert_sorted sorts_before
  insert_sorted-LiveFirst r [] h = (λ _. refl, tt)
  insert_sorted-LiveFirst r (x ∷ xs) h =
      ground (arith, h.0, count-insert_sorted r xs, insert_sorted-LiveFirst r xs h.1)

  order_codes-LiveFirst : (rows : List CodeEntry) → LiveFirst (order_codes now rows)
  unfolding order_codes
  order_codes-LiveFirst [] = tt
  order_codes-LiveFirst (r ∷ rs) =
      insert_sorted-LiveFirst r (order_codes now rs) (order_codes-LiveFirst rs)

  count-order_codes :
      (rows : List CodeEntry)
      → count_where (is_live now) (order_codes now rows) ≡ count_where (is_live now) rows
  unfolding order_codes
  count-order_codes [] = refl
  count-order_codes (r ∷ rs) =
      ground (arith, count-insert_sorted r (order_codes now rs), count-order_codes rs)

module _ (now : Instant) (c : CodeEntry) where
  insert_sorted-mem_self : (rows : List CodeEntry) → Any (λ x. c ≡ x) (insert_sorted now c rows)
  unfolding insert_sorted
  insert_sorted-mem_self [] = inl refl
  insert_sorted-mem_self (x ∷ xs) = elim (Bool-cases (sorts_before now x c)) [
    | inl first ↦ rw first (inr (insert_sorted-mem_self xs))
    | inr last ↦ rw last (inl refl)
  ]

  insert_sorted-mem :
      (r : CodeEntry) (rows : List CodeEntry)
      → Any (λ x. c ≡ x) rows
      → Any (λ x. c ≡ x) (insert_sorted now r rows)
  unfolding insert_sorted
  insert_sorted-mem r [] m = absurd m
  insert_sorted-mem r (x ∷ xs) (inl e) = elim (Bool-cases (sorts_before now x r)) [
    | inl first ↦ rw first (inl e)
    | inr last ↦ rw last (inr (inl e))
  ]
  insert_sorted-mem r (x ∷ xs) (inr m) = elim (Bool-cases (sorts_before now x r)) [
    | inl first ↦ rw first (inr (insert_sorted-mem r xs m))
    | inr last ↦ rw last (inr (inr m))
  ]

  order_codes-mem :
      (rows : List CodeEntry) → Any (λ x. c ≡ x) rows → Any (λ x. c ≡ x) (order_codes now rows)
  unfolding order_codes
  order_codes-mem [] m = absurd m
  order_codes-mem (r ∷ rs) (inl e) =
      subst (λ y. Any (λ x. c ≡ x) (insert_sorted now y (order_codes now rs))) e
        (insert_sorted-mem_self (order_codes now rs))
  order_codes-mem (r ∷ rs) (inr m) = insert_sorted-mem r (order_codes now rs) (order_codes-mem rs m)

  select-mem :
      (p : CodeEntry → Bool) (rows : List CodeEntry)
      → p c ≡ true
      → Any (λ x. c ≡ x) rows
      → Any (λ x. c ≡ x) (select p rows)
  select-mem p [] h m = absurd m
  select-mem p (r ∷ rs) h (inl e) = rw (sym (ap p e) ∙ h) (inl e)
  select-mem p (r ∷ rs) h (inr m) = elim (Bool-cases (p r)) [
    | inl takes ↦ rw takes (inr (select-mem p rs h m))
    | inr drops ↦ rw drops (select-mem p rs h m)
  ]

  live-counts :
      (rows : List CodeEntry)
      → is_live now c ≡ true
      → Any (λ x. c ≡ x) rows
      → 0 < count_where (is_live now) rows
  live-counts [] l m = absurd m
  live-counts (r ∷ rs) l (inl e) =
      let live : is_live now r ≡ true = sym (ap (is_live now) e) ∙ l in ground (arith, live)
  live-counts (r ∷ rs) l (inr m) = ground (arith, live-counts rs l m)

  -- Live rows first, and no more of them than the LIMIT: each of them is taken.
  take-mem :
      (n : ℕ) (rows : List CodeEntry)
      → LiveFirst now rows
      → count_where (is_live now) rows ≤ n
      → is_live now c ≡ true
      → Any (λ x. c ≡ x) rows
      → Any (λ x. c ≡ x) (take n rows)
  take-mem n [] f b l m = absurd m
  take-mem zero (r ∷ rs) f b l m = absurd (omega (arith, live-counts (r ∷ rs) l m))
  take-mem (suc n) (r ∷ rs) f b l (inl e) = inl e
  take-mem (suc n) (r ∷ rs) f b l (inr m) = elim (Bool-cases (is_live now r)) [
    | inl live ↦ inr (take-mem n rs f.1 (ground (arith, live, b)) l m)
    | inr dead ↦ absurd (omega (arith, f.0 dead, live-counts rs l m))
  ]

  to_row-mem :
      (rows : List CodeEntry) → Any (λ x. c ≡ x) rows → Any (λ x. to_row c ≡ x) (map to_row rows)
  to_row-mem [] m = absurd m
  to_row-mem (r ∷ rs) (inl e) = inl (ap to_row e)
  to_row-mem (r ∷ rs) (inr m) = inr (to_row-mem rs m)

-- While no more codes are live than the query returns rows, each live code is among the candidates,
-- however many dead rows the retention window still holds.
pub live_code_is_candidate :
    (now : Instant) (retain : Duration) (s : DeviceStore) (c : CodeEntry)
    → count_where (is_live now) s.pairing_codes ≤ max_candidate_codes
    → is_live now c ≡ true
    → Any (λ r. c ≡ r) s.pairing_codes
    → Any (λ r. to_row c ≡ r) (candidate_pairing_codes now retain s)
unfolding candidate_pairing_codes
live_code_is_candidate now retain s c few live m =
    let rows = select (is_retained now retain) s.pairing_codes in
    to_row-mem now c (take max_candidate_codes (order_codes now rows)) (
      take-mem now c max_candidate_codes (order_codes now rows) (order_codes-LiveFirst now rows)
        (omega (
          arith,
          count-order_codes now rows,
          count_where-select_le (is_retained now retain) (is_live now) s.pairing_codes,
        ))
        live
        (order_codes-mem now c rows
          (select-mem now c (is_retained now retain) s.pairing_codes (ground (arith, live)) m)))

-- Issuing a code keeps the number of codes that are live at a given time, from the creation on,
-- within the limit that it is given.
pub insert_live_bound :
    (c : NewCode) (s : DeviceStore) (now : Instant)
    → c.created_at ≤ now
    → count_where (is_live now) s.pairing_codes ≤ c.live_code_limit
    → count_where (is_live now) (insert_pairing_code c s).1.pairing_codes ≤ c.live_code_limit
unfolding insert_pairing_code
insert_live_bound c s now later h =
    let kept = select (is_retained c.created_at c.retain_codes_for) s.pairing_codes in
    ground (
      arith,
      h,
      count_where-append (is_live now) kept (new_code c ∷ []),
      count_where_mono (is_live now) (is_live c.created_at) (λ r e. ground arith) kept,
    )
