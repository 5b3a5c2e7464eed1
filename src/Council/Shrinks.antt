-- ===== src/Council/Shrinks.antt =====
-- council.py, the loop of `build_compact_packet`: each turn leaves less, so that it ends.
use us_stock_helper.Prelude.{
  ℕ, zero, suc, ◌/◌, ◌≤◌, ◌<◌, max, Text, ◌≡◌, ◌≢◌, ◌⊎◌, refl, subst, arith, Bool, true, false,
  ◌||◌, ◌==◌, none, some, List, [], ◌∷◌, length, take, exists, ltb, leb, ltb→lt, ==_iff,
  if◌then◌else◌, inl, inr, Bool-cases, Option-cases,
}
use us_stock_helper.Prelude.Keys.{some_inj}
use us_stock_helper.Council.Types.{is_none_left}
use us_stock_helper.Council.Packet.{
  PacketFact, longest, cut_first, drop_last, cut_once, cut_until, size,
}

length-take_le : (n : ℕ) (t : Text) → length (take n t) ≤ n
length-take_le zero t = omega arith
length-take_le (suc n) [] = omega arith
length-take_le (suc n) (c ∷ t) = omega (arith, length-take_le n t)

module _ {F : Type 0} where
  longest-exists :
      (n : ℕ) (fs : List (PacketFact F))
      → 0 < n
      → n ≡ longest fs
      → exists (λ f. length f.text == n) fs ≡ true
  longest-exists n [] h same = absurd (omega (arith, h, same))
  longest-exists n (f ∷ fs) h same = elim (Bool-cases (length f.text == n)) [
    | inl this ↦ rw this refl
    | inr other ↦ rw other (longest-exists n fs h (ground (arith, other, same)))
  ]

  size-cut_first :
      (n : ℕ) (fs : List (PacketFact F))
      → 72 < n
      → exists (λ f. length f.text == n) fs ≡ true
      → size (cut_first n fs) < size fs
  unfolding cut_first
  size-cut_first n [] h found = cc
  size-cut_first n (f ∷ fs) h found = elim (Bool-cases (length f.text == n)) [
    | inl same ↦ rw same (
        let short = length-take_le (max 72 (length f.text / 2)) f.text in
        let long = (==_iff (length f.text) n).0 same in omega (arith, short, long, h))
    | inr other ↦
        rw other
          (let rest = size-cut_first n fs h (ground (arith, found, other)) in omega (arith, rest))
  ]

  size-drop_last : (fs : List (PacketFact F)) → 0 < length fs → size (drop_last fs) < size fs
  unfolding drop_last
  size-drop_last [] h = omega (arith, h)
  size-drop_last (f ∷ []) h = omega arith
  size-drop_last (f ∷ g ∷ fs) h = omega (arith, size-drop_last (g ∷ fs) (omega arith))

  -- What one turn leaves, by the two tests.
  pub turned :
      (long more : Bool) (a b next : List (PacketFact F))
      → (if long then some a else if more then some b else none) ≡ some next
      → ((long ≡ true) × (a ≡ next)) ⊎ ((more ≡ true) × (b ≡ next))
  turned true more a b next h = inl (refl, some_inj h)
  turned false true a b next h = inr (refl, some_inj h)
  turned false false a b next h = cc

  -- Each turn makes the facts smaller.
  size-cut_once : (fs next : List (PacketFact F)) → cut_once fs ≡ some next → size next < size fs
  unfolding cut_once
  size-cut_once fs next h = elim (turned (ltb 72 (longest fs)) (ltb 1 (length fs)) _ _ next h) [
    | inl (long, same) ↦
        let above = ltb→lt _ _ long in
        subst (λ g. size g < size fs) same
          (size-cut_first (longest fs) fs above
            (longest-exists (longest fs) fs (omega (arith, above)) refl))
    | inr (more, same) ↦
        subst (λ g. size g < size fs) same (size-drop_last fs (ground (arith, more)))
  ]

  -- With fuel above the size, the loop ends.
  pub cut_until-ends :
      (encode : List (PacketFact F) → Text) (maximum fuel : ℕ) (fs : List (PacketFact F))
      → size fs < fuel
      → cut_until encode maximum fuel fs ≢ none
  unfolding cut_until
  cut_until-ends encode maximum zero fs h = absurd (omega (arith, h))
  cut_until-ends encode maximum (suc fuel) fs h =
      elim (Bool-cases (leb (length (encode fs)) maximum || is_none_left fs)) [
        | inl done ↦ rw done (λ e. cc)
        | inr again ↦ rw again (elim (Option-cases (cut_once fs)) [
          | inl stuck ↦ rw stuck (λ e. cc)
          | inr (next, turn) ↦ rw turn (
              cut_until-ends encode maximum fuel next
                (let less = size-cut_once fs next turn in omega (arith, less, h)))
        ])
      ]
