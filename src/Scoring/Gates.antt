-- ===== src/Scoring/Gates.antt =====
-- scoring.py: the gates of a result, without repeats.
use us_stock_helper.Prelude.{
  ◌≡◌, refl, true, false, ◌&&◌, List, [], ◌∷◌, ◌++◌, inl, inr, Bool-cases,
}
use us_stock_helper.Scoring.Types.{
  HardGate, gate_eq, has_gate, unique_after, unique_gates, is_empty_list, stale_data,
  insufficient_evidence, low_liquidity, borrow_unavailable, borrow_data_stale,
}

-- No gate stands in the list twice.
abbrev pub IsDistinct : List HardGate → Type 0
IsDistinct [] = Unit
IsDistinct (g ∷ gates) = (has_gate gates g ≡ false) × IsDistinct gates

gate_eq_refl : (g : HardGate) → gate_eq g g ≡ true
gate_eq_refl stale_data = refl
gate_eq_refl insufficient_evidence = refl
gate_eq_refl low_liquidity = refl
gate_eq_refl borrow_unavailable = refl
gate_eq_refl borrow_data_stale = refl

gate_eq_sound : (g h : HardGate) → gate_eq g h ≡ true → g ≡ h
gate_eq_sound stale_data stale_data e = refl
gate_eq_sound insufficient_evidence insufficient_evidence e = refl
gate_eq_sound low_liquidity low_liquidity e = refl
gate_eq_sound borrow_unavailable borrow_unavailable e = refl
gate_eq_sound borrow_data_stale borrow_data_stale e = refl
gate_eq_sound _ _ e = cc

-- What was seen is not kept again.
seen_dropped :
    (seen gates : List HardGate) (g : HardGate)
    → has_gate seen g ≡ true
    → has_gate (unique_after seen gates) g ≡ false
unfolding unique_after
seen_dropped seen [] g h = refl
seen_dropped seen (x ∷ gates) g h = elim (Bool-cases (has_gate seen x)) [
  | inl old ↦ rw old (seen_dropped seen gates g h)
  | inr new ↦ elim (Bool-cases (gate_eq x g)) [
    | inl same ↦ let one = gate_eq_sound x g same in cc
    | inr other ↦ rw (new, other) (seen_dropped (x ∷ seen) gates g (rw other h))
  ]
]

unique_after-IsDistinct : (seen gates : List HardGate) → IsDistinct (unique_after seen gates)
unfolding unique_after
unique_after-IsDistinct seen [] = tt
unique_after-IsDistinct seen (x ∷ gates) = elim (Bool-cases (has_gate seen x)) [
  | inl old ↦ rw old (unique_after-IsDistinct seen gates)
  | inr new ↦ rw new (
    seen_dropped (x ∷ seen) gates x (rw (gate_eq_refl x) refl),
    unique_after-IsDistinct (x ∷ seen) gates,
  )
]

-- What was not seen is kept when it is given, and nothing else is.
unique_after-keeps :
    (seen gates : List HardGate) (g : HardGate)
    → has_gate seen g ≡ false
    → has_gate (unique_after seen gates) g ≡ has_gate gates g
unfolding unique_after
unique_after-keeps seen [] g h = refl
unique_after-keeps seen (x ∷ gates) g h = elim (Bool-cases (has_gate seen x)) [
  | inl old ↦ elim (Bool-cases (gate_eq x g)) [
    | inl same ↦ let one = gate_eq_sound x g same in cc
    | inr other ↦ rw (old, other) (unique_after-keeps seen gates g h)
  ]
  | inr new ↦ elim (Bool-cases (gate_eq x g)) [
    | inl same ↦ rw (new, same) refl
    | inr other ↦ rw (new, other) (unique_after-keeps (x ∷ seen) gates g (rw other h))
  ]
]

pub unique_gates-IsDistinct : (gates : List HardGate) → IsDistinct (unique_gates gates)
unfolding unique_gates
unique_gates-IsDistinct gates = unique_after-IsDistinct [] gates

pub unique_gates-keeps :
    (gates : List HardGate) (g : HardGate) → has_gate (unique_gates gates) g ≡ has_gate gates g
unfolding unique_gates
unique_gates-keeps gates g = unique_after-keeps [] gates g refl

-- Without repeats there are no gates just when there were none.
pub is_empty_list-unique_gates :
    (given own : List HardGate)
    → is_empty_list (unique_gates (given ++ own)) ≡ (is_empty_list given && is_empty_list own)
unfolding unique_gates unique_after
is_empty_list-unique_gates [] [] = refl
is_empty_list-unique_gates [] (g ∷ own) = refl
is_empty_list-unique_gates (g ∷ given) own = refl
