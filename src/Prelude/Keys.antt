-- ===== src/Prelude/Keys.antt =====
-- A dict has a key once: what setting keeps of that, and a dict that is built anew from its items.
use mathlib.Core.Path.{◌≡◌, refl, sym, ap, ◌∙◌, subst}
use mathlib.Core.List.{[], ◌∷◌, ◌++◌, append_assoc}
use mathlib.Core.Option.{Option, none, some}
use mathlib.Core.Logic.{inl, inr}
use native.Mathlib.Omega.{arith}
use us_stock_helper.Prelude.Tests.{Bool-cases, if◌then◌else◌}
use us_stock_helper.Prelude.Texts.{Text, text_eq, text_eq_refl, eq-text_eq}
use us_stock_helper.Prelude.Lists.{All}
use us_stock_helper.Prelude.Dicts.{Dict, get_key, set_key, get_key-set_other}

pub text_eq_sym : (a b : Text) → text_eq a b ≡ text_eq b a
unfolding text_eq
text_eq_sym [] [] = refl
text_eq_sym [] (b ∷ bs) = refl
text_eq_sym (a ∷ as_) [] = refl
text_eq_sym (a ∷ as_) (b ∷ bs) = ground (arith, text_eq_sym as_ bs)

module _ {V : Type 0} where
  abbrev pub IsDict : Dict V → Type 0
  IsDict [] = Unit
  IsDict ((k, v) ∷ rest) = (get_key k rest ≡ none) × IsDict rest

  pub set_key-IsDict : (k : Text) (v : V) (d : Dict V) → IsDict d → IsDict (set_key k v d)
  unfolding set_key get_key
  set_key-IsDict k v [] h = (refl, tt)
  set_key-IsDict k v ((j, w) ∷ items) (fresh, rest) = elim (Bool-cases (text_eq j k)) [
    | inl same ↦ rw same (fresh, rest)
    | inr other ↦ rw other (
      get_key-set_other j k v items (text_eq_sym k j ∙ other) ∙ fresh,
      set_key-IsDict k v items rest,
    )
  ]

  -- A new key goes to the end.
  set_key-new :
      (k : Text) (v : V) (d : Dict V) → get_key k d ≡ none → set_key k v d ≡ d ++ (k, v) ∷ []
  unfolding set_key get_key
  set_key-new k v [] h = refl
  set_key-new k v ((j, w) ∷ items) h = ground (arith, set_key-new k v items)

  found_later : (k : Text) (v : V) (d rest : Dict V) → get_key k (d ++ (k, v) ∷ rest) ≡ none → ⊥
  unfolding get_key
  found_later k v [] rest h = ground (arith, text_eq_refl k)
  found_later k v ((j, w) ∷ items) rest h = ground (arith, found_later k v items rest)

  IsDict-before :
      (k : Text) (v : V) (d rest : Dict V) → IsDict (d ++ (k, v) ∷ rest) → get_key k d ≡ none
  unfolding get_key
  IsDict-before k v [] rest h = refl
  IsDict-before k v ((j, w) ∷ items) rest (fresh, h) = elim (Bool-cases (text_eq j k)) [
    | inl same ↦ absurd (
        found_later k v items rest
          (subst (λ i. get_key i (items ++ (k, v) ∷ rest) ≡ none) (eq-text_eq j k same) fresh))
    | inr other ↦ rw other (IsDict-before k v items rest h)
  ]

  -- The dict that the items are set in, one after the other, is what they are appended to.
  pub rebuild :
      (k : Text) (v : V) (d rest : Dict V)
      → IsDict (d ++ (k, v) ∷ rest)
      → set_key k v d ++ rest ≡ d ++ (k, v) ∷ rest
  rebuild k v d rest h =
      ap (λ l. l ++ rest) (set_key-new k v d (IsDict-before k v d rest h))
      ∙ append_assoc d ((k, v) ∷ []) rest

some_or : {V : Type 0} → V → Option V → V
some_or v none = v
some_or v (some w) = w

pub some_inj : {V : Type 0} {v w : V} → some v ≡ some w → v ≡ w
unfolding some_or
some_inj {v = v} h = ap (some_or v) h

module _ {V : Type 0} where
  -- What all values of a dict satisfy, the one under a key does, and setting keeps.
  pub All-set_key :
      (Q : V → Type 0) (k : Text) (v : V) (d : Dict V)
      → Q v
      → All (λ e. Q (e.1)) d
      → All (λ e. Q (e.1)) (set_key k v d)
  unfolding set_key
  All-set_key Q k v [] q h = (q, tt)
  All-set_key Q k v ((j, w) ∷ items) q (first, rest) = elim (Bool-cases (text_eq j k)) [
    | inl same ↦ rw same (q, rest)
    | inr other ↦ rw other (first, All-set_key Q k v items q rest)
  ]

  pub All-get_key :
      (Q : V → Type 0) (k : Text) (v : V) (d : Dict V)
      → All (λ e. Q (e.1)) d
      → get_key k d ≡ some v
      → Q v
  unfolding get_key
  All-get_key Q k v [] h e = cc
  All-get_key Q k v ((j, w) ∷ items) (first, rest) e = elim (Bool-cases (text_eq j k)) [
    | inl same ↦
        subst Q (some_inj (subst (λ b. (if b then some w else get_key k items) ≡ some v) same e))
          first
    | inr other ↦
        All-get_key Q k v items rest
          (subst (λ b. (if b then some w else get_key k items) ≡ some v) other e)
  ]

module _ {V : Type 0} where
  -- The same of the items, with their keys.
  pub All-set_entry :
      (P : Text → V → Type 0) (k : Text) (v : V) (d : Dict V)
      → P k v
      → All (λ e. P e.0 e.1) d
      → All (λ e. P e.0 e.1) (set_key k v d)
  unfolding set_key
  All-set_entry P k v [] p h = (p, tt)
  All-set_entry P k v ((j, w) ∷ items) p (first, rest) = elim (Bool-cases (text_eq j k)) [
    | inl same ↦ rw same (subst (λ i. P i v) (sym (eq-text_eq j k same)) p, rest)
    | inr other ↦ rw other (first, All-set_entry P k v items p rest)
  ]

  pub All-get_entry :
      (P : Text → V → Type 0) (k : Text) (v : V) (d : Dict V)
      → All (λ e. P e.0 e.1) d
      → get_key k d ≡ some v
      → P k v
  unfolding get_key
  All-get_entry P k v [] h found = cc
  All-get_entry P k v ((j, w) ∷ items) (first, rest) found = elim (Bool-cases (text_eq j k)) [
    | inl same ↦
        subst (P k)
          (some_inj (subst (λ b. (if b then some w else get_key k items) ≡ some v) same found))
          (subst (λ i. P i w) (eq-text_eq j k same) first)
    | inr other ↦
        All-get_entry P k v items rest
          (subst (λ b. (if b then some w else get_key k items) ≡ some v) other found)
  ]
