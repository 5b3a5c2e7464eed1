-- ===== src/Prelude/Dicts.antt =====
-- A dict with text keys, as the list of its items in the order of insertion.
use mathlib.Core.Path.{◌≡◌, refl}
use mathlib.Core.Bool.{false}
use mathlib.Core.List.{List, [], ◌∷◌}
use mathlib.Core.Option.{Option, none, some}
use native.Mathlib.Omega.{arith}
use us_stock_helper.Prelude.Tests.{if◌then◌else◌}
use us_stock_helper.Prelude.Texts.{Text, text_eq, text_eq_refl, eq-text_eq}

abbrev pub Dict {ℓ} : Type ℓ → Type ℓ
Dict V = List (Text × V)

module _ {ℓ} {V : Type ℓ} where
  -- `d.get(key)`
  unfoldable pub get_key : Text → Dict V → Option V
  get_key k [] = none
  get_key k ((j, v) ∷ rest) = if text_eq j k then some v else get_key k rest

  -- `d[key] = value`: a key that is there keeps its place.
  unfoldable pub set_key : Text → V → Dict V → Dict V
  set_key k v [] = (k, v) ∷ []
  set_key k v ((j, w) ∷ items) =
      let rest = set_key k v items in if text_eq j k then (j, v) ∷ items else (j, w) ∷ rest

  pub get_key-set_key : (k : Text) (v : V) (d : Dict V) → get_key k (set_key k v d) ≡ some v
  unfolding get_key set_key
  get_key-set_key k v [] = rw (text_eq_refl k)
  get_key-set_key k v ((j, w) ∷ rest) = ground (arith, get_key-set_key k v rest)

  pub get_key-set_other :
      (i k : Text) (v : V) (d : Dict V)
      → text_eq k i ≡ false
      → get_key i (set_key k v d) ≡ get_key i d
  unfolding get_key set_key
  get_key-set_other i k v [] h = rw h
  get_key-set_other i k v ((j, w) ∷ rest) h =
      ground (arith, eq-text_eq j k, get_key-set_other i k v rest)

module _ {ℓ} {V : Type ℓ} where
  -- `del d[key]`: a dict has a key once, so that all items with the key are that one.
  unfoldable pub del_key : Text → Dict V → Dict V
  del_key k [] = []
  del_key k ((j, v) ∷ items) =
      let rest = del_key k items in if text_eq j k then rest else (j, v) ∷ rest

  pub get_key-del_key : (k : Text) (d : Dict V) → get_key k (del_key k d) ≡ none
  unfolding get_key del_key
  get_key-del_key k [] = refl
  get_key-del_key k ((j, v) ∷ rest) = ground (arith, get_key-del_key k rest)

  pub get_key-del_other :
      (i k : Text) (d : Dict V) → text_eq k i ≡ false → get_key i (del_key k d) ≡ get_key i d
  unfolding get_key del_key
  get_key-del_other i k [] h = refl
  get_key-del_other i k ((j, v) ∷ rest) h =
      ground (arith, eq-text_eq j k, get_key-del_other i k rest)
