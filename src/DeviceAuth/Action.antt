-- ===== src/DeviceAuth/Action.antt =====
-- A method of the service on a store: it returns or raises, and what its transactions have committed
-- stays committed either way.
use us_stock_helper.DeviceAuth.Errors.{Result, ok, raised}
use us_stock_helper.DeviceAuth.Store.Rows.{DeviceStore}

abbrev pub Action : Type 0 → Type 0
Action A = DeviceStore → Result A × DeviceStore

module _ {A : Type 0} where
  pub pure : A → Action A
  pure a s = (ok a, s)

  pub lift : Result A → Action A
  lift r s = (r, s)

  -- a query
  pub gets : (DeviceStore → A) → Action A
  gets f s = (ok (f s), s)

  -- a transaction that raises nothing
  pub call : (DeviceStore → A × DeviceStore) → Action A
  call f s = let (a, t) = f s in (ok a, t)

pub modify : (DeviceStore → DeviceStore) → Action (Unit {0})
modify f s = (ok tt, f s)

-- What follows a call: nothing, if it raised.
abbrev pub continue : {A B : Type 0} → Result A → (A → Action B) → Action B
continue (ok a) f s = f a s
continue (raised e) f s = (raised e, s)

infixl 5 ◌>>=◌ ◌>>◌
-- to open this opens the other actions
unfoldable pub ◌>>=◌ : {A B : Type 0} → Action A → (A → Action B) → Action B
unfolding pure lift gets call modify
◌>>=◌ m f s = let (r, t) = m s in continue r f t

abbrev pub ◌>>◌ : {A B : Type 0} → Action A → Action B → Action B
m >> k = m >>= λ _. k
