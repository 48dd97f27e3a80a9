-- ===== src/Store.antt =====
-- internal/store/json_store.go: one JSON file behind a lock.
pub mod Laws
use nrcc.Base.{Result, ok, err}

-- What stands at the store's path, as a read finds it.
pub data File {ℓ κ} (E : Type ℓ) (T : Type κ) : Type (ℓ ⊔ κ) where
  missing : File E T
  unreadable : E → File E T
  holds : T → File E T

-- What the disk does with the next write: it goes through, or it fails before the rename and the
-- file stays as it was.
pub data Write {ℓ} (E : Type ℓ) : Type ℓ where
  written : Write E
  fails : E → Write E

module _ {ℓ κ} {E : Type ℓ} {T : Type κ} where
  -- `Read`, with the error that the caller sees for a missing file.
  unfoldable pub read : E → File E T → Result E T
  read not_exist missing = err not_exist
  read not_exist (unreadable e) = err e
  read not_exist (holds t) = ok t

  unfoldable pub publish {μ} :
      {R : Type μ} → Write E → File E T → Result E (R × T) → File E T × Result E R
  publish w f (err e) = (f, err e)
  publish written f (ok (r, t)) = (holds t, ok r)
  publish (fails e) f (ok (r, t)) = (f, err e)

  -- `Update`: read (a missing file is the zero value), run the callback, write. The callback's first
  -- part is what it leaves in the variables that it captures.
  unfoldable pub update {μ} :
      {R : Type μ} → T → Write E → (T → Result E (R × T)) → File E T → File E T × Result E R
  unfolding publish
  update zero_value w fn missing = publish w missing (fn zero_value)
  update zero_value w fn (unreadable e) = (unreadable e, err e)
  update zero_value w fn (holds t) = publish w (holds t) (fn t)
