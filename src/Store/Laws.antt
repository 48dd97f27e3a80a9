-- ===== src/Store/Laws.antt =====
-- internal/store/json_store.go: what `Update` guarantees to its callers.
use nrcc.Base.{inl, inr, Result-cases, ◌≡◌, refl, Result, ok, err, ◌>>=◌}
use nrcc.Store.{File, missing, unreadable, holds, Write, written, fails, publish, update}

-- What holds of the value that the next callback is given.
abbrev pub Held {ℓ κ μ} : {E : Type ℓ} {T : Type κ} → T → (T → Type μ) → File E T → Type μ
Held zero_value P missing = P zero_value
Held zero_value P (unreadable e) = Unit
Held zero_value P (holds t) = P t

-- The value that the next callback is given, if the file can be read.
abbrev pub current {ℓ κ} : {E : Type ℓ} {T : Type κ} → T → File E T → Result E T
current zero_value missing = ok zero_value
current zero_value (unreadable e) = err e
current zero_value (holds t) = ok t

module _ {ℓ κ μ} {E : Type ℓ} {T : Type κ} {R : Type μ} where
  publish_error :
      (w : Write E) (f : File E T) (r : Result E (R × T)) (e : E)
      → (publish w f r).1 ≡ err e
      → (publish w f r).0 ≡ f
  unfolding publish
  publish_error w f (err e') e h = refl
  publish_error written f (ok (r, t)) e h = cc
  publish_error (fails e') f (ok (r, t)) e h = refl

  -- An `Update` that reports an error leaves the file as it was.
  pub update_error :
      (zero_value : T) (w : Write E) (fn : T → Result E (R × T)) (f : File E T) (e : E)
      → (update zero_value w fn f).1 ≡ err e
      → (update zero_value w fn f).0 ≡ f
  unfolding update
  update_error z w fn missing e h = publish_error w missing (fn z) e h
  update_error z w fn (unreadable e') e h = refl
  update_error z w fn (holds t) e h = publish_error w (holds t) (fn t) e h

  publish_ok :
      (w : Write E) (f : File E T) (r : Result E (R × T)) (x : R)
      → (publish w f r).1 ≡ ok x
      → (t : T) × (r ≡ ok (x, t)) × ((publish w f r).0 ≡ holds t)
  unfolding publish
  publish_ok w f (err e) x h = cc
  publish_ok written f (ok (r, t)) x h = (t, cc, refl)
  publish_ok (fails e) f (ok (r, t)) x h = cc

  -- One that succeeds ran the callback on the current value and left what it returned.
  pub update_ok :
      (zero_value : T) (w : Write E) (fn : T → Result E (R × T)) (f : File E T) (x : R)
      → (update zero_value w fn f).1 ≡ ok x
      → (t : T) × ((current zero_value f >>= fn) ≡ ok (x, t))
        × ((update zero_value w fn f).0 ≡ holds t)
  unfolding update
  update_ok z w fn missing x h = publish_ok w missing (fn z) x h
  update_ok z w fn (unreadable e) x h = cc
  update_ok z w fn (holds t) x h = publish_ok w (holds t) (fn t) x h

  publish-Held {ν} :
      (z : T) (P : T → Type ν) (w : Write E) (f : File E T) (r : Result E (R × T))
      → Held z P f
      → ((x : R) (t : T) → r ≡ ok (x, t) → P t)
      → Held z P (publish w f r).0
  unfolding publish
  publish-Held z P w f (err e) h keep = h
  publish-Held z P written f (ok (r, t)) h keep = keep r t refl
  publish-Held z P (fails e) f (ok (r, t)) h keep = h

  -- What the callback keeps is kept across `Update`, whatever the disk does.
  pub update-Held {ν} :
      (z : T) (P : T → Type ν) (w : Write E) (fn : T → Result E (R × T)) (f : File E T)
      → ((t : T) (x : R) (t' : T) → P t → fn t ≡ ok (x, t') → P t')
      → Held z P f
      → Held z P (update z w fn f).0
  unfolding update
  update-Held z P w fn missing keep h =
      publish-Held z P w missing (fn z) h (λ x t e. keep z x t h e)
  update-Held z P w fn (unreadable e) keep h = tt
  update-Held z P w fn (holds t) keep h =
      publish-Held z P w (holds t) (fn t) h (λ x t' e. keep t x t' h e)

  -- A file that could be read can be read afterwards.
  pub update_holds :
      (z : T) (w : Write E) (fn : T → Result E (R × T)) (t : T)
      → (t' : T) × ((update z w fn (holds t)).0 ≡ holds t')
  unfolding update publish
  update_holds z written fn t = elim (Result-cases (fn t)) [
    | inr (e, bad) ↦ (t, rw bad refl)
    | inl ((x, t'), good) ↦ (t', rw good refl)
  ]
  update_holds z (fails e) fn t = elim (Result-cases (fn t)) [
    | inr (e', bad) ↦ (t, rw bad refl)
    | inl ((x, t'), good) ↦ (t, rw good refl)
  ]
