-- ===== src/Tx.antt =====
-- Fallible operations on a state, and `Database.write_tx` of worlds/db.py: an exception rolls the
-- transaction back and goes on to the caller, otherwise what it wrote is committed.
use personal_world.Prelude.{Bool, true, false, ◌≡◌, refl, ap, arith}

-- A Python call that returns a value or raises.
pub data Result {ℓ κ} (E : Type ℓ) (A : Type κ) : Type (ℓ ⊔ κ) where
  ok : A → Result E A
  err : E → Result E A

pub ok_inj : {E A : Type 0} {a b : A} → ◌≡◌ {A = Result E A} (ok a) (ok b) → a ≡ b
ok_inj {E} {A} {a} h = ap (λ (o : Result E A). elim o [ ok x ↦ x | err e ↦ a ]) h

-- What was written before a raise stays written until `write_tx` takes it back.
abbrev pub Op : Type 0 → Type 0 → Type 0 → Type 0
Op S E A = S → Result E A × S

module _ {S E A B : Type 0} where
  abbrev pub resume : Result E A → (A → Op S E B) → Op S E B
  resume (ok a) f s = f a s
  resume (err e) f s = (err e, s)

  infixl 10 ◌>>=◌ ◌>>◌
  abbrev pub ◌>>=◌ : Op S E A → (A → Op S E B) → Op S E B
  ◌>>=◌ m f s = resume (m s).0 f (m s).1

  abbrev pub ◌>>◌ : Op S E A → Op S E B → Op S E B
  ◌>>◌ m n s = resume (m s).0 (λ _. n) (m s).1

module _ {S E A : Type 0} where
  abbrev pub pure : A → Op S E A
  pure a s = (ok a, s)

  abbrev pub raise : E → Op S E A
  raise e s = (err e, s)

  abbrev pub lift : Result E A → Op S E A
  lift r s = (r, s)

  abbrev pub gets : (S → A) → Op S E A
  gets f s = (ok (f s), s)

  abbrev rollback : S → Result E A → S → Result E A × S
  rollback s (ok a) t = (ok a, t)
  rollback s (err e) t = (err e, s)

  unfoldable pub write_tx : Op S E A → Op S E A
  write_tx body s = rollback s (body s).0 (body s).1

module _ {S E : Type 0} where
  -- `if not test: raise e`
  abbrev pub guard : Bool → E → Op S E (Unit {0})
  guard true e s = (ok tt, s)
  guard false e s = (err e, s)

  abbrev pub modify : (S → S) → Op S E (Unit {0})
  modify f s = (ok tt, f s)

-- An operation that ends well went well at each step.
pub when_done :
    {S E A B C : Type 0} (m : Op S E A) (f : A → Op S E B) (s : S) {b : B}
    → ((m >>= f) s).0 ≡ ok b
    → ((a : A) → (m s).0 ≡ ok a → (f a (m s).1).0 ≡ ok b → C)
    → C
when_done {S} {E} {A} {B} {C} m f s {b} h k = after (m s).0 refl h
  where
    after : (o : Result E A) → (m s).0 ≡ o → (resume o f (m s).1).0 ≡ ok b → C
    after (ok a) e l = k a e l
    after (err x) e l = absurd (ground (arith, l))
