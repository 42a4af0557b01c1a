-- ===== src/Table/Keyed.antt =====
-- SELECT, UPDATE, DELETE and their row counts.
use personal_world.Prelude.{
  ℕ, suc, Bool, ◌≡◌, Option, none, some, List, [], ◌∷◌, ◌==◌, nat_eq, if◌then◌else◌,
}

module _ {ℓ} {A : Type ℓ} where
  -- SELECT * FROM t WHERE p
  unfoldable pub select_where : (A → Bool) → List A → List A
  select_where p [] = []
  select_where p (x ∷ xs) = if p x then x ∷ select_where p xs else select_where p xs

  -- UPDATE t SET f WHERE p
  unfoldable pub update_where : (A → Bool) → (A → A) → List A → List A
  update_where p f [] = []
  update_where p f (x ∷ xs) = (if p x then f x else x) ∷ update_where p f xs

  -- DELETE FROM t WHERE p
  unfoldable pub delete_where : (A → Bool) → List A → List A
  delete_where p [] = []
  delete_where p (x ∷ xs) = if p x then delete_where p xs else x ∷ delete_where p xs

  -- `cur.rowcount`, and SELECT count(*) FROM t WHERE p
  unfoldable pub count_where : (A → Bool) → List A → ℕ
  count_where p [] = 0
  count_where p (x ∷ xs) = if p x then suc (count_where p xs) else count_where p xs

  module _ (key : A → ℕ) where
    -- SELECT * FROM t WHERE key=?, then `fetchone()`
    unfoldable pub find_by : ℕ → List A → Option A
    find_by k [] = none
    find_by k (x ∷ xs) = if key x == k then some x else find_by k xs

    -- The table meets its PRIMARY KEY (or UNIQUE) constraint.
    abbrev pub IsKeyed : List A → Type ℓ
    IsKeyed [] = Unit
    IsKeyed (x ∷ xs) = (find_by (key x) xs ≡ none) × IsKeyed xs
