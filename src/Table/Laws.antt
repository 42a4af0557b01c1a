-- ===== src/Table/Laws.antt =====
-- Laws of the statements, for rows that are found by a key.
use personal_world.Prelude.{
  ℕ, Bool, ◌≡◌, refl, Option, none, some, List, [], ◌∷◌, ◌++◌, ◌&&◌, ◌==◌, nat_eq, nat_beq_iff,
  if◌then◌else◌, arith,
}
use personal_world.Table.Keyed.{update_where, count_where, find_by, IsKeyed}

abbrev pub or_else {ℓ} : {A : Type ℓ} → Option A → Option A → Option A
or_else none o = o
or_else (some a) o = some a

abbrev pub map_row {ℓ} : {A : Type ℓ} → (A → Bool) → (A → A) → Option A → Option A
map_row p f none = none
map_row p f (some x) = some (if p x then f x else x)

abbrev pub keep_row {ℓ} : {A : Type ℓ} → (A → Bool) → Option A → Option A
keep_row p none = none
keep_row p (some x) = if p x then none else some x

abbrev pub row_count {ℓ} : {A : Type ℓ} → (A → Bool) → Option A → ℕ
row_count p none = 0
row_count p (some x) = if p x then 1 else 0

module _ {ℓ} {A : Type ℓ} (key : A → ℕ) where
  pub find_by-append :
      (k : ℕ) (xs ys : List A)
      → find_by key k (xs ++ ys) ≡ or_else (find_by key k xs) (find_by key k ys)
  unfolding find_by
  find_by-append k [] ys = refl
  find_by-append k (x ∷ xs) ys = ground (arith, find_by-append k xs ys)

  -- An UPDATE that leaves the key alone is seen row by row.
  pub find_by-update_where :
      (p : A → Bool) (f : A → A)
      → ((x : A) → key (f x) ≡ key x)
      → (k : ℕ) (xs : List A) → find_by key k (update_where p f xs) ≡ map_row p f (find_by key k xs)
  unfolding find_by update_where
  find_by-update_where p f same k [] = refl
  find_by-update_where p f same k (x ∷ xs) =
      ground (arith, same x, find_by-update_where p f same k xs)

  pub IsKeyed-update_where :
      (p : A → Bool) (f : A → A)
      → ((x : A) → key (f x) ≡ key x)
      → (xs : List A) → IsKeyed key xs
      → IsKeyed key (update_where p f xs)
  unfolding update_where
  IsKeyed-update_where p f same [] h = h
  IsKeyed-update_where p f same (x ∷ xs) h = (
    ground (arith, same x, find_by-update_where p f same (key x) xs, h.0),
    IsKeyed-update_where p f same xs h.1,
  )

  pub IsKeyed-snoc :
      (xs : List A) (r : A)
      → IsKeyed key xs
      → find_by key (key r) xs ≡ none
      → IsKeyed key (xs ++ r ∷ [])
  unfolding find_by
  IsKeyed-snoc [] r h fresh = (refl, tt)
  IsKeyed-snoc (x ∷ xs) r h fresh = (
    ground (arith, find_by-append (key x) xs (r ∷ []), h.0),
    IsKeyed-snoc xs r h.1 (ground arith),
  )

  pub find_by-key : (k : ℕ) (xs : List A) {r : A} → find_by key k xs ≡ some r → key r ≡ k
  unfolding find_by
  find_by-key k [] h = ground arith
  find_by-key k (x ∷ xs) {r = r} h = ground (arith, find_by-key k xs {r = r})

  -- The row count of an UPDATE by key says whether the row is there and meets the rest of the test.
  pub count_where-by_key :
      (k : ℕ) (p : A → Bool) (xs : List A)
      → IsKeyed key xs
      → count_where (λ x. (key x == k) && p x) xs ≡ row_count p (find_by key k xs)
  unfolding find_by count_where
  count_where-by_key k p [] h = refl
  count_where-by_key k p (x ∷ xs) h = ground (arith, count_where-by_key k p xs, h.0)

-- Under two unique keys, a row found by one is the row that the other finds.
pub find_by-find_by {ℓ} :
    {A : Type ℓ} (key other : A → ℕ) (k : ℕ) (xs : List A) {r : A}
    → IsKeyed other xs
    → find_by key k xs ≡ some r
    → find_by other (other r) xs ≡ some r
unfolding find_by
find_by-find_by key other k [] u h = cc
find_by-find_by key other k (x ∷ xs) {r = r} u h =
    ground (arith, find_by-find_by key other k xs {r = r}, nat_beq_iff (other x) (other r), u.0)
