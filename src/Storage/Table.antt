-- ===== src/Storage/Table.antt =====
-- A table with a text primary key (storage/database.py): rows in insertion order, the lookup by
-- key, and `INSERT … ON CONFLICT(key) DO UPDATE`.
use agentic_test_system.Prelude.{
  String, ◌≡◌, refl, Bool, true, false, ◌&&◌, Option, none, some, List, [], ◌∷◌, ◌++◌, arith, ◌==◌,
  string_eq, if◌then◌else◌, any, all, is_some,
}
use text.Mathlib.TextEquality.{eq_iff}

module _ {A : Type 0} (key : A → String) where
  -- SELECT … WHERE key = ?
  unfoldable pub find_row : String → List A → Option A
  find_row k [] = none
  find_row k (x ∷ xs) = if key x == k then some x else find_row k xs

  -- INSERT … ON CONFLICT(key) DO UPDATE SET …
  unfoldable pub upsert : A → List A → List A
  upsert r [] = r ∷ []
  upsert r (x ∷ xs) = if key x == key r then r ∷ xs else x ∷ upsert r xs

  pub find_row-upsert :
      (k : String) (r : A) (xs : List A)
      → find_row k (upsert r xs) ≡ (if key r == k then some r else find_row k xs)
  unfolding find_row upsert
  find_row-upsert k r [] = refl
  find_row-upsert k r (x ∷ xs) =
      ground
        (arith, eq_iff (key x) (key r), eq_iff (key x) k, eq_iff (key r) k, find_row-upsert k r xs)

  pub find_row-append :
      (k : String) (r : A) (xs : List A)
      → find_row k (xs ++ r ∷ [])
        ≡ (if is_some (find_row k xs) then find_row k xs else if key r == k then some r else none)
  unfolding find_row
  find_row-append k r [] = refl
  find_row-append k r (x ∷ xs) = ground (arith, find_row-append k r xs)

  pub key_of_find_row : (k : String) (xs : List A) {x : A} → find_row k xs ≡ some x → key x ≡ k
  unfolding find_row
  key_of_find_row k [] h = ground arith
  key_of_find_row k (y ∷ xs) {x} h = ground (arith, eq_iff (key y) k, key_of_find_row k xs {x = x})

  -- What holds of every row and of the new row holds of every row after the statement.
  pub all-upsert :
      (p : A → Bool) (r : A) (xs : List A)
      → p r ≡ true
      → all p xs ≡ true
      → all p (upsert r xs) ≡ true
  unfolding upsert
  all-upsert p r [] hr h = ground arith
  all-upsert p r (x ∷ xs) hr h = ground (arith, all-upsert p r xs hr)

  -- A row that is found satisfies what holds of every row.
  pub all-find_row :
      (p : A → Bool) (k : String) (xs : List A) {x : A}
      → all p xs ≡ true
      → find_row k xs ≡ some x
      → p x ≡ true
  unfolding find_row
  all-find_row p k [] h e = ground arith
  all-find_row p k (y ∷ xs) {x} h e = ground (arith, all-find_row p k xs {x = x})

module _ {A : Type 0} where
  pub all_mono :
      (p q : A → Bool) (xs : List A)
      → ((x : A) → p x ≡ true → q x ≡ true)
      → all p xs ≡ true
      → all q xs ≡ true
  all_mono p q [] f h = refl
  all_mono p q (x ∷ xs) f h = ground (arith, f x, all_mono p q xs f)

  pub all-append : (p : A → Bool) (xs ys : List A) → all p (xs ++ ys) ≡ (all p xs && all p ys)
  all-append p [] ys = refl
  all-append p (x ∷ xs) ys = ground (arith, all-append p xs ys)

  -- The same where the step may use that no row passes a test.
  pub all_mono_none :
      (p q s : A → Bool) (xs : List A)
      → ((x : A) → p x ≡ true → s x ≡ false → q x ≡ true)
      → any s xs ≡ false
      → all p xs ≡ true
      → all q xs ≡ true
  all_mono_none p q s [] f n h = refl
  all_mono_none p q s (x ∷ xs) f n h = ground (arith, f x, all_mono_none p q s xs f)

  -- One more row at the end.
  pub all-append_one :
      (p : A → Bool) (xs : List A) (x : A)
      → p x ≡ true
      → all p xs ≡ true
      → all p (xs ++ x ∷ []) ≡ true
  all-append_one p xs x h k = ground (arith, all-append p xs (x ∷ []))
