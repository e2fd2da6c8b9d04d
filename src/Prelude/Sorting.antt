-- ===== src/Prelude/Sorting.antt =====
-- `sorted(xs, key=…)` and ORDER BY: a stable insertion sort by a Boolean order.
mod TextOrder
use mathlib.Core.List.{Perm}
use mathlib.Core.List.Perm
use mathlib.Core.Path.{◌≡◌, refl}
use mathlib.Core.Logic.{◌⊎◌, inl, inr}
use mathlib.Core.Bool.{Bool, true, false, ◌||◌, ◌&&◌}
use mathlib.Core.List.{List, [], ◌∷◌, ◌++◌}
use mathlib.Core.Option.{Option, none, some}
use native.Mathlib.Omega.{arith}
use agentic_test_system.Prelude.Tests.{if◌then◌else◌, Bool-cases}
use agentic_test_system.Prelude.Lists.{filter, All, any, All-map}
pub use TextOrder.*

module _ {A : Type 0} (le : A → A → Bool) where
  insert_sorted : A → List A → List A
  insert_sorted x [] = x ∷ []
  insert_sorted x (y ∷ ys) = if le x y then x ∷ y ∷ ys else y ∷ insert_sorted x ys

  unfoldable pub sort_by : List A → List A
  unfolding insert_sorted
  sort_by [] = []
  sort_by (x ∷ xs) = insert_sorted x (sort_by xs)

  -- Each element stands before those behind it.
  abbrev pub IsSorted : List A → Type 0
  IsSorted [] = Unit
  IsSorted (x ∷ xs) = All (λ y. le x y ≡ true) xs × IsSorted xs

  insert_sorted-perm : (x : A) (xs : List A) → Perm (insert_sorted x xs) (x ∷ xs)
  unfolding insert_sorted
  insert_sorted-perm x [] = Perm.refl (x ∷ [])
  insert_sorted-perm x (y ∷ ys) = elim (Bool-cases (le x y)) [
    | inl e ↦ rw e (Perm.refl (x ∷ y ∷ ys))
    | inr e ↦ rw e (Perm.trans (Perm.cons y (insert_sorted-perm x ys)) (Perm.swap x y ys))
  ]

  -- Sorting loses nothing, adds nothing and repeats nothing.
  pub sort_by-perm : (xs : List A) → Perm (sort_by xs) xs
  unfolding sort_by
  sort_by-perm [] = Perm.refl []
  sort_by-perm (x ∷ xs) =
      Perm.trans (insert_sorted-perm x (sort_by xs)) (Perm.cons x (sort_by-perm xs))

  any-insert_sorted :
      (p : A → Bool) (x : A) (xs : List A) → any p (insert_sorted x xs) ≡ (p x || any p xs)
  unfolding insert_sorted
  any-insert_sorted p x [] = refl
  any-insert_sorted p x (y ∷ ys) = ground (arith, any-insert_sorted p x ys)

  pub any-sort_by : (p : A → Bool) (xs : List A) → any p (sort_by xs) ≡ any p xs
  unfolding sort_by
  any-sort_by p [] = refl
  any-sort_by p (x ∷ xs) = rw (any-insert_sorted p x (sort_by xs), any-sort_by p xs)

  All-insert_sorted :
      (P : A → Type 0) (x : A) (xs : List A) → P x → All P xs → All P (insert_sorted x xs)
  unfolding insert_sorted
  All-insert_sorted P x [] h hs = (h, tt)
  All-insert_sorted P x (y ∷ ys) h hs = elim (Bool-cases (le x y)) [
    | inl e ↦ rw e (h, hs)
    | inr e ↦ rw e (hs.0, All-insert_sorted P x ys h hs.1)
  ]

  pub All-sort_by : (P : A → Type 0) (xs : List A) → All P xs → All P (sort_by xs)
  unfolding sort_by
  All-sort_by P [] h = tt
  All-sort_by P (x ∷ xs) h = All-insert_sorted P x (sort_by xs) h.0 (All-sort_by P xs h.1)

module _ {A : Type 0} (le : A → A → Bool) where
  -- What comes last and belongs in front of all else stands first.
  pub sort_by-append_first :
      (xs : List A) (r : A)
      → All (λ x. le x r ≡ false) xs
      → sort_by le (xs ++ r ∷ []) ≡ r ∷ sort_by le xs
  unfolding sort_by insert_sorted
  sort_by-append_first [] r h = refl
  sort_by-append_first (x ∷ xs) r h = rw (sort_by-append_first xs r h.1) (rw h.0 refl)

module _ {A : Type 0} (le : A → A → Bool) (q : A → Bool)
    (ties : (x y : A) → q x ≡ true → q y ≡ true → le x y ≡ true) where
  filter-insert_sorted :
      (x : A) (xs : List A) → filter q (insert_sorted le x xs) ≡ filter q (x ∷ xs)
  unfolding insert_sorted
  filter-insert_sorted x [] = refl
  filter-insert_sorted x (y ∷ ys) = elim (Bool-cases (le x y)) [
    | inl e ↦ rw e refl
    | inr e ↦ rw e (ground (arith, ties x y, filter-insert_sorted x ys))
  ]

  -- Elements that stand before each other keep their places among themselves.
  pub filter-sort_by : (xs : List A) → filter q (sort_by le xs) ≡ filter q xs
  unfolding sort_by
  filter-sort_by [] = refl
  filter-sort_by (x ∷ xs) =
      ground (arith, filter-insert_sorted x (sort_by le xs), filter-sort_by xs)

-- A total preorder, as the keys of the sources are compared.
pub record IsOrder {A : Type 0} (le : A → A → Bool) : Type 0 where
  pub total : (x y : A) → le x y ≡ false → le y x ≡ true
  pub trans : (x y z : A) → le x y ≡ true → le y z ≡ true → le x z ≡ true

module _ {A : Type 0} (le : A → A → Bool) (o : IsOrder le) where
  insert_sorted-IsSorted :
      (x : A) (xs : List A) → IsSorted le xs → IsSorted le (insert_sorted le x xs)
  unfolding insert_sorted
  insert_sorted-IsSorted x [] s = (tt, tt)
  insert_sorted-IsSorted x (y ∷ ys) s = elim (Bool-cases (le x y)) [
    | inl e ↦ rw e ((e, All-map (λ z yz. o.trans x y z e yz) ys s.0), s)
    | inr e ↦ rw e (
      All-insert_sorted le (λ z. le y z ≡ true) x ys (o.total x y e) s.0,
      insert_sorted-IsSorted x ys s.1,
    )
  ]

  pub sort_by-IsSorted : (xs : List A) → IsSorted le (sort_by le xs)
  unfolding sort_by
  sort_by-IsSorted [] = tt
  sort_by-IsSorted (x ∷ xs) = insert_sorted-IsSorted x (sort_by le xs) (sort_by-IsSorted xs)

-- Lexicographic order of a comparison and a second one that is asked on a tie.
abbrev pub then_by : {A : Type 0} → (A → A → Bool) → (A → A → Bool) → A → A → Bool
then_by first second x y = if first x y then (if first y x then second x y else true) else false

pub then_by-IsOrder :
    {A : Type 0} (first second : A → A → Bool)
    → IsOrder first
    → IsOrder second
    → IsOrder (then_by first second)
then_by-IsOrder first second f s = record {
  total = λ x y h. ground (arith, f.total x y, f.total y x, s.total x y);
  trans = λ x y z h k. ground (arith, f.trans x y z, f.trans y z x, f.trans z x y, s.trans x y z);
}
