-- ===== src/Prelude/Sorting/TextOrder.antt =====
-- The order of texts by code points (`str` comparison, the BINARY collation of SQLite).
use Prim.Native.Nat.{ℕ, Ordering, compare as compare_ℕ}
use Prim.Native.Char.{code}
use Prim.Native.String.{String, compare, then}
use Prim.Native.String.compare
use mathlib.Core.Path.{◌≡◌, refl}
use mathlib.Core.Bool.{Bool, true, false}
use native.Mathlib.Omega.{arith}
use text.Mathlib.Text.{is_le}

abbrev pub text_leb : String → String → Bool
text_leb s t = is_le (compare s t)

then_total :
    (m n : ℕ) (a b : Ordering)
    → (is_le a ≡ false → is_le b ≡ true)
    → is_le (then (compare_ℕ m n) a) ≡ false
    → is_le (then (compare_ℕ n m) b) ≡ true
then_total m n a b f h = ground arith

then_trans :
    (m n k : ℕ) (a b c : Ordering)
    → (is_le a ≡ true → is_le b ≡ true → is_le c ≡ true)
    → is_le (then (compare_ℕ m n) a) ≡ true
    → is_le (then (compare_ℕ n k) b) ≡ true
    → is_le (then (compare_ℕ m k) c) ≡ true
then_trans m n k a b c f h g = ground arith

pub text_leb_total : (s t : String) → text_leb s t ≡ false → text_leb t s ≡ true
text_leb_total String.[] String.[] h = refl
text_leb_total String.[] (String.◌∷◌ d t) h = cc (rw compare.nil-cons at h)
text_leb_total (String.◌∷◌ c s) String.[] h = rw compare.nil-cons
text_leb_total (String.◌∷◌ c s) (String.◌∷◌ d t) h = rw compare.cons-cons (
    then_total (code c) (code d) (compare s t) (compare t s) (text_leb_total s t)
      (rw compare.cons-cons at h))

pub text_leb_trans :
    (s t u : String) → text_leb s t ≡ true → text_leb t u ≡ true → text_leb s u ≡ true
text_leb_trans String.[] t String.[] h g = refl
text_leb_trans String.[] t (String.◌∷◌ e u) h g = rw compare.nil-cons
text_leb_trans (String.◌∷◌ c s) String.[] u h g = cc (rw compare.cons-nil at h)
text_leb_trans (String.◌∷◌ c s) (String.◌∷◌ d t) String.[] h g = cc (rw compare.cons-nil at g)
text_leb_trans (String.◌∷◌ c s) (String.◌∷◌ d t) (String.◌∷◌ e u) h g = rw compare.cons-cons (
    then_trans (code c) (code d) (code e) (compare s t) (compare t u) (compare s u)
      (text_leb_trans s t u) (rw compare.cons-cons at h) (rw compare.cons-cons at g))
