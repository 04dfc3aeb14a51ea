-- ===== src/Base/BigEndian.antt =====
-- Numbers as bytes, most significant byte first: `to_be_bytes` and `from_be_bytes` at any width, and
-- the comparison of byte strings.
use Prim.Native.Nat.{ℕ, zero, suc, ◌+◌, ◌*◌, ◌/◌, ◌%◌, ◌^◌, ◌<◌}
use mathlib.Core.Path.{◌≡◌, refl, sym, ap, ◌∙◌}
use mathlib.Core.Logic.{inl, inr}
use mathlib.Core.Bool.{Bool, true, false, ◌&&◌}
use mathlib.Core.List.{List, [], ◌∷◌, ◌++◌}
use native.Mathlib.Omega.{arith}
use native.Mathlib.Nat.{pow-suc}
use routinechain.Base.Tests.{◌==◌, ==_iff, Bool-cases}
use routinechain.Base.Lists.{length, length-append}

unfoldable pub to_be_bytes : ℕ → ℕ → List ℕ
to_be_bytes zero n = []
to_be_bytes (suc k) n = to_be_bytes k (n / 256) ++ (n % 256) ∷ []

unfoldable pub from_be_bytes : ℕ → List ℕ → ℕ
from_be_bytes acc [] = acc
from_be_bytes acc (b ∷ bytes) = from_be_bytes (acc * 256 + b) bytes

abbrev pub bytes_eq : List ℕ → List ℕ → Bool
bytes_eq [] [] = true
bytes_eq [] (y ∷ ys) = false
bytes_eq (x ∷ xs) [] = false
bytes_eq (x ∷ xs) (y ∷ ys) = x == y && bytes_eq xs ys

pub bytes_eq_refl : (xs : List ℕ) → bytes_eq xs xs ≡ true
bytes_eq_refl [] = refl
bytes_eq_refl (x ∷ xs) = ground (arith, bytes_eq_refl xs)

pub bytes_eq→eq : (xs ys : List ℕ) → bytes_eq xs ys ≡ true → xs ≡ ys
bytes_eq→eq [] [] h = refl
bytes_eq→eq [] (y ∷ ys) h = cc
bytes_eq→eq (x ∷ xs) [] h = cc
bytes_eq→eq (x ∷ xs) (y ∷ ys) h = ground (arith, bytes_eq→eq xs ys)

pub length-to_be_bytes : (k n : ℕ) → length (to_be_bytes k n) ≡ k
unfolding to_be_bytes
length-to_be_bytes zero n = refl
length-to_be_bytes (suc k) n =
    omega (
      arith,
      length-append (to_be_bytes k (n / 256)) (n % 256 ∷ []),
      length-to_be_bytes k (n / 256),
    )

from_be_bytes-snoc :
    (acc : ℕ) (bytes : List ℕ) (b : ℕ)
    → from_be_bytes acc (bytes ++ b ∷ []) ≡ from_be_bytes acc bytes * 256 + b
unfolding from_be_bytes
from_be_bytes-snoc acc [] b = refl
from_be_bytes-snoc acc (x ∷ xs) b = from_be_bytes-snoc (acc * 256 + x) xs b

-- A number that fits in the width is read back from its bytes.
pub from_be_bytes-to_be_bytes : (k n : ℕ) → n < 256 ^ k → from_be_bytes 0 (to_be_bytes k n) ≡ n
unfolding to_be_bytes from_be_bytes
from_be_bytes-to_be_bytes zero n h = omega arith
from_be_bytes-to_be_bytes (suc k) n h =
    from_be_bytes-snoc 0 (to_be_bytes k (n / 256)) (n % 256)
    ∙ ap (λ (x : ℕ). x * 256 + n % 256)
        (from_be_bytes-to_be_bytes k (n / 256) (omega (arith, rw pow-suc at h)))
    ∙ omega arith

differs_from_itself : (k a b : ℕ) → a ≡ b → ¬ (bytes_eq (to_be_bytes k a) (to_be_bytes k b) ≡ false)
differs_from_itself k a b same differ =
    cc
      (bytes_eq_refl (to_be_bytes k a), ap (λ x. bytes_eq (to_be_bytes k a) (to_be_bytes k x)) same)

-- In the width, the bytes are equal exactly when the numbers are.
pub bytes_eq-to_be_bytes :
    (k a b : ℕ)
    → a < 256 ^ k
    → b < 256 ^ k
    → bytes_eq (to_be_bytes k a) (to_be_bytes k b) ≡ (a == b)
bytes_eq-to_be_bytes k a b ha hb =
    elim (Bool-cases (bytes_eq (to_be_bytes k a) (to_be_bytes k b))) [
      | inl same ↦
          same
          ∙ sym (
              (==_iff a b).1 (
                sym (from_be_bytes-to_be_bytes k a ha)
                ∙ ap (from_be_bytes 0) (bytes_eq→eq _ _ same)
                ∙ from_be_bytes-to_be_bytes k b hb))
      | inr differ ↦ elim (Bool-cases (a == b)) [
        | inl same ↦ absurd (differs_from_itself k a b ((==_iff a b).0 same) differ)
        | inr other ↦ differ ∙ sym other
      ]
    ]
