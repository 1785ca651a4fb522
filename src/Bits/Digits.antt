-- ===== src/Bits/Digits.antt =====
-- `bit_or` and `bit_and` by their lowest binary digit. The native operations stand for a recursion
-- over the digits that counts down from its first argument; the count does not matter once it is
-- at least that argument.
use Prim.Native.Nat.{max, digits, bitwise, bit_and-bitwise, bit_or-bitwise}
use ulmk_microkernel.Base.{
  ℕ, zero, suc, ◌+◌, ◌*◌, ◌/◌, ◌%◌, ◌≤◌, min, bit_and, bit_or, ◌≡◌, refl, arith,
}

module _ (tail : ℕ → ℕ) (op : ℕ → ℕ → ℕ) where
  -- Two counts serve alike, once neither is below the first argument.
  counts : (x y k l : ℕ) → x ≤ k → x ≤ l → digits tail op k x y ≡ digits tail op l x y
  counts zero y zero zero h g = refl
  counts zero y zero (suc l) h g = refl
  counts zero y (suc k) zero h g = refl
  counts zero y (suc k) (suc l) h g = refl
  counts (suc x) y zero l h g = absurd (omega arith)
  counts (suc x) y (suc k) zero h g = absurd (omega arith)
  counts (suc x) y (suc k) (suc l) h g =
      rw (counts (suc x / 2) (y / 2) k l (omega arith) (omega arith))

  lowest :
      (x y : ℕ)
      → bitwise tail op (suc x) y ≡ bitwise tail op (suc x / 2) (y / 2) * 2 + op (suc x % 2) (y % 2)
  lowest x y = rw (counts (suc x / 2) (y / 2) x (suc x / 2) (omega arith) (omega arith))

pub bit_or-digit : (x y : ℕ) → bit_or x y ≡ bit_or (x / 2) (y / 2) * 2 + max (x % 2) (y % 2)
bit_or-digit zero y = simp bit_or-bitwise (omega arith)
bit_or-digit (suc x) y = simp bit_or-bitwise (lowest (λ t. t) max x y)

pub bit_and-digit : (x y : ℕ) → bit_and x y ≡ bit_and (x / 2) (y / 2) * 2 + min (x % 2) (y % 2)
bit_and-digit zero y = simp bit_and-bitwise (omega arith)
bit_and-digit (suc x) y = simp bit_and-bitwise (lowest (λ _. 0) min x y)
