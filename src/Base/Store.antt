-- ===== src/Base/Store.antt =====
-- A memory of records by address, and a write to one of them.
use Prim.Native.Nat.{ℕ}
use mathlib.Core.Path.{◌≡◌, refl}
use mathlib.Core.Bool.{false}
use ulmk_microkernel.Base.Tests.{◌==◌, if◌then◌else◌, eq→==}

abbrev pub put_at {ℓ} : {A : Type ℓ} → (ℕ → A) → ℕ → A → ℕ → A
put_at f a v x = if a == x then v else f x

pub put_at_self {ℓ} : {A : Type ℓ} (f : ℕ → A) (a : ℕ) (v : A) → put_at f a v a ≡ v
put_at_self f a v = rw (eq→== a a refl) refl

pub put_at_other {ℓ} :
    {A : Type ℓ} (f : ℕ → A) (a b : ℕ) (v : A) → (a == b) ≡ false → put_at f a v b ≡ f b
put_at_other f a b v h = rw h refl
