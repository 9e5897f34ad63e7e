-- ===== src/Prelude/Bits.antt =====
-- Checks of every value below a bound, and the bitwise or of two halves of a byte.
use Prim.Native.Nat.{ℕ, zero, suc, ◌+◌, ◌*◌, ◌/◌, ◌%◌, ◌<◌, bit_or}
use mathlib.Core.Path.{◌≡◌, refl}
use mathlib.Core.Bool.{Bool, true, ◌&&◌}
use native.Mathlib.Omega.{arith}
use store.Prelude.Tests.{◌==◌, ==→eq}

unfoldable pub below_all : ℕ → (ℕ → Bool) → Bool
below_all zero p = true
below_all (suc n) p = p n && below_all n p

pub below_all_lem : (n : ℕ) (p : ℕ → Bool) (x : ℕ) → below_all n p ≡ true → x < n → p x ≡ true
unfolding below_all
below_all_lem zero p x h l = absurd (omega arith)
below_all_lem (suc n) p x h l = ground (arith, below_all_lem n p x)

halves_checked : below_all 256 (λ x. bit_or (x % 16) (x / 16 * 16) == x) ≡ true
unfolding below_all
halves_checked = refl

pub bit_or-halves : (a v : ℕ) → a < 16 → v < 16 → bit_or a (v * 16) ≡ a + v * 16
bit_or-halves a v l m =
    let low : (a + v * 16) % 16 ≡ a = omega arith in
    let high : (a + v * 16) / 16 ≡ v = omega arith in
    let e = ==→eq _ _ (below_all_lem 256 _ (a + v * 16) halves_checked (omega arith)) in
    rw⁻¹ e (rw (low, high) refl)

low_checked : below_all 16 (λ x. bit_or 0 x == x) ≡ true
unfolding below_all
low_checked = refl

pub zero-bit_or : (v : ℕ) → v < 16 → bit_or 0 v ≡ v
zero-bit_or v l = ==→eq _ _ (below_all_lem 16 _ v low_checked l)
