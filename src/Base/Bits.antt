-- ===== src/Base/Bits.antt =====
-- The bitwise or of numbers whose bits do not overlap is their sum.
use Prim.Native.Nat.{
  ℕ, zero, suc, ◌+◌, ◌*◌, ◌/◌, ◌%◌, ◌^◌, ◌≤◌, ◌<◌, max, bit_or, digits, bit_or-bitwise,
}
use mathlib.Core.Path.{◌≡◌, ap, ◌∙◌}
use native.Mathlib.Nat.{pow-suc}
use native.Mathlib.Omega.{arith}

-- The recursion on binary digits that the native operation stands for, with fuel.
abbrev or_by_digits : ℕ → ℕ → ℕ → ℕ
or_by_digits = digits (λ y. y) max

even_half : (a c p : ℕ) → a ≡ c * (p * 2) → (a / 2 ≡ c * p) × (a % 2 ≡ 0)
even_half a c p h = grind arith

-- The low `k` bits of `a` are clear and `b` has no others; the digit that is split off is a bit of `b`
-- while there are such, and then one of `a`.
or_by_digits_disjoint :
    (fuel k a b c : ℕ) → a ≤ fuel → a ≡ c * 2 ^ k → b < 2 ^ k → or_by_digits fuel a b ≡ a + b
or_by_digits_disjoint zero k zero b c m e h = omega arith
or_by_digits_disjoint zero k (suc a) b c m e h = absurd (omega arith)
or_by_digits_disjoint (suc fuel) k zero b c m e h = omega arith
or_by_digits_disjoint (suc fuel) zero (suc a) b c m e h = omega (
  arith,
  or_by_digits_disjoint fuel zero (suc a / 2) (b / 2) (suc a / 2) (omega arith) (omega arith)
      (omega arith),
)
or_by_digits_disjoint (suc fuel) (suc k) (suc a) b c m e h =
    let (half, even) = even_half (suc a) c (2 ^ k) (e ∙ ap (◌*◌ c) (pow-suc 2 k)) in
    omega (
      arith,
      even,
      or_by_digits_disjoint fuel k (suc a / 2) (b / 2) c (omega arith) half
          (omega (arith, pow-suc 2 k)),
    )

-- A number whose low `k` bits are clear, or'ed with one of at most `k` bits.
pub bit_or_disjoint : (k a b c : ℕ) → a ≡ c * 2 ^ k → b < 2 ^ k → bit_or a b ≡ a + b
bit_or_disjoint k a b c e h = bit_or-bitwise a b ∙ or_by_digits_disjoint a k a b c (omega arith) e h
