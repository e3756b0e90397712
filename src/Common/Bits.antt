-- ===== src/Common/Bits.antt =====
-- Shifts, masks and `|` as arithmetic: the native operations stand for a recursion on binary
-- digits with fuel, and the laws below are for every value.
use Prim.Native.Nat.{
  ℕ, zero, suc, ◌+◌, ◌-◌, ◌*◌, ◌/◌, ◌%◌, ◌^◌, ◌≤◌, ◌<◌, min, max, bit_and, bit_or, digits, bitwise,
  bit_and-bitwise, bit_or-bitwise,
}
use mathlib.Core.Path.{◌≡◌, refl, ap, ap₂, ◌∙◌}
use native.Mathlib.Nat.{le_refl, mul-one, pow-suc, one-le-pow}
use native.Mathlib.Omega.{arith}

infixl 66 ◌<<<◌ ◌>>>◌
abbrev pub ◌<<<◌ : ℕ → ℕ → ℕ
a <<< k = a * 2 ^ k

abbrev pub ◌>>>◌ : ℕ → ℕ → ℕ
a >>> k = a / 2 ^ k

-- The fuel of the digit recursion plays no part once it covers the number.
module _ (last : ℕ → ℕ) (bit : ℕ → ℕ → ℕ) where
  enough_fuel : (f g a b : ℕ) → a ≤ f → a ≤ g → digits last bit f a b ≡ digits last bit g a b
  enough_fuel zero zero a b p q = refl
  enough_fuel zero (suc g) zero b p q = refl
  enough_fuel zero (suc g) (suc a) b p q = absurd (omega arith)
  enough_fuel (suc f) zero zero b p q = refl
  enough_fuel (suc f) zero (suc a) b p q = absurd (omega arith)
  enough_fuel (suc f) (suc g) zero b p q = refl
  enough_fuel (suc f) (suc g) (suc a) b p q =
      let half : digits last bit f (suc a / 2) (b / 2) ≡ digits last bit g (suc a / 2) (b / 2) =
        enough_fuel f g (suc a / 2) (b / 2) (omega arith) (omega arith) in
      rw half

  bitwise_lowest :
      (a b : ℕ)
      → bitwise last bit (suc a) b
        ≡ bitwise last bit (suc a / 2) (b / 2) * 2 + bit (suc a % 2) (b % 2)
  bitwise_lowest a b =
      omega (arith, enough_fuel a (suc a / 2) (suc a / 2) (b / 2) (omega arith) (le_refl _))

pub bit_and_lowest : (a b : ℕ) → bit_and a b ≡ bit_and (a / 2) (b / 2) * 2 + min (a % 2) (b % 2)
bit_and_lowest zero b = simp bit_and-bitwise (omega arith)
bit_and_lowest (suc a) b = simp bit_and-bitwise (bitwise_lowest (λ y. 0) min a b)

pub bit_or_lowest : (a b : ℕ) → bit_or a b ≡ bit_or (a / 2) (b / 2) * 2 + max (a % 2) (b % 2)
bit_or_lowest zero b = simp bit_or-bitwise (omega arith)
bit_or_lowest (suc a) b = simp bit_or-bitwise (bitwise_lowest (λ y. y) max a b)

-- By fuel `f` that covers the number.
or_zero_below : (f a : ℕ) → a ≤ f → bit_or a 0 ≡ a
or_zero_below f zero h = refl
or_zero_below zero (suc a) h = absurd (omega arith)
or_zero_below (suc f) (suc a) h =
    omega (arith, bit_or_lowest (suc a) 0, or_zero_below f (suc a / 2) (omega arith))

and_zero_below : (f a : ℕ) → a ≤ f → bit_and a 0 ≡ 0
and_zero_below f zero h = refl
and_zero_below zero (suc a) h = absurd (omega arith)
and_zero_below (suc f) (suc a) h =
    omega (arith, bit_and_lowest (suc a) 0, and_zero_below f (suc a / 2) (omega arith))

pub bit_and-zero : (a : ℕ) → bit_and a 0 ≡ 0
bit_and-zero a = and_zero_below a a (le_refl a)

twice_power : (q k : ℕ) → q * 2 ^ suc k ≡ 2 * (q * 2 ^ k)
twice_power q k = omega (arith, ap (λ (t : ℕ). q * t) (pow-suc 2 k))

-- `(q << k) | r` is a sum where `r` fits below the shift.
pub bit_or_disjoint : (k q r : ℕ) → r < 2 ^ k → bit_or (q * 2 ^ k) r ≡ q * 2 ^ k + r
bit_or_disjoint zero q r fits = ground (arith, or_zero_below q q)
bit_or_disjoint (suc k) q r fits = ground (
  arith,
  bit_or_lowest (q * 2 ^ suc k) r,
  twice_power q k,
  bit_or_disjoint k q (r / 2) (omega arith),
)

-- The order of the two plays no part, by fuel that covers the first.
or_swapped : (f a b : ℕ) → a ≤ f → bit_or a b ≡ bit_or b a
or_swapped f zero b h =
    let mine : bit_or 0 b ≡ b = simp bit_or-bitwise in
    omega (arith, mine, or_zero_below b b (le_refl b))
or_swapped zero (suc a) b h = absurd (omega arith)
or_swapped (suc f) (suc a) b h = omega (
  arith,
  bit_or_lowest (suc a) b,
  bit_or_lowest b (suc a),
  or_swapped f (suc a / 2) (b / 2) (omega arith),
)

pub bit_or_comm : (a b : ℕ) → bit_or a b ≡ bit_or b a
bit_or_comm a b = or_swapped a a b (le_refl a)

and_ones_parts : (k q r : ℕ) → r < 2 ^ k → bit_and (q * 2 ^ k + r) (2 ^ k - 1) ≡ r
and_ones_parts zero q r fits = rw bit_and-zero (omega arith)
and_ones_parts (suc k) q r fits = ground (
  arith,
  bit_and_lowest (q * 2 ^ suc k + r) (2 ^ suc k - 1),
  twice_power q k,
  pow-suc 2 k,
  and_ones_parts k q (r / 2) (omega arith),
)

-- A mask of `k` ones is the remainder by `2 ^ k`.
pub bit_and_ones : (k a : ℕ) → bit_and a (2 ^ k - 1) ≡ a % 2 ^ k
bit_and_ones k a = ground (arith, one-le-pow k 2, and_ones_parts k (a / 2 ^ k) (a % 2 ^ k))

bit_and_shifted : (k a m : ℕ) → bit_and (a * 2 ^ k) (m * 2 ^ k) ≡ bit_and a m * 2 ^ k
bit_and_shifted zero a m = simp mul-one
bit_and_shifted (suc k) a m =
    let half_a : a * 2 ^ suc k / 2 ≡ a * 2 ^ k = omega (arith, twice_power a k) in
    let half_m : m * 2 ^ suc k / 2 ≡ m * 2 ^ k = omega (arith, twice_power m k) in
    omega (
      arith,
      bit_and_lowest (a * 2 ^ suc k) (m * 2 ^ suc k),
      twice_power a k,
      twice_power (bit_and a m) k,
      ap₂ bit_and half_a half_m ∙ bit_and_shifted k a m,
    )

-- A mask of `n` ones at place `k` keeps the low `n` bits of what was shifted there.
pub bit_and_field : (k n a : ℕ) → bit_and (a <<< k) ((2 ^ n - 1) * 2 ^ k) ≡ a % 2 ^ n * 2 ^ k
bit_and_field k n a = bit_and_shifted k a (2 ^ n - 1) ∙ ap (λ (t : ℕ). t * 2 ^ k) (bit_and_ones n a)
