-- ===== src/Bits.antt =====
-- `&` with a mask of low bits and `|` of fields that do not overlap, as arithmetic, at every width.
-- The shifts and masks of src/frontend/instruction.rs are read through these laws.
use Prim.Native.Nat.{min, max, digits, bit_and, bit_or, bit_and-bitwise, bit_or-bitwise}
use native.Mathlib.Nat.{pow-suc, one-le-pow, le_refl, mul-one, div-one, div-div-eq-div-mul}
use double_jit_vm.Prelude.{
  ℕ, zero, suc, ◌+◌, ◌-◌, ◌*◌, ◌/◌, ◌%◌, ◌^◌, ◌≤◌, ◌<◌, ◌≡◌, refl, ap, arith,
}

-- The native operations recur on digits with a count; any count that is large enough will do.
module _ (z : ℕ → ℕ) (f : ℕ → ℕ → ℕ) where
  digits-count : (k l a b : ℕ) → a ≤ k → a ≤ l → digits z f k a b ≡ digits z f l a b
  digits-count zero zero a b hk hl = refl
  digits-count zero (suc l) zero b hk hl = refl
  digits-count zero (suc l) (suc a) b hk hl = absurd (omega arith)
  digits-count (suc k) zero zero b hk hl = refl
  digits-count (suc k) zero (suc a) b hk hl = absurd (omega arith)
  digits-count (suc k) (suc l) zero b hk hl = refl
  digits-count (suc k) (suc l) (suc a) b hk hl =
      rw (digits-count k l (suc a / 2) (b / 2) (omega arith) (omega arith))

-- One equation for the lowest digit.
pub bit_and-halves : (a b : ℕ) → bit_and a b ≡ bit_and (a / 2) (b / 2) * 2 + min (a % 2) (b % 2)
bit_and-halves zero b = omega (arith, bit_and-bitwise 0 b, bit_and-bitwise 0 (b / 2))
bit_and-halves (suc a) b = omega (
  arith,
  bit_and-bitwise (suc a) b,
  bit_and-bitwise (suc a / 2) (b / 2),
  digits-count (λ _. 0) min a (suc a / 2) (suc a / 2) (b / 2) (omega arith) (le_refl _),
)

pub bit_or-halves : (a b : ℕ) → bit_or a b ≡ bit_or (a / 2) (b / 2) * 2 + max (a % 2) (b % 2)
bit_or-halves zero b = omega (arith, bit_or-bitwise 0 b, bit_or-bitwise 0 (b / 2))
bit_or-halves (suc a) b = omega (
  arith,
  bit_or-bitwise (suc a) b,
  bit_or-bitwise (suc a / 2) (b / 2),
  digits-count (λ y. y) max a (suc a / 2) (suc a / 2) (b / 2) (omega arith) (le_refl _),
)

zero-bit_or : (b : ℕ) → bit_or 0 b ≡ b
zero-bit_or b = bit_or-bitwise 0 b

bit_and-zero_below : (n a : ℕ) → a ≤ n → bit_and a 0 ≡ 0
bit_and-zero_below n zero h = bit_and-bitwise 0 0
bit_and-zero_below zero (suc a) h = absurd (omega arith)
bit_and-zero_below (suc n) (suc a) h =
    omega (arith, bit_and-halves (suc a) 0, bit_and-zero_below n (suc a / 2) (omega arith))

bit_or-zero_below : (n a : ℕ) → a ≤ n → bit_or a 0 ≡ a
bit_or-zero_below n zero h = bit_or-bitwise 0 0
bit_or-zero_below zero (suc a) h = absurd (omega arith)
bit_or-zero_below (suc n) (suc a) h =
    omega (arith, bit_or-halves (suc a) 0, bit_or-zero_below n (suc a / 2) (omega arith))

double-shift : (q k : ℕ) → q * 2 ^ suc k ≡ 2 * (q * 2 ^ k)
double-shift q k = omega (arith, ap (λ (p : ℕ). q * p) (pow-suc 2 k))

low_field : (k q r : ℕ) → r < 2 ^ k → bit_and (q * 2 ^ k + r) (2 ^ k - 1) ≡ r
low_field zero q r h = omega (arith, bit_and-zero_below (q * 1 + r) (q * 1 + r) (le_refl _))
low_field (suc k) q r h = ground (
  arith,
  bit_and-halves (q * 2 ^ suc k + r) (2 ^ suc k - 1),
  double-shift q k,
  pow-suc 2 k,
  low_field k q (r / 2) (omega arith),
)

-- A mask of the `k` lowest bits takes the remainder by `2 ^ k`.
pub bit_and-low_mask : (k a : ℕ) → bit_and a (2 ^ k - 1) ≡ a % 2 ^ k
bit_and-low_mask k a = ground (arith, one-le-pow k 2, low_field k (a / 2 ^ k) (a % 2 ^ k))

-- A field at bit `k` over one that fits `k` bits: their `|` is their sum.
pub bit_or-fields : (k a q : ℕ) → a < 2 ^ k → bit_or a (q * 2 ^ k) ≡ a + q * 2 ^ k
bit_or-fields zero a q h = ground (arith, zero-bit_or (q * 1))
bit_or-fields (suc k) a q h = ground (
  arith,
  bit_or-halves a (q * 2 ^ suc k),
  double-shift q k,
  pow-suc 2 k,
  bit_or-fields k (a / 2) q (omega arith),
)

-- A mask that stands at bit `lo` selects from the shifted number.
pub bit_and-shifted : (lo a m : ℕ) → bit_and a (m * 2 ^ lo) ≡ bit_and (a / 2 ^ lo) m * 2 ^ lo
bit_and-shifted zero a m = simp (mul-one, div-one)
bit_and-shifted (suc lo) a m = ground (
  arith,
  bit_and-halves a (m * 2 ^ suc lo),
  double-shift m lo,
  double-shift (bit_and (a / 2 / 2 ^ lo) m) lo,
  pow-suc 2 lo,
  bit_and-shifted lo (a / 2) m,
  div-div-eq-div-mul a 2 (2 ^ lo),
)

-- The field of `len` bits at bit `lo`, masked where it stands.
pub bit_and-field_mask :
    (lo len a : ℕ) → bit_and a ((2 ^ len - 1) * 2 ^ lo) ≡ a / 2 ^ lo % 2 ^ len * 2 ^ lo
bit_and-field_mask lo len a =
    rw (bit_and-shifted lo a (2 ^ len - 1), bit_and-low_mask len (a / 2 ^ lo))

-- A mask in two parts, below and from bit `k` on, selects from the two parts of the number.
pub bit_and-split :
    (k a m n : ℕ)
    → m < 2 ^ k
    → bit_and a (m + n * 2 ^ k) ≡ bit_and a m + bit_and (a / 2 ^ k) n * 2 ^ k
bit_and-split zero a m n h =
    let none_below : m ≡ 0 = omega arith in
    rw (none_below, div-one, bit_and-zero_below a a (le_refl a)) (ground arith)
bit_and-split (suc k) a m n h = ground (
  arith,
  bit_and-halves a (m + n * 2 ^ suc k),
  bit_and-halves a m,
  double-shift n k,
  double-shift (bit_and (a / 2 / 2 ^ k) n) k,
  pow-suc 2 k,
  bit_and-split k (a / 2) (m / 2) n (omega (arith, pow-suc 2 k)),
  div-div-eq-div-mul a 2 (2 ^ k),
)

-- The same with the upper field first.
pub bit_or-fields_flip : (k q a : ℕ) → a < 2 ^ k → bit_or (q * 2 ^ k) a ≡ q * 2 ^ k + a
bit_or-fields_flip zero q a h = rw (mul-one) (ground (arith, bit_or-zero_below q q (le_refl q)))
bit_or-fields_flip (suc k) q a h = ground (
  arith,
  bit_or-halves (q * 2 ^ suc k) a,
  double-shift q k,
  pow-suc 2 k,
  bit_or-fields_flip k q (a / 2) (omega (arith, pow-suc 2 k)),
)
