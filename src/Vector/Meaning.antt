-- ===== src/Vector/Meaning.antt =====
-- What a type means by the vector extension, and what that decides of the state of src/frontend/v.rs.
use Prim.Native.Nat.{min}
use double_jit_vm.Prelude.{
  ℕ, zero, suc, ◌+◌, ◌*◌, ◌/◌, ◌%◌, ◌^◌, ◌≤◌, ◌<◌, ◌≡◌, ◌⊎◌, refl, sym, Bool, true, false, not, ltb,
  leb, ◌==◌, ◌&&◌, if◌then◌else◌, arith,
}
use double_jit_vm.Vector.{V, vlen, elen, vlmul_of, vill_of}

-- SEW, and LMUL in sixteenths, of a type. The three low bits are the exponent of LMUL as a two's
-- complement number, from -3 to 3: plus 4 modulo 8 it counts from a sixteenth on. The -4 is reserved.
abbrev pub sew : ℕ → ℕ
sew t = 2 ^ (t / 2 ^ 3 % 2 ^ 3 + 3)

unfoldable pub lmul : ℕ → ℕ
lmul t = 2 ^ ((t + 4) % 2 ^ 3)

-- A type that the unit supports: no reserved LMUL, no bit above the eight, and an element that
-- fits ELEN, or the fraction of it that a fractional LMUL leaves.
unfoldable pub is_legal : ℕ → Bool
is_legal t = ltb t (2 ^ 8) && not (t % 2 ^ 3 == 4) && leb (sew t * 16) (min 16 (lmul t) * elen)

-- The elements that a register group holds: VLEN / SEW * LMUL, and none for an illegal type.
unfoldable pub capacity : ℕ → ℕ
capacity t = if is_legal t then vlen * lmul t / (16 * sew t) else 0

-- The fields that a type decides.
pub record IsTyped (v : V) : Type 0 where
  pub max_of_type : v.vlmax ≡ capacity v.vtype
  pub ill_of_type : v.vill ≡ not (is_legal v.vtype)
  pub sew_of_type : (if v.vill then v.vtype else v.vsew) ≡ (if v.vill then 2 ^ 63 else sew v.vtype)
  pub lmul_of_type : (if v.vill then 0 else v.vlmul) ≡ (if v.vill then 0 else lmul v.vtype)
  pub agnostic_of_type :
      (v.vill ≡ true)
      ⊎ ((v.vta ≡ not (v.vtype / 2 ^ 6 % 2 == 0)) × (v.vma ≡ not (v.vtype / 2 ^ 7 % 2 == 0)))

-- The state of a unit that has seen `set_vl`.
pub record IsValid (v : V) : Type 0 where
  pub typed : IsTyped v
  pub bounded : v.vl ≤ v.vlmax
  pub reset : v.vstart ≡ 0

below_eight {ℓ} :
    (P : ℕ → Type ℓ) → P 0 → P 1 → P 2 → P 3 → P 4 → P 5 → P 6 → P 7 → (k : ℕ) → k < 8 → P k
below_eight P a b c d e f g h zero le = a
below_eight P a b c d e f g h (suc zero) le = b
below_eight P a b c d e f g h (suc (suc zero)) le = c
below_eight P a b c d e f g h (suc (suc (suc zero))) le = d
below_eight P a b c d e f g h (suc (suc (suc (suc zero)))) le = e
below_eight P a b c d e f g h (suc (suc (suc (suc (suc zero))))) le = f
below_eight P a b c d e f g h (suc (suc (suc (suc (suc (suc zero)))))) le = g
below_eight P a b c d e f g h (suc (suc (suc (suc (suc (suc (suc zero))))))) le = h
below_eight P a b c d e f g h (suc (suc (suc (suc (suc (suc (suc (suc k)))))))) le =
    absurd (omega arith)

-- The two ways to divide agree: every SEW divides VLEN.
pub split_division : (m k : ℕ) → k < 8 → vlen / 2 ^ (k + 3) * m / 16 ≡ vlen * m / (16 * 2 ^ (k + 3))
split_division m =
    below_eight (λ k. vlen / 2 ^ (k + 3) * m / 16 ≡ vlen * m / (16 * 2 ^ (k + 3))) (omega arith)
      (omega arith) (omega arith) (omega arith) (omega arith) (omega arith) (omega arith)
      (omega arith)

exponent_lem : (k : ℕ) → k < 8 → vlmul_of k ≡ 2 ^ ((k + 4) % 2 ^ 3)
unfolding vlmul_of
exponent_lem =
    below_eight (λ k. vlmul_of k ≡ 2 ^ ((k + 4) % 2 ^ 3)) refl refl refl refl refl refl refl refl

-- The match of the source gives the LMUL of the type.
pub vlmul_of_lem : (t : ℕ) → vlmul_of (t % 2 ^ 3) ≡ lmul t
unfolding lmul
vlmul_of_lem t =
    let low : (t % 2 ^ 3 + 4) % 2 ^ 3 ≡ (t + 4) % 2 ^ 3 = omega arith in
    rw (exponent_lem (t % 2 ^ 3) (omega arith), low)

pub vill_of_lem : (t : ℕ) → vill_of t (sew t) (lmul t) ≡ not (is_legal t)
unfolding vill_of is_legal vlmul_of
vill_of_lem t = rw (sym (vlmul_of_lem t)) (ground arith)

abbrev pub Room : ℕ → ℕ → Type 0
Room m k =
    2 ^ (k + 3) * 16 ≤ min 16 m * elen
    → (1 ≤ vlen * m / (16 * 2 ^ (k + 3))) × (vlen * m / (16 * 2 ^ (k + 3)) ≤ 2048)

-- Every legal type leaves room for an element, and for at most 2048.
pub capacity-Room : (m k : ℕ) → m ≤ 128 → k < 8 → Room m k
capacity-Room m k hm =
    below_eight (λ k. Room m k) (λ r. (omega arith, omega arith)) (λ r. (omega arith, omega arith))
      (λ r. (omega arith, omega arith)) (λ r. (omega arith, omega arith))
      (λ r. (omega arith, omega arith)) (λ r. (omega arith, omega arith))
      (λ r. (omega arith, omega arith)) (λ r. (omega arith, omega arith)) k

pub capacity-legal : (t : ℕ) → is_legal t ≡ true → capacity t ≡ vlen * lmul t / (16 * sew t)
unfolding capacity
capacity-legal t h = rw h

pub capacity-ill : (t : ℕ) → is_legal t ≡ false → capacity t ≡ 0
unfolding capacity
capacity-ill t h = rw h

-- The mark of an illegal configuration is itself no legal type.
pub mark-ill : is_legal (2 ^ 63) ≡ false
unfolding is_legal
mark-ill = refl

pub fits : (t : ℕ) → is_legal t ≡ true → 2 ^ (t / 2 ^ 3 % 2 ^ 3 + 3) * 16 ≤ min 16 (lmul t) * elen
unfolding is_legal
fits t h = ground arith

pub lmul_bound : (t : ℕ) → lmul t ≤ 128
unfolding vlmul_of
lmul_bound t = rw (sym (vlmul_of_lem t)) (ground arith)
