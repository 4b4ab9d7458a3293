-- ===== src/Isa/Halves.antt =====
-- The 16-bit formats of the manuals, each as a sum of its fields, and the registers that they allow.
use double_jit_vm.Prelude.{ℕ, ◌+◌, ◌*◌, ◌/◌, ◌%◌, ◌^◌, ◌<◌, ◌≤◌}

-- A register among x8 to x15, and a register that is not x0.
abbrev pub IsPopular : ℕ → Type 0
IsPopular r = (8 ≤ r) × (r < 16)

abbrev pub IsNonZero : ℕ → Type 0
IsNonZero r = (0 < r) × (r < 32)

-- The formats over quadrant, `funct3` and the field parts; `bit n i k` moves bit `n` of `i` to `k`.
abbrev pub bit : ℕ → ℕ → ℕ → ℕ
bit n i k = i / 2 ^ n % 2 * 2 ^ k

-- `len` bits of `i` from bit `n` on, moved to bit `k`.
abbrev pub field : ℕ → ℕ → ℕ → ℕ → ℕ
field n len i k = i / 2 ^ n % 2 ^ len * 2 ^ k

abbrev pub ci_word : ℕ → ℕ → ℕ → ℕ → ℕ
ci_word quadrant funct3 d i = quadrant + field 0 5 i 2 + d * 2 ^ 7 + bit 5 i 12 + funct3 * 2 ^ 13

abbrev pub cb_word : ℕ → ℕ → ℕ → ℕ
cb_word funct2 d i = 1 + field 0 5 i 2 + d % 8 * 2 ^ 7 + funct2 * 2 ^ 10 + bit 5 i 12 + 4 * 2 ^ 13

abbrev pub ca_word : ℕ → ℕ → ℕ → ℕ → ℕ
ca_word high funct2 d b =
    1 + b % 8 * 2 ^ 2 + funct2 * 2 ^ 5 + d % 8 * 2 ^ 7 + 3 * 2 ^ 10 + high * 2 ^ 12 + 4 * 2 ^ 13

-- Loads and stores over two popular registers: a word's offset and a double word's.
abbrev pub cw_word : ℕ → ℕ → ℕ → ℕ → ℕ
cw_word funct3 low a i =
    low % 8 * 2 ^ 2 + bit 6 i 5 + bit 2 i 6 + a % 8 * 2 ^ 7 + field 3 3 i 10 + funct3 * 2 ^ 13

abbrev pub cd_word : ℕ → ℕ → ℕ → ℕ → ℕ
cd_word funct3 low a i =
    low % 8 * 2 ^ 2 + field 6 2 i 5 + a % 8 * 2 ^ 7 + field 3 3 i 10 + funct3 * 2 ^ 13

abbrev pub cr_word : ℕ → ℕ → ℕ → ℕ
cr_word funct4 d b = 2 + b * 2 ^ 2 + d * 2 ^ 7 + funct4 * 2 ^ 12

-- The jumps: 12 bits of offset, scattered.
abbrev pub cj_word : ℕ → ℕ → ℕ
cj_word funct3 i =
    1
    + bit 5 i 2
    + field 1 3 i 3
    + bit 7 i 6
    + bit 6 i 7
    + bit 10 i 8
    + field 8 2 i 9
    + bit 4 i 11
    + bit 11 i 12
    + funct3 * 2 ^ 13
