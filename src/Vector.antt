-- ===== src/Vector.antt =====
-- src/frontend/v.rs: the configuration of the vector unit. `vlmul` is an `f64` in the source that
-- only ever holds a power of two from 1/16 to 8: here it is counted in sixteenths, so 16 is 1.0. The
-- products and quotients of the source are exact in an `f64`. The child holds the theorems.
pub mod Meaning
pub mod Laws
pub mod Getters
pub mod Reach
use Prim.Native.Nat.{bit_and, min}
use double_jit_vm.Prelude.{
  ℕ, ◌+◌, ◌-◌, ◌*◌, ◌/◌, ◌^◌, Bool, true, false, not, ltb, ◌==◌, ◌&&◌, ◌||◌, if◌then◌else◌,
}

-- `VLEN` and `ELEN` of src/frontend/mod.rs.
abbrev pub vlen : ℕ
vlen = 2048

abbrev pub elen : ℕ
elen = 2048

pub record V : Type 0 where
  pub vstart : ℕ
  pub vtype : ℕ
  pub vl : ℕ
  pub vlenb : ℕ
  pub vill : Bool
  pub vma : Bool
  pub vta : Bool
  pub vlmul : ℕ
  pub vsew : ℕ
  pub vlmax : ℕ

-- The `match new_type & 0x7`, in sixteenths.
unfoldable pub vlmul_of : ℕ → ℕ
vlmul_of code =
    if code == 0b000
    then 16
    else if code == 0b001
    then 32
    else if code == 0b010
    then 64
    else if code == 0b011
    then 128
    else if code == 0b111
    then 8
    else if code == 0b110
    then 4
    else if code == 0b101
    then 2
    else 1

-- The test for `vill`.
unfoldable pub vill_of : ℕ → ℕ → ℕ → Bool
vill_of new_type vsew vlmul =
    vlmul == 1
    || not (new_type / 2 ^ 8 == 0)
    || ltb ((if ltb 16 vlmul then 16 else vlmul) * elen) (vsew * 16)

-- The body of `if self.vtype != new_type`.
unfoldable pub set_type : V → ℕ → V
set_type v new_type =
    let vsew = 2 ^ (bit_and (new_type / 2 ^ 3) 0x7 + 3) in
    let vlmul = vlmul_of (bit_and new_type 0x7) in
    let vta = not (bit_and (new_type / 2 ^ 6) 0x1 == 0) in
    let vma = not (bit_and (new_type / 2 ^ 7) 0x1 == 0) in
    if vill_of new_type vsew vlmul
    then record v {
      vtype = 2 ^ 63;
      vsew = vsew;
      vlmul = vlmul;
      vta = vta;
      vma = vma;
      vill = true;
      vlmax = 0;
    }
    else record v {
      vtype = new_type;
      vsew = vsew;
      vlmul = vlmul;
      vta = vta;
      vma = vma;
      vill = false;
      vlmax = vlen / vsew * vlmul / 16;
    }

-- The chain of `if` that gives `vl`.
unfoldable pub vl_of : V → ℕ → ℕ → ℕ → ℕ
vl_of v rd rs1 avl =
    if v.vlmax == 0
    then 0
    else if rd == 0 && rs1 == 0
    then min v.vl v.vlmax
    else if not (rd == 0) && rs1 == 0
    then v.vlmax
    else if not (rs1 == 0)
    then min avl v.vlmax
    else v.vl

unfoldable pub set_vl : V → ℕ → ℕ → ℕ → ℕ → V
set_vl v rd rs1 avl new_type =
    let typed = if v.vtype == new_type then v else set_type v new_type in
    record typed { vl = vl_of typed rd rs1 avl; vstart = 0 }

-- `V::new`: illegal from the start.
unfoldable pub new : V
new =
    set_vl
      (record {
        vstart = 0;
        vtype = 0;
        vl = 0;
        vlenb = vlen / 2 ^ 3;
        vill = false;
        vma = false;
        vta = false;
        vlmul = 0;
        vsew = 0;
        vlmax = 0;
      })
      0 0 0 (2 ^ 64 - 1)
