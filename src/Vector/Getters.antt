-- ===== src/Vector/Getters.antt =====
-- The getters of src/frontend/v.rs, the only view that other code has of the private fields.
use double_jit_vm.Prelude.{ℕ, Bool}
use double_jit_vm.Vector.{V}

unfoldable pub vl : V → ℕ
vl v = v.vl

unfoldable pub vlmax : V → ℕ
vlmax v = v.vlmax

unfoldable pub vsew : V → ℕ
vsew v = v.vsew

-- In sixteenths, as the field.
unfoldable pub vlmul : V → ℕ
vlmul v = v.vlmul

unfoldable pub vta : V → Bool
vta v = v.vta

unfoldable pub vma : V → Bool
vma v = v.vma

unfoldable pub vill : V → Bool
vill v = v.vill

unfoldable pub vlenb : V → ℕ
vlenb v = v.vlenb
