-- ===== src/Vector/Reach.antt =====
-- What src/frontend/v.rs shows of a vector unit after `V::new` and any calls of `set_vl`.
use double_jit_vm.Prelude.{
  ℕ, ◌/◌, ◌%◌, ◌^◌, ◌≤◌, ◌≡◌, inl, inr, ap, sym, ◌∙◌, ◌-◌, true, false, not, ◌==◌, arith,
}
use double_jit_vm.Vector.{V, set_type, set_vl, new}
use double_jit_vm.Vector.Meaning.{is_legal, capacity, lmul, sew, IsValid}
use double_jit_vm.Vector.Laws.{set_vl-IsValid, new-IsValid}
use double_jit_vm.Vector.Getters.{vl, vlmax, vsew, vlmul, vta, vma, vill, vlenb}

-- The states of a unit in a program: the first one, and those that a call leaves.
pub data IsReached : V → Type 0 where
  created : IsReached new
  configured :
      (v : V) (rd rs1 avl new_type : ℕ) → IsReached v → IsReached (set_vl v rd rs1 avl new_type)

reached-IsValid : (v : V) → IsReached v → IsValid v
reached-IsValid _ created = new-IsValid.0
reached-IsValid _ (configured v rd rs1 avl new_type h) =
    set_vl-IsValid v rd rs1 avl new_type (reached-IsValid v h)

set_vl-vlenb : (v : V) (rd rs1 avl new_type : ℕ) → (set_vl v rd rs1 avl new_type).vlenb ≡ v.vlenb
unfolding set_vl set_type
set_vl-vlenb v rd rs1 avl new_type = ground arith

reached-vlenb : (v : V) → IsReached v → v.vlenb ≡ 256
unfolding new
reached-vlenb _ created = set_vl-vlenb _ 0 0 0 (2 ^ 64 - 1)
reached-vlenb _ (configured v rd rs1 avl new_type h) =
    set_vl-vlenb v rd rs1 avl new_type ∙ reached-vlenb v h

-- What the getters show: SEW, LMUL, the two flags and the room of a type, unless it is illegal.
pub record Shows (v : V) (type : ℕ) : Type 0 where
  pub ill : vill v ≡ not (is_legal type)
  pub room : vlmax v ≡ capacity type
  pub length_ : vl v ≤ capacity type
  pub bytes : vlenb v ≡ 256
  pub legal :
      is_legal type ≡ true
      → (vsew v ≡ sew type)
        × (vlmul v ≡ lmul type)
        × (vta v ≡ not (type / 2 ^ 6 % 2 == 0))
        × (vma v ≡ not (type / 2 ^ 7 % 2 == 0))

valid-Shows : (v : V) → v.vlenb ≡ 256 → IsValid v → Shows v v.vtype
unfolding vl vlmax vsew vlmul vta vma vill vlenb
valid-Shows v bytes h =
    let typed = h.typed in
    record {
      ill = typed.ill_of_type;
      room = typed.max_of_type;
      length_ = rw (sym typed.max_of_type) h.bounded;
      bytes = bytes;
      legal = λ good.
          let there : v.vill ≡ false = typed.ill_of_type ∙ ap not good in
          let s = typed.sew_of_type in
          let l = typed.lmul_of_type in
          elim typed.agnostic_of_type [
            | inl marked ↦ cc
            | inr flags ↦ (ground (arith, there, s), ground (arith, there, l), flags.0, flags.1)
          ];
    }

-- After `V::new` and any run of `set_vl`, with any arguments, `vstart` is 0, and the getters show
-- the configuration that `vtype` means: `vill` tells whether it is illegal, `vlmax` is VLEN / SEW *
-- LMUL or 0 for an illegal one, `vl` is at most `vlmax`, `vlenb` is 256, and for a legal one `vsew`,
-- `vlmul`, `vta` and `vma` are its fields.
pub reached-Shows : (v : V) → IsReached v → Shows v v.vtype × (v.vstart ≡ 0)
reached-Shows v h =
    let valid = reached-IsValid v h in (valid-Shows v (reached-vlenb v h) valid, valid.reset)
