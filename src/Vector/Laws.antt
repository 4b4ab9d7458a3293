-- ===== src/Vector/Laws.antt =====
-- `set_vl` of src/frontend/v.rs keeps the state valid, and gives the length that the vector
-- extension asks for.
use Prim.Native.Nat.{bit_and, min}
use double_jit_vm.Prelude.{
  ℕ, ◌-◌, ◌/◌, ◌%◌, ◌^◌, ◌≤◌, ◌≡◌, inl, inr, refl, sym, true, false, ◌==◌, if◌then◌else◌,
  Bool-cases, arith,
}
use double_jit_vm.Bits.{bit_and-low_mask}
use double_jit_vm.Vector.{V, vlen, vlmul_of, vill_of, set_type, vl_of, set_vl, new}
use double_jit_vm.Vector.Meaning.{
  lmul, is_legal, capacity, IsTyped, IsValid, split_division, vlmul_of_lem, vill_of_lem,
  capacity-Room, capacity-legal, capacity-ill, mark-ill, fits, lmul_bound,
}

-- The masks of the source are the fields of the type.
masks :
    (t : ℕ)
    → (bit_and (t / 2 ^ 3) 7 ≡ t / 2 ^ 3 % 2 ^ 3)
      × (bit_and t 7 ≡ t % 2 ^ 3)
      × (bit_and (t / 2 ^ 6) 1 ≡ t / 2 ^ 6 % 2)
      × (bit_and (t / 2 ^ 7) 1 ≡ t / 2 ^ 7 % 2)
masks t = (
  bit_and-low_mask 3 (t / 2 ^ 3),
  bit_and-low_mask 3 t,
  bit_and-low_mask 1 (t / 2 ^ 6),
  bit_and-low_mask 1 (t / 2 ^ 7),
)

set_type-IsTyped : (v : V) (t : ℕ) → IsTyped (set_type v t)
unfolding set_type
set_type-IsTyped v t =
    let m = masks t in
    let room = split_division (lmul t) (t / 2 ^ 3 % 2 ^ 3) (omega arith) in
    rw (m.0, m.1, m.2, m.3, vlmul_of_lem t, vill_of_lem t)
      (elim (Bool-cases (is_legal t)) [
        | inl legal ↦ rw (legal) (record {
          max_of_type = rw (capacity-legal t legal) room;
          ill_of_type = rw (legal) refl;
          agnostic_of_type = inr (refl, refl);
          sew_of_type = refl;
          lmul_of_type = refl;
        })
        | inr ill ↦ rw (ill) (record {
          max_of_type = sym (capacity-ill (2 ^ 63) mark-ill);
          ill_of_type = rw (mark-ill) refl;
          agnostic_of_type = inl refl;
          sew_of_type = refl;
          lmul_of_type = refl;
        })
      ])

vl_of-bounded : (v : V) (rd rs1 avl : ℕ) → vl_of v rd rs1 avl ≤ v.vlmax
unfolding vl_of
vl_of-bounded v rd rs1 avl = ground arith

with_length : (v : V) (n : ℕ) → IsTyped v → n ≤ v.vlmax → IsValid (record v { vl = n; vstart = 0 })
with_length v n typed h = record {
  typed = record {
    max_of_type = typed.max_of_type;
    ill_of_type = typed.ill_of_type;
    sew_of_type = typed.sew_of_type;
    lmul_of_type = typed.lmul_of_type;
    agnostic_of_type = typed.agnostic_of_type;
  };
  bounded = h;
  reset = refl;
}

retyped : V → ℕ → V
retyped v t = if v.vtype == t then v else set_type v t

retyped-IsTyped : (v : V) (t : ℕ) → IsTyped v → IsTyped (retyped v t)
unfolding retyped
retyped-IsTyped v t typed = elim (Bool-cases (v.vtype == t)) [
  | inl same ↦ rw (same) typed
  | inr other ↦ rw (other) (set_type-IsTyped v t)
]

-- `set_vl` keeps the state valid, whatever its arguments are: `vl` stays within `vlmax`, and
-- `vlmax`, `vill`, `vsew`, `vlmul`, `vta` and `vma` stay those of `vtype`.
pub set_vl-IsValid :
    (v : V) (rd rs1 avl new_type : ℕ) → IsValid v → IsValid (set_vl v rd rs1 avl new_type)
unfolding set_vl retyped
set_vl-IsValid v rd rs1 avl new_type h =
    let typed = retyped v new_type in
    with_length typed (vl_of typed rd rs1 avl) (retyped-IsTyped v new_type h.typed)
      (vl_of-bounded typed rd rs1 avl)

retyped-vlmax : (v : V) (t : ℕ) → IsTyped v → (retyped v t).vlmax ≡ capacity t
unfolding retyped set_type
retyped-vlmax v t typed = elim (Bool-cases (v.vtype == t)) [
  | inl same ↦ let equal : v.vtype ≡ t = ground arith in rw (same, sym equal) typed.max_of_type
  | inr other ↦
      let m = masks t in
      rw (other, m.0, m.1, vlmul_of_lem t, vill_of_lem t)
        (elim (Bool-cases (is_legal t)) [
          | inl legal ↦
              rw (legal, capacity-legal t legal)
                (split_division (lmul t) (t / 2 ^ 3 % 2 ^ 3) (omega arith))
          | inr ill ↦ rw (ill) (sym (capacity-ill t ill))
        ])
]

retyped-vtype :
    (v : V) (t : ℕ) → IsTyped v → (retyped v t).vtype ≡ (if is_legal t then t else 2 ^ 63)
unfolding retyped set_type
retyped-vtype v t typed = elim (Bool-cases (v.vtype == t)) [
  | inl same ↦
      let equal : v.vtype ≡ t = ground arith in
      let ill = typed.ill_of_type in
      let mark = typed.sew_of_type in ground (arith, same, equal, ill, mark)
  | inr other ↦
      let m = masks t in
      rw (other, m.0, m.1, vlmul_of_lem t, vill_of_lem t)
        (elim (Bool-cases (is_legal t)) [ inl legal ↦ rw legal | inr ill ↦ rw ill ])
]

retyped-vl : (v : V) (t : ℕ) → (retyped v t).vl ≡ v.vl
unfolding retyped set_type
retyped-vl v t = ground arith

length_rule :
    (v : V) (rd rs1 avl : ℕ)
    → vl_of v rd rs1 avl
      ≡ (if rs1 == 0 then (if rd == 0 then min v.vl v.vlmax else v.vlmax) else min avl v.vlmax)
unfolding vl_of
length_rule v rd rs1 avl = ground arith

-- `set_vl` on a valid state records a legal type, and marks the state by the top bit for any other;
-- `vlmax` becomes VLEN / SEW * LMUL of the type, with LMUL two to the power of the signed number in the
-- three low bits, 0 for an illegal one, whether the type is new or the one that was set before; and `vl` becomes the smaller of `vlmax` and the length asked for: the
-- former `vl` if `rd` and `rs1` are both x0, no bound if only `rs1` is x0, else `avl`.
pub set_vl_lem :
    (v : V) (rd rs1 avl new_type : ℕ)
    → IsValid v
    → ((set_vl v rd rs1 avl new_type).vtype ≡ (if is_legal new_type then new_type else 2 ^ 63))
      × ((set_vl v rd rs1 avl new_type).vlmax ≡ capacity new_type)
      × ((set_vl v rd rs1 avl new_type).vl ≡ (
          if rs1 == 0
          then (if rd == 0 then min v.vl (capacity new_type) else capacity new_type)
          else min avl (capacity new_type)))
unfolding set_vl retyped
set_vl_lem v rd rs1 avl new_type h =
    let room = retyped-vlmax v new_type h.typed in
    let rule = length_rule (retyped v new_type) rd rs1 avl in
    let before = retyped-vl v new_type in
    (retyped-vtype v new_type h.typed, room, ground (arith, room, rule, before))

-- After `set_vl` with a legal type on a valid state, a register group holds between 1 and 2048
-- elements: a legal type never leaves the unit without an element.
pub set_vl-room :
    (v : V) (rd rs1 avl new_type : ℕ)
    → IsValid v
    → is_legal new_type ≡ true
    → (1 ≤ (set_vl v rd rs1 avl new_type).vlmax) × ((set_vl v rd rs1 avl new_type).vlmax ≤ 2048)
set_vl-room v rd rs1 avl new_type h legal =
    let max = (set_vl_lem v rd rs1 avl new_type h).1 in
    rw (max, capacity-legal new_type legal)
      (capacity-Room (lmul new_type) (new_type / 2 ^ 3 % 2 ^ 3) (lmul_bound new_type) (omega arith)
        (fits new_type legal))

-- `V::new` starts in a valid state, with the mark of an illegal configuration.
pub new-IsValid : IsValid new × (new.vill ≡ true) × (new.vl ≡ 0)
unfolding new set_vl set_type vl_of vill_of vlmul_of
new-IsValid =
    let zeroed : V = record {
      vstart = 0;
      vtype = 0;
      vl = 0;
      vlenb = vlen / 2 ^ 3;
      vill = false;
      vma = false;
      vta = false;
      vlmul = 0;
      vsew = 0;
      vlmax = 0;
    } in
    let marked = set_type zeroed (2 ^ 64 - 1) in
    (
      with_length marked (vl_of marked 0 0 0) (set_type-IsTyped zeroed (2 ^ 64 - 1))
          (vl_of-bounded marked 0 0 0),
      refl,
      refl,
    )
