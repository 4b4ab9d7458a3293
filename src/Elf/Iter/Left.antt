-- ===== src/Elf/Iter/Left.antt =====
-- The header in whose turn a loop over the headers of src/frontend/elf.rs returns.
use double_jit_vm.Prelude.{ℕ, zero, suc, ◌+◌, ◌≤◌, ◌<◌, ◌≡◌, ◌∙◌, inl, inr, ◌==◌, Bool-cases, arith}
use double_jit_vm.Prelude.Outcome.{Outcome, ok, panic, Outcome-cases}
use double_jit_vm.Page.{ParseResult, success, failure}
use double_jit_vm.Elf.Iter.{Flow, go, leave}
use double_jit_vm.Elf.Iter.Visit.{visit}

module _ {A B : Type 0} (read : ℕ → Outcome (ParseResult A)) (body : A → Outcome (Flow B)) where
  -- The body goes on from this header.
  abbrev pub PassesBy : ℕ → Type 0
  PassesBy j = (a : A) × (read j ≡ ok (success a)) × (body a ≡ ok go)

  -- The header numbered `k` is the first that the body returns from.
  abbrev pub LeavesAt : ℕ → ℕ → B → ℕ → Type 0
  LeavesAt left i b k =
      (i ≤ k)
      × (k < i + left)
      × ((a : A) × (read k ≡ ok (success a)) × (body a ≡ ok (leave b)))
      × ((j : ℕ) → i ≤ j → j < k → PassesBy j)

  pub visit-leave :
      (left i : ℕ) (b : B) → visit read body left i ≡ ok (leave b) → (k : ℕ) × LeavesAt left i b k
  unfolding visit
  visit-leave zero i b h = cc
  visit-leave (suc left) i b h = elim (Outcome-cases (read i)) [
    | inr (p, f) ↦ let stop : panic p ≡ ok (leave b) = rw (f) at h in cc
    | inl (failure e, f) ↦ let stop : ok go ≡ ok (leave b) = rw (f) at h in cc
    | inl (success a, f) ↦ elim (Outcome-cases (body a)) [
      | inr (p, g) ↦ let stop : panic p ≡ ok (leave b) = rw (f, g) at h in cc
      | inl (leave c, g) ↦
          let here : ok (leave c) ≡ ok (leave b) = rw (f, g) at h in
          (i, (omega arith, omega arith, (a, f, g ∙ here), λ j le lt. absurd (omega arith)))
      | inl (go, g) ↦
          let rest = visit-leave left (i + 1) b (rw (f, g) at h) in
          (
            rest.0,
            (
              omega (arith, rest.1.0),
              omega (arith, rest.1.1),
              rest.1.2,
              λ j le lt. elim (Bool-cases (j == i)) [
                | inl same ↦ let e : j ≡ i = ground (arith, same) in rw (e) (a, f, g)
                | inr other ↦ rest.1.3 j (ground (arith, other)) lt
              ],
            ),
          )
    ]
  ]
