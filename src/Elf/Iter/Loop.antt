-- ===== src/Elf/Iter/Loop.antt =====
-- The `for` loop over an iterator of src/frontend/elf.rs: how it ends, and what a loop that ran to
-- its end has seen.
use double_jit_vm.Prelude.{
  ℕ, zero, suc, ◌<◌, ◌≡◌, ◌≢◌, refl, sym, ◌∙◌, ◌⊎◌, inl, inr, Option, none, some, arith,
}
use double_jit_vm.Prelude.Outcome.{Outcome, Panic, ok, panic, Outcome-cases}
use double_jit_vm.Elf.Iter.{Flow, go, leave, for_each}

module _ {I A B : Type 0} (next : I → Outcome (Option A × I)) (body : A → Outcome (Flow B)) where
  pub for_each-zero : (it : I) → for_each next body zero it ≢ ok (some go)
  unfolding for_each
  for_each-zero it q = cc

  -- One turn, by what `next` and the body give.
  pub for_each-end :
      (n : ℕ) (it it' : I) → next it ≡ ok (none, it') → for_each next body (suc n) it ≡ ok (some go)
  unfolding for_each
  for_each-end n it it' e = rw (e) refl

  pub for_each-next_panic :
      (n : ℕ) (it : I) (p : Panic) → next it ≡ panic p → for_each next body (suc n) it ≡ panic p
  unfolding for_each
  for_each-next_panic n it p e = rw (e) refl

  pub for_each-body_panic :
      (n : ℕ) (it it' : I) (a : A) (p : Panic)
      → next it ≡ ok (some a, it')
      → body a ≡ panic p
      → for_each next body (suc n) it ≡ panic p
  unfolding for_each
  for_each-body_panic n it it' a p e f = rw (e, f) refl

  pub for_each-go :
      (n : ℕ) (it it' : I) (a : A)
      → next it ≡ ok (some a, it')
      → body a ≡ ok go
      → for_each next body (suc n) it ≡ for_each next body n it'
  unfolding for_each
  for_each-go n it it' a e f = rw (e, f) refl

  pub for_each-leave :
      (n : ℕ) (it it' : I) (a : A) (b : B)
      → next it ≡ ok (some a, it')
      → body a ≡ ok (leave b)
      → for_each next body (suc n) it ≡ ok (some (leave b))
  unfolding for_each
  for_each-leave n it it' a b e f = rw (e, f) refl

  -- A loop over an iterator that counts down is never cut off, given a call more than its count.
  module _ (count : I → ℕ)
      (falls : (it it' : I) (a : A) → next it ≡ ok (some a, it') → count it' < count it) where
    turn-ne-none :
        (n : ℕ) (it : I)
        → ((it' : I) → count it' < n → for_each next body n it' ≢ ok none)
        → count it < suc n
        → (step : Outcome (Option A × I)) → next it ≡ step
        → for_each next body (suc n) it ≢ ok none
    turn-ne-none n it ih h (panic p) e = rw (for_each-next_panic n it p e) (λ q. cc)
    turn-ne-none n it ih h (ok (none, it')) e = rw (for_each-end n it it' e) (λ q. cc)
    turn-ne-none n it ih h (ok (some a, it')) e = elim (Outcome-cases (body a)) [
      | inr (p, f) ↦ rw (for_each-body_panic n it it' a p e f) (λ q. cc)
      | inl (go, f) ↦ rw (for_each-go n it it' a e f) (ih it' (omega (arith, falls it it' a e)))
      | inl (leave b, f) ↦ rw (for_each-leave n it it' a b e f) (λ q. cc)
    ]

    pub for_each-ne-none : (n : ℕ) (it : I) → count it < n → for_each next body n it ≢ ok none
    for_each-ne-none zero it h = absurd (omega arith)
    for_each-ne-none (suc n) it h = turn-ne-none n it (for_each-ne-none n) h (next it) refl

  -- A loop that ran to its end either saw the end at once, or an item that it went on from.
  pub for_each-eq-go :
      (n : ℕ) (it : I)
      → for_each next body (suc n) it ≡ ok (some go)
      → ((it' : I) × (next it ≡ ok (none, it')))
        ⊎ ((a : A) × (it' : I) × (next it ≡ ok (some a, it'))
            × (body a ≡ ok go)
            × (for_each next body n it' ≡ ok (some go)))
  for_each-eq-go n it h = elim (Outcome-cases (next it)) [
    | inr (p, e) ↦ absurd (no_panic p (sym (for_each-next_panic n it p e) ∙ h))
    | inl ((none, it'), e) ↦ inl (it', e)
    | inl ((some a, it'), e) ↦ inr (item a it' e (body a) refl)
  ]
    where
      no_panic : (p : Panic) → ◌≡◌ {A = Outcome (Option (Flow B))} (panic p) (ok (some go)) → ⊥
      no_panic p q = cc

      item :
          (a : A) (it' : I)
          → next it ≡ ok (some a, it')
          → (m : Outcome (Flow B)) → body a ≡ m
          → (a : A) × (it' : I) × (next it ≡ ok (some a, it'))
            × (body a ≡ ok go)
            × (for_each next body n it' ≡ ok (some go))
      item a it' e (panic p) f =
          absurd (no_panic p (sym (for_each-body_panic n it it' a p e f) ∙ h))
      item a it' e (ok go) f = (a, it', e, f, sym (for_each-go n it it' a e f) ∙ h)
      item a it' e (ok (leave b)) f =
          let q : ◌≡◌ {A = Outcome (Option (Flow B))} (ok (some (leave b))) (ok (some go)) =
            sym (for_each-leave n it it' a b e f) ∙ h in
          cc
