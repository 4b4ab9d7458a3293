-- ===== src/Cache/Laws.antt =====
-- What the cache of src/frontend/cache.rs answers after any run of `set`.
use double_jit_vm.Prelude.{
  ℕ, ◌≡◌, refl, List, [], ◌∷◌, Option, none, some, ◌==◌, if◌then◌else◌, arith,
}
use double_jit_vm.Instr.{Instr}
use double_jit_vm.Cache.{lookup, insert, CodeCache, new, get, set}

module _ {ℓ} {A : Type ℓ} where
  lookup-insert :
      (m : List (ℕ × A)) (key other : ℕ) (value : A)
      → lookup (insert m key value) other ≡ (if key == other then some value else lookup m other)
  unfolding lookup insert
  lookup-insert [] key other value = ground arith
  lookup-insert ((k, a) ∷ rest) key other value = ground (arith, lookup-insert rest key other value)

-- A run of `set` calls, the earliest first.
abbrev pub set_all : CodeCache → List (ℕ × Instr) → CodeCache
set_all c [] = c
set_all c ((addr, instruction) ∷ rest) = set_all (set c addr instruction) rest

-- The instruction that the last call for `addr` set, or `before` if there is none.
abbrev pub last_set : Option Instr → List (ℕ × Instr) → ℕ → Option Instr
last_set before [] addr = before
last_set before ((key, instruction) ∷ rest) addr =
    last_set (if key == addr then some instruction else before) rest addr

get-set_all :
    (c : CodeCache) (calls : List (ℕ × Instr)) (addr : ℕ)
    → get (set_all c calls) addr ≡ last_set (get c addr) calls addr
unfolding get set
get-set_all c [] addr = refl
get-set_all c ((key, instruction) ∷ rest) addr =
    rw (get-set_all (set c key instruction) rest addr, lookup-insert c.cache key addr instruction)

-- After any run of `set` calls on a new cache, `get` answers with the instruction that the last
-- call for that address set, and with nothing if no call was for it.
pub get-new-set_all :
    (calls : List (ℕ × Instr)) (addr : ℕ) → get (set_all new calls) addr ≡ last_set none calls addr
unfolding new get lookup
get-new-set_all calls addr = get-set_all new calls addr
