-- ===== src/Cache.antt =====
-- src/frontend/cache.rs: the cache of decoded instructions by their address. The `HashMap` is a list
-- of pairs without a key twice: `insert` replaces the value that a key has.
pub mod Laws
use double_jit_vm.Prelude.{ℕ, List, [], ◌∷◌, Option, none, some, ◌==◌, if◌then◌else◌}
use double_jit_vm.Instr.{Instr}

-- `HashMap::get` and `HashMap::insert`.
module _ {ℓ} {A : Type ℓ} where
  unfoldable pub lookup : List (ℕ × A) → ℕ → Option A
  lookup [] key = none
  lookup ((k, a) ∷ rest) key = let later = lookup rest key in if k == key then some a else later

  unfoldable pub insert : List (ℕ × A) → ℕ → A → List (ℕ × A)
  insert [] key value = (key, value) ∷ []
  insert ((k, a) ∷ rest) key value =
      let later = insert rest key value in if k == key then (key, value) ∷ rest else (k, a) ∷ later

-- `Instruction` is a struct of one field, the `Instr`.
pub record CodeCache : Type 0 where
  pub cache : List (ℕ × Instr)

-- `CodeCache::new`, `get` and `set`.
unfoldable pub new : CodeCache
new = record { cache = [] }

unfoldable pub get : CodeCache → ℕ → Option Instr
get c addr = lookup c.cache addr

unfoldable pub set : CodeCache → ℕ → Instr → CodeCache
set c addr instruction = record { cache = insert c.cache addr instruction }
