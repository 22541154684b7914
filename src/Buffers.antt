-- ===== src/Buffers.antt =====
-- The tables of registered buffers: the array of src/opends_aisio.c ("Buffer allocation") and that
-- of src/opends_ref.c. Both keep the live entries in front, search them by base address, and fill
-- the place of a removed entry with the last one.
--
-- Pointers are numbers, 0 is NULL. `xnvme_mem_map`, the device allocator and the C allocator are
-- not part of the repository: what they return is an argument, the calls of them are recorded.
pub mod Array
pub mod Aisio
pub mod Reference
pub mod Alloc
pub mod Ledger
pub mod Table
mod Tests
mod ReferenceTests
use opends_fork.Prelude.{ℕ, Bool, Option, none, some, List, [], ◌∷◌, ◌==◌, if◌then◌else◌}

module _ {ℓ} {A : Type ℓ} (base : A → ℕ) where
  -- The first entry with this base.
  unfoldable pub find_buf : ℕ → List A → Option A
  find_buf b [] = none
  find_buf b (e ∷ es) = if base e == b then some e else find_buf b es

-- `bufs[i] = bufs[count - 1]; count--` on the entry `e` at i, with the entries that follow it.
unfoldable pub last_of {ℓ} : {A : Type ℓ} → A → List A → A
last_of e [] = e
last_of e (f ∷ fs) = last_of f fs

unfoldable pub all_but_last {ℓ} : {A : Type ℓ} → A → List A → List A
all_but_last e [] = []
all_but_last e (f ∷ fs) = e ∷ all_but_last f fs

unfoldable pub fill_place {ℓ} : {A : Type ℓ} → List A → List A
unfolding last_of all_but_last
fill_place [] = []
fill_place (f ∷ fs) = last_of f fs ∷ all_but_last f fs

module _ {ℓ} {A : Type ℓ} (base : A → ℕ) where
  unfoldable pub remove_buf : ℕ → List A → List A
  unfolding fill_place
  remove_buf b [] = []
  remove_buf b (e ∷ es) = if base e == b then fill_place es else e ∷ remove_buf b es
