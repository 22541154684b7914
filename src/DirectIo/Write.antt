-- ===== src/DirectIo/Write.antt =====
-- `opends_direct_pwrite` of src/opends_common.c writes exactly the bytes asked for.
use opends_fork.Prelude.{ℕ, ◌+◌, ◌≤◌, ◌<◌, ◌≡◌, ◌≢◌, Option, none, some, max}
use opends_fork.DirectIo.Os.{Kernel, SameFile, Laws}
use opends_fork.DirectIo.Block.{FullReads}
use opends_fork.DirectIo.Blocks.{Blocks}

module _ {K : Type 0} {os : Kernel K} (laws : Laws os) (full : FullReads os) where
  module _ {size off start head span tail : ℕ} (bl : Blocks size off start head span tail)
      (nonzero : size ≢ 0) where
    -- What the code knows of the size to cut back to.
    record Cut (k : K) (trunc_to : Option ℕ) (k' : K) : Type 0 where
      same : SameFile os k k'
      kept : trunc_to ≡ none → start + span ≤ max (os.size_of k) (off + size)
      cut : (t : ℕ) → trunc_to ≡ some t → (t ≡ max (os.size_of k) (off + size)) × (t < start + span)
