-- ===== src/Engine.antt =====
-- The read engine of the aisio backend, src/opends_aisio.c ("I/O engine"): how `start_read_op`
-- turns a byte range of a file into NVMe reads and bounce copies.
--
-- libxnvme is not part of the repository: what its queue answers to each attempt to submit is a
-- list of `Answer`s, an argument of the functions, and `none` means that the list has run out
-- while the code still tries. Pointers are numbers, 0 is NULL. `moves` is the model's record of the
-- commands that the queue has accepted, in order: what each brings from the device to memory.
pub mod Submit
pub mod Start
pub mod Pieces
pub mod Table
pub mod Coverage
pub mod Progress
pub mod Bounces
pub mod Spans
pub mod Request
mod Tests
use opends_fork.Prelude.{
  ℕ, zero, suc, ◌+◌, ◌-◌, ◌*◌, ◌/◌, ◌%◌, ◌^◌, Bool, true, false, Option, none, some, List, [], ◌∷◌,
  ◌++◌, if◌then◌else◌,
}
use opends_fork.Errors.{OpError, device_driver_error}

-- The fields of `struct driver` that the engine reads.
pub record Device : Type 0 where
  pub lba_size : ℕ
  pub lba_shift : ℕ
  pub mdts_nbytes : ℕ
  pub assume_aligned_only : Bool

-- struct ds_extent
pub record Extent : Type 0 where
  pub file_offset : ℕ
  pub slba : ℕ
  pub length : ℕ

-- struct bounce_slot
pub record BounceSlot : Type 0 where
  pub dst : ℕ
  pub src : ℕ
  pub nbytes : ℕ

-- `len` bytes from the byte address `src` of the device to the address `dst`.
pub record Piece : Type 0 where
  pub src : ℕ
  pub dst : ℕ
  pub len : ℕ

-- A command that the queue has accepted: one that reads whole blocks to the caller's buffer, or one
-- that reads a block to a bounce buffer, for the slot of this number in the operation's table.
pub data Move : Type 0 where
  direct : Piece → Move
  staged : (slot : ℕ) → Piece → Move

-- enum file_op_mode; a stream operation comes with its stream's bounce slot.
pub data Mode : Type 0 where
  stream : ℕ → Mode
  async : Mode

-- The part of `struct file_op` that a read in flight changes. `err` is 0, or an error code.
-- `desc` is what a stream's copy descriptor was filled with.
pub record ReadOp : Type 0 where
  pub mode : Mode
  pub err : Option OpError
  pub chunks_remaining : ℕ
  pub bounces_outstanding : ℕ
  pub bytes_acc : ℕ
  pub bounces : List BounceSlot
  pub n_bounces : ℕ
  pub bounce_buf : ℕ
  pub desc : Option (ℕ × ℕ)
  pub moves : List Move

-- A completion that `xnvme_queue_poke` hands to a callback: the status, and for a chunk `nlb`.
pub data Completion : Type 0 where
  chunk : Bool → ℕ → Completion
  bounce : Bool → Completion

-- `chunk_cb`: a failed chunk sets the error, another counts its bytes.
unfoldable pub chunk_cb : Device → Bool → ℕ → ReadOp → ReadOp
chunk_cb d failed nlb op = record op {
  err = if failed then some device_driver_error else op.err;
  bytes_acc = if failed then op.bytes_acc else op.bytes_acc + (nlb + 1) * d.lba_size;
  chunks_remaining = op.chunks_remaining - 1;
}

-- `bounce_cb`: only the first error is kept.
unfoldable pub bounce_cb : Bool → ReadOp → ReadOp
bounce_cb failed op = record op {
  err =
      if failed
      then (elim op.err [ none ↦ some device_driver_error | some e ↦ some e ])
      else op.err;
  bounces_outstanding = op.bounces_outstanding - 1;
}

unfoldable pub complete : Device → ReadOp → List Completion → ReadOp
unfolding chunk_cb bounce_cb
complete d op [] = op
complete d op (chunk failed nlb ∷ cs) = complete d (chunk_cb d failed nlb op) cs
complete d op (bounce failed ∷ cs) = complete d (bounce_cb failed op) cs

-- What an attempt to submit meets: no free command context, or `-EBUSY` (both poke the queue, which
-- runs the callbacks of completed commands of this operation), another error, or success.
pub data Answer : Type 0 where
  no_ctx : List Completion → Answer
  busy : List Completion → Answer
  refused : Answer
  accepted : Answer

-- A function of the engine that may fail with `op->err` set: whether it succeeded, the operation,
-- and the answers still to come.
abbrev pub Step : Type 0
Step = Option (Bool × ReadOp × List Answer)

abbrev pub give_up : OpError → ReadOp → List Answer → Step
give_up e op ans = some (false, record op { err = some e }, ans)

-- `if (… < 0) goto out;` and what follows.
infixl 5 ◌then_ok◌
abbrev pub ◌then_ok◌ : Step → (ReadOp → List Answer → Step) → Step
none then_ok f = none
some (false, op, ans) then_ok f = some (false, op, ans)
some (true, op, ans) then_ok f = f op ans

-- uint64_t addition
abbrev pub add64 : ℕ → ℕ → ℕ
add64 a b = (a + b) % 2 ^ 64
