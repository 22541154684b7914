-- ===== src/Worker.antt =====
-- Submission to the I/O threads of src/opends_aisio.c: the ring of operations of each worker, the
-- stream gates, and the completion of an operation.
--
-- `uint32_t` counters wrap at 2 ^ 32. A worker's ring is the list of its 1024 slots.
pub mod Gate
pub mod Ring
pub mod Complete
pub mod Pass
pub mod Visits
pub mod Drain
pub mod Submit
pub mod Claim
pub mod Sequence
mod Tests
use opends_fork.Prelude.{
  ℕ, zero, suc, ◌+◌, ◌-◌, ◌*◌, ◌^◌, ◌%◌, Bool, true, false, not, ◌&&◌, ◌||◌, Option, none, some,
  List, [], ◌∷◌, ◌++◌, leb, ltb, ◌==◌, if◌then◌else◌, get_or, set, bit_and,
}
use opends_fork.Prelude.Int.{ℤ, pos, negsuc, neg, is_negative}
use opends_fork.Errors.{
  OpError, Error, opends_ok, opends_err, opends_err_dev, neg_code, device_driver_error,
  invalid_value, driver_not_initialized, internal_error, context_mismatch,
}

-- enum file_op_state
pub data OpState : Type 0 where
  op_free pending in_flight : OpState

-- What the ring tells of an operation: its state, and for a stream operation the index of the stream
-- and the sequence number.
pub record FileOp : Type 0 where
  pub state : OpState
  pub is_write : Bool
  pub gate : Option (ℕ × ℕ)

-- struct io_worker, its ring
pub record IoWorker : Type 0 where
  pub file_op_queue : List FileOp
  pub queue_head : ℕ
  pub queue_tail : ℕ

abbrev pub empty_op : FileOp
empty_op = record { state = op_free; is_write = false; gate = none }

-- `x & FILE_OP_QUEUE_MASK`
abbrev pub slot_of : ℕ → ℕ
slot_of x = bit_and x 1023

-- uint32_t arithmetic
abbrev pub add32 : ℕ → ℕ → ℕ
add32 a b = (a + b) % 2 ^ 32

abbrev pub sub32 : ℕ → ℕ → ℕ
sub32 a b = (a + 2 ^ 32 - b) % 2 ^ 32

-- `(int32_t)x < 0` of a uint32_t
abbrev pub negative32 : ℕ → Bool
negative32 x = leb (2 ^ 31) x

-- The test of `claim_slot_locked`: is there room in this ring?
abbrev pub has_room : IoWorker → Bool
has_room w = ltb (sub32 w.queue_head w.queue_tail) 1024

-- `op->… = …; op->state = FILE_OP_PENDING; w->queue_head = head + 1`
unfoldable pub publish : FileOp → IoWorker → IoWorker
publish op w = record w {
  file_op_queue = set w.file_op_queue (slot_of w.queue_head) (record op { state = pending });
  queue_head = add32 w.queue_head 1;
}

-- The loop that moves the tail past finished operations, as far as `head`.
unfoldable pub advance_tail : ℕ → ℕ → IoWorker → IoWorker
advance_tail zero head w = w
advance_tail (suc n) head w =
    let next = advance_tail n head (record w { queue_tail = add32 w.queue_tail 1 }) in
    if w.queue_tail == head
    then w
    else elim (get_or w.file_op_queue (slot_of w.queue_tail) empty_op).state [
      | op_free ↦ next
      | pending ↦ w
      | in_flight ↦ w
    ]

-- `poll_stream_pending`: is the operation still gated? `gate` is the word that it loads.
unfoldable pub is_gated : ℕ → ℕ → Bool
is_gated gate seq = negative32 (sub32 gate ((2 * seq) % 2 ^ 32))

-- `park_gate_cb`, one pass of its loop: does it go on waiting?
unfoldable pub is_parked : ℕ → ℕ → Bool
is_parked gate seq = negative32 (sub32 gate ((2 * seq + 1) % 2 ^ 32))
