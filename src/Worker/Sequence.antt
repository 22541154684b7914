-- ===== src/Worker/Sequence.antt =====
-- Sequence numbers of stream operations in src/opends_aisio.c: `submit_stream_op` against the gate.
use opends_fork.Prelude.{
  ℕ, ◌+◌, ◌*◌, ◌^◌, ◌%◌, ◌<◌, ◌≡◌, Bool, true, false, ◌||◌, ◌&&◌, refl, some, get_or, get_or-set,
  length, Bool-cases, arith, ◌⊎◌, inl, inr,
}
use opends_fork.Errors.{is_success}
use opends_fork.Worker.{pending, empty_op, add32, sub32, slot_of, has_room, is_gated, is_parked}
use opends_fork.Worker.Ring.{IsRing, publish_lem}
use opends_fork.Worker.Complete.{is_zero}
use opends_fork.Worker.Submit.{Driver, Accel, enqueue_gate, submit_claimed}

-- Does the stream take every command of the gate: the host function where all reads are aligned, else
-- the write and the wait?
abbrev pub gate_taken : Accel → Bool → Bool
gate_taken a true = is_zero a.launch_host_func
gate_taken a false = is_zero a.stream_write_value32 && is_zero a.stream_wait_value32_geq

enqueue_gate-taken :
    (a : Accel) (aligned_only : Bool) (seq : ℕ)
    → is_zero (enqueue_gate a aligned_only seq).0 ≡ gate_taken a aligned_only
unfolding enqueue_gate
enqueue_gate-taken a true seq = refl
enqueue_gate-taken a false seq = elim (Bool-cases (is_zero a.stream_write_value32)) [
  | inr refused ↦ rw refused refused
  | inl written ↦ elim (Bool-cases (is_zero a.stream_wait_value32_geq)) [
    | inr refused ↦ rw (written, refused) refused
    | inl waited ↦ rw (written, waited) refl
  ]
]

-- A stream operation that has claimed a slot takes the next sequence number of its stream, whether
-- its submission succeeds or not, so no number is used twice. Where the stream refuses a command of
-- the gate, the call fails and the ring is as before: no operation is left that waits for a gate which
-- never opens. Where the stream has taken the gate, one slot more of the ring is in use and the
-- operation stands in it, pending, with this number; and the call fails only if it is a read whose
-- copy of the tail the stream refuses.
pub submit_claimed_lem :
    (a : Accel) (is_write : Bool) (idx : ℕ) (d : Driver)
    → idx < length d.next_seq
    → IsRing d.worker
    → length d.worker.file_op_queue ≡ 1024
    → has_room d.worker ≡ true
    → (get_or (submit_claimed a is_write idx d).1.next_seq idx 0
        ≡ add32 (get_or d.next_seq idx 0) 1)
      × (((gate_taken a d.assume_aligned_only ≡ false)
            × ((submit_claimed a is_write idx d).1.worker ≡ d.worker)
            × (is_success (submit_claimed a is_write idx d).0.err ≡ false))
          ⊎ ((gate_taken a d.assume_aligned_only ≡ true)
              × (sub32
                    (submit_claimed a is_write idx d).1.worker.queue_head
                    (submit_claimed a is_write idx d).1.worker.queue_tail
                  ≡ sub32 d.worker.queue_head d.worker.queue_tail + 1)
              × (get_or
                    (submit_claimed a is_write idx d).1.worker.file_op_queue
                    (slot_of d.worker.queue_head)
                    empty_op
                  ≡ record {
                    state = pending;
                    is_write = is_write;
                    gate = some (idx, add32 (get_or d.next_seq idx 0) 1);
                  })
              × (is_success (submit_claimed a is_write idx d).0.err
                  ≡ (d.assume_aligned_only || is_write || is_zero a.copy_stream))))
unfolding submit_claimed
submit_claimed_lem a is_write idx d known ring len room =
    let seq = add32 (get_or d.next_seq idx 0) 1 in
    let g = get_or-set d.next_seq idx idx seq 0 known in
    let (used, there, others) =
      publish_lem d.worker (record { state = pending; is_write = is_write; gate = some (idx, seq) })
        ring len room in
    let gate = enqueue_gate-taken a d.assume_aligned_only seq in
    elim (Bool-cases (is_zero (enqueue_gate a d.assume_aligned_only seq).0)) [
      | inr failed ↦ (ground arith, inl (ground arith, ground arith, ground arith))
      | inl taken ↦ elim (Bool-cases (d.assume_aligned_only || is_write)) [
        | inl no_copy ↦ (ground arith, inr (ground arith, ground arith, ground arith, ground arith))
        | inr copy ↦ elim (Bool-cases (is_zero a.copy_stream)) [
          | inl ok ↦ (ground arith, inr (ground arith, ground arith, ground arith, ground arith))
          | inr failed ↦
              (ground arith, inr (ground arith, ground arith, ground arith, ground arith))
        ]
      ]
    ]

-- Whatever its 32-bit sequence number, also where it wraps: an operation is no longer gated once its
-- stream has written 2 * seq; until then the release of the operation before it leaves it gated; and
-- the stream stays parked on 2 * seq and goes on after the release 2 * seq + 1.
handshake :
    (seq : ℕ)
    → seq < 2 ^ 32
    → (is_gated (2 * seq % 2 ^ 32) seq ≡ false)
      × (is_gated ((2 * seq + 1) % 2 ^ 32) (add32 seq 1) ≡ true)
      × (is_parked (2 * seq % 2 ^ 32) seq ≡ true)
      × (is_parked ((2 * seq + 1) % 2 ^ 32) seq ≡ false)
unfolding is_gated is_parked
handshake seq small = (ground arith, ground arith, ground arith, ground arith)
