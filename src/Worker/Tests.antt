-- ===== src/Worker/Tests.antt =====
-- A worker's ring, a gate and a completion of src/opends_aisio.c on small inputs.
use opends_fork.Prelude.{
  ℕ, suc, ◌+◌, ◌*◌, ◌^◌, ◌%◌, ◌<◌, ◌≡◌, refl, true, false, none, some, [], ◌∷◌, ltb, replicate,
  get_or, arith, ◌⊎◌, length-replicate, ◌≢◌, set, List, ◌-◌,
}
use opends_fork.Prelude.Int.{pos}
use opends_fork.Errors.{neg_code, is_success, device_driver_error}
use opends_fork.Engine.{ReadOp, async}
use opends_fork.Worker.{
  has_room, FileOp, IoWorker, op_free, pending, in_flight, empty_op, slot_of, add32, sub32, publish,
  advance_tail, is_gated, is_parked,
}
use opends_fork.Worker.Gate.{gate_lem}
use opends_fork.Worker.Ring.{IsRing, publish_lem}
use opends_fork.Worker.Complete.{
  complete_read_op, gates_of, copies_of, before_gate, bytes_read, desc_bytes, results, frees_last,
  complete_lem,
}
use opends_fork.Worker.Pass.{
  IoThread, op_at, Visited, thread_pass, pass_loop, end_pass, visit_state, visit_pending, reap_op,
  dispatch_op,
}
use opends_fork.Worker.Drain.{thread_pass-Visited, thread_pass-ends}
use opends_fork.Worker.Claim.{Claim, claim_loop, claim_loop_total, no_worker}
use opends_fork.Worker.Submit.{Driver, Accel, submit_claimed}
use opends_fork.Worker.Sequence.{submit_claimed_lem}

-- The gate has wrapped: the operation is number 2 ^ 31 + 1, and the gate has counted to it.
gate_lem_example :
    (is_gated ((2 ^ 32 + 1) % 2 ^ 32) ((2 ^ 31 + 1) % 2 ^ 32) ≡ ltb (2 ^ 32 + 1) (2 * (2 ^ 31 + 1)))
    × (is_parked ((2 ^ 32 + 1) % 2 ^ 32) ((2 ^ 31 + 1) % 2 ^ 32)
        ≡ ltb (2 ^ 32 + 1) (2 * (2 ^ 31 + 1) + 1))
gate_lem_example = gate_lem (2 ^ 32 + 1) (2 ^ 31 + 1) (omega arith) (omega arith)

-- Two operations are in the ring.
abbrev busy_worker : IoWorker
busy_worker = record { file_op_queue = replicate 1024 empty_op; queue_head = 5; queue_tail = 3 }

busy-IsRing : IsRing busy_worker
busy-IsRing = record { head_bound = omega arith; tail_bound = omega arith }

abbrev new_op : FileOp
new_op = record { state = op_free; is_write = true; gate = none }

publish_lem_example :
    (sub32 (publish new_op busy_worker).queue_head (publish new_op busy_worker).queue_tail
      ≡ sub32 5 3 + 1)
    × (get_or (publish new_op busy_worker).file_op_queue (slot_of 5) empty_op
        ≡ record new_op { state = pending })
    × ((i : ℕ)
        → i < sub32 5 3
        → get_or (publish new_op busy_worker).file_op_queue (slot_of (add32 3 i)) empty_op
          ≡ get_or busy_worker.file_op_queue (slot_of (add32 3 i)) empty_op)
publish_lem_example =
    publish_lem busy_worker new_op busy-IsRing (length-replicate 1024 empty_op) refl

-- A read with a tail in one bounce slot, whose copy fails.
abbrev read_op : ReadOp
read_op = record {
  mode = async;
  err = none;
  chunks_remaining = 0;
  bounces_outstanding = 0;
  bytes_acc = 100;
  bounces = record { dst = 0x5000; src = 0x9000; nbytes = 100 } ∷ [];
  n_bounces = 1;
  bounce_buf = 0x9000;
  desc = none;
  moves = [];
}

complete_lem_example :
    (results (complete_read_op (λ b. pos 1) 7 read_op) ≡ neg_code device_driver_error ∷ [])
    × (frees_last (complete_read_op (λ b. pos 1) 7 read_op) ≡ true)
    × (gates_of (complete_read_op (λ b. pos 1) 7 read_op) ≡ [])
    × ((true ≡ false)
        ⊎ (true ≡ true)
        ⊎ (copies_of (complete_read_op (λ b. pos 1) 7 read_op) ≡ read_op.bounces))
    × ((true ≡ true)
        ⊎ (before_gate (complete_read_op (λ b. pos 1) 7 read_op)
            ≡ bytes_read (pos 100) ∷ desc_bytes 100 ∷ []))
complete_lem_example = complete_lem (λ b. pos 1) 7 read_op

abbrev driver : Driver
driver = record {
  opened = true;
  workers_ready = true;
  assume_aligned_only = false;
  stream_map = [];
  next_seq = 4 ∷ [];
  worker = busy_worker;
  commands = [];
}

abbrev accel : Accel
accel = record {
  launch_host_func = pos 0;
  stream_write_value32 = pos 0;
  stream_wait_value32_geq = pos 0;
  copy_stream = pos 0;
  same_context = true;
}

submit_claimed_lem_example :
    (get_or (submit_claimed accel false 0 driver).1.next_seq 0 0 ≡ add32 4 1)
    × (((true ≡ false)
          × ((submit_claimed accel false 0 driver).1.worker ≡ busy_worker)
          × (is_success (submit_claimed accel false 0 driver).0.err ≡ false))
        ⊎ ((true ≡ true)
            × (sub32
                  (submit_claimed accel false 0 driver).1.worker.queue_head
                  (submit_claimed accel false 0 driver).1.worker.queue_tail
                ≡ sub32 5 3 + 1)
            × (get_or
                  (submit_claimed accel false 0 driver).1.worker.file_op_queue
                  (slot_of 5)
                  empty_op
                ≡ record { state = pending; is_write = false; gate = some (0, add32 4 1) })
            × (is_success (submit_claimed accel false 0 driver).0.err ≡ true)))
submit_claimed_lem_example =
    submit_claimed_lem accel false 0 driver (omega arith) busy-IsRing
      (length-replicate 1024 empty_op) refl

-- A write, a read that is done, and a stream's operation whose gate has not opened, in slots 3 to 5.
abbrev thread : IoThread
thread = record {
  worker = record {
    file_op_queue =
        set
          (set
            (set (replicate 1024 empty_op) 3
              (record { state = pending; is_write = true; gate = none }))
            4 (record { state = in_flight; is_write = false; gate = none }))
          5 (record { state = pending; is_write = false; gate = some (0, 1) });
    queue_head = 6;
    queue_tail = 3;
  };
  outstanding = replicate 1024 0;
  gates = 1 ∷ [];
}

thread_pass-Visited_example :
    ((i : ℕ)
      → i < sub32 6 3
      → Visited
          (λ i counts. counts)
          (pass_loop (λ i counts. counts) i 3 thread).1
          (slot_of (add32 3 i))
          (pass_loop (λ i counts. counts) (suc i) 3 thread).1
          (op_at thread (slot_of (add32 3 i)))
          (op_at
            (thread_pass (λ i counts. counts) (λ counts. counts) true 6 thread).1
            (slot_of (add32 3 i))))
    × ((j : ℕ)
        → ((i : ℕ) → i < sub32 6 3 → slot_of (add32 3 i) ≢ j)
        → op_at (thread_pass (λ i counts. counts) (λ counts. counts) true 6 thread).1 j
          ≡ op_at thread j)
thread_pass-Visited_example =
    thread_pass-Visited (λ i counts. counts) (λ counts. counts) true 6 thread (omega arith)
      (omega arith) (omega arith) refl

-- The write and the read alone.
ended : (thread_pass (λ i counts. counts) (λ counts. counts) true 5 thread).0 ≡ true
unfolding thread_pass pass_loop end_pass visit_state visit_pending reap_op dispatch_op advance_tail
ended = refl

thread_pass-ends_example :
    (true ≡ true)
    × ((thread_pass (λ i counts. counts) (λ counts. counts) true 5 thread).1.worker.queue_tail ≡ 5)
    × ((i : ℕ)
        → i < sub32 5 3
        → (op_at
            (thread_pass (λ i counts. counts) (λ counts. counts) true 5 thread).1
            (slot_of (add32 3 i))).state
          ≡ op_free)
thread_pass-ends_example =
    thread_pass-ends (λ i counts. counts) (λ counts. counts) true 5 thread (omega arith)
      (omega arith) (omega arith) refl ended

-- Of two workers the first is full, and the round robin is about to wrap.
abbrev rings : ℕ → List IoWorker
rings q =
    record { file_op_queue = []; queue_head = 1024; queue_tail = 0 }
    ∷ record { file_op_queue = []; queue_head = 7; queue_tail = 0 }
    ∷ []

claim_loop_total_example :
    (c : Claim) × (claim_loop 2 rings 4 (2 ^ 32 - 2) 0 ≡ some c)
    × (has_room (get_or (rings c.tries) c.worker no_worker) ≡ true)
claim_loop_total_example =
    claim_loop_total 2 rings (2 ^ 32 - 2) 1 (omega arith) (omega arith) (omega arith) (λ q. refl)
