-- ===== src/Worker/Pass.antt =====
-- One pass of the I/O thread of src/opends_aisio.c over its ring: `io_thread_main`,
-- `poll_stream_pending`, `dispatch_pending`, `reap_in_flight`.
--
-- How often the thread sleeps between passes is left out: it changes no state of the driver.
use opends_fork.Prelude.{
  ℕ, zero, suc, ◌+◌, ◌*◌, ◌^◌, ◌%◌, ◌≡◌, Bool, true, false, not, ◌||◌, Option, none, some, List,
  ◌==◌, get_or, set,
}
use opends_fork.Worker.{
  OpState, op_free, pending, in_flight, FileOp, IoWorker, empty_op, slot_of, add32, sub32,
  advance_tail, is_gated,
}

-- The ring, the chunks and bounces that each slot waits for, and the gate words of the streams.
pub record IoThread : Type 0 where
  pub worker : IoWorker
  pub outstanding : List ℕ
  pub gates : List ℕ

abbrev pub op_at : IoThread → ℕ → FileOp
op_at t i = get_or t.worker.file_op_queue i empty_op

abbrev pub put_op : ℕ → FileOp → IoThread → IoThread
put_op i op t = record t {
  worker = record t.worker { file_op_queue = set t.worker.file_op_queue i op };
}

abbrev pub release_of : Option (ℕ × ℕ) → List ℕ → List ℕ
release_of none gates = gates
release_of (some (stream, seq)) gates = set gates stream ((2 * seq + 1) % 2 ^ 32)

-- `release_gate`
abbrev pub release_gate : FileOp → List ℕ → List ℕ
release_gate op gates = release_of op.gate gates

-- The end of `dispatch_write` and of `complete_read_op`: the gate is released, the slot is free.
abbrev pub finish_op : ℕ → FileOp → IoThread → IoThread
finish_op i op t =
    put_op i (record op { state = op_free }) (record t { gates = release_gate op t.gates })

-- `start i counts` is what the slots wait for once `start_read_op` has run on slot `i`: it may fail
-- with nothing to wait for, and commands of other slots may complete meanwhile.
module _ (start : ℕ → List ℕ → List ℕ) where
  -- `dispatch_pending`; is the operation a write?
  unfoldable pub dispatch_op : Bool → ℕ → FileOp → IoThread → IoThread
  dispatch_op true i op t = finish_op i op t
  dispatch_op false i op t =
      put_op i (record op { state = in_flight })
        (record t { outstanding = start i (set t.outstanding i 0) })

  abbrev pub dispatch_pending : ℕ → FileOp → IoThread → IoThread
  dispatch_pending i op t = dispatch_op op.is_write i op t

  -- `poll_stream_pending`; is the gate shut?
  unfoldable pub poll_gate : Bool → ℕ → FileOp → IoThread → Bool × IoThread
  poll_gate true i op t = (true, t)
  poll_gate false i op t = (false, dispatch_pending i op t)

  abbrev pub poll_stream_pending : ℕ → FileOp → ℕ → ℕ → IoThread → Bool × IoThread
  poll_stream_pending i op stream seq t = poll_gate (is_gated (get_or t.gates stream 0) seq) i op t

  -- `reap_in_flight`; is everything done that the operation waits for?
  unfoldable pub reap_op : Bool → ℕ → FileOp → IoThread → IoThread
  reap_op true i op t = finish_op i op t
  reap_op false i op t = t

  abbrev pub reap_in_flight : ℕ → FileOp → IoThread → IoThread
  reap_in_flight i op t = reap_op (get_or t.outstanding i 0 == 0) i op t

  -- A pending operation, by its mode.
  unfoldable pub visit_pending : Option (ℕ × ℕ) → ℕ → FileOp → IoThread → Bool × IoThread
  visit_pending none i op t = (false, dispatch_pending i op t)
  visit_pending (some (stream, seq)) i op t = poll_stream_pending i op stream seq t

  -- One turn of the loop over the ring, on slot `i`, by the operation's state; is it gated?
  unfoldable pub visit_state : OpState → ℕ → FileOp → IoThread → Bool × IoThread
  visit_state op_free i op t = (false, t)
  visit_state in_flight i op t = (false, reap_in_flight i op t)
  visit_state pending i op t = visit_pending op.gate i op t

  abbrev pub visit : ℕ → IoThread → Bool × IoThread
  visit i t = visit_state (op_at t i).state i (op_at t i) t

  -- The loop from the counter `x` on, with the turns left; was an operation gated?
  unfoldable pub pass_loop : ℕ → ℕ → IoThread → Bool × IoThread
  pass_loop zero x t = (false, t)
  pass_loop (suc n) x t =
      let (gated, t') = visit (slot_of x) t in
      let (more, t'') = pass_loop n (add32 x 1) t' in (gated || more, t'')

  -- The end of a pass; does the thread end? `stop` is `d->stop`, `poke` what the slots wait for after
  -- `xnvme_queue_poke`.
  unfoldable pub end_pass : (List ℕ → List ℕ) → Bool → Bool → IoThread → Bool × IoThread
  end_pass poke true false t = (true, t)
  end_pass poke false false t = (false, t)
  end_pass poke stop true t = (false, record t { outstanding = poke t.outstanding })

  -- A pass up to the `head` that the thread has loaded.
  unfoldable pub thread_pass : (List ℕ → List ℕ) → Bool → ℕ → IoThread → Bool × IoThread
  unfolding pass_loop end_pass
  thread_pass poke stop head t =
      let n = sub32 head t.worker.queue_tail in
      let (gated, t') = pass_loop n t.worker.queue_tail t in
      let w = advance_tail n head t'.worker in
      let busy = gated || not (w.queue_tail == head) in
      end_pass poke stop busy (record t' { worker = w })

-- Is the operation held back by its gate?
abbrev pub shut_of : List ℕ → Option (ℕ × ℕ) → Bool
shut_of gates none = false
shut_of gates (some (stream, seq)) = is_gated (get_or gates stream 0) seq

-- The gate words before and after an operation's gate is released.
pub data Released : Option (ℕ × ℕ) → List ℕ → List ℕ → Type 0 where
  no_gate : {gates : List ℕ} → Released none gates gates
  gate_opened :
      {gates : List ℕ} {stream seq : ℕ}
      → Released (some (stream, seq)) gates (set gates stream ((2 * seq + 1) % 2 ^ 32))

-- What the turn on slot `i` that finds `t` and leaves `t'` does to its operation, the counts and the
-- gates: an operation that is pending is carried out and its gate released, if it is a write, or
-- started on its own count, unless its gate is shut; one that is in flight is finished and its gate
-- released once nothing is outstanding, and no sooner.
pub data Visited (start : ℕ → List ℕ → List ℕ) (t : IoThread) (i : ℕ) (t' : IoThread)
    : FileOp → FileOp → Type 0 where
  stays_free :
      {op : FileOp}
      → op.state ≡ op_free
      → t'.outstanding ≡ t.outstanding
      → t'.gates ≡ t.gates
      → Visited start t i t' op op
  waits_gate :
      {op : FileOp}
      → op.state ≡ pending
      → shut_of t.gates op.gate ≡ true
      → t'.outstanding ≡ t.outstanding
      → t'.gates ≡ t.gates
      → Visited start t i t' op op
  written :
      {op : FileOp}
      → op.state ≡ pending
      → shut_of t.gates op.gate ≡ false
      → op.is_write ≡ true
      → t'.outstanding ≡ t.outstanding
      → Released op.gate t.gates t'.gates
      → Visited start t i t' op (record op { state = op_free })
  started :
      {op : FileOp}
      → op.state ≡ pending
      → shut_of t.gates op.gate ≡ false
      → op.is_write ≡ false
      → t'.outstanding ≡ start i (set t.outstanding i 0)
      → t'.gates ≡ t.gates
      → Visited start t i t' op (record op { state = in_flight })
  waits_commands :
      {op : FileOp}
      → op.state ≡ in_flight
      → (get_or t.outstanding i 0 == 0) ≡ false
      → t'.outstanding ≡ t.outstanding
      → t'.gates ≡ t.gates
      → Visited start t i t' op op
  reaped :
      {op : FileOp}
      → op.state ≡ in_flight
      → (get_or t.outstanding i 0 == 0) ≡ true
      → t'.outstanding ≡ t.outstanding
      → Released op.gate t.gates t'.gates
      → Visited start t i t' op (record op { state = op_free })
