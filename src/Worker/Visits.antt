-- ===== src/Worker/Visits.antt =====
-- What a pass of the I/O thread of src/opends_aisio.c does to each operation in its ring.
use opends_fork.Prelude.{
  ℕ, zero, suc, ◌^◌, ◌<◌, ◌≤◌, ◌≡◌, ◌≢◌, refl, sym, ap, ◌∙◌, Bool, true, false, Option, none, some,
  List, ◌==◌, ==_iff, if◌then◌else◌, get_or, set, length, length-set, get_or-set, set-get_or, arith,
}
use mathlib.Core.Path.{subst}
use opends_fork.Worker.{
  OpState, op_free, pending, in_flight, FileOp, empty_op, slot_of, add32, is_gated,
}
use opends_fork.Worker.Ring.{slot_of_lem}
use opends_fork.Worker.Pass.{
  IoThread, op_at, dispatch_op, poll_gate, reap_op, visit_pending, visit_state, visit, pass_loop,
  Visited, shut_of, Released, no_gate, gate_opened, release_of, stays_free, waits_gate, written,
  started, waits_commands, reaped,
}

release_gate-Released :
    (gates : List ℕ) (gate : Option (ℕ × ℕ)) → Released gate gates (release_of gate gates)
release_gate-Released gates none = no_gate
release_gate-Released gates (some (stream, seq)) = gate_opened

-- The worker after slot `i` has been given a new operation.
record Turn (start : ℕ → List ℕ → List ℕ) (i : ℕ) (t t' : IoThread) : Type 0 where
  op : FileOp
  visited : Visited start t i t' (op_at t i) op
  worker : t'.worker ≡ record t.worker { file_op_queue = set t.worker.file_op_queue i op }

-- A turn that leaves the operation alone.
same_worker :
    (i : ℕ) (t : IoThread)
    → t.worker ≡ record t.worker { file_op_queue = set t.worker.file_op_queue i (op_at t i) }
same_worker i t =
    ap (λ q. record t.worker { file_op_queue = q })
      (sym (set-get_or t.worker.file_op_queue i empty_op))

module _ (start : ℕ → List ℕ → List ℕ) where
  dispatch-Turn :
      (write : Bool) (i : ℕ) (t : IoThread)
      → (op_at t i).state ≡ pending
      → shut_of t.gates (op_at t i).gate ≡ false
      → (op_at t i).is_write ≡ write
      → Turn start i t (dispatch_op start write i (op_at t i) t)
  unfolding dispatch_op
  dispatch-Turn true i t p o w = record {
    op = _;
    visited = written p o w refl (release_gate-Released t.gates (op_at t i).gate);
    worker = refl;
  }
  dispatch-Turn false i t p o r = record {
    op = _;
    visited = started p o r refl refl;
    worker = refl;
  }

  poll-Turn :
      (shut : Bool) (i : ℕ) (t : IoThread)
      → (op_at t i).state ≡ pending
      → shut_of t.gates (op_at t i).gate ≡ shut
      → Turn start i t (poll_gate start shut i (op_at t i) t).1
  unfolding poll_gate
  poll-Turn true i t p g = record {
    op = _;
    visited = waits_gate p g refl refl;
    worker = same_worker i t;
  }
  poll-Turn false i t p g = dispatch-Turn (op_at t i).is_write i t p g refl

  reap-Turn :
      (idle : Bool) (i : ℕ) (t : IoThread)
      → (op_at t i).state ≡ in_flight
      → (get_or t.outstanding i 0 == 0) ≡ idle
      → Turn start i t (reap_op start idle i (op_at t i) t)
  unfolding reap_op
  reap-Turn true i t f z = record {
    op = _;
    visited = reaped f z refl (release_gate-Released t.gates (op_at t i).gate);
    worker = refl;
  }
  reap-Turn false i t f z = record {
    op = _;
    visited = waits_commands f z refl refl;
    worker = same_worker i t;
  }

  pending-Turn :
      (gate : Option (ℕ × ℕ)) (i : ℕ) (t : IoThread)
      → (op_at t i).state ≡ pending
      → (op_at t i).gate ≡ gate
      → Turn start i t (visit_pending start gate i (op_at t i) t).1
  unfolding visit_pending
  pending-Turn none i t p plain =
      dispatch-Turn (op_at t i).is_write i t p (ap (shut_of t.gates) plain) refl
  pending-Turn (some (stream, seq)) i t p gated =
      poll-Turn (is_gated (get_or t.gates stream 0) seq) i t p (ap (shut_of t.gates) gated)

  visit-Turn :
      (s : OpState) (i : ℕ) (t : IoThread)
      → (op_at t i).state ≡ s
      → Turn start i t (visit_state start s i (op_at t i) t).1
  unfolding visit_state
  visit-Turn op_free i t free = record {
    op = _;
    visited = stays_free free refl refl;
    worker = same_worker i t;
  }
  visit-Turn in_flight i t f = reap-Turn (get_or t.outstanding i 0 == 0) i t f refl
  visit-Turn pending i t p = pending-Turn (op_at t i).gate i t p refl

-- After a turn on a slot of the ring the other slots are as before.
Turn-at :
    (start : ℕ → List ℕ → List ℕ) (i j : ℕ) (t t' : IoThread)
    → i < length t.worker.file_op_queue
    → (r : Turn start i t t') → op_at t' j ≡ (if i == j then r.op else op_at t j)
Turn-at start i j t t' h r =
    ap (λ w. get_or w.file_op_queue j empty_op) r.worker
    ∙ get_or-set t.worker.file_op_queue i j r.op empty_op h

Turn-length :
    (start : ℕ → List ℕ → List ℕ) (i : ℕ) (t t' : IoThread)
    → Turn start i t t'
    → length t'.worker.file_op_queue ≡ length t.worker.file_op_queue
Turn-length start i t t' r =
    ap (λ w. length w.file_op_queue) r.worker ∙ length-set t.worker.file_op_queue i r.op

-- From `t` to `t'` the `n` slots from the counter `x` on were visited once each, and no other;
-- `turn i` is the state that the turn on the `i`th found, and `turn (suc i)` what it left.
pub record Passed (start : ℕ → List ℕ → List ℕ) (n x : ℕ) (turn : ℕ → IoThread) (t t' : IoThread)
    : Type 0 where
  pub each :
      (i : ℕ)
      → i < n
      → Visited start
          (turn i)
          (slot_of (add32 x i))
          (turn (suc i))
          (op_at t (slot_of (add32 x i)))
          (op_at t' (slot_of (add32 x i)))
  pub others : (j : ℕ) → ((i : ℕ) → i < n → slot_of (add32 x i) ≢ j) → op_at t' j ≡ op_at t j
  pub tail : t'.worker.queue_tail ≡ t.worker.queue_tail
  pub size : length t'.worker.file_op_queue ≡ length t.worker.file_op_queue

slot_of-ne : (x n i : ℕ) → n < 1024 → i < n → slot_of (add32 (add32 x 1) i) ≢ slot_of x
slot_of-ne x n i small lt e =
    let a = slot_of_lem (add32 (add32 x 1) i) in let b = slot_of_lem x in omega arith

module _ (start : ℕ → List ℕ → List ℕ) where
  -- The turn on the slot of `x`, and the rest of the loop.
  then-Passed :
      (n x : ℕ) (turn : ℕ → IoThread) (t t₁ t' : IoThread)
      → n < 1024
      → x < 2 ^ 32
      → length t.worker.file_op_queue ≡ 1024
      → turn 0 ≡ t
      → turn 1 ≡ t₁
      → Turn start (slot_of x) t t₁
      → Passed start n (add32 x 1) (λ i. turn (suc i)) t₁ t'
      → Passed start (suc n) x turn t t'
  then-Passed n x turn t t₁ t' small hx len begins ends r p =
      let in_ring : slot_of x < length t.worker.file_op_queue =
        (let a = slot_of_lem x in omega arith) in
      let at_x : op_at t₁ (slot_of x) ≡ r.op =
        Turn-at start (slot_of x) (slot_of x) t t₁ in_ring r
        ∙ ap (λ b. if b then r.op else op_at t (slot_of x)) ((==_iff (slot_of x) _).1 refl) in
      let elsewhere : (j : ℕ) → j ≢ slot_of x → op_at t₁ j ≡ op_at t j =
        λ j ne. (let a = Turn-at start (slot_of x) j t t₁ in_ring r in ground arith) in
      let first : op_at t' (slot_of x) ≡ r.op =
        p.others (slot_of x) (λ i lt. slot_of-ne x n i small lt) ∙ at_x in
      record {
        each = λ i.
            elim i
              as (λ m.
                m < suc n
                → Visited start (turn m) (slot_of (add32 x m)) (turn (suc m))
                    (op_at t (slot_of (add32 x m))) (op_at t' (slot_of (add32 x m)))) [
                      | zero ↦ λ lt.
                          subst (λ k. Visited start (turn 0) k (turn 1) (op_at t k) (op_at t' k))
                            (sym (ap slot_of (at_once x hx)))
                            (subst
                              (Visited start (turn 0) (slot_of x) (turn 1) (op_at t (slot_of x)))
                              (sym first)
                              (subst
                                (λ u.
                                  Visited start u (slot_of x) (turn 1) (op_at t (slot_of x)) r.op)
                                (sym begins)
                                (subst
                                  (λ v. Visited start t (slot_of x) v (op_at t (slot_of x)) r.op)
                                  (sym ends) r.visited)))
                      | suc m ↦ λ lt.
                          (let k = slot_of (add32 (add32 x 1) m) in
                            subst
                              (λ k.
                                Visited start (turn (suc m)) k (turn (suc (suc m))) (op_at t k)
                                  (op_at t' k))
                              (sym (ap slot_of (next x m)))
                              (subst
                                (λ o.
                                  Visited start (turn (suc m)) k (turn (suc (suc m))) o
                                    (op_at t' k))
                                (elsewhere k (slot_of-ne x n m small (omega arith)))
                                (p.each m (omega arith))))
                    ];
        others = λ j h.
            p.others j (λ i lt e. h (suc i) (omega arith) (ap slot_of (next x i) ∙ e))
            ∙ elsewhere j (λ e. h 0 (omega arith) (ap slot_of (at_once x hx) ∙ sym e));
        tail = p.tail ∙ ap (λ w. w.queue_tail) r.worker;
        size = p.size ∙ Turn-length start (slot_of x) t t₁ r;
      }
    where
      at_once : (x : ℕ) → x < 2 ^ 32 → add32 x 0 ≡ x
      at_once x hx = omega arith

      next : (x i : ℕ) → add32 x (suc i) ≡ add32 (add32 x 1) i
      next x i = omega arith

  -- The loop of a pass visits every slot from the counter on once, in the state that the turns
  -- before have left, and no other.
  pub pass_loop-Passed :
      (n x : ℕ) (t : IoThread)
      → n ≤ 1024
      → x < 2 ^ 32
      → length t.worker.file_op_queue ≡ 1024
      → Passed start n x (λ i. (pass_loop start i x t).1) t (pass_loop start n x t).1
  unfolding pass_loop
  pass_loop-Passed zero x t small hx len = record {
    each = λ i lt. elim lt [ ];
    others = λ j h. refl;
    tail = refl;
    size = refl;
  }
  pass_loop-Passed (suc n) x t small hx len =
      let t₁ = (visit start (slot_of x) t).1 in
      let r = visit-Turn start (op_at t (slot_of x)).state (slot_of x) t refl in
      then-Passed n x (λ i. (pass_loop start i x t).1) t t₁ (pass_loop start n (add32 x 1) t₁).1
        (omega arith) hx len refl refl r
        (pass_loop-Passed n (add32 x 1) t₁ (omega arith) (omega arith)
          (Turn-length start (slot_of x) t t₁ r ∙ len))
