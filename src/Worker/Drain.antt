-- ===== src/Worker/Drain.antt =====
-- A whole pass of the I/O thread of src/opends_aisio.c, and how the thread ends.
use opends_fork.Prelude.{
  ℕ, suc, ◌^◌, ◌<◌, ◌≤◌, ◌≡◌, ◌≢◌, refl, sym, ap, ◌∙◌, Bool, true, false, not, ◌||◌, List, ◌==◌,
  get_or, length, arith,
}
use mathlib.Core.Path.{subst}
use opends_fork.Worker.{op_free, IoWorker, empty_op, slot_of, add32, sub32, advance_tail}
use opends_fork.Worker.Ring.{state_at, Advanced, advance_tail-Advanced}
use opends_fork.Worker.Pass.{IoThread, op_at, pass_loop, thread_pass, Visited}
use opends_fork.Worker.Pass.{end_pass}
use opends_fork.Worker.Visits.{Passed, pass_loop-Passed}

end_pass-worker :
    (start : ℕ → List ℕ → List ℕ) (poke : List ℕ → List ℕ) (stop busy : Bool) (t : IoThread)
    → (end_pass start poke stop busy t).1.worker ≡ t.worker
unfolding end_pass
end_pass-worker start poke true false t = refl
end_pass-worker start poke false false t = refl
end_pass-worker start poke true true t = refl
end_pass-worker start poke false true t = refl

end_pass-ends :
    (start : ℕ → List ℕ → List ℕ) (poke : List ℕ → List ℕ) (stop busy : Bool) (t : IoThread)
    → (end_pass start poke stop busy t).0 ≡ true
    → (stop ≡ true) × (busy ≡ false)
unfolding end_pass
end_pass-ends start poke true false t e = (refl, refl)
end_pass-ends start poke false false t e = cc e
end_pass-ends start poke true true t e = cc e
end_pass-ends start poke false true t e = cc e

module _ (start : ℕ → List ℕ → List ℕ) (poke : List ℕ → List ℕ) (stop : Bool) (head : ℕ)
    (t : IoThread) (tail_bound : t.worker.queue_tail < 2 ^ 32) (head_bound : head < 2 ^ 32)
    (room : sub32 head t.worker.queue_tail ≤ 1024)
    (size : length t.worker.file_op_queue ≡ 1024) where
  abbrev left : ℕ
  left = sub32 head t.worker.queue_tail

  abbrev looped : Bool × IoThread
  looped = pass_loop start left t.worker.queue_tail t

  abbrev advanced : IoWorker
  advanced = advance_tail left head looped.1.worker

  loop-Passed :
      Passed start left t.worker.queue_tail
        (λ i. (pass_loop start i t.worker.queue_tail t).1)
        t
        looped.1
  loop-Passed = pass_loop-Passed start left t.worker.queue_tail t room tail_bound size

  loop-Advanced : (steps : ℕ) × Advanced looped.1.worker head advanced steps
  loop-Advanced =
      let tail = loop-Passed.tail in
      advance_tail-Advanced left head looped.1.worker (omega arith) head_bound
        (let e = ap (sub32 head) tail in omega arith)

  pass_worker : (thread_pass start poke stop head t).1.worker ≡ advanced
  unfolding thread_pass
  pass_worker = end_pass-worker start poke stop _ (record looped.1 { worker = advanced })

  pass-op_at : (j : ℕ) → op_at (thread_pass start poke stop head t).1 j ≡ op_at looped.1 j
  pass-op_at j =
      ap (λ w. get_or w.file_op_queue j empty_op) pass_worker
      ∙ ap (λ q. get_or q j empty_op) loop-Advanced.1.kept

  -- In a pass up to the head that it has loaded, at most a ring's length away, the I/O thread visits
  -- every operation from the tail to the head once, in the state that the turns before have left: an
  -- operation is dispatched if and only if it is pending and its gate is not shut, and one in flight is
  -- finished if and only if it waits for nothing more. Dispatching a read starts it with its count at 0
  -- and leaves the gates. A write that is dispatched and an operation that is finished write
  -- 2 * seq + 1 to the gate of their own stream, if they have one, and no other. A turn that leaves its
  -- operation as it is leaves the counts and the gates too. No other slot changes.
  pub thread_pass-Visited :
      ((i : ℕ)
        → i < sub32 head t.worker.queue_tail
        → Visited start
            (pass_loop start i t.worker.queue_tail t).1
            (slot_of (add32 t.worker.queue_tail i))
            (pass_loop start (suc i) t.worker.queue_tail t).1
            (op_at t (slot_of (add32 t.worker.queue_tail i)))
            (op_at (thread_pass start poke stop head t).1 (slot_of (add32 t.worker.queue_tail i))))
      × ((j : ℕ)
          → ((i : ℕ)
              → i < sub32 head t.worker.queue_tail
              → slot_of (add32 t.worker.queue_tail i) ≢ j)
          → op_at (thread_pass start poke stop head t).1 j ≡ op_at t j)
  thread_pass-Visited = (
    λ i lt.
        subst
          (Visited start (pass_loop start i t.worker.queue_tail t).1
            (slot_of (add32 t.worker.queue_tail i))
            (pass_loop start (suc i) t.worker.queue_tail t).1
            (op_at t (slot_of (add32 t.worker.queue_tail i))))
          (sym (pass-op_at (slot_of (add32 t.worker.queue_tail i)))) (loop-Passed.each i lt),
    λ j h. pass-op_at j ∙ loop-Passed.others j h,
  )

  -- The I/O thread ends only in a pass in which it was told to stop, its tail has reached the head,
  -- and every operation that was in the ring is finished.
  pub thread_pass-ends :
      (thread_pass start poke stop head t).0 ≡ true
      → (stop ≡ true)
        × ((thread_pass start poke stop head t).1.worker.queue_tail ≡ head)
        × ((i : ℕ)
            → i < sub32 head t.worker.queue_tail
            → (op_at
                (thread_pass start poke stop head t).1
                (slot_of (add32 t.worker.queue_tail i))).state
              ≡ op_free)
  unfolding thread_pass
  thread_pass-ends e =
      let (stopped, idle) =
        end_pass-ends start poke stop (looped.0 || not (advanced.queue_tail == head))
          (record looped.1 { worker = advanced }) e in
      let at_head : advanced.queue_tail ≡ head = ground arith in
      let (steps, a) = loop-Advanced in
      let tail = loop-Passed.tail in
      let all : steps ≡ left =
        (let m = a.moved in let r = a.in_ring in let s = ap (sub32 head) tail in omega arith) in
      (
        stopped,
        ap (λ w. w.queue_tail) pass_worker ∙ at_head,
        λ i lt.
            ap (λ o. o.state) (pass-op_at (slot_of (add32 t.worker.queue_tail i)))
            ∙ subst (λ q. state_at looped.1.worker (add32 q i) ≡ op_free) tail
                (a.finished i (omega (arith, all))),
      )
