-- ===== src/Worker/Ring.antt =====
-- The ring of a worker in src/opends_aisio.c: a claimed slot is no longer in use, and the tail stops
-- at the first operation that is not finished.
use opends_fork.Prelude.{
  ℕ, zero, suc, ◌+◌, ◌^◌, ◌%◌, ◌≤◌, ◌<◌, ◌≡◌, ◌≢◌, refl, ◌∙◌, ap, true, ◌==◌, get_or, get_or-set,
  length, ltb→lt, Bool-cases, arith, ◌⊎◌, inl, inr,
}
use mathlib.Core.Path.{subst}
use opends_fork.Prelude.Bits.{bit_and_mask}
use opends_fork.Worker.{
  OpState, op_free, pending, in_flight, IoWorker, FileOp, empty_op, slot_of, add32, sub32, has_room,
  advance_tail, publish,
}

pub slot_of_lem : (x : ℕ) → slot_of x ≡ x % 1024
slot_of_lem x = bit_and_mask 10 x

-- The counters are `uint32_t`s.
pub record IsRing (w : IoWorker) : Type 0 where
  pub head_bound : w.queue_head < 2 ^ 32
  pub tail_bound : w.queue_tail < 2 ^ 32

-- Where a ring has room, the slot of its head is none of the slots from the tail to the head, which
-- the I/O thread may still be working on.
claim_unused :
    (w : IoWorker) (i : ℕ)
    → IsRing w
    → has_room w ≡ true
    → i < sub32 w.queue_head w.queue_tail
    → slot_of (add32 w.queue_tail i) ≢ slot_of w.queue_head
claim_unused w i h room lt same =
    let a = slot_of_lem (add32 w.queue_tail i) in
    let b = slot_of_lem w.queue_head in
    let p = h.head_bound in
    let q = h.tail_bound in
    let r = ltb→lt (sub32 w.queue_head w.queue_tail) 1024 room in omega arith

abbrev pub state_at : IoWorker → ℕ → OpState
state_at w x = (get_or w.file_op_queue (slot_of x) empty_op).state

pub state-cases : (s : OpState) → (s ≡ op_free) ⊎ ((s ≡ pending) ⊎ (s ≡ in_flight))
state-cases op_free = inl refl
state-cases pending = inr (inl refl)
state-cases in_flight = inr (inr refl)

-- The tail has moved `steps` places, over finished operations only, and either reached the head or
-- stands at an unfinished operation.
pub record Advanced (w : IoWorker) (head : ℕ) (w' : IoWorker) (steps : ℕ) : Type 0 where
  pub moved : w'.queue_tail ≡ add32 w.queue_tail steps
  pub in_ring : steps ≤ sub32 head w.queue_tail
  pub finished : (i : ℕ) → i < steps → state_at w (add32 w.queue_tail i) ≡ op_free
  pub stopped : (w'.queue_tail ≡ head) ⊎ (state_at w w'.queue_tail ≢ op_free)
  pub kept : w'.file_op_queue ≡ w.file_op_queue

stay-Advanced :
    (w : IoWorker) (head : ℕ)
    → w.queue_tail < 2 ^ 32
    → (w.queue_tail ≡ head) ⊎ (state_at w w.queue_tail ≢ op_free)
    → Advanced w head w 0
stay-Advanced w head small s = record {
  moved = omega arith;
  in_ring = omega arith;
  finished = λ i lt. absurd (omega arith);
  stopped = s;
  kept = refl;
}

pass :
    (w : IoWorker) (head steps : ℕ) {w' : IoWorker}
    → w.queue_tail < 2 ^ 32
    → state_at w w.queue_tail ≡ op_free
    → Advanced (record w { queue_tail = add32 w.queue_tail 1 }) head w' steps
    → (i : ℕ) → i < suc steps
    → state_at w (add32 w.queue_tail i) ≡ op_free
pass w head steps small free a zero lt =
    ap (state_at w) (let e : add32 w.queue_tail 0 ≡ w.queue_tail = omega arith in e) ∙ free
pass w head steps small free a (suc i) lt =
    let e : add32 w.queue_tail (suc i) ≡ add32 (add32 w.queue_tail 1) i = omega arith in
    ap (state_at w) e ∙ a.finished i (omega arith)

step-Advanced :
    (w : IoWorker) (head : ℕ) (steps : ℕ) {w' : IoWorker}
    → w.queue_tail < 2 ^ 32
    → head < 2 ^ 32
    → w.queue_tail ≢ head
    → state_at w w.queue_tail ≡ op_free
    → Advanced (record w { queue_tail = add32 w.queue_tail 1 }) head w' steps
    → Advanced w head w' (suc steps)
step-Advanced w head steps {w'} small hs ne free a =
    let m = a.moved in
    let r = a.in_ring in
    record {
      moved = omega arith;
      in_ring = omega arith;
      finished = pass w head steps {w' = w'} small free a;
      stopped = a.stopped;
      kept = a.kept;
    }

-- The loop that moves the tail, given as many steps as there are operations from the tail to the
-- head, only passes finished operations and stops at the head or at the first that is not finished.
pub advance_tail-Advanced :
    (n head : ℕ) (w : IoWorker)
    → w.queue_tail < 2 ^ 32
    → head < 2 ^ 32
    → sub32 head w.queue_tail ≤ n
    → (steps : ℕ) × Advanced w head (advance_tail n head w) steps
unfolding advance_tail
advance_tail-Advanced zero head w small hs enough =
    (0, stay-Advanced w head small (inl (omega arith)))
advance_tail-Advanced (suc n) head w small hs enough =
    let w₁ : IoWorker = record w { queue_tail = add32 w.queue_tail 1 } in
    elim (Bool-cases (w.queue_tail == head)) [
      | inl done ↦
          (let s = stay-Advanced w head small (inl (ground arith)) in
            (0, subst (λ (v : IoWorker). Advanced w head v 0) (ground arith) s))
      | inr more ↦ elim (state-cases (state_at w w.queue_tail)) [
        | inl free ↦
            (let (steps, a) = advance_tail-Advanced n head w₁ (omega arith) hs (ground arith) in
              let b =
                step-Advanced w head steps {w' = advance_tail n head w₁} small hs
                  (λ e. ground arith) free a in
              (suc steps, subst (λ (v : IoWorker). Advanced w head v (suc steps)) (ground arith) b))
        | inr (inl p) ↦
            (let s = stay-Advanced w head small (inr λ e. ground arith) in
              (0, subst (λ (v : IoWorker). Advanced w head v 0) (ground arith) s))
        | inr (inr p) ↦
            (let s = stay-Advanced w head small (inr λ e. ground arith) in
              (0, subst (λ (v : IoWorker). Advanced w head v 0) (ground arith) s))
      ]
    ]

-- Publishing an operation in a ring with room uses one slot more: the operation stands there,
-- pending, and every slot from the tail to the old head holds what it held.
pub publish_lem :
    (w : IoWorker) (op : FileOp)
    → IsRing w
    → length w.file_op_queue ≡ 1024
    → has_room w ≡ true
    → (sub32 (publish op w).queue_head (publish op w).queue_tail
        ≡ sub32 w.queue_head w.queue_tail + 1)
      × (get_or (publish op w).file_op_queue (slot_of w.queue_head) empty_op
          ≡ record op { state = pending })
      × ((i : ℕ)
          → i < sub32 w.queue_head w.queue_tail
          → get_or (publish op w).file_op_queue (slot_of (add32 w.queue_tail i)) empty_op
            ≡ get_or w.file_op_queue (slot_of (add32 w.queue_tail i)) empty_op)
unfolding publish
publish_lem w op h len room =
    let p = h.head_bound in
    let q = h.tail_bound in
    let r = ltb→lt (sub32 w.queue_head w.queue_tail) 1024 room in
    let slot_bound : slot_of w.queue_head < length w.file_op_queue =
      (let a = slot_of_lem w.queue_head in omega arith) in
    (
      omega arith,
      (let g =
            get_or-set w.file_op_queue (slot_of w.queue_head) (slot_of w.queue_head)
              (record op { state = pending }) empty_op slot_bound in
          ground arith),
      λ i lt.
          (let g =
              get_or-set w.file_op_queue (slot_of w.queue_head) (slot_of (add32 w.queue_tail i))
                (record op { state = pending }) empty_op slot_bound in
            let other = claim_unused w i h room lt in ground arith),
    )
