-- ===== src/Worker/Complete.antt =====
-- How the I/O thread of src/opends_aisio.c ends an operation: `run_bounce_copies`,
-- `complete_read_op`, `dispatch_write`.
use opends_fork.Prelude.{
  ℕ, zero, suc, ◌+◌, ◌*◌, ◌^◌, ◌%◌, ◌≡◌, refl, sym, Bool, true, false, not, ◌||◌, ◌&&◌, ◌⊎◌, Option,
  none, some, List, [], ◌∷◌, ◌++◌, ◌==◌, if◌then◌else◌, take, Bool-cases, Option-cases, inl, inr,
  arith,
}
use opends_fork.Prelude.Int.{ℤ, pos, negsuc}
use opends_fork.Errors.{OpError, neg_code, device_driver_error, invalid_value}
use opends_fork.Engine.Bounces.{mode-cases}
use opends_fork.Engine.{Mode, stream, async, BounceSlot, ReadOp}

-- What completing an operation does, in order: copies on the host, and for a stream operation the
-- count in the caller's variable, the size in the copy descriptor and the gate; for an asynchronous
-- one the future; at last the slot is free again.
pub data Effect : Type 0 where
  copied : BounceSlot → Effect
  bytes_read : ℤ → Effect
  desc_bytes : ℕ → Effect
  gate_released : ℕ → Effect
  future_done : ℤ → Effect
  slot_free : Effect

abbrev pub is_zero : ℤ → Bool
is_zero (pos zero) = true
is_zero _ = false

-- `run_bounce_copies`: the copies made, and whether the last one failed. `ds_accel->copy` is not
-- part of the repository: `copy` is what it returns.
unfoldable pub copy_loop : (BounceSlot → ℤ) → List BounceSlot → List Effect × Bool
copy_loop copy [] = ([], false)
copy_loop copy (b ∷ bs) =
    let (made, failed) = copy_loop copy bs in
    if is_zero (copy b) then (copied b ∷ made, failed) else ([], true)

abbrev pub result_of : ReadOp → ℤ
result_of op = elim op.err [ none ↦ pos op.bytes_acc | some e ↦ neg_code e ]

abbrev pub first_nbytes : List BounceSlot → ℕ
first_nbytes [] = 0
first_nbytes (b ∷ bs) = b.nbytes

-- `complete_read_op`, for an operation with this sequence number.
unfoldable pub complete_read_op : (BounceSlot → ℤ) → ℕ → ReadOp → List Effect
unfolding copy_loop
complete_read_op copy seq op =
    let (made, failed) = copy_loop copy (take op.n_bounces op.bounces) in
    let tail_bytes : ℕ = elim op.err [
      | some e ↦ 0
      | none ↦ if op.n_bounces == 0 then 0 else first_nbytes op.bounces % 2 ^ 32
    ] in
    let after_copies : List Effect =
      made
      ++ (future_done (if failed then neg_code device_driver_error else pos op.bytes_acc)
          ∷ slot_free
          ∷ []) in
    elim op.mode [
      | stream bounce_buf ↦
          bytes_read (result_of op)
          ∷ desc_bytes tail_bytes
          ∷ gate_released ((2 * seq + 1) % 2 ^ 32)
          ∷ slot_free
          ∷ []
      | async ↦ elim op.err [
        | some e ↦ future_done (neg_code e) ∷ slot_free ∷ []
        | none ↦ after_copies
      ]
    ]

abbrev pub einval : ℕ
einval = 22

-- `dispatch_write` from the return of `pwrite_op`, which hands back a count or a negated errno.
unfoldable pub write_result : ℤ → ℤ
write_result (pos n) = pos n
write_result (negsuc n) =
    if suc n == einval then neg_code invalid_value else neg_code device_driver_error

unfoldable pub dispatch_write : Bool → ℕ → ℤ → List Effect
unfolding write_result
dispatch_write is_stream seq n =
    if is_stream
    then bytes_read (write_result n) ∷ gate_released ((2 * seq + 1) % 2 ^ 32) ∷ slot_free ∷ []
    else future_done (write_result n) ∷ slot_free ∷ []

-- The results that are handed to the caller.
unfoldable pub results : List Effect → List ℤ
results [] = []
results (bytes_read n ∷ es) = n ∷ results es
results (future_done n ∷ es) = n ∷ results es
results (_ ∷ es) = results es

-- The slot is freed, and nothing is done after it.
unfoldable pub frees_last : List Effect → Bool
frees_last [] = false
frees_last (slot_free ∷ []) = true
frees_last (slot_free ∷ e ∷ es) = false
frees_last (_ ∷ es) = frees_last es

-- The values that are written to gates.
unfoldable pub gates_of : List Effect → List ℕ
gates_of [] = []
gates_of (gate_released v ∷ es) = v ∷ gates_of es
gates_of (_ ∷ es) = gates_of es

-- The copies on the host.
unfoldable pub copies_of : List Effect → List BounceSlot
copies_of [] = []
copies_of (copied b ∷ es) = b ∷ copies_of es
copies_of (_ ∷ es) = copies_of es

-- What is done before the gate of a stream is released.
unfoldable pub before_gate : List Effect → List Effect
before_gate [] = []
before_gate (gate_released v ∷ es) = []
before_gate (e ∷ es) = e ∷ before_gate es

-- Does the copy of one of the slots fail?
abbrev pub any_fails : (BounceSlot → ℤ) → List BounceSlot → Bool
any_fails copy [] = false
any_fails copy (b ∷ bs) = not (is_zero (copy b)) || any_fails copy bs

abbrev pub is_some : Option OpError → Bool
is_some (some e) = true
is_some none = false

abbrev pub is_async : Mode → Bool
is_async async = true
is_async (stream bounce_buf) = false

-- The result that the caller of a read is due.
abbrev pub due_result : Bool → Bool → Option OpError → ℕ → ℤ
due_result on_host fails (some e) bytes = neg_code e
due_result on_host fails none bytes =
    if on_host && fails then neg_code device_driver_error else pos bytes

-- How many bytes of the tail a stream has left to copy.
abbrev pub due_tail : ReadOp → ℕ
due_tail op = elim op.err [
  | some e ↦ 0
  | none ↦ if op.n_bounces == 0 then 0 else first_nbytes op.bounces % 2 ^ 32
]

copy_loop-fails :
    (copy : BounceSlot → ℤ) (bs : List BounceSlot) → (copy_loop copy bs).1 ≡ any_fails copy bs
unfolding copy_loop
copy_loop-fails copy [] = refl
copy_loop-fails copy (b ∷ bs) =
    let ih = copy_loop-fails copy bs in
    elim (Bool-cases (is_zero (copy b))) [ inl y ↦ ground arith | inr m ↦ ground arith ]

-- The parts of the list of effects that the host copies `bs` and the end of the operation make.
copies-results :
    (copy : BounceSlot → ℤ) (bs : List BounceSlot) (n : ℤ)
    → (results ((copy_loop copy bs).0 ++ (future_done n ∷ slot_free ∷ [])) ≡ n ∷ [])
      × (frees_last ((copy_loop copy bs).0 ++ (future_done n ∷ slot_free ∷ [])) ≡ true)
      × (gates_of ((copy_loop copy bs).0 ++ (future_done n ∷ slot_free ∷ [])) ≡ [])
      × ((any_fails copy bs ≡ true)
          ⊎ (copies_of ((copy_loop copy bs).0 ++ (future_done n ∷ slot_free ∷ [])) ≡ bs))
unfolding copy_loop results frees_last gates_of copies_of
copies-results copy [] n = (refl, refl, refl, inr refl)
copies-results copy (b ∷ bs) n =
    let (r, f, g, c) = copies-results copy bs n in
    elim (Bool-cases (is_zero (copy b))) [
      | inl y ↦ (
        ground arith,
        ground arith,
        ground arith,
        elim c [ inl fails ↦ inl (rw (y, fails) refl) | inr all ↦ inr (rw (y, all) refl) ],
      )
      | inr m ↦ (ground arith, ground arith, ground arith, inl (rw m refl))
    ]

-- However a read ends, the caller is handed exactly one result: the code of its error if it has one;
-- else, if it is asynchronous and the copy of one of its bounce slots on the host fails,
-- device_driver_error; else the number of bytes read. Where none of these copies fails they are all made,
-- in order. The slot is freed once everything else is done.
-- A read of a stream makes no copy on the host: its result and the size of its tail, 0 after an error
-- or where there is none, are stored before its gate is released, which is done once, with
-- 2 * seq + 1 modulo 2 ^ 32. An asynchronous read touches no gate.
pub complete_lem :
    (copy : BounceSlot → ℤ) (seq : ℕ) (op : ReadOp)
    → (results (complete_read_op copy seq op)
        ≡ due_result
            (is_async op.mode)
            (any_fails copy (take op.n_bounces op.bounces))
            op.err
            op.bytes_acc
          ∷ [])
      × (frees_last (complete_read_op copy seq op) ≡ true)
      × (gates_of (complete_read_op copy seq op)
          ≡ (if is_async op.mode then [] else ((2 * seq + 1) % 2 ^ 32) ∷ []))
      × ((is_async op.mode ≡ false)
          ⊎ ((is_some op.err || any_fails copy (take op.n_bounces op.bounces)) ≡ true)
          ⊎ (copies_of (complete_read_op copy seq op) ≡ take op.n_bounces op.bounces))
      × ((is_async op.mode ≡ true)
          ⊎ (before_gate (complete_read_op copy seq op)
              ≡ bytes_read (due_result false false op.err op.bytes_acc)
                ∷ desc_bytes (due_tail op)
                ∷ []))
unfolding complete_read_op results frees_last gates_of before_gate copies_of
complete_lem copy seq op =
    let bs = take op.n_bounces op.bounces in
    let (made, failed) = copy_loop copy bs in
    let m : ℤ = if failed then neg_code device_driver_error else pos op.bytes_acc in
    let (one, last, no_gate, all) = copies-results copy bs m in
    let fails = copy_loop-fails copy bs in
    elim (mode-cases op.mode) [
      | inr (buf, is_stream) ↦ elim (Option-cases op.err) [
        | inr (e, bad) ↦ rw (is_stream, bad) (refl, refl, refl, inl refl, inr refl)
        | inl good ↦ rw (is_stream, good) (refl, refl, refl, inl refl, inr refl)
      ]
      | inl hosted ↦ elim (Option-cases op.err) [
        | inr (e, bad) ↦ rw (hosted, bad) (refl, refl, refl, inr (inl refl), inl refl)
        | inl good ↦ rw (hosted, good) (rw (sym fails) one, last, no_gate, inr all, inl refl)
      ]
    ]
