-- ===== src/Driver/Closing.antt =====
-- Everything that the driver of src/opends_aisio.c acquires while it is open is released when it is
-- closed.
use opends_fork.Prelude.{
  ℕ, zero, suc, ◌+◌, ◌*◌, ◌<◌, ◌≡◌, refl, ap, ◌∙◌, false, Option, none, some, List, [], ◌∷◌, ◌==◌,
  ◌||◌, ==_iff, leb, length, length-append, length-set, get_or, set, arith, Bool-cases, inl, inr,
}
use opends_fork.Errors.{Error, opends_ok}
use opends_fork.Prelude.Int.{ℤ, pos, is_negative}
use opends_fork.StreamMap.{Table, get, put}
use opends_fork.Worker.Complete.{is_zero}
use opends_fork.Driver.Resources.{
  Kind, queue, thread, bounce_slot, descriptor, acquired, released, Log, same, acquired_of,
  released_of,
}
use opends_fork.Driver.Open.{
  Host, Driver, Worker, idle_worker, Stream, release_each, opends_driver_open,
}
use opends_fork.Driver.Setup.{Holds, release_each-acquired, release_each-released}
use opends_fork.Driver.Opening.{held, slots_of, given_slots, opends_driver_open-Holds}
use opends_fork.Driver.Streams.{
  max_streams, stream_map_mask, stream_bounce_alloc, new_stream, after_put, opends_stream_register,
  give_bounce, free_slots, free_streams, free_workers, workers_teardown, opends_driver_close,
}

-- What is held with the driver open, and nothing with it closed.
abbrev pub holding : Kind → Option Driver → ℕ
holding k none = 0
holding k (some d) = held k d

-- A call that is handed the open driver `d` keeps the account.
abbrev Keeps : Kind → Error × Option Driver × Log → Type 0
Keeps k run = Holds k (holding k run.1) [] run.2

after_put-Holds :
    (k : Kind) (buf : ℕ) (d : Driver) (log : Log) (result : Option Table)
    → Holds k (held k d + same k bounce_slot + same k descriptor) [] log
    → Keeps k (after_put buf d log result)
unfolding after_put acquired_of released_of
after_put-Holds k buf d log none h = record { balance = omega (arith, h.balance) }
after_put-Holds k buf d log (some table) h =
    let more =
      ap (λ x. x * (same k bounce_slot + same k descriptor))
        (length-append d.streams (new_stream (length d.streams) buf ∷ [])) in
    record { balance = omega (arith, more, h.balance) }

register-Holds :
    (k : Kind) (rc : ℤ) (buf stream : ℕ) (d : Driver) (log : Log)
    → Holds k (held k d) [] log
    → Keeps k (opends_stream_register rc buf stream (some d) log)
unfolding opends_stream_register stream_bounce_alloc acquired_of released_of
register-Holds k rc buf stream d log h =
    let b = h.balance in
    elim (Bool-cases (stream == 0)) [
      | inl null ↦ record { balance = rw null (omega arith) }
      | inr given ↦ elim (Bool-cases (is_negative (get d.stream_map stream_map_mask stream))) [
        | inr known ↦ record { balance = rw (given, known) (omega arith) }
        | inl new ↦ elim (Bool-cases (leb max_streams (length d.streams))) [
          | inl full ↦ record { balance = rw (given, new, full) (omega arith) }
          | inr room ↦ elim (Bool-cases (is_zero rc)) [
            | inr failed ↦ record { balance = rw (given, new, room, failed, failed) (omega arith) }
            | inl mapped ↦ elim (Bool-cases (buf == 0)) [
              | inl failed ↦ record {
                balance = rw (given, new, room, mapped, failed) (omega arith);
              }
              | inr allocated ↦
                  rw (given, new, room, mapped, allocated)
                    (after_put-Holds k buf d (acquired bounce_slot ∷ acquired descriptor ∷ log)
                      (put d.stream_map stream_map_mask stream (pos (length d.streams)))
                      (record { balance = omega arith }))
            ]
          ]
        ]
      ]
    ]

slots_of-set :
    (ws : List Worker) (i : ℕ) (w : Worker)
    → i < length ws
    → slots_of (set ws i w) + given_slots (get_or ws i (idle_worker none)).bounce_bufs
      ≡ slots_of ws + given_slots w.bounce_bufs
unfolding slots_of
slots_of-set [] i w h = elim h [ ]
slots_of-set (v ∷ ws) zero w h = omega arith
slots_of-set (v ∷ ws) (suc i) w h = let ih = slots_of-set ws i w (omega arith) in omega arith

given_slots-set :
    (bs : List ℕ) (slot buf : ℕ)
    → slot < length bs
    → get_or bs slot 0 ≡ 0
    → (buf == 0) ≡ false
    → given_slots (set bs slot buf) ≡ given_slots bs + 1
unfolding given_slots
given_slots-set [] slot buf h free got = elim h [ ]
given_slots-set (b ∷ bs) zero buf h free got = rw (got, free) (omega arith)
given_slots-set (b ∷ bs) (suc slot) buf h free got =
    let ih = given_slots-set bs slot buf (omega arith) free got in omega arith

give_bounce-Holds :
    (k : Kind) (i slot buf : ℕ) (d : Driver) (log : Log)
    → Holds k (held k d) [] log
    → Holds k (held k (give_bounce i slot buf d log).0) [] (give_bounce i slot buf d log).1
unfolding give_bounce acquired_of released_of
give_bounce-Holds k i slot buf d log h =
    let w = get_or d.workers i (idle_worker none) in
    let w' : Worker = record w { bounce_bufs = set w.bounce_bufs slot buf } in
    let b = h.balance in
    elim (Bool-cases (leb (length d.workers) i || leb (length w.bounce_bufs) slot)) [
      | inl absent ↦ record { balance = rw absent (omega arith) }
      | inr present ↦ elim (Bool-cases (get_or w.bounce_bufs slot 0 == 0)) [
        | inr kept ↦ record { balance = rw (present, kept) (omega arith) }
        | inl free ↦ elim (Bool-cases (buf == 0)) [
          | inl failed ↦ record { balance = rw (present, free, failed) (omega arith) }
          | inr got ↦
              (let one =
                  given_slots-set w.bounce_bufs slot buf (grind arith)
                    ((==_iff (get_or w.bounce_bufs slot 0) 0).0 free) got in
                let more = slots_of-set d.workers i w' (grind arith) in
                let slots : slots_of (set d.workers i w') ≡ slots_of d.workers + 1 = omega arith in
                let counted = ap (λ x. x * same k bounce_slot) slots in
                let workers =
                  ap (λ x. x * (same k thread + same k queue)) (length-set d.workers i w') in
                record { balance = rw (present, free, got) (omega arith) })
        ]
      ]
    ]

free_streams-acquired :
    (k : Kind) (ss : List Stream) (log : Log)
    → acquired_of k (free_streams ss log) ≡ acquired_of k log
unfolding free_streams acquired_of
free_streams-acquired k [] log = refl
free_streams-acquired k (s ∷ ss) log = free_streams-acquired k ss _

free_streams-released :
    (k : Kind) (ss : List Stream) (log : Log)
    → released_of k (free_streams ss log)
      ≡ released_of k log + length ss * (same k bounce_slot + same k descriptor)
unfolding free_streams released_of
free_streams-released k [] log = omega arith
free_streams-released k (s ∷ ss) log =
    omega (arith, free_streams-released k ss (released descriptor ∷ released bounce_slot ∷ log))

free_slots-acquired :
    (k : Kind) (bs : List ℕ) (log : Log) → acquired_of k (free_slots bs log) ≡ acquired_of k log
unfolding free_slots acquired_of
free_slots-acquired k [] log = refl
free_slots-acquired k (b ∷ bs) log = elim (Bool-cases (b == 0)) [
  | inl null ↦ rw null (free_slots-acquired k bs log)
  | inr given ↦ rw given (free_slots-acquired k bs (released bounce_slot ∷ log))
]

free_slots-released :
    (k : Kind) (bs : List ℕ) (log : Log)
    → released_of k (free_slots bs log) ≡ released_of k log + given_slots bs * same k bounce_slot
unfolding free_slots released_of given_slots
free_slots-released k [] log = omega arith
free_slots-released k (b ∷ bs) log = elim (Bool-cases (b == 0)) [
  | inl null ↦ rw null (omega (arith, free_slots-released k bs log))
  | inr given ↦ rw given (omega (arith, free_slots-released k bs (released bounce_slot ∷ log)))
]

free_workers-acquired :
    (k : Kind) (ws : List Worker) (log : Log)
    → acquired_of k (free_workers ws log) ≡ acquired_of k log
unfolding free_workers acquired_of
free_workers-acquired k [] log = refl
free_workers-acquired k (w ∷ ws) log =
    free_workers-acquired k ws _ ∙ free_slots-acquired k w.bounce_bufs log

free_workers-released :
    (k : Kind) (ws : List Worker) (log : Log)
    → released_of k (free_workers ws log)
      ≡ released_of k log + length ws * same k queue + slots_of ws * same k bounce_slot
unfolding free_workers released_of slots_of
free_workers-released k [] log = omega arith
free_workers-released k (w ∷ ws) log = omega (
  arith,
  free_workers-released k ws (released queue ∷ free_slots w.bounce_bufs log),
  free_slots-released k w.bounce_bufs log,
)

-- `opends_driver_close` lets go of all that the open driver holds.
close-Holds :
    (k : Kind) (d : Driver) (log : Log)
    → Holds k (held k d) [] log
    → Holds k 0 [] (opends_driver_close (some d) log).2
unfolding opends_driver_close workers_teardown acquired_of released_of
close-Holds k d log h =
    let joined = release_each thread (length d.workers) log in
    let freed = free_streams d.streams joined in
    let a = free_workers-acquired k d.workers freed in
    let a' = free_streams-acquired k d.streams joined in
    let a'' = release_each-acquired k thread (length d.workers) log in
    let r = free_workers-released k d.workers freed in
    let r' = free_streams-released k d.streams joined in
    let r'' = release_each-released k thread (length d.workers) log in
    let b = h.balance in record { balance = omega arith }

-- What can happen to the resources of an open driver: a stream is registered, for what
-- `host_alloc_mapped` and `buf_alloc_locked` return, or an operation in a slot of the ring of a worker
-- asks for a bounce buffer, for what `buf_alloc_locked` returns.
pub data Use : Type 0 where
  register : (rc : ℤ) (buf stream : ℕ) → Use
  bounce : (worker slot buf : ℕ) → Use

unfoldable pub use_one : Use → Option Driver → Log → Option Driver × Log
use_one _ none log = (none, log)
use_one (register rc buf stream) (some d) log =
    let run = opends_stream_register rc buf stream (some d) log in (run.1, run.2)
use_one (bounce i slot buf) (some d) log =
    let (d', log') = give_bounce i slot buf d log in (some d', log')

unfoldable pub use_all : List Use → Option Driver → Log → Option Driver × Log
unfolding use_one
use_all [] d log = (d, log)
use_all (u ∷ us) d log = let (d', log') = use_one u d log in use_all us d' log'

use_one-Holds :
    (k : Kind) (u : Use) (d : Option Driver) (log : Log)
    → Holds k (holding k d) [] log
    → Holds k (holding k (use_one u d log).0) [] (use_one u d log).1
unfolding use_one
use_one-Holds k u none log h = h
use_one-Holds k (register rc buf stream) (some d) log h = register-Holds k rc buf stream d log h
use_one-Holds k (bounce i slot buf) (some d) log h = give_bounce-Holds k i slot buf d log h

use_all-Holds :
    (k : Kind) (us : List Use) (d : Option Driver) (log : Log)
    → Holds k (holding k d) [] log
    → Holds k (holding k (use_all us d log).0) [] (use_all us d log).1
unfolding use_all
use_all-Holds k [] d log h = h
use_all-Holds k (u ∷ us) d log h =
    use_all-Holds k us (use_one u d log).0 (use_one u d log).1 (use_one-Holds k u d log h)

closed-Holds :
    (k : Kind) (d : Option Driver) (log : Log)
    → Holds k (holding k d) [] log
    → Holds k 0 [] (opends_driver_close d log).2
unfolding opends_driver_close
closed-Holds k none log h = h
closed-Holds k (some d) log h = close-Holds k d log h

-- If opening the driver succeeds, then after any streams are registered, with success or not, and
-- any ring slots ask for bounce buffers, again after they have one or without success, closing it has released every resource as often as it was
-- acquired.
pub opends_driver_close-releases :
    (k : Kind) (h : Host) (table : Table) (uses : List Use) {d : Driver} {log : Log}
    → opends_driver_open h false table ≡ (opends_ok, some d, log)
    → let used = use_all uses (some d) log in
      let end = opends_driver_close used.0 used.1 in acquired_of k end.2 ≡ released_of k end.2
unfolding acquired_of released_of
opends_driver_close-releases k h table uses {d = d} {log = log} opened =
    let o = opends_driver_open-Holds k h false table in
    let o' : Holds k (held k d) [] log = rw opened at o in
    let used = use_all uses (some d) log in
    let c = closed-Holds k used.0 used.1 (use_all-Holds k uses (some d) log o') in
    omega (arith, c.balance)
