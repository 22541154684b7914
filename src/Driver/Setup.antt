-- ===== src/Driver/Setup.antt =====
-- What `workers_setup` of src/opends_aisio.c leaves acquired.
use opends_fork.Prelude.{
  ℕ, zero, suc, ◌+◌, ◌*◌, ◌≡◌, refl, true, ◌∷◌, if◌then◌else◌, length, arith, Bool-cases, inl, inr,
}
use opends_fork.Worker.Complete.{is_zero}
use opends_fork.Driver.Config.{Config}
use opends_fork.Driver.Resources.{
  Kind, words, worker_array, queue, thread, acquired, released, Log, same, acquired_of, released_of,
}
use opends_fork.Driver.Open.{Start, start_loop, release_each, workers_setup, Host}

-- Between two logs `n` more resources of kind `k` are held.
pub record Holds (k : Kind) (n : ℕ) (log log' : Log) : Type 0 where
  pub balance : acquired_of k log' + released_of k log ≡ acquired_of k log + released_of k log' + n

pub release_each-acquired :
    (k j : Kind) (n : ℕ) (log : Log) → acquired_of k (release_each j n log) ≡ acquired_of k log
unfolding release_each acquired_of
release_each-acquired k j zero log = refl
release_each-acquired k j (suc n) log = release_each-acquired k j n (released j ∷ log)

pub release_each-released :
    (k j : Kind) (n : ℕ) (log : Log)
    → released_of k (release_each j n log) ≡ released_of k log + n * same k j
unfolding release_each released_of
release_each-released k j zero log = omega arith
release_each-released k j (suc n) log =
    omega (arith, release_each-released k j n (released j ∷ log))

start_loop-Holds :
    (k : Kind) (starts : ℕ → Start) (mask left i : ℕ) (log : Log)
    → Holds k
        (length (start_loop starts mask left i log).1 * (same k thread + same k queue))
        log
        (start_loop starts mask left i log).2
unfolding start_loop acquired_of released_of
start_loop-Holds k starts mask zero i log = record { balance = omega arith }
start_loop-Holds k starts mask (suc left) i log =
    let ih =
      (start_loop-Holds k starts mask left (i + 1)
        (acquired thread ∷ acquired queue ∷ log)).balance in
    elim (Bool-cases (starts i).queue_ok) [
      | inr no_queue ↦ record { balance = rw no_queue (omega arith) }
      | inl ok ↦ elim (Bool-cases (starts i).thread_ok) [
        | inr no_thread ↦ record { balance = rw (ok, no_thread) (omega arith) }
        | inl started ↦ record { balance = rw (ok, started) (omega arith) }
      ]
    ]

-- All workers are started, or the loop has failed.
start_loop-length :
    (starts : ℕ → Start) (mask left i : ℕ) (log : Log)
    → (start_loop starts mask left i log).0 ≡ true
    → length (start_loop starts mask left i log).1 ≡ left
unfolding start_loop
start_loop-length starts mask zero i log h = refl
start_loop-length starts mask (suc left) i log h =
    let ih = start_loop-length starts mask left (i + 1) (acquired thread ∷ acquired queue ∷ log) in
    ground arith

-- Workers that are set up hold their words, their array, and a queue and a thread each; a failure
-- holds nothing.
pub workers_setup-Holds :
    (k : Kind) (h : Host) (c : Config) (log : Log)
    → Holds k
        (if is_zero (workers_setup h c log).0
          then same k words
            + same k worker_array
            + length (workers_setup h c log).1 * (same k thread + same k queue)
          else 0)
        log
        (workers_setup h c log).2
unfolding workers_setup acquired_of released_of
workers_setup-Holds k h c log =
    let arrays = acquired worker_array ∷ acquired words ∷ log in
    let run = start_loop h.starts c.cpu_mask c.n_io_threads 0 arrays in
    let l = (start_loop-Holds k h.starts c.cpu_mask c.n_io_threads 0 arrays).balance in
    let a =
      release_each-acquired k queue (length run.1) (release_each thread (length run.1) run.2) in
    let a' = release_each-acquired k thread (length run.1) run.2 in
    let r =
      release_each-released k queue (length run.1) (release_each thread (length run.1) run.2) in
    let r' = release_each-released k thread (length run.1) run.2 in
    elim (Bool-cases (is_zero h.ctx_get)) [
      | inr no_context ↦ record { balance = rw (no_context, no_context) (omega arith) }
      | inl context ↦ elim (Bool-cases (is_zero h.host_alloc_mapped)) [
        | inr no_words ↦ record { balance = rw (context, no_words, no_words) (omega arith) }
        | inl mapped ↦ elim (Bool-cases h.calloc_workers) [
          | inr no_array ↦ record { balance = rw (context, mapped, no_array) (omega arith) }
          | inl array ↦ elim (Bool-cases run.0) [
            | inl all ↦ record { balance = rw (context, mapped, array, all) (omega arith) }
            | inr some_failed ↦ record {
              balance = rw (context, mapped, array, some_failed) (omega arith);
            }
          ]
        ]
      ]
    ]
