-- ===== src/Driver/Opening.antt =====
-- What `opends_driver_open` of src/opends_aisio.c holds when it succeeds, and what it leaves behind
-- when it fails.
use opends_fork.Prelude.{
  ℕ, zero, suc, replicate, ◌+◌, ◌-◌, ◌*◌, ◌≡◌, refl, ap, Bool, true, false, not, ◌&&◌, Option, none,
  some, List, [], ◌∷◌, ◌==◌, bit_and, if◌then◌else◌, length, length-map, map, arith, Bool-cases,
  Option-cases, inl, inr,
}
use opends_fork.Prelude.Int.{ℤ, is_negative}
use opends_fork.Errors.{OpError, device_not_found}
use opends_fork.StreamMap.{Table}
use opends_fork.Worker.Complete.{is_zero}
use opends_fork.Driver.Config.{Config, homi_dev, read_env_config}
use opends_fork.Driver.Resources.{
  Kind, memory, locks, connection, attach_path, qpairs, device, words, worker_array, queue, thread,
  bounce_slot, descriptor, acquired, Log, same, acquired_of, released_of,
}
use opends_fork.Driver.Open.{
  Host, Blocks, Worker, no_bounces, idle_worker, Driver, lba_size_of, open_device, workers_setup,
  after_open_device, open_connected, is_given, opends_driver_open,
}
use opends_fork.Driver.Setup.{Holds, workers_setup-Holds}

-- The slots of a ring that have a bounce buffer.
unfoldable pub given_slots : List ℕ → ℕ
given_slots [] = 0
given_slots (b ∷ bs) = (if b == 0 then 0 else 1) + given_slots bs

given_slots-replicate : (n : ℕ) → given_slots (replicate n 0) ≡ 0
unfolding given_slots
given_slots-replicate zero = refl
given_slots-replicate (suc n) = omega (arith, given_slots-replicate n)

given_slots-none : given_slots no_bounces ≡ 0
unfolding no_bounces
given_slots-none = given_slots-replicate 1024

-- The ring slots of all workers that have a bounce buffer.
unfoldable pub slots_of : List Worker → ℕ
slots_of [] = 0
slots_of (w ∷ ws) = given_slots w.bounce_bufs + slots_of ws

slots_of-idle : (cpus : List (Option ℤ)) → slots_of (map idle_worker cpus) ≡ 0
unfolding slots_of
slots_of-idle [] = refl
slots_of-idle (c ∷ cs) = omega (arith, given_slots-none, slots_of-idle cs)

-- What an open driver holds.
abbrev pub held : Kind → Driver → ℕ
held k d =
    same k memory
    + same k locks
    + same k connection
    + same k attach_path
    + same k qpairs
    + same k device
    + same k words
    + same k worker_array
    + length d.workers * (same k thread + same k queue)
    + length d.streams * (same k bounce_slot + same k descriptor)
    + slots_of d.workers * same k bounce_slot

abbrev pub is_not_found : OpError → Bool
is_not_found device_not_found = true
is_not_found _ = false

open_device-Holds :
    (k : Kind) (h : Host) (log : Log)
    → Holds k
        (elim (open_device h log).0 [
          | none ↦
              if is_negative h.homic_attach_qpair then 0 else same k attach_path + same k qpairs
          | some b ↦ same k attach_path + same k qpairs + same k device
        ])
        log
        (open_device h log).2
unfolding open_device acquired_of released_of
open_device-Holds k h log = elim (Bool-cases (is_negative h.homic_attach_qpair)) [
  | inl refused ↦ record { balance = rw (refused, refused) (omega arith) }
  | inr attached ↦ elim (Bool-cases h.xnvme_dev_open) [
    | inr closed ↦ record { balance = rw (attached, closed, attached) (omega arith) }
    | inl opened ↦ elim (Bool-cases (lba_size_of h.geometry == 0)) [
      | inl empty ↦ record { balance = rw (attached, opened, empty, attached) (omega arith) }
      | inr size ↦
          elim (Bool-cases (bit_and (lba_size_of h.geometry) (lba_size_of h.geometry - 1) == 0)) [
            | inr odd ↦ record {
              balance = rw (attached, opened, size, odd, attached) (omega arith);
            }
            | inl pow ↦ record { balance = rw (attached, opened, size, pow) (omega arith) }
          ]
    ]
  ]
]

open_device-path :
    (h : Host) (log : Log) → (open_device h log).1 ≡ not (is_negative h.homic_attach_qpair)
unfolding open_device
open_device-path h log = ground arith

open_device-attached :
    (h : Host) (log : Log) {b : Blocks}
    → (open_device h log).0 ≡ some b
    → is_negative h.homic_attach_qpair ≡ false
unfolding open_device
open_device-attached h log e = ground arith

-- What is still held after a call: all that an open driver holds; or, after a failure to set up the
-- device, the queue pairs, if they were attached.
abbrev pub remains : Kind → Host → OpError → Option Driver → ℕ
remains k h e (some d) = held k d
remains k h e none =
    if is_not_found e && not (is_negative h.homic_attach_qpair) then same k qpairs else 0

abbrev connected : Log
connected = acquired connection ∷ acquired locks ∷ acquired memory ∷ []

open_connected-Holds :
    (k : Kind) (h : Host) (c : Config) (table : Table)
    → Holds k
        (remains k h
          (open_connected h c table connected).0.err
          (open_connected h c table connected).1)
        []
        (open_connected h c table connected).2
unfolding open_connected after_open_device acquired_of released_of
open_connected-Holds k h c table =
    let run = open_device h connected in
    let o = (open_device-Holds k h connected).balance in
    let path = open_device-path h connected in
    let setup = workers_setup h c run.2 in
    let w = (workers_setup-Holds k h c run.2).balance in
    elim (Option-cases run.0) [
      | inl failed ↦
          (let o' = rw failed at o in
            elim (Bool-cases (is_negative h.homic_attach_qpair)) [
              | inl refused ↦ record {
                balance = rw (failed, path, refused) (let o'' = rw refused at o' in omega arith);
              }
              | inr attached ↦ record {
                balance = rw (failed, path, attached) (let o'' = rw attached at o' in omega arith);
              }
            ])
      | inr (b, opened) ↦
          (let o' = rw opened at o in
            let attached = open_device-attached h connected opened in
            elim (Bool-cases (is_zero setup.0)) [
              | inl ready ↦ record {
                balance =
                    rw (opened, ready)
                      (let w' = rw ready at w in
                        let z = ap (λ x. x * same k bounce_slot) (slots_of-idle setup.1) in
                        let n =
                          ap (λ x. x * (same k thread + same k queue))
                            (length-map setup.1 idle_worker) in
                        omega arith);
              }
              | inr failed ↦ record {
                balance =
                    rw (opened, failed, path, attached) (let w' = rw failed at w in omega arith);
              }
            ])
    ]

-- Whatever the libraries under it return, opening the driver leaves this held, of every kind: if it
-- succeeds, exactly what an open driver holds; if it fails, nothing, except that where the device
-- is not found after the queue pairs were attached, these stay attached.
pub opends_driver_open-Holds :
    (k : Kind) (h : Host) (is_open : Bool) (table : Table)
    → Holds k
        (remains k h
          (opends_driver_open h is_open table).0.err
          (opends_driver_open h is_open table).1)
        []
        (opends_driver_open h is_open table).2
unfolding opends_driver_open acquired_of released_of
opends_driver_open-Holds k h is_open table = elim (Bool-cases is_open) [
  | inl open_already ↦ record { balance = rw open_already (omega arith) }
  | inr closed ↦ elim (Bool-cases (is_given (h.getenv homi_dev))) [
    | inr unset ↦ record { balance = rw (closed, unset) (omega arith) }
    | inl set ↦ elim (Bool-cases h.calloc_driver) [
      | inr full ↦ record { balance = rw (closed, set, full) (omega arith) }
      | inl allocated ↦
          elim (Option-cases (read_env_config h.strtol h.strtoull h.getenv h.vendor)) [
            | inl bad ↦ record { balance = rw (closed, set, allocated, bad) (omega arith) }
            | inr (c, good) ↦ elim (Bool-cases (is_negative h.homic_connect)) [
              | inl refused ↦ record {
                balance = rw (closed, set, allocated, good, refused) (omega arith);
              }
              | inr accepted ↦
                  rw (closed, set, allocated, good, accepted) (open_connected-Holds k h c table)
            ]
          ]
    ]
  ]
]
