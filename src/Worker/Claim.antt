-- ===== src/Worker/Claim.antt =====
-- The search for a worker with room in src/opends_aisio.c: `route_op` and `claim_slot_locked`.
--
-- Between two tries the lock is given up and the I/O threads go on: `seen p` is what the rings are
-- at try `p`.
use opends_fork.Prelude.{
  ℕ, zero, suc, ◌+◌, ◌-◌, ◌*◌, ◌/◌, ◌%◌, ◌^◌, ◌<◌, ◌≤◌, ◌≡◌, refl, ap, ◌∙◌, true, Option, none,
  some, List, [], if◌then◌else◌, get_or, Bool-cases, inl, inr, arith, leb, leb→le,
}
use native.Mathlib.Nat.{div-add-mod, mul-add-mod_self_left, mod-eq_of_lt, mod-lt}
use opends_fork.Worker.{IoWorker, add32, has_room}

abbrev pub no_worker : IoWorker
no_worker = record { file_op_queue = []; queue_head = 0; queue_tail = 0 }

-- What a search hands back: the worker with room, `*headp`, `rr_next`, and the number of its tries.
pub record Claim : Type 0 where
  pub worker : ℕ
  pub head : ℕ
  pub rr_next : ℕ
  pub tries : ℕ

module _ (n_io_threads : ℕ) (seen : ℕ → List IoWorker) where
  -- The loop from try `p` on, with the tries left; `rr` is `d->rr_next`, a uint32_t.
  unfoldable pub claim_loop : ℕ → ℕ → ℕ → Option Claim
  claim_loop zero rr p = none
  claim_loop (suc fuel) rr p =
      let rest = claim_loop fuel (add32 rr 1) (p + 1) in
      let i = rr % n_io_threads in
      let w = get_or (seen p) i no_worker in
      if has_room w
      then some (record { worker = i; head = w.queue_head; rr_next = add32 rr 1; tries = p })
      else rest

  -- A worker that has room at every try: a search comes to it if some try is its turn.
  claim_found :
      (fuel rr p k j : ℕ)
      → k < fuel
      → (rr + k) % 2 ^ 32 % n_io_threads ≡ j
      → rr < 2 ^ 32
      → ((q : ℕ) → has_room (get_or (seen q) j no_worker) ≡ true)
      → (c : Claim) × (claim_loop fuel rr p ≡ some c)
        × (has_room (get_or (seen c.tries) c.worker no_worker) ≡ true)
  unfolding claim_loop
  claim_found zero rr p k j lt turn hr room = elim lt [ ]
  claim_found (suc fuel) rr p k j lt turn hr room =
      elim (Bool-cases (has_room (get_or (seen p) (rr % n_io_threads) no_worker))) [
        | inl here ↦ (claimed, rw here refl, here)
        | inr full ↦
            elim k
                as (λ m.
                  m < suc fuel
                  → (rr + m) % 2 ^ 32 % n_io_threads ≡ j
                  → (c : Claim) × (claim_loop (suc fuel) rr p ≡ some c)
                    × (has_room (get_or (seen c.tries) c.worker no_worker) ≡ true)) [
                      | zero ↦ λ lt turn.
                          (let at_j : rr % n_io_threads ≡ j =
                              ap (λ x. x % n_io_threads) (at_once rr hr) ∙ turn in
                            let open_here =
                              ap (λ i. has_room (get_or (seen p) i no_worker)) at_j ∙ room p in
                            cc (full, open_here))
                      | suc m ↦ λ lt turn.
                          (let (c, found, has) =
                              claim_found fuel (add32 rr 1) (p + 1) m j (omega arith)
                                (ap (λ x. x % n_io_threads) (next rr m) ∙ turn) (omega arith)
                                room in
                            (c, rw full found, has))
                    ]
              lt turn
      ]
    where
      at_once : (rr : ℕ) → rr < 2 ^ 32 → rr ≡ (rr + 0) % 2 ^ 32
      at_once rr hr = omega arith

      next : (rr m : ℕ) → (add32 rr 1 + m) % 2 ^ 32 ≡ (rr + suc m) % 2 ^ 32
      next rr m = omega arith

      claimed : Claim
      claimed = record {
        worker = rr % n_io_threads;
        head = (get_or (seen p) (rr % n_io_threads) no_worker).queue_head;
        rr_next = add32 rr 1;
        tries = p;
      }

-- Within twice as many tries as there are workers it is every worker's turn, also where `rr_next`
-- wraps.
turn_of :
    (n rr j : ℕ)
    → j < n
    → n ≤ 2 ^ 31
    → rr < 2 ^ 32
    → (k : ℕ) × (k < 2 * n) × ((rr + k) % 2 ^ 32 % n ≡ j)
turn_of n rr j lt small hr = elim (Bool-cases (leb (rr + n) (2 ^ 32))) [
  | inl straight ↦
      (let fits : rr + n ≤ 2 ^ 32 = leb→le _ _ straight in
        let split = div-add-mod rr n in
        let r_lt : rr % n < n = mod-lt rr (omega arith) in
        elim (Bool-cases (leb (rr % n) j)) [
          | inl up ↦
              (let le = leb→le _ _ up in
                let e : (rr + (j - rr % n)) % 2 ^ 32 ≡ n * (rr / n) + j = omega arith in
                (
                  j - rr % n,
                  omega arith,
                  ap (λ x. x % n) e ∙ mul-add-mod_self_left n (rr / n) j ∙ mod-eq_of_lt lt,
                ))
          | inr down ↦
              (let gt : j < rr % n = grind arith in
                let e : (rr + (j + n - rr % n)) % 2 ^ 32 ≡ n * (rr / n + 1) + j = omega arith in
                (
                  j + n - rr % n,
                  omega arith,
                  ap (λ x. x % n) e ∙ mul-add-mod_self_left n (rr / n + 1) j ∙ mod-eq_of_lt lt,
                ))
        ])
  | inr wraps ↦ (
    2 ^ 32 - rr + j,
    grind arith,
    ap (λ x. x % n) (let e : (rr + (2 ^ 32 - rr + j)) % 2 ^ 32 ≡ j = omega arith in e)
        ∙ mod-eq_of_lt lt,
  )
]

-- If one of the workers has room at every try, the search ends within twice as many tries as there
-- are workers, wherever the round robin stands, with a worker that has room when it is tried.
pub claim_loop_total :
    (n_io_threads : ℕ) (seen : ℕ → List IoWorker) (rr j : ℕ)
    → n_io_threads ≤ 15
    → rr < 2 ^ 32
    → j < n_io_threads
    → ((q : ℕ) → has_room (get_or (seen q) j no_worker) ≡ true)
    → (c : Claim) × (claim_loop n_io_threads seen (2 * n_io_threads) rr 0 ≡ some c)
      × (has_room (get_or (seen c.tries) c.worker no_worker) ≡ true)
claim_loop_total n seen rr j small hr lt room =
    let (k, k_lt, turn) = turn_of n rr j lt (omega arith) hr in
    claim_found n seen (2 * n) rr 0 k j k_lt turn hr room
