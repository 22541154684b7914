-- ===== src/Buffers/Ledger.antt =====
-- What src/opends_aisio.c allocates and maps for buffers, it releases: the calls of the device
-- allocator and of xnvme balance over any sequence of operations that ends with the driver closed.
use opends_fork.Prelude.{
  ℕ, ◌+◌, ◌++◌, ◌≡◌, refl, ◌∙◌, true, false, some, List, [], ◌∷◌, ◌==◌, if◌then◌else◌, arith,
  Bool-cases, Option-cases, inl, inr,
}
use opends_fork.Prelude.Int.{ℤ}
use opends_fork.Buffers.{remove_buf}
use opends_fork.Buffers.Array.{total, total-append, total-remove, find-base}
use opends_fork.Buffers.Aisio.{
  BufEntry, Call, allocated, freed, mapped, unmapped, Driver, find, opends_alloc, opends_free,
  opends_buf_register, opends_buf_deregister, release_bufs, opends_driver_close,
}

abbrev pub is_at : ℕ → ℕ → ℕ
is_at b x = if x == b then 1 else 0

abbrev pub is_allocated : ℕ → Call → ℕ
is_allocated b (allocated x) = is_at b x
is_allocated b _ = 0

abbrev pub is_freed : ℕ → Call → ℕ
is_freed b (freed x) = is_at b x
is_freed b _ = 0

abbrev pub is_mapped : ℕ → Call → ℕ
is_mapped b (mapped x) = is_at b x
is_mapped b _ = 0

abbrev pub is_unmapped : ℕ → Call → ℕ
is_unmapped b (unmapped x) = is_at b x
is_unmapped b _ = 0

abbrev pub held : ℕ → BufEntry → ℕ
held b e = if e.owned then is_at b e.base else 0

abbrev pub shared : ℕ → BufEntry → ℕ
shared b e = if e.owned then 0 else is_at b e.base

-- At each address, what has not been released yet is in the table.
pub record IsBalanced (bufs : List BufEntry) (calls : List Call) : Type 0 where
  pub owned :
      (b : ℕ) → total (is_allocated b) calls ≡ total (is_freed b) calls + total (held b) bufs
  pub others :
      (b : ℕ) → total (is_mapped b) calls ≡ total (is_unmapped b) calls + total (shared b) bufs

-- A call of the API on buffers, with what the library under it returns.
pub data Op : Type 0 where
  alloc : (buf size : ℕ) → Op
  free : ℕ → Op
  register : (rc : ℤ) (buf_base size : ℕ) → Op
  deregister : ℕ → Op

unfoldable pub run : Op → Driver → Driver
run (alloc buf size) d = (opends_alloc buf size d).1
run (free buf) d = opends_free buf d
run (register rc buf_base size) d = (opends_buf_register rc buf_base size d).1
run (deregister buf_base) d = (opends_buf_deregister buf_base d).1

unfoldable pub run_all : List Op → Driver → Driver
run_all [] d = d
run_all (o ∷ os) d = run_all os (run o d)

-- Each step of the operations is a new entry with the call that made it, or a removal with one.
pub put-IsBalanced :
    (bufs : List BufEntry) (calls : List Call) (e : BufEntry)
    → IsBalanced bufs calls
    → IsBalanced (bufs ++ e ∷ []) ((if e.owned then allocated e.base else mapped e.base) ∷ calls)
unfolding total
put-IsBalanced bufs calls e h = record {
  owned = λ b.
      (let o = h.owned b in
        let t = total-append (held b) bufs e in
        elim (Bool-cases e.owned) [ inl y ↦ ground arith | inr n ↦ ground arith ]);
  others = λ b.
      (let o = h.others b in
        let t = total-append (shared b) bufs e in
        elim (Bool-cases e.owned) [ inl y ↦ ground arith | inr n ↦ ground arith ]);
}

pub drop-IsBalanced :
    (bufs : List BufEntry) (calls : List Call) (b : ℕ) (e : BufEntry)
    → find b bufs ≡ some e
    → e.base ≡ b
    → IsBalanced bufs calls
    → IsBalanced
        (remove_buf (λ (f : BufEntry). f.base) b bufs)
        ((if e.owned then freed b else unmapped b) ∷ calls)
unfolding total
drop-IsBalanced bufs calls b e f same h = record {
  owned = λ c.
      (let o = h.owned c in
        let t = total-remove (λ (f : BufEntry). f.base) (held c) b bufs e f in
        elim (Bool-cases e.owned) [ inl y ↦ ground arith | inr n ↦ ground arith ]);
  others = λ c.
      (let o = h.others c in
        let t = total-remove (λ (f : BufEntry). f.base) (shared c) b bufs e f in
        elim (Bool-cases e.owned) [ inl y ↦ ground arith | inr n ↦ ground arith ]);
}

pub alloc-IsBalanced :
    (buf size : ℕ) (d : Driver)
    → IsBalanced d.bufs d.calls
    → IsBalanced (opends_alloc buf size d).1.bufs (opends_alloc buf size d).1.calls
unfolding opends_alloc
alloc-IsBalanced buf size d h =
    let p = put-IsBalanced d.bufs d.calls (record { base = buf; length = size; owned = true }) h in
    ground arith

pub free-IsBalanced :
    (buf : ℕ) (d : Driver)
    → IsBalanced d.bufs d.calls
    → IsBalanced (opends_free buf d).bufs (opends_free buf d).calls
unfolding opends_free
free-IsBalanced buf d h = elim (Option-cases (find buf d.bufs)) [
  | inl missing ↦ ground arith
  | inr (e, f) ↦
      let p =
        drop-IsBalanced d.bufs d.calls buf e f (find-base (λ (x : BufEntry). x.base) buf d.bufs e f)
          h in
      ground arith
]

pub register-IsBalanced :
    (rc : ℤ) (buf size : ℕ) (d : Driver)
    → IsBalanced d.bufs d.calls
    → IsBalanced
        (opends_buf_register rc buf size d).1.bufs
        (opends_buf_register rc buf size d).1.calls
unfolding opends_buf_register
register-IsBalanced rc buf size d h =
    let p = put-IsBalanced d.bufs d.calls (record { base = buf; length = size; owned = false }) h in
    ground arith

pub deregister-IsBalanced :
    (buf : ℕ) (d : Driver)
    → IsBalanced d.bufs d.calls
    → IsBalanced (opends_buf_deregister buf d).1.bufs (opends_buf_deregister buf d).1.calls
unfolding opends_buf_deregister
deregister-IsBalanced buf d h = elim (Option-cases (find buf d.bufs)) [
  | inl missing ↦ ground arith
  | inr (e, f) ↦
      let p =
        drop-IsBalanced d.bufs d.calls buf e f (find-base (λ (x : BufEntry). x.base) buf d.bufs e f)
          h in
      ground arith
]

pub run_all-IsBalanced :
    (os : List Op) (d : Driver)
    → IsBalanced d.bufs d.calls
    → IsBalanced (run_all os d).bufs (run_all os d).calls
unfolding run_all run
run_all-IsBalanced [] d h = h
run_all-IsBalanced (alloc buf size ∷ os) d h =
    run_all-IsBalanced os (run (alloc buf size) d) (alloc-IsBalanced buf size d h)
run_all-IsBalanced (free buf ∷ os) d h =
    run_all-IsBalanced os (run (free buf) d) (free-IsBalanced buf d h)
run_all-IsBalanced (register rc buf size ∷ os) d h =
    run_all-IsBalanced os (run (register rc buf size) d) (register-IsBalanced rc buf size d h)
run_all-IsBalanced (deregister buf ∷ os) d h =
    run_all-IsBalanced os (run (deregister buf) d) (deregister-IsBalanced buf d h)

pub run-opened : (o : Op) (d : Driver) → (run o d).opened ≡ d.opened
unfolding run opends_alloc opends_free opends_buf_register opends_buf_deregister
run-opened (alloc buf size) d = ground arith
run-opened (free buf) d = elim (Option-cases (find buf d.bufs)) [
  | inl missing ↦ ground arith
  | inr (e, f) ↦ ground arith
]
run-opened (register rc buf size) d = ground arith
run-opened (deregister buf) d = elim (Option-cases (find buf d.bufs)) [
  | inl missing ↦ ground arith
  | inr (e, f) ↦ ground arith
]

pub run_all-opened : (os : List Op) (d : Driver) → (run_all os d).opened ≡ d.opened
unfolding run_all
run_all-opened [] d = refl
run_all-opened (o ∷ os) d = run_all-opened os (run o d) ∙ run-opened o d

pub release-IsBalanced :
    (bufs : List BufEntry) (calls : List Call)
    → IsBalanced bufs calls
    → IsBalanced [] (release_bufs bufs calls)
unfolding release_bufs total
release-IsBalanced [] calls h = h
release-IsBalanced (e ∷ es) calls h =
    release-IsBalanced es ((if e.owned then freed e.base else unmapped e.base) ∷ calls) (record {
      owned = λ b.
          (let o = h.owned b in
            elim (Bool-cases e.owned) [ inl y ↦ ground arith | inr n ↦ ground arith ]);
      others = λ b.
          (let o = h.others b in
            elim (Bool-cases e.owned) [ inl y ↦ ground arith | inr n ↦ ground arith ]);
    })

-- A driver that has just been opened.
abbrev pub fresh : Driver
fresh = record { opened = true; xdev = true; bufs = []; calls = [] }

-- The calls made between opening and closing it.
unfoldable pub calls_of : List Op → List Call
unfolding run_all opends_driver_close
calls_of os = (opends_driver_close (run_all os fresh)).1.calls

-- Whatever buffers are allocated, freed, registered and deregistered after the driver is opened,
-- and whichever of these calls fail, once the driver is closed every address has been freed as often
-- as it was allocated, and unmapped as often as it was mapped.
pub close_releases :
    (os : List Op) (b : ℕ)
    → (total (is_freed b) (calls_of os) ≡ total (is_allocated b) (calls_of os))
      × (total (is_unmapped b) (calls_of os) ≡ total (is_mapped b) (calls_of os))
unfolding calls_of opends_driver_close total
close_releases os b =
    let opened : (run_all os fresh).opened ≡ true = run_all-opened os fresh in
    let h = run_all-IsBalanced os fresh (record { owned = λ c. refl; others = λ c. refl }) in
    let r = release-IsBalanced (run_all os fresh).bufs (run_all os fresh).calls h in
    let o = r.owned b in let s = r.others b in (ground arith, ground arith)
