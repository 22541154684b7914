-- ===== src/Gds/Calls.antt =====
-- The calls of src/opends_gds.c that change the backend's state, in any order.
use opends_fork.Prelude.{
  ℕ, ◌≡◌, ◌≢◌, refl, ap, Bool, true, false, not, Option, none, some, List, [], ◌∷◌, ◌==◌, ==_iff,
  arith, Bool-cases, Option-cases, inl, inr,
}
use opends_fork.Prelude.Int.{ℤ}
use opends_fork.Buffers.Reference.{itself}
use opends_fork.Gds.{
  CuError, is_refused, Driver, forget, opends_driver_open, opends_driver_close,
  opends_handle_register, opends_handle_deregister, opends_alloc, opends_free, opends_buf_register,
  opends_buf_deregister,
}

-- A call, with what the libraries return during it.
pub data Call : Type 0 where
  open_driver : CuError → Call
  close_driver : CuError → Call
  register_handle :
      (fcntl : ℤ → Option ℕ) (place : ℕ) (cu_register : ℤ → CuError × ℕ) (has_fh : Bool) (fd : ℤ)
      → Call
  deregister_handle : (fh : ℕ) → Call
  alloc : (allocated : Option ℕ) → CuError → Call
  free : CuError → (buf : ℕ) → Call
  register_buf : CuError → (buf_base size : ℕ) → Call
  deregister_buf : CuError → (buf_base : ℕ) → Call

pub forget-head : (b : ℕ) (bs : List ℕ) → forget itself b (b ∷ bs) ≡ bs
unfolding forget
forget-head b bs = rw ((==_iff b b).1 refl) refl

-- O_DIRECT is `o_direct`. A call that returns no error counts as one that succeeds; an allocation
-- fails when it returns NULL.
module _ (o_direct : ℕ) where
  unfoldable pub run : Call → Driver → Bool × Driver
  run (open_driver rc) d = let (e, d') = opends_driver_open rc d in (e.err == 0, d')
  run (close_driver rc) d = let (e, d') = opends_driver_close rc d in (e.err == 0, d')
  run (register_handle fcntl place cu_register has_fh fd) d =
      let (e, d') = opends_handle_register o_direct fcntl place cu_register has_fh fd d in
      (e.err == 0, d')
  run (deregister_handle fh) d = (true, opends_handle_deregister fh d)
  run (alloc allocated rc) d = let (ptr, d') = opends_alloc allocated rc d in (not (ptr == 0), d')
  run (free rc buf) d = (true, opends_free rc buf d)
  run (register_buf rc buf_base size) d =
      let (e, d') = opends_buf_register rc buf_base size d in (e.err == 0, d')
  run (deregister_buf rc buf_base) d =
      let (e, d') = opends_buf_deregister rc buf_base d in (e.err == 0, d')

  unfoldable pub run_all : List Call → Driver → Driver
  unfolding run
  run_all [] d = d
  run_all (c ∷ cs) d = run_all cs (run c d).1

  -- `cudaMalloc` stores no NULL.
  abbrev pub IsGiven : Call → Type 0
  IsGiven (alloc (some ptr) rc) = ptr ≢ 0
  IsGiven c = c ≡ c

  register-unchanged :
      (fcntl : ℤ → Option ℕ) (place : ℕ) (cu_register : ℤ → CuError × ℕ) (has_fh : Bool) (fd : ℤ)
      (d : Driver)
      → ((opends_handle_register o_direct fcntl place cu_register has_fh fd d).0.err == 0) ≡ false
      → (opends_handle_register o_direct fcntl place cu_register has_fh fd d).1 ≡ d
  unfolding opends_handle_register
  register-unchanged fcntl place cu_register has_fh fd d failed =
      let freed : record d { allocated = forget itself place (place ∷ d.allocated) } ≡ d =
        ap (λ a. record d { allocated = a }) (forget-head place d.allocated) in
      elim (Option-cases (fcntl fd)) [
        | inl unknown ↦ ground arith
        | inr (flags, got) ↦ ground arith
      ]

  -- If `cudaMalloc` stores no NULL, a call that fails leaves the backend as it was: it opens, closes,
  -- registers and deregisters nothing, and it has given back what
  -- `cudaMalloc` and, for a handle, `malloc` handed out.
  pub run-unchanged : (c : Call) (d : Driver) → IsGiven c → (run c d).0 ≡ false → (run c d).1 ≡ d
  unfolding run
  run-unchanged (open_driver rc) d _ failed = unfold opends_driver_open in ground arith
  run-unchanged (close_driver rc) d _ failed = unfold opends_driver_close in ground arith
  run-unchanged (register_handle fcntl place cu_register has_fh fd) d _ failed =
      register-unchanged fcntl place cu_register has_fh fd d failed
  run-unchanged (deregister_handle fh) d _ failed = ground arith
  run-unchanged (alloc none rc) d _ failed = unfold opends_alloc in refl
  run-unchanged (alloc (some ptr) rc) d given failed =
      unfold opends_alloc in
      elim (Bool-cases (is_refused rc)) [
        | inl refused ↦ rw refused (ap (λ m. record d { memory = m }) (forget-head ptr d.memory))
        | inr granted ↦ ground (arith, rw granted at failed)
      ]
  run-unchanged (free rc buf) d _ failed = ground arith
  run-unchanged (register_buf rc buf size) d _ failed = unfold opends_buf_register in ground arith
  run-unchanged (deregister_buf rc buf) d _ failed = unfold opends_buf_deregister in ground arith
