-- ===== src/Gds/Files.antt =====
-- The file that a handle of src/opends_gds.c stands for, from its registration on.
use opends_fork.Prelude.{
  ℕ, ◌≡◌, refl, ap, ◌∙◌, Bool, false, Option, none, some, List, [], ◌∷◌, ◌==◌, ==_iff, arith,
  Bool-cases, Option-cases, inl, inr,
}
use opends_fork.Prelude.Int.{ℤ}
use opends_fork.Buffers.{find_buf}
use opends_fork.Gds.{
  CuError, ok, forwarded, Handle, place_of, Driver, forget, opends_driver_open, opends_driver_close,
  opends_handle_register, opends_handle_deregister, opends_alloc, opends_free, opends_buf_register,
  opends_buf_deregister,
}
use opends_fork.Gds.Io.{
  Cufile, Transfer, StreamTransfer, cufh_of, opends_sync_read, opends_stream_read,
}
use opends_fork.Gds.Calls.{
  Call, open_driver, close_driver, register_handle, deregister_handle, alloc, free, register_buf,
  deregister_buf, run, run_all,
}

-- The call does not deregister the handle `fh`, and `malloc` does not hand out its place, which is
-- in use.
abbrev pub Leaves : ℕ → Call → Type 0
Leaves fh (register_handle fcntl place cu_register has_fh fd) = (place == fh) ≡ false
Leaves fh (deregister_handle p) = (p == fh) ≡ false
Leaves fh c = c ≡ c

abbrev pub AllLeave : ℕ → List Call → Type 0
AllLeave fh [] = fh ≡ fh
AllLeave fh (c ∷ cs) = Leaves fh c × AllLeave fh cs

find-forget :
    (fh p : ℕ) (hs : List Handle)
    → (p == fh) ≡ false
    → find_buf place_of fh (forget place_of p hs) ≡ find_buf place_of fh hs
unfolding find_buf forget
find-forget fh p [] h = refl
find-forget fh p (g ∷ hs) h =
    let ih = find-forget fh p hs h in
    elim (Bool-cases (place_of g == p)) [
      | inl here ↦ ground arith
      | inr there ↦ rw there (ground arith)
    ]

cufh_of-found :
    (fh : ℕ) (d : Driver) {h : Handle}
    → find_buf place_of fh d.handles ≡ some h
    → cufh_of d fh ≡ h.cufh
unfolding cufh_of
cufh_of-found fh d found = rw (cufh_of, found) refl

module _ (o_direct : ℕ) where
  find-register :
      (fh : ℕ) (fcntl : ℤ → Option ℕ) (place : ℕ) (cu_register : ℤ → CuError × ℕ) (has_fh : Bool)
      (fd : ℤ) (d : Driver)
      → (place == fh) ≡ false
      → find_buf place_of fh
          (opends_handle_register o_direct fcntl place cu_register has_fh fd d).1.handles
        ≡ find_buf place_of fh d.handles
  unfolding opends_handle_register
  find-register fh fcntl place cu_register has_fh fd d h =
      let skip : find_buf place_of fh
            (record { place = place; cufh = (cu_register fd).1 } ∷ d.handles)
          ≡ find_buf place_of fh d.handles =
        unfold find_buf in rw h refl in
      elim (Option-cases (fcntl fd)) [ inl failed ↦ ground arith | inr (flags, got) ↦ ground arith ]

  find-deregister :
      (fh p : ℕ) (d : Driver)
      → (p == fh) ≡ false
      → find_buf place_of fh (opends_handle_deregister p d).handles ≡ find_buf place_of fh d.handles
  unfolding opends_handle_deregister
  find-deregister fh p d h =
      let skip = find-forget fh p d.handles h in
      elim (Option-cases (find_buf place_of p d.handles)) [
        | inl missing ↦ ground arith
        | inr (g, found) ↦ ground arith
      ]

  find-run :
      (fh : ℕ) (c : Call) (d : Driver)
      → Leaves fh c
      → find_buf place_of fh (run o_direct c d).1.handles ≡ find_buf place_of fh d.handles
  unfolding run
  find-run fh (open_driver rc) d l = unfold opends_driver_open in ground arith
  find-run fh (close_driver rc) d l = unfold opends_driver_close in ground arith
  find-run fh (register_handle fcntl place cu_register has_fh fd) d l =
      find-register fh fcntl place cu_register has_fh fd d l
  find-run fh (deregister_handle p) d l = find-deregister fh p d l
  find-run fh (alloc none rc) d l = unfold opends_alloc in refl
  find-run fh (alloc (some ptr) rc) d l = unfold opends_alloc in ground arith
  find-run fh (free rc buf) d l = unfold opends_free in ground arith
  find-run fh (register_buf rc buf size) d l = unfold opends_buf_register in ground arith
  find-run fh (deregister_buf rc buf) d l = unfold opends_buf_deregister in ground arith

  find-run_all :
      (fh : ℕ) (cs : List Call) (d : Driver)
      → AllLeave fh cs
      → find_buf place_of fh (run_all o_direct cs d).handles ≡ find_buf place_of fh d.handles
  unfolding run_all
  find-run_all fh [] d l = refl
  find-run_all fh (c ∷ cs) d l = find-run_all fh cs (run o_direct c d).1 l.1 ∙ find-run fh c d l.0

  find-registered :
      (fcntl : ℤ → Option ℕ) (fh : ℕ) (cu_register : ℤ → CuError × ℕ) (has_fh : Bool) (fd : ℤ)
      (d : Driver)
      → (opends_handle_register o_direct fcntl fh cu_register has_fh fd d).0 ≡ ok
      → find_buf place_of fh
          (opends_handle_register o_direct fcntl fh cu_register has_fh fd d).1.handles
        ≡ some (record { place = fh; cufh = (cu_register fd).1 })
  unfolding opends_handle_register
  find-registered fcntl fh cu_register has_fh fd d e =
      let here : find_buf place_of fh (record { place = fh; cufh = (cu_register fd).1 } ∷ d.handles)
          ≡ some (record { place = fh; cufh = (cu_register fd).1 }) =
        unfold find_buf in rw ((==_iff fh fh).1 refl) refl in
      let e' = ap (λ x. x.err) e in
      elim (Option-cases (fcntl fd)) [ inl failed ↦ ground arith | inr (flags, got) ↦ ground arith ]

  -- A handle whose registration succeeded reads the file that cuFile registered for the file
  -- descriptor that the caller gave, on the spot
  -- and in a stream, whatever other handles and buffers come and go before.
  pub opends_sync_read-registered :
      (lib : Cufile) (fcntl : ℤ → Option ℕ) (fh : ℕ) (cu_register : ℤ → CuError × ℕ) (has_fh : Bool)
      (fd : ℤ) (d : Driver) (cs : List Call) (t : Transfer) (st : StreamTransfer)
      → (opends_handle_register o_direct fcntl fh cu_register has_fh fd d).0 ≡ ok
      → AllLeave fh cs
      → let d' = run_all o_direct (register_handle fcntl fh cu_register has_fh fd ∷ cs) d in
        (opends_sync_read lib d' fh t ≡ lib.read (cu_register fd).1 t)
        × (opends_stream_read lib d' fh st ≡ forwarded (lib.read_async (cu_register fd).1 st))
  unfolding opends_sync_read opends_stream_read run_all run
  opends_sync_read-registered lib fcntl fh cu_register has_fh fd d cs t st registered l =
      let d' = (opends_handle_register o_direct fcntl fh cu_register has_fh fd d).1 in
      let found =
        find-run_all fh cs d' l ∙ find-registered fcntl fh cu_register has_fh fd d registered in
      let file = cufh_of-found fh (run_all o_direct cs d') found in
      (ap (λ c. lib.read c t) file, ap (λ c. forwarded (lib.read_async c st)) file)
