-- ===== src/Gds/Batch/Copies.antt =====
-- What a batch of src/opends_gds.c hands to cuFile, and what it hands back.
use opends_fork.Prelude.{
  ℕ, zero, suc, ◌+◌, ◌≤◌, ◌<◌, ◌≡◌, ◌≢◌, refl, sym, ap, true, false, some, List, ◌==◌,
  if◌then◌else◌, length, get_or, set, length-set, get_or-set, leb, ltb, ==_iff, Bool-cases, inl,
  inr, ◌&&◌, arith,
}
use opends_fork.Gds.{CuError, ok, is_refused, forwarded, Driver}
use mathlib.Core.Path.{subst}
use opends_fork.Gds.Io.{cufh_of}
use opends_fork.Gds.Batch.{
  IoParams, CuIoParams, IoEvent, no_params, no_event, cu_params_of, params_loop,
  opends_batch_submit, events_loop, Polled, opends_batch_get_status,
}

-- `q` has each value of `p`, and the cuFile handle for the handle of `p`.
pub record IsParams (d : Driver) (p : IoParams) (q : CuIoParams) : Type 0 where
  pub mode : q.mode ≡ p.mode
  pub dev_ptr_base : q.dev_ptr_base ≡ p.dev_ptr_base
  pub file_offset : q.file_offset ≡ p.file_offset
  pub dev_ptr_offset : q.dev_ptr_offset ≡ p.dev_ptr_offset
  pub size : q.size ≡ p.size
  pub cufh : q.cufh ≡ cufh_of d p.fh
  pub opcode : q.opcode ≡ p.opcode
  pub cookie : q.cookie ≡ p.cookie

cu_params_of-IsParams : (d : Driver) (p : IoParams) → IsParams d p (cu_params_of d p)
cu_params_of-IsParams d p = record {
  mode = refl;
  dev_ptr_base = refl;
  file_offset = refl;
  dev_ptr_offset = refl;
  size = refl;
  cufh = refl;
  opcode = refl;
  cookie = refl;
}

-- The `nr` parameters, each for the file of its handle.
params_loop-get :
    (d : Driver) (iocbp : List IoParams) (left i j k : ℕ) (e : CuIoParams)
    → j < left
    → i + j ≡ k
    → get_or (params_loop d iocbp left i) j e ≡ cu_params_of d (get_or iocbp k no_params)
unfolding params_loop
params_loop-get d iocbp zero i j k e h sum = elim h [ ]
params_loop-get d iocbp (suc left) i zero k e h sum =
    ap (λ n. cu_params_of d (get_or iocbp n no_params)) (i_is_k i k sum)
  where
    i_is_k : (i k : ℕ) → i + 0 ≡ k → i ≡ k
    i_is_k i k sum = omega arith
params_loop-get d iocbp (suc left) i (suc j) k e h sum =
    params_loop-get d iocbp left (i + 1) j k e (omega arith) (omega arith)

params_loop-length :
    (d : Driver) (iocbp : List IoParams) (left i : ℕ) → length (params_loop d iocbp left i) ≡ left
unfolding params_loop
params_loop-length d iocbp zero i = refl
params_loop-length d iocbp (suc left) i = ap suc (params_loop-length d iocbp left (i + 1))

events_loop-get :
    (cu_events iocbp : List IoEvent) (left i j : ℕ)
    → i + left ≤ length iocbp
    → get_or (events_loop cu_events iocbp left i) j no_event ≡ (
        if leb i j && ltb j (i + left)
        then get_or cu_events j no_event
        else get_or iocbp j no_event)
unfolding events_loop
events_loop-get cu_events iocbp zero i j h = grind arith
events_loop-get cu_events iocbp (suc left) i j h =
    let iocbp' = set iocbp i (get_or cu_events i no_event) in
    let ih =
      events_loop-get cu_events iocbp' left (i + 1) j
        (omega (arith, length-set iocbp i (get_or cu_events i no_event))) in
    let here = get_or-set iocbp i j (get_or cu_events i no_event) no_event (omega arith) in
    elim (Bool-cases (i == j)) [
      | inl same ↦
          (let p = ap (λ x. get_or cu_events x no_event) ((==_iff i j).0 same) in ground arith)
      | inr other ↦ ground arith
    ]

-- The parameters that a batch hands to cuFile: as many as the caller has, in the caller's order, each
-- with the caller's mode, buffer, two offsets, size, operation and cookie, and with the cuFile handle
-- that the caller's handle holds.
pub opends_batch_submit-IsParams :
    (submit : ℕ → ℕ → List CuIoParams → ℕ → CuError) (d : Driver) (batch_idp nr flags : ℕ)
    (iocbp : List IoParams)
    → batch_idp ≢ 0
    → (ps : List CuIoParams) × (opends_batch_submit submit true d batch_idp nr (some iocbp) flags
        ≡ (forwarded (submit batch_idp nr ps flags), some ps))
      × (length ps ≡ nr)
      × ((i : ℕ) (e : CuIoParams) → i < nr → IsParams d (get_or iocbp i no_params) (get_or ps i e))
unfolding opends_batch_submit
opends_batch_submit-IsParams submit d batch_idp nr flags iocbp given =
    let known : (batch_idp == 0) ≡ false = ground arith in
    (
      params_loop d iocbp nr 0,
      rw known refl,
      params_loop-length d iocbp nr 0,
      λ i e h.
          subst (IsParams d (get_or iocbp i no_params))
            (sym (params_loop-get d iocbp nr 0 i i e h (omega arith)))
            (cu_params_of-IsParams d (get_or iocbp i no_params)),
    )

-- If cuFile stores no greater count than the caller's array has room for, as it is documented to,
-- `opends_batch_get_status` writes the events that cuFile reports, in order, to the front of the
-- array and leaves the rest of it.
pub opends_batch_get_status-events :
    (poll : ℕ → ℕ → ℕ → Polled) (batch_idp min_nr nr : ℕ) (iocbp : List IoEvent)
    → batch_idp ≢ 0
    → is_refused (poll batch_idp min_nr nr).rc ≡ false
    → (poll batch_idp min_nr nr).nr ≤ length iocbp
    → (es : List IoEvent) × (opends_batch_get_status poll true batch_idp min_nr
          (some nr)
          (some iocbp)
        ≡ (ok, some (poll batch_idp min_nr nr).nr, some es))
      × ((i : ℕ)
          → get_or es i no_event ≡ (
              if ltb i (poll batch_idp min_nr nr).nr
              then get_or (poll batch_idp min_nr nr).events i no_event
              else get_or iocbp i no_event))
unfolding opends_batch_get_status
opends_batch_get_status-events poll batch_idp min_nr nr iocbp given granted room =
    let known : (batch_idp == 0) ≡ false = ground arith in
    let p = poll batch_idp min_nr nr in
    (
      events_loop p.events iocbp p.nr 0,
      rw (known, granted) refl,
      λ i. (let e = events_loop-get p.events iocbp p.nr 0 i (omega arith) in ground arith),
    )
