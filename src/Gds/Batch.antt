-- ===== src/Gds/Batch.antt =====
-- Batches of src/opends_gds.c.
pub mod Copies
use opends_fork.Prelude.{
  ℕ, zero, suc, ◌+◌, ◌-◌, ◌≤◌, ◌<◌, ◌≡◌, ◌≢◌, refl, ap, Bool, true, false, not, ◌||◌, Option, none,
  some, List, [], ◌∷◌, ◌++◌, ◌==◌, if◌then◌else◌, length, get_or, set, length-set, get_or-set, leb,
  ltb, ==_iff, Bool-cases, inl, inr, ◌&&◌, ◌∙◌, arith,
}
use opends_fork.Prelude.Int.{ℤ, pos}
use opends_fork.Errors.{invalid_value, internal_error}
use opends_fork.Gds.{
  CuError, CodedError, ok, failure, from_cufile_error, is_refused, forwarded, Driver,
}
use opends_fork.Gds.Io.{cufh_of}

-- opends_io_params_t; the enumerations are their values.
pub record IoParams : Type 0 where
  pub mode : ℕ
  pub dev_ptr_base : ℕ
  pub file_offset : ℤ
  pub dev_ptr_offset : ℤ
  pub size : ℕ
  pub fh : ℕ
  pub opcode : ℕ
  pub cookie : ℕ

-- CUfileIOParams_t
pub record CuIoParams : Type 0 where
  pub mode : ℕ
  pub dev_ptr_base : ℕ
  pub file_offset : ℤ
  pub dev_ptr_offset : ℤ
  pub size : ℕ
  pub cufh : ℕ
  pub opcode : ℕ
  pub cookie : ℕ

-- opends_io_events_t and CUfileIOEvents_t, which have the same fields.
pub record IoEvent : Type 0 where
  pub cookie : ℕ
  pub status : ℕ
  pub ret : ℕ

abbrev pub no_params : IoParams
no_params = record {
  mode = 0;
  dev_ptr_base = 0;
  file_offset = pos 0;
  dev_ptr_offset = pos 0;
  size = 0;
  fh = 0;
  opcode = 0;
  cookie = 0;
}

abbrev pub no_event : IoEvent
no_event = record { cookie = 0; status = 0; ret = 0 }

-- What `cuFileBatchIOSetUp` stores and returns.
unfoldable pub opends_batch_setup : CuError → ℕ → Bool → ℕ → CodedError × Option ℕ
opends_batch_setup rc cu_batch has_out nr =
    if not has_out || nr == 0
    then (failure invalid_value, none)
    else if is_refused rc
    then (from_cufile_error rc, none)
    else (ok, some cu_batch)

abbrev pub cu_params_of : Driver → IoParams → CuIoParams
cu_params_of d p = record {
  mode = p.mode;
  dev_ptr_base = p.dev_ptr_base;
  file_offset = p.file_offset;
  dev_ptr_offset = p.dev_ptr_offset;
  size = p.size;
  cufh = cufh_of d p.fh;
  opcode = p.opcode;
  cookie = p.cookie;
}

-- The loop of `opends_batch_submit` from `i` on, with the number left.
unfoldable pub params_loop : Driver → List IoParams → ℕ → ℕ → List CuIoParams
params_loop d iocbp zero i = []
params_loop d iocbp (suc left) i =
    cu_params_of d (get_or iocbp i no_params) ∷ params_loop d iocbp left (i + 1)

-- `submit` is `cuFileBatchIOSubmit`, `has_memory` whether `calloc` succeeds. The parameters that
-- cuFile is given, if it is called, stand beside the result.
unfoldable pub opends_batch_submit :
    (ℕ → ℕ → List CuIoParams → ℕ → CuError)
    → Bool
    → Driver
    → ℕ
    → ℕ
    → Option (List IoParams)
    → ℕ
    → CodedError × Option (List CuIoParams)
opends_batch_submit submit has_memory d batch_idp nr none flags = (failure invalid_value, none)
opends_batch_submit submit has_memory d batch_idp nr (some iocbp) flags =
    let cu_params = params_loop d iocbp nr 0 in
    if batch_idp == 0
    then (failure invalid_value, none)
    else if not has_memory
    then (failure internal_error, none)
    else (forwarded (submit batch_idp nr cu_params flags), some cu_params)

-- The loop of `opends_batch_get_status` from `i` on, with the number left.
unfoldable pub events_loop : List IoEvent → List IoEvent → ℕ → ℕ → List IoEvent
events_loop cu_events iocbp zero i = iocbp
events_loop cu_events iocbp (suc left) i =
    events_loop cu_events (set iocbp i (get_or cu_events i no_event)) left (i + 1)

-- What `cuFileBatchIOGetStatus` returns: its result, the count it stores, the events.
pub record Polled : Type 0 where
  pub rc : CuError
  pub nr : ℕ
  pub events : List IoEvent

-- The error, `*nr`, and the caller's array. `none` is an argument that is NULL.
unfoldable pub opends_batch_get_status :
    (ℕ → ℕ → ℕ → Polled)
    → Bool
    → ℕ
    → ℕ
    → Option ℕ
    → Option (List IoEvent)
    → CodedError × Option ℕ × Option (List IoEvent)
opends_batch_get_status poll has_memory batch_idp min_nr none iocbp =
    (failure invalid_value, none, iocbp)
opends_batch_get_status poll has_memory batch_idp min_nr (some nr) none =
    (failure invalid_value, some nr, none)
opends_batch_get_status poll has_memory batch_idp min_nr (some nr) (some iocbp) =
    let p = poll batch_idp min_nr nr in
    if batch_idp == 0
    then (failure invalid_value, some nr, some iocbp)
    else if not has_memory
    then (failure internal_error, some nr, some iocbp)
    else if is_refused p.rc
    then (from_cufile_error p.rc, some p.nr, some iocbp)
    else (ok, some p.nr, some (events_loop p.events iocbp p.nr 0))

unfoldable pub opends_batch_cancel : (ℕ → CuError) → ℕ → CodedError
opends_batch_cancel cancel batch_idp =
    if batch_idp == 0 then failure invalid_value else forwarded (cancel batch_idp)

-- The batches that cuFile has been asked to destroy.
abbrev pub opends_batch_destroy : ℕ → List ℕ → List ℕ
opends_batch_destroy batch_idp destroyed =
    if batch_idp == 0 then destroyed else batch_idp ∷ destroyed
