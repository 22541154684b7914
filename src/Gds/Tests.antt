-- ===== src/Gds/Tests.antt =====
-- The backend of src/opends_gds.c on small inputs.
use opends_fork.Prelude.{
  ℕ, ◌+◌, Option, ◌≡◌, refl, true, false, some, List, [], ◌∷◌, ◌<◌, arith, length, get_or, ltb,
  if◌then◌else◌,
}
use opends_fork.Prelude.Int.{ℤ, pos, to_nat}
use opends_fork.Buffers.Array.{count}
use opends_fork.Gds.{CuError, ok, forwarded, Driver, opends_handle_register, opends_alloc}
use opends_fork.Gds.Io.{Cufile, Transfer, StreamTransfer, opends_sync_read, opends_stream_read}
use opends_fork.Gds.Calls.{
  Call, open_driver, register_handle, deregister_handle, alloc, run, run_all, run-unchanged,
}
use opends_fork.Gds.Handles.{IsCounted, run_all-IsCounted}
use opends_fork.Gds.Files.{opends_sync_read-registered}
use opends_fork.Gds.Batch.{
  IoParams, CuIoParams, IoEvent, no_params, no_event, opends_batch_submit, Polled,
  opends_batch_get_status,
}
use opends_fork.Gds.Batch.Copies.{
  IsParams, opends_batch_submit-IsParams, opends_batch_get_status-events,
}

-- CU_FILE_SUCCESS, and an error of cuFile.
abbrev granted : CuError
granted = record { err = 0; cu_err = pos 0 }

abbrev refused : CuError
refused = record { err = 5030; cu_err = pos 2 }

abbrev fresh : Driver
fresh = record {
  driver_open = false;
  use_count = pos 0;
  allocated = [];
  handles = [];
  files = [];
  memory = [];
  pinned = [];
}

abbrev o_direct : ℕ
o_direct = 0x4000

-- Every descriptor has O_DIRECT, and cuFile's handle for descriptor n is n + 4.
abbrev fcntl : ℤ → Option ℕ
fcntl fd = some 0x4000

abbrev cu_register : ℤ → CuError × ℕ
cu_register fd = (granted, to_nat fd + 4)

-- cuFile refuses the memory that `cudaMalloc` handed out.
run-unchanged_example : (run o_direct (alloc (some 0x7000) refused) fresh).1 ≡ fresh
run-unchanged_example =
    run-unchanged o_direct (alloc (some 0x7000) refused) fresh (omega arith)
      (unfold run opends_alloc in refl)

fresh-IsCounted : IsCounted fresh
unfolding count
fresh-IsCounted = record { counts = refl; files = λ c. refl; places = λ p. refl }

abbrev calls : List Call
calls =
    open_driver granted
    ∷ register_handle fcntl 0x100 cu_register true (pos 3)
    ∷ register_handle fcntl 0x200 cu_register true (pos 4)
    ∷ deregister_handle 0x100
    ∷ []

run_all-IsCounted_example : IsCounted (run_all o_direct calls fresh)
run_all-IsCounted_example = run_all-IsCounted o_direct calls fresh fresh-IsCounted

-- A library whose calls return the file that they are given.
abbrev lib : Cufile
lib = record {
  read = λ cufh t. pos cufh;
  write = λ cufh t. pos cufh;
  read_async = λ cufh t. record { err = cufh; cu_err = pos 0 };
  write_async = λ cufh t. record { err = cufh; cu_err = pos 0 };
  stream_register = λ stream flags. granted;
  stream_deregister = λ stream. granted;
  get_properties = (
    granted,
    record {
      nvfs_major_version = 2;
      nvfs_minor_version = 1;
      nvfs_max_direct_io_size = 16384;
      max_batch_io_size = 128;
      max_batch_io_timeout_msecs = 0;
    },
  );
  set_max_direct_io_size = λ size. granted;
}

abbrev transfer : Transfer
transfer = record { buf_base = 0x7000; size = 512; file_offset = pos 0; buf_offset = pos 0 }

abbrev stream_transfer : StreamTransfer
stream_transfer = record {
  buf_base = 0x7000;
  size_p = 0x10;
  file_offset_p = 0x20;
  buf_offset_p = 0x30;
  bytes_p = 0x40;
  stream = 0x1000;
}

abbrev others : List Call
others =
    register_handle fcntl 0x200 cu_register true (pos 4)
    ∷ deregister_handle 0x200
    ∷ alloc (some 0x7000) granted
    ∷ []

opends_sync_read-registered_example :
    let d' =
      run_all o_direct (register_handle fcntl 0x100 cu_register true (pos 3) ∷ others) fresh in
    (opends_sync_read lib d' 0x100 transfer ≡ pos 7)
    × (opends_stream_read lib d' 0x100 stream_transfer
        ≡ forwarded (lib.read_async 7 stream_transfer))
opends_sync_read-registered_example =
    opends_sync_read-registered o_direct lib fcntl 0x100 cu_register true (pos 3) fresh others
      transfer stream_transfer (unfold opends_handle_register in refl) (refl, (refl, (refl, refl)))

abbrev request : ℕ → IoParams
request cookie = record no_params { dev_ptr_base = 0x7000; size = 512; fh = 0x100; cookie = cookie }

-- A submission that cuFile accepts.
abbrev submit : ℕ → ℕ → List CuIoParams → ℕ → CuError
submit batch nr ps flags = granted

opends_batch_submit-IsParams_example :
    (ps : List CuIoParams) × (opends_batch_submit submit true fresh 9 2
        (some (request 1 ∷ request 2 ∷ []))
        0
      ≡ (forwarded granted, some ps))
    × (length ps ≡ 2)
    × ((i : ℕ) (e : CuIoParams)
        → i < 2
        → IsParams fresh (get_or (request 1 ∷ request 2 ∷ []) i no_params) (get_or ps i e))
opends_batch_submit-IsParams_example =
    opends_batch_submit-IsParams submit fresh 9 2 0 (request 1 ∷ request 2 ∷ []) (omega arith)

-- One event, for an array of two.
abbrev poll : ℕ → ℕ → ℕ → Polled
poll batch min_nr nr = record {
  rc = granted;
  nr = 1;
  events = record { cookie = 2; status = 1; ret = 512 } ∷ no_event ∷ [];
}

abbrev array : List IoEvent
array = record { cookie = 8; status = 8; ret = 8 } ∷ record { cookie = 9; status = 9; ret = 9 } ∷ []

opends_batch_get_status-events_example :
    (es : List IoEvent) × (opends_batch_get_status poll true 9 1 (some 2) (some array)
      ≡ (ok, some 1, some es))
    × ((i : ℕ)
        → get_or es i no_event
          ≡ (if ltb i 1 then get_or (poll 9 1 2).events i no_event else get_or array i no_event))
opends_batch_get_status-events_example =
    opends_batch_get_status-events poll 9 1 2 array (omega arith) refl (omega arith)
