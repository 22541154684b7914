-- ===== src/Driver/Files.antt =====
-- The file handles of src/opends_aisio.c, its properties and its version, and that its handles are
-- those of the reference backend, src/opends_ref.c.
use opends_fork.Prelude.{
  ℕ, ◌≡◌, refl, ap, ap₂, Bool, true, false, not, ◌&&◌, Option, none, some, List, [], ◌∷◌, ◌==◌,
  bit_and, if◌then◌else◌, Bool-cases, inl, inr,
}
use opends_fork.Prelude.Int.{ℤ, is_negative}
use opends_fork.Errors.{
  Error, opends_ok, opends_err, driver_not_initialized, invalid_value, dio_not_set, internal_error,
}
use opends_fork.Buffers.{remove_buf}
use opends_fork.Buffers.Reference
use opends_fork.Buffers.Reference.{Handle, increment, decrement}
use opends_fork.Driver.Open.{Blocks}

-- `drv`, as far as it is read here; `use_count`; the handles that are allocated.
pub record Files : Type 0 where
  pub drv : Option Blocks
  pub use_count : ℤ
  pub handles : List Handle

abbrev pub is_open : Files → Bool
is_open d = elim d.drv [ none ↦ false | some b ↦ true ]

abbrev pub opends_use_count : Files → ℤ
opends_use_count d = d.use_count

-- `flags` is what `fcntl(fd, F_GETFL)` returns, `place` what `calloc` does, `o_direct` is O_DIRECT.
unfoldable pub opends_handle_register : ℕ → Option ℕ → ℕ → Bool → ℤ → Files → Error × Files
opends_handle_register o_direct flags place fh_given fd d =
    if not (is_open d)
    then (opends_err driver_not_initialized, d)
    else if not fh_given
    then (opends_err invalid_value, d)
    else elim flags [
      | none ↦ (opends_err invalid_value, d)
      | some oflags ↦
          if bit_and oflags o_direct == 0
          then (opends_err dio_not_set, d)
          else if place == 0
          then (opends_err internal_error, d)
          else (
            opends_ok,
            record d {
              handles = record { place = place; fd = fd; oflags = oflags } ∷ d.handles;
              use_count = increment d.use_count;
            },
          )
    ]

unfoldable pub opends_handle_deregister : ℕ → Files → Files
opends_handle_deregister fh d = if fh == 0 then d else record d {
  handles = remove_buf (λ (h : Handle). h.place) fh d.handles;
  use_count = decrement d.use_count;
}

-- opends_drv_props_t: the versions and `max_direct_io_size`; the other fields are 0.
pub record Props : Type 0 where
  pub major_version : ℕ
  pub minor_version : ℕ
  pub max_direct_io_size : ℕ

unfoldable pub opends_driver_get_properties : Bool → Files → Error × Option Props
opends_driver_get_properties props_given d = elim d.drv [
  | none ↦ (opends_err driver_not_initialized, none)
  | some b ↦ if not props_given then (opends_err invalid_value, none) else (
    opends_ok,
    some (record { major_version = 0; minor_version = 1; max_direct_io_size = b.mdts_nbytes }),
  )
]

abbrev pub opends_driver_set_max_direct_io_size : ℕ → Files → Error
opends_driver_set_max_direct_io_size size d =
    if is_open d then opends_ok else opends_err driver_not_initialized

-- What is stored through the pointers that are given.
unfoldable pub opends_get_version : Bool → Bool → Bool → Error × Option ℕ × Option ℕ × Option ℕ
opends_get_version major minor patch = (
  opends_ok,
  if major then some 0 else none,
  if minor then some 1 else none,
  if patch then some 0 else none,
)

-- A call on handles, with what `fcntl` and the allocator return during it.
pub data Call : Type 0 where
  register : (flags : Option ℕ) (place : ℕ) (fh_given : Bool) (fd : ℤ) → Call
  deregister : (fh : ℕ) → Call

abbrev pub is_some : Option ℕ → Bool
is_some none = false
is_some (some n) = true

-- `fcntl` fails on a negative descriptor.
abbrev pub FcntlChecks : List Call → Type 0
FcntlChecks [] = true ≡ true
FcntlChecks (register flags place fh_given fd ∷ cs) =
    ((is_negative fd && is_some flags) ≡ false) × FcntlChecks cs
FcntlChecks (deregister fh ∷ cs) = FcntlChecks cs

module _ (o_direct : ℕ) where
  -- The errors that the calls return, and the state after them: of this backend, and of the
  -- reference.
  unfoldable pub run_all : List Call → Files → List Error × Files
  run_all [] d = ([], d)
  run_all (register flags place fh_given fd ∷ cs) d =
      let (e, d') = opends_handle_register o_direct flags place fh_given fd d in
      let (es, d'') = run_all cs d' in (e ∷ es, d'')
  run_all (deregister fh ∷ cs) d = run_all cs (opends_handle_deregister fh d)

  unfoldable pub run_reference : List Call → Reference.Driver → List Error × Reference.Driver
  run_reference [] d = ([], d)
  run_reference (register flags place fh_given fd ∷ cs) d =
      let (e, d') = Reference.opends_handle_register o_direct flags place fh_given fd d in
      let (es, d'') = run_reference cs d' in (e ∷ es, d'')
  run_reference (deregister fh ∷ cs) d = run_reference cs (Reference.opends_handle_deregister fh d)

-- The two backends have the same handles, and the aisio driver is open.
pub record Same (d : Files) (r : Reference.Driver) : Type 0 where
  pub opened : is_open d ≡ true
  pub handles : d.handles ≡ r.handles
  pub count : d.use_count ≡ r.use_count

register-Same :
    (o_direct : ℕ) (flags : Option ℕ) (place : ℕ) (fh_given : Bool) (fd : ℤ) (d : Files)
    (r : Reference.Driver)
    → (is_negative fd && is_some flags) ≡ false
    → Same d r
    → ((opends_handle_register o_direct flags place fh_given fd d).0
        ≡ (Reference.opends_handle_register o_direct flags place fh_given fd r).0)
      × Same
          (opends_handle_register o_direct flags place fh_given fd d).1
          (Reference.opends_handle_register o_direct flags place fh_given fd r).1
unfolding opends_handle_register Reference.opends_handle_register
register-Same o_direct none place fh_given fd d r checks s = elim (Bool-cases fh_given) [
  | inr no_place ↦ rw (s.opened, no_place) (refl, s)
  | inl has_place ↦ elim (Bool-cases (is_negative fd)) [
    | inl below ↦ rw (s.opened, has_place, below) (refl, s)
    | inr given ↦ rw (s.opened, has_place, given) (refl, s)
  ]
]
register-Same o_direct (some flags) place fh_given fd d r checks s =
    let e = s.handles in
    let c = s.count in
    elim (Bool-cases (is_negative fd)) [
      | inl below ↦ cc (rw below at checks)
      | inr given ↦ elim (Bool-cases fh_given) [
        | inr no_place ↦ rw (s.opened, given, no_place) (refl, s)
        | inl has_place ↦ elim (Bool-cases (bit_and flags o_direct == 0)) [
          | inl buffered ↦ rw (s.opened, given, has_place, buffered) (refl, s)
          | inr direct ↦ elim (Bool-cases (place == 0)) [
            | inl full ↦ rw (s.opened, given, has_place, direct, full) (refl, s)
            | inr allocated ↦
                rw (s.opened, given, has_place, direct, allocated)
                  (
                    refl,
                    record {
                      opened = s.opened;
                      handles = ap (λ hs. record { place = place; fd = fd; oflags = flags } ∷ hs) e;
                      count = ap increment c;
                    },
                  )
          ]
        ]
      ]
    ]

deregister-Same :
    (fh : ℕ) (d : Files) (r : Reference.Driver)
    → Same d r
    → Same (opends_handle_deregister fh d) (Reference.opends_handle_deregister fh r)
unfolding opends_handle_deregister Reference.opends_handle_deregister
deregister-Same fh d r s = elim (Bool-cases (fh == 0)) [
  | inl null ↦ rw null s
  | inr given ↦ rw given (record {
    opened = s.opened;
    handles = ap (remove_buf (λ (h : Handle). h.place) fh) s.handles;
    count = ap decrement s.count;
  })
]

-- While the aisio driver is open and `fcntl` fails on negative descriptors, the two backends return
-- the same errors for any calls on handles, and have the same handles and use count after them.
pub run_all-run_reference :
    (o_direct : ℕ) (cs : List Call) (d : Files) (r : Reference.Driver)
    → FcntlChecks cs
    → Same d r
    → ((run_all o_direct cs d).0 ≡ (run_reference o_direct cs r).0)
      × Same (run_all o_direct cs d).1 (run_reference o_direct cs r).1
unfolding run_all run_reference
run_all-run_reference o_direct [] d r checks s = (refl, s)
run_all-run_reference o_direct (register flags place fh_given fd ∷ cs) d r checks s =
    let (err, s') = register-Same o_direct flags place fh_given fd d r checks.0 s in
    let (errs, s'') =
      run_all-run_reference o_direct cs
        (opends_handle_register o_direct flags place fh_given fd d).1
        (Reference.opends_handle_register o_direct flags place fh_given fd r).1 checks.1 s' in
    (ap₂ (λ e es. e ∷ es) err errs, s'')
run_all-run_reference o_direct (deregister fh ∷ cs) d r checks s =
    run_all-run_reference o_direct cs (opends_handle_deregister fh d)
      (Reference.opends_handle_deregister fh r) checks (deregister-Same fh d r s)
