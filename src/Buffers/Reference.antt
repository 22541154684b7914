-- ===== src/Buffers/Reference.antt =====
-- The driver state of src/opends_ref.c: opening and closing, file handles, registered buffers.
use opends_fork.Prelude.{
  ℕ, zero, suc, ◌≤◌, ◌++◌, ◌≡◌, refl, Bool, true, false, not, ◌||◌, Option, none, some, List, [],
  ◌∷◌, ◌==◌, leb, if◌then◌else◌, length, length-append, bit_and, arith, Option-cases, inl, inr,
}
use opends_fork.Prelude.Int.{ℤ, pos, negsuc, is_negative}
use opends_fork.Errors.{
  Error, opends_ok, opends_err, driver_not_initialized, driver_already_open, dio_not_set,
  invalid_value, memory_already_registered, memory_not_registered, internal_error,
}
use opends_fork.Buffers.{find_buf, remove_buf}
use opends_fork.Buffers.Array.{
  count, IsDistinct, length-remove, remove-IsDistinct, append-IsDistinct,
}

-- A handle that `malloc` placed at `at`: struct ref_handle.
pub record Handle : Type 0 where
  pub place : ℕ
  pub fd : ℤ
  pub oflags : ℕ

-- The static variables, the handles that are allocated, and the buffers passed to `free`.
pub record Driver : Type 0 where
  pub driver_open : Bool
  pub use_count : ℤ
  pub registered : List ℕ
  pub handles : List Handle
  pub freed : List ℕ

abbrev pub ref_max_bufs : ℕ
ref_max_bufs = 64

abbrev pub itself : ℕ → ℕ
itself b = b

abbrev pub increment : ℤ → ℤ
increment (pos n) = pos (suc n)
increment (negsuc zero) = pos 0
increment (negsuc (suc n)) = negsuc n

abbrev pub decrement : ℤ → ℤ
decrement (pos zero) = negsuc 0
decrement (pos (suc n)) = pos n
decrement (negsuc n) = negsuc (suc n)

abbrev pub opends_use_count : Driver → ℤ
opends_use_count d = d.use_count

unfoldable pub opends_driver_open : Driver → Error × Driver
opends_driver_open d =
    if d.driver_open
    then (opends_err driver_already_open, d)
    else (opends_ok, record d { driver_open = true })

-- The count of the registered buffers is reset.
unfoldable pub opends_driver_close : Driver → Error × Driver
opends_driver_close d =
    if not d.driver_open
    then (opends_err driver_not_initialized, d)
    else (opends_ok, record d { registered = []; driver_open = false })

-- `flags` is what `fcntl(fd, F_GETFL)` returns, `place` what `malloc` does, `o_direct` is O_DIRECT.
unfoldable pub opends_handle_register : ℕ → Option ℕ → ℕ → Bool → ℤ → Driver → Error × Driver
opends_handle_register o_direct flags place fh_given fd d =
    if not fh_given || is_negative fd then (opends_err invalid_value, d) else elim flags [
      | none ↦ (opends_err invalid_value, d)
      | some oflags ↦
          if bit_and oflags o_direct == 0
          then (opends_err dio_not_set, d)
          else if place == 0
          then (opends_err internal_error, d)
          else (
            opends_ok,
            record d {
              handles = record { place = place; fd = fd; oflags = oflags } ∷ d.handles;
              use_count = increment d.use_count;
            },
          )
    ]

unfoldable pub opends_handle_deregister : ℕ → Driver → Driver
opends_handle_deregister fh d = if fh == 0 then d else record d {
  handles = remove_buf (λ (h : Handle). h.place) fh d.handles;
  use_count = decrement d.use_count;
}

unfoldable pub opends_free : ℕ → Driver → Driver
opends_free buf d = if buf == 0 then d else elim (find_buf itself buf d.registered) [
  | some b ↦ d
  | none ↦ record d { freed = buf ∷ d.freed }
]

unfoldable pub opends_buf_register : ℕ → ℕ → Driver → Error × Driver
opends_buf_register buf_base size d =
    if not d.driver_open
    then (opends_err driver_not_initialized, d)
    else if buf_base == 0 || size == 0
    then (opends_err invalid_value, d)
    else elim (find_buf itself buf_base d.registered) [
      | some b ↦ (opends_err memory_already_registered, d)
      | none ↦
          if leb ref_max_bufs (length d.registered)
          then (opends_err internal_error, d)
          else (opends_ok, record d { registered = d.registered ++ (buf_base ∷ []) })
    ]

unfoldable pub opends_buf_deregister : ℕ → Driver → Error × Driver
opends_buf_deregister buf_base d =
    if not d.driver_open
    then (opends_err driver_not_initialized, d)
    else if buf_base == 0
    then (opends_err invalid_value, d)
    else elim (find_buf itself buf_base d.registered) [
      | none ↦ (opends_err memory_not_registered, d)
      | some b ↦ (opends_ok, record d { registered = remove_buf itself buf_base d.registered })
    ]

-- A call of the API on the driver and its buffers.
pub data Op : Type 0 where
  open_driver close_driver : Op
  free : ℕ → Op
  register : (buf_base size : ℕ) → Op
  deregister : ℕ → Op

unfoldable pub run_all : List Op → Driver → Driver
unfolding opends_driver_open opends_driver_close opends_free opends_buf_register
    opends_buf_deregister
run_all [] d = d
run_all (open_driver ∷ os) d = run_all os (opends_driver_open d).1
run_all (close_driver ∷ os) d = run_all os (opends_driver_close d).1
run_all (free buf ∷ os) d = run_all os (opends_free buf d)
run_all (register buf size ∷ os) d = run_all os (opends_buf_register buf size d).1
run_all (deregister buf ∷ os) d = run_all os (opends_buf_deregister buf d).1

-- No buffer is registered twice, the array holds them all, and none is registered while the driver
-- is closed.
pub record IsTable (driver_open : Bool) (registered : List ℕ) : Type 0 where
  pub distinct : IsDistinct itself registered
  pub room : length registered ≤ 64
  pub closed : driver_open ≡ false → registered ≡ []

pub empty-IsTable : (b : Bool) → IsTable b []
unfolding count
empty-IsTable b = record {
  distinct = record { once = λ c. ground arith };
  room = ground arith;
  closed = λ e. refl;
}

open-IsTable :
    (d : Driver)
    → IsTable d.driver_open d.registered
    → IsTable (opends_driver_open d).1.driver_open (opends_driver_open d).1.registered
unfolding opends_driver_open
open-IsTable d h =
    let t : IsTable true d.registered = record {
      distinct = h.distinct;
      room = h.room;
      closed = λ e. ground arith;
    } in
    ground arith

close-IsTable :
    (d : Driver)
    → IsTable d.driver_open d.registered
    → IsTable (opends_driver_close d).1.driver_open (opends_driver_close d).1.registered
unfolding opends_driver_close
close-IsTable d h = let t = empty-IsTable false in ground arith

free-IsTable :
    (buf : ℕ) (d : Driver)
    → IsTable d.driver_open d.registered
    → IsTable (opends_free buf d).driver_open (opends_free buf d).registered
unfolding opends_free
free-IsTable buf d h = elim (Option-cases (find_buf itself buf d.registered)) [
  | inl missing ↦ ground arith
  | inr (b, f) ↦ ground arith
]

register-IsTable :
    (buf size : ℕ) (d : Driver)
    → IsTable d.driver_open d.registered
    → IsTable
        (opends_buf_register buf size d).1.driver_open
        (opends_buf_register buf size d).1.registered
unfolding opends_buf_register
register-IsTable buf size d h =
    let l = length-append d.registered (buf ∷ []) in
    let t : find_buf itself buf d.registered ≡ none
        → leb ref_max_bufs (length d.registered) ≡ false
        → d.driver_open ≡ true
        → IsTable d.driver_open (d.registered ++ buf ∷ []) =
      λ new room o. record {
        distinct = append-IsDistinct itself d.registered buf h.distinct new;
        room = ground arith;
        closed = λ e. ground arith;
      } in
    elim (Option-cases (find_buf itself buf d.registered)) [
      | inl missing ↦ ground arith
      | inr (b, f) ↦ ground arith
    ]

deregister-IsTable :
    (buf : ℕ) (d : Driver)
    → IsTable d.driver_open d.registered
    → IsTable (opends_buf_deregister buf d).1.driver_open (opends_buf_deregister buf d).1.registered
unfolding opends_buf_deregister
deregister-IsTable buf d h =
    let t : d.driver_open ≡ true → IsTable d.driver_open (remove_buf itself buf d.registered) = λ o.
      record {
        distinct = remove-IsDistinct itself buf d.registered h.distinct;
        room = (let l = length-remove itself buf d.registered in let r = h.room in omega arith);
        closed = λ e. ground arith;
      } in
    elim (Option-cases (find_buf itself buf d.registered)) [
      | inl missing ↦ ground arith
      | inr (b, f) ↦ ground arith
    ]

-- Whatever the order in which the reference driver is opened and closed and buffers are freed,
-- registered and deregistered, no buffer is registered twice, at most 64 are registered, and none is
-- while the driver is closed.
pub run_all-IsTable :
    (os : List Op) (d : Driver)
    → IsTable d.driver_open d.registered
    → IsTable (run_all os d).driver_open (run_all os d).registered
unfolding run_all
run_all-IsTable [] d h = h
run_all-IsTable (open_driver ∷ os) d h =
    run_all-IsTable os (opends_driver_open d).1 (open-IsTable d h)
run_all-IsTable (close_driver ∷ os) d h =
    run_all-IsTable os (opends_driver_close d).1 (close-IsTable d h)
run_all-IsTable (free buf ∷ os) d h = run_all-IsTable os (opends_free buf d) (free-IsTable buf d h)
run_all-IsTable (register buf size ∷ os) d h =
    run_all-IsTable os (opends_buf_register buf size d).1 (register-IsTable buf size d h)
run_all-IsTable (deregister buf ∷ os) d h =
    run_all-IsTable os (opends_buf_deregister buf d).1 (deregister-IsTable buf d h)
