-- ===== src/Errors/Messages.antt =====
-- The messages of `opends_op_status_error` (src/opends_common.c) tell the errors apart.
use Prim.Native.String.{String}
use text.Mathlib.Text.{◌==◌ as str_eq}
use opends_fork.Prelude.{
  ℕ, ◌≡◌, ◌≢◌, refl, ap, true, false, Option, none, some, List, [], ◌∷◌, arith, if◌then◌else◌,
}
use opends_fork.Errors.{
  OpError, success, code, status_cases, unknown_error, switch, opends_op_status_error,
}

-- The error that a text is the message of.
error_of : List (OpError × String) → String → Option OpError
error_of [] m = none
error_of ((e, m') ∷ cases) m = if str_eq m' m then some e else error_of cases m

error_of-status_error :
    (e : OpError) → error_of status_cases (opends_op_status_error (code e)) ≡ some e
unfolding error_of opends_op_status_error
error_of-status_error success = refl
error_of-status_error _ = refl

-- Two errors with the same message are the same error: a message names its error.
status_error_injective :
    (d e : OpError) → opends_op_status_error (code d) ≡ opends_op_status_error (code e) → d ≡ e
status_error_injective d e h =
    cc (ap (error_of status_cases) h, error_of-status_error d, error_of-status_error e)

switch_default :
    (cases : List (OpError × String)) (status : ℕ)
    → ((e : OpError) → code e ≢ status)
    → switch cases status ≡ unknown_error
unfolding switch
switch_default [] status h = refl
switch_default ((e, m) ∷ cases) status h = ground (arith, h e, switch_default cases status h)

known_message : (e : OpError) → str_eq (opends_op_status_error (code e)) unknown_error ≡ false
unfolding opends_op_status_error
known_message success = refl
known_message _ = refl

str_eq_refl : str_eq unknown_error unknown_error ≡ true
str_eq_refl = refl

-- Every error code has a message of its own, and any other value gets the default message: the
-- default is returned exactly for the values that are no code.
pub status_error_default :
    (status : ℕ)
    → (((e : OpError) → code e ≢ status) → opends_op_status_error status ≡ unknown_error)
      × ((e : OpError) → code e ≡ status → opends_op_status_error status ≢ unknown_error)
unfolding opends_op_status_error
status_error_default status = (
  switch_default status_cases status,
  λ e h same. cc (known_message e, ap (λ t. str_eq t unknown_error) same, h, str_eq_refl),
)
