-- ===== src/Errors/Tests.antt =====
-- A message of src/opends_common.c.
use opends_fork.Prelude.{◌≡◌, ◌≢◌}
use opends_fork.Errors.{OpError, code, unknown_error, opends_op_status_error}
use opends_fork.Errors.Messages.{status_error_default}

status_error_default_example :
    (((e : OpError) → code e ≢ 5037) → opends_op_status_error 5037 ≡ unknown_error)
    × ((e : OpError) → code e ≡ 5037 → opends_op_status_error 5037 ≢ unknown_error)
status_error_default_example = status_error_default 5037
