-- ===== src/Driver/Resources.antt =====
-- What the driver of src/opends_aisio.c acquires and releases, as a list of events.
use opends_fork.Prelude.{ℕ, ◌+◌, List, [], ◌∷◌, ◌==◌, if◌then◌else◌}

-- The driver's memory, its three mutexes, the connection to the HOMI daemon, the path of the
-- descriptor file, the queue pairs of the daemon, the device, the gate words of the streams, the
-- array of workers, the queue and the thread of a worker, and a stream's bounce slot and copy
-- descriptor (a bounce slot may also belong to an operation's slot in a ring).
pub data Kind : Type 0 where
  memory locks connection attach_path qpairs device words worker_array : Kind
  queue thread bounce_slot descriptor : Kind

pub data Event : Type 0 where
  acquired released : Kind → Event

-- The newest event stands first.
abbrev pub Log : Type 0
Log = List Event

abbrev pub kind_id : Kind → ℕ
kind_id memory = 0
kind_id locks = 1
kind_id connection = 2
kind_id attach_path = 3
kind_id qpairs = 4
kind_id device = 5
kind_id words = 6
kind_id worker_array = 7
kind_id queue = 8
kind_id thread = 9
kind_id bounce_slot = 10
kind_id descriptor = 11

unfoldable pub same : Kind → Kind → ℕ
same k j = if kind_id k == kind_id j then 1 else 0

-- How often a resource of this kind was acquired, and released.
unfoldable pub acquired_of : Kind → Log → ℕ
acquired_of k [] = 0
acquired_of k (acquired j ∷ es) = same k j + acquired_of k es
acquired_of k (released j ∷ es) = acquired_of k es

unfoldable pub released_of : Kind → Log → ℕ
released_of k [] = 0
released_of k (acquired j ∷ es) = released_of k es
released_of k (released j ∷ es) = same k j + released_of k es
