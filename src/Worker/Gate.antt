-- ===== src/Worker/Gate.antt =====
-- The per-stream gate of src/opends_aisio.c: a 32-bit word that counts two phases for each
-- operation, compared by its distance so that it may wrap.
use opends_fork.Prelude.{ℕ, ◌+◌, ◌*◌, ◌^◌, ◌%◌, ◌<◌, ◌≡◌, ltb, arith}
use opends_fork.Worker.{is_gated, is_parked}

-- Let a stream's gate have counted to `g` and the operation be number `seq`, without wrap. While the
-- two phases are less than 2 ^ 31 apart, the words that the code compares, taken mod 2 ^ 32, tell
-- right: the I/O thread waits exactly while the gate is below 2 * seq, and the parked stream exactly
-- while it is below 2 * seq + 1.
pub gate_lem :
    (g seq : ℕ)
    → g + 1 < 2 * seq + 2 ^ 31
    → 2 * seq < g + 2 ^ 31
    → (is_gated (g % 2 ^ 32) (seq % 2 ^ 32) ≡ ltb g (2 * seq))
      × (is_parked (g % 2 ^ 32) (seq % 2 ^ 32) ≡ ltb g (2 * seq + 1))
unfolding is_gated is_parked
gate_lem g seq below above = (ground arith, ground arith)
