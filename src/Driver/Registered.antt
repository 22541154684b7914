-- ===== src/Driver/Registered.antt =====
-- The streams of an open driver and the map that finds them: `opends_stream_register` of
-- src/opends_aisio.c on the map of src/ds_stream_map.h, with its 16384 entries.
use opends_fork.Prelude.{
  ℕ, ◌+◌, ◌≤◌, ◌<◌, ◌≡◌, ◌≢◌, refl, sym, ap, ◌∙◌, true, false, Option, some, [], ◌∷◌, ◌++◌, ◌==◌,
  ==_iff, leb, not_leb, if◌then◌else◌, length, length-append, get_or, get_elem?-lt,
  get_or-append_lt, get_or-append_self, arith, Bool-cases, inl, inr,
}
use mathlib.Core.Path.{subst}
use mathlib.Core.Option.{some-injective}
use opends_fork.Prelude.Int.{ℤ, ℤ-cases, pos, negsuc, is_negative}
use opends_fork.Errors.{Error, opends_ok}
use opends_fork.StreamMap.{Table, get, put}
use opends_fork.StreamMap.Invariant.{mask_of, IsPlaced, occurs, get-present, get-absent}
use opends_fork.StreamMap.Insert.{get-put}
use opends_fork.StreamMap.Room.{occupied, put_total}
use opends_fork.Worker.Complete.{is_zero}
use opends_fork.Driver.Resources.{Log}
use opends_fork.Driver.Open.{Driver, Stream}
use opends_fork.Driver.Streams.{
  max_streams, stream_map_mask, stream_bounce_alloc, new_stream, after_put, opends_stream_register,
  opends_stream_get,
}

abbrev no_stream : Stream
no_stream = record { gate = 0; next_seq = 0; bounce_buf = 0 }

-- The map finds every stream of the driver, and nothing else: an index that it returns is one of
-- the driver's streams, two streams never share one, and the stream at an index waits on the gate
-- word of that index.
pub record IsRegistry (d : Driver) : Type 0 where
  pub placed : IsPlaced 14 d.stream_map
  pub count : occupied d.stream_map ≡ length d.streams
  pub room : length d.streams ≤ max_streams
  pub bound : (s i : ℕ) → s ≢ 0 → get d.stream_map stream_map_mask s ≡ pos i → i < length d.streams
  pub distinct :
      (r s i : ℕ)
      → r ≢ 0
      → s ≢ 0
      → get d.stream_map stream_map_mask r ≡ pos i
      → get d.stream_map stream_map_mask s ≡ pos i
      → r ≡ s
  pub gates : (i : ℕ) → i < length d.streams → (get_or d.streams i no_stream).gate ≡ i

-- A lookup returns no negative number but -1.
get-miss :
    {k : ℕ} {t : Table}
    → IsPlaced k t
    → (s : ℕ) → s ≢ 0
    → is_negative (get t (mask_of k) s) ≡ true
    → get t (mask_of k) s ≡ negsuc 0
get-miss {t = t} v s nonzero h = elim (occurs t s nonzero) [
  | inl (i, e) ↦ ground (arith, get-present v i s e nonzero, v.counts i)
  | inr absent ↦ get-absent v s absent
]

-- A stream whose lookup returns no error is one of the driver's.
stream_get-found :
    (d : Driver)
    → IsRegistry d
    → (stream : ℕ) → stream ≢ 0
    → is_negative (get d.stream_map stream_map_mask stream) ≡ false
    → (s : Stream) × (opends_stream_get d stream ≡ some s)
unfolding opends_stream_get
stream_get-found d v stream nonzero h = elim (ℤ-cases (get d.stream_map stream_map_mask stream)) [
  | inl (i, e) ↦
      (let (s, found) = get_elem?-lt d.streams i (v.bound stream i nonzero e) in
        (s, rw (opends_stream_get, e) found))
  | inr (n, e) ↦ cc (rw e at h)
]

-- The driver after the map has taken a new stream.
module _ (d : Driver) (v : IsRegistry d) (stream buf : ℕ) (nonzero : stream ≢ 0)
    (miss : get d.stream_map stream_map_mask stream ≡ negsuc 0)
    (space : length d.streams < max_streams) {table : Table}
    (taken : put d.stream_map stream_map_mask stream (pos (length d.streams)) ≡ some table)
    (fills : occupied table ≡ occupied d.stream_map + 1) where
  abbrev added : Driver
  added = record d {
    streams = d.streams ++ (new_stream (length d.streams) buf ∷ []);
    stream_map = table;
  }

  more : length added.streams ≡ length d.streams + 1
  more = length-append d.streams (new_stream (length d.streams) buf ∷ [])

  looks :
      (r : ℕ)
      → r ≢ 0
      → get table stream_map_mask r
        ≡ (if r == stream then pos (length d.streams) else get d.stream_map stream_map_mask r)
  looks = (get-put v.placed stream (pos (length d.streams)) nonzero miss refl taken).1

  added-gate : (i : ℕ) → i < length d.streams + 1 → (get_or added.streams i no_stream).gate ≡ i
  added-gate i h = elim (Bool-cases (i == length d.streams)) [
    | inl last ↦
        ap (λ j. (get_or added.streams j no_stream).gate) ((==_iff i (length d.streams)).0 last)
        ∙ ap (λ x. x.gate)
            (get_or-append_self d.streams (new_stream (length d.streams) buf) no_stream)
        ∙ sym ((==_iff i (length d.streams)).0 last)
    | inr earlier ↦
        (let here : i < length d.streams = grind arith in
          ap (λ x. x.gate)
            (get_or-append_lt d.streams (new_stream (length d.streams) buf) no_stream i here)
          ∙ v.gates i here)
  ]

  added-IsRegistry : IsRegistry added
  added-IsRegistry = record {
    placed = (get-put v.placed stream (pos (length d.streams)) nonzero miss refl taken).0;
    count = omega (arith, fills, v.count, more);
    room = omega (arith, more);
    bound = λ s i s_nonzero e. grind (arith, more, looks s s_nonzero, v.bound s i s_nonzero);
    distinct = λ r s i r_nonzero s_nonzero e f. grind (
      arith,
      looks r r_nonzero,
      looks s s_nonzero,
      v.bound r i r_nonzero,
      v.bound s i s_nonzero,
      v.distinct r s i r_nonzero s_nonzero,
    );
    gates = λ i h. added-gate i (omega (arith, more));
  }

-- A registered stream: the map finds it in the driver that is left, finds every other stream where
-- it found it before, and has at most one stream more.
pub record Registers (d : Driver) (stream : ℕ) (run : Error × Option Driver × Log) : Type 0 where
  pub after : Driver
  pub succeeds : run.0 ≡ opends_ok
  pub left : run.1 ≡ some after
  pub registry : IsRegistry after
  pub found : (s : Stream) × (opends_stream_get after stream ≡ some s)
  pub kept :
      (r : ℕ)
      → r ≢ 0
      → r ≢ stream
      → get after.stream_map stream_map_mask r ≡ get d.stream_map stream_map_mask r
  pub size : length after.streams ≤ length d.streams + 1

after_put-Registers :
    (d : Driver)
    → IsRegistry d
    → (stream buf : ℕ) (log : Log) → stream ≢ 0
    → get d.stream_map stream_map_mask stream ≡ negsuc 0
    → length d.streams < max_streams
    → Registers d stream
        (after_put buf d log (put d.stream_map stream_map_mask stream (pos (length d.streams))))
unfolding after_put
after_put-Registers d v stream buf log nonzero miss space =
    let (table, taken, fills) =
      put_total v.placed stream (pos (length d.streams)) nonzero (omega (arith, v.count)) in
    let seen = looks d v stream buf nonzero miss space taken fills in
    rw taken (record {
      after = added d v stream buf nonzero miss space taken fills;
      succeeds = refl;
      left = refl;
      registry = added-IsRegistry d v stream buf nonzero miss space taken fills;
      found =
          stream_get-found (added d v stream buf nonzero miss space taken fills)
            (added-IsRegistry d v stream buf nonzero miss space taken fills) stream nonzero
            (ground (arith, seen stream nonzero));
      kept = λ r r_nonzero other. ground (arith, seen r r_nonzero);
      size = omega (arith, more d v stream buf nonzero miss space taken fills);
    })

-- In a driver whose map is well-formed and that has room for a stream, the registration of a stream
-- that is not NULL, with the memory that it needs, succeeds: then `opends_stream_get` finds the
-- stream, a lookup of any other returns what it did before, and the map is well-formed again.
pub opends_stream_register-Registers :
    (d : Driver)
    → IsRegistry d
    → (buf stream : ℕ) (log : Log) → stream ≢ 0
    → buf ≢ 0
    → length d.streams < max_streams
    → Registers d stream (opends_stream_register (pos 0) buf stream (some d) log)
unfolding opends_stream_register stream_bounce_alloc
opends_stream_register-Registers d v buf stream log nonzero allocated space =
    let given : (stream == 0) ≡ false = ground arith in
    let got : (buf == 0) ≡ false = ground arith in
    let room : leb max_streams (length d.streams) ≡ false = not_leb _ _ space in
    elim (Bool-cases (is_negative (get d.stream_map stream_map_mask stream))) [
      | inr known ↦
          rw (given, known)
            (record {
              after = d;
              succeeds = refl;
              left = refl;
              registry = v;
              found = stream_get-found d v stream nonzero known;
              kept = λ r r_nonzero other. refl;
              size = omega arith;
            })
      | inl new ↦
          rw (given, new, room, got)
            (after_put-Registers d v stream buf _ nonzero (get-miss v.placed stream nonzero new)
              space)
    ]

-- Every registration, refused or not, keeps the invariant.
pub opends_stream_register-IsRegistry :
    (rc : ℤ) (buf stream : ℕ) (d : Driver) (log : Log) {d' : Driver}
    → IsRegistry d
    → (opends_stream_register rc buf stream (some d) log).1 ≡ some d'
    → IsRegistry d'
unfolding opends_stream_register
opends_stream_register-IsRegistry rc buf stream d log {d' = d'} v e =
    let kept : some d ≡ some d' → IsRegistry d' =
      λ same. subst IsRegistry (some-injective _ _ same) v in
    elim (Bool-cases (stream == 0)) [
      | inl null ↦ kept (rw null at e)
      | inr given ↦ elim (Bool-cases (is_negative (get d.stream_map stream_map_mask stream))) [
        | inr known ↦ kept (rw (given, known) at e)
        | inl new ↦ elim (Bool-cases (leb max_streams (length d.streams))) [
          | inl full ↦ kept (rw (given, new, full) at e)
          | inr room ↦ elim (Bool-cases (is_zero (stream_bounce_alloc rc buf log).0)) [
            | inr failed ↦ kept (rw (given, new, room, failed) at e)
            | inl allocated ↦
                (let log' = (stream_bounce_alloc rc buf log).1 in
                  let space : length d.streams < max_streams = grind arith in
                  let nonzero : stream ≢ 0 = ground arith in
                  let r =
                    after_put-Registers d v stream buf log' nonzero
                      (get-miss v.placed stream nonzero new) space in
                  let e' = rw (given, new, room, allocated) at e in
                  subst IsRegistry (some-injective _ _ (sym r.left ∙ e')) r.registry)
          ]
        ]
      ]
    ]
