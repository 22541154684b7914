-- ===== src/Driver/Kept.antt =====
-- What stays true of the streams from `opends_driver_open` of src/opends_aisio.c on, whatever is
-- registered.
use opends_fork.Prelude.{
  ℕ, zero, suc, ◌^◌, ◌≡◌, ◌≢◌, refl, sym, ap, ◌∙◌, Bool, false, Option, none, some, List, [], ◌∷◌,
  ◌||◌, ◌==◌, get_or, leb, length, replicate, get_or-replicate, arith, Bool-cases, inl, inr,
}
use mathlib.Core.Path.{subst}
use mathlib.Core.Option.{some-injective, none-ne-some}
use opends_fork.Prelude.Int.{negsuc}
use opends_fork.Errors.{Error}
use opends_fork.StreamMap.{get, empty_entry}
use opends_fork.StreamMap.Invariant.{get-absent, replicate-IsPlaced}
use opends_fork.StreamMap.Room.{occupied}
use opends_fork.Worker.Complete.{is_zero}
use opends_fork.Driver.Config.{Config}
use opends_fork.Driver.Resources.{Log}
use opends_fork.Driver.Success.{opened-connected}
use opends_fork.Driver.Open.{
  Host, Blocks, Driver, idle_worker, after_open_device, workers_setup, open_connected,
  opends_driver_open,
}
use opends_fork.Driver.Streams.{stream_map_mask, give_bounce}
use opends_fork.Driver.Closing.{Use, register, bounce, use_one, use_all}
use opends_fork.Driver.Registered.{IsRegistry, opends_stream_register-IsRegistry}

-- Every driver that a call leaves is well-formed.
abbrev Registries : Option Driver → Type 0
Registries o = (d : Driver) → o ≡ some d → IsRegistry d

occupied-replicate : (n : ℕ) → occupied (replicate n empty_entry) ≡ 0
unfolding occupied
occupied-replicate zero = refl
occupied-replicate (suc n) = occupied-replicate n

-- The driver that was just opened, with its zeroed map, has no streams.
pub fresh-IsRegistry :
    (d : Driver) → d.streams ≡ [] → d.stream_map ≡ replicate (2 ^ 14) empty_entry → IsRegistry d
fresh-IsRegistry d nothing zeroed =
    let z = replicate-IsPlaced 14 (omega arith) in
    let misses : (s : ℕ) → s ≢ 0 → get d.stream_map stream_map_mask s ≡ negsuc 0 = λ s nonzero.
      rw zeroed (
        get-absent z s
          (λ i e. nonzero (sym e ∙ ap (λ x. x.key) (get_or-replicate (2 ^ 14) i empty_entry)))) in
    record {
      placed = rw zeroed z;
      count = rw (zeroed, nothing) (occupied-replicate (2 ^ 14));
      room = rw nothing (omega arith);
      bound = λ s i nonzero e. ground (arith, misses s nonzero);
      distinct = λ r s i r_nonzero s_nonzero e f. ground (arith, misses r r_nonzero);
      gates = λ i h. elim (rw nothing at h) [ ];
    }

after_open_device-fresh :
    (h : Host) (c : Config) (blocks : Option Blocks) (has_path : Bool) (log : Log) {d : Driver}
    → (after_open_device h c (replicate (2 ^ 14) empty_entry) blocks has_path log).1 ≡ some d
    → (d.streams ≡ []) × (d.stream_map ≡ replicate (2 ^ 14) empty_entry)
unfolding after_open_device
after_open_device-fresh h c none has_path log opened = absurd (none-ne-some _ opened)
after_open_device-fresh h c (some b) has_path log opened =
    elim (Bool-cases (is_zero (workers_setup h c log).0)) [
      | inr failed ↦ absurd (none-ne-some _ (rw failed at opened))
      | inl ready ↦
          (let same = some-injective _ _ (rw ready at opened) in
            (ap (λ x. x.streams) (sym same), ap (λ x. x.stream_map) (sym same)))
    ]

use_one-Registries :
    (u : Use) (o : Option Driver) (log : Log) → Registries o → Registries (use_one u o log).0
unfolding use_one
use_one-Registries u none log v = v
use_one-Registries (register rc buf stream) (some d) log v =
    λ d' e. opends_stream_register-IsRegistry rc buf stream d log (v d refl) e
use_one-Registries (bounce i slot buf) (some d) log v = λ d' e.
    subst IsRegistry (some-injective _ _ e) (
      unfold give_bounce in
      let w = get_or d.workers i (idle_worker none) in
      elim (Bool-cases (leb (length d.workers) i || leb (length w.bounce_bufs) slot)) [
        | inl absent ↦ rw absent (v d refl)
        | inr present ↦ elim (Bool-cases (get_or w.bounce_bufs slot 0 == 0)) [
          | inr kept ↦ rw (present, kept) (v d refl)
          | inl free ↦ elim (Bool-cases (buf == 0)) [
            | inl failed ↦ rw (present, free, failed) (v d refl)
            | inr got ↦
                rw (present, free, got)
                  (record {
                    placed = (v d refl).placed;
                    count = (v d refl).count;
                    room = (v d refl).room;
                    bound = (v d refl).bound;
                    distinct = (v d refl).distinct;
                    gates = (v d refl).gates;
                  })
          ]
        ]
      ])

use_all-Registries :
    (us : List Use) (o : Option Driver) (log : Log) → Registries o → Registries (use_all us o log).0
unfolding use_all
use_all-Registries [] o log v = v
use_all-Registries (u ∷ us) o log v =
    use_all-Registries us (use_one u o log).0 (use_one u o log).1 (use_one-Registries u o log v)

opened-IsRegistry :
    (h : Host) {e : Error} {d : Driver} {log : Log}
    → opends_driver_open h false (replicate (2 ^ 14) empty_entry) ≡ (e, some d, log)
    → IsRegistry d
unfolding open_connected
opened-IsRegistry h {d = d} opened =
    let (c, log', o) = opened-connected h (replicate (2 ^ 14) empty_entry) opened in
    let (nothing, zeroed) = after_open_device-fresh h c _ _ _ o in fresh-IsRegistry d nothing zeroed

-- From the opening of the driver on, through any registrations, with success or not, and any bounce
-- buffers of ring slots, an index that the map returns is that of a stream of the driver, two streams
-- never share one, and the stream at an index has the gate word of that index.
pub use_all-IsRegistry :
    (h : Host) (uses : List Use) {e : Error} {d d' : Driver} {log : Log}
    → opends_driver_open h false (replicate (2 ^ 14) empty_entry) ≡ (e, some d, log)
    → (use_all uses (some d) log).0 ≡ some d'
    → IsRegistry d'
use_all-IsRegistry h uses {d = d} {d' = d'} {log = log} opened last =
    let v = opened-IsRegistry h opened in
    use_all-Registries uses (some d) log (λ x e. subst IsRegistry (some-injective _ _ e) v) d' last
