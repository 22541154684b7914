-- ===== src/Driver/Success.antt =====
-- How far a successful `opends_driver_open` of src/opends_aisio.c has come.
use opends_fork.Prelude.{◌≡◌, ap, false, some, Bool-cases, Option-cases, inl, inr}
use mathlib.Core.Option.{none-ne-some}
use opends_fork.Prelude.Int.{is_negative}
use opends_fork.Errors.{Error}
use opends_fork.StreamMap.{Table}
use opends_fork.Driver.Config.{Config, homi_dev, read_env_config}
use opends_fork.Driver.Resources.{Log}
use opends_fork.Driver.Open.{Host, Driver, open_connected, is_given, opends_driver_open}

-- It was connected, with some configuration.
pub opened-connected :
    (h : Host) (table : Table) {e : Error} {d : Driver} {log : Log}
    → opends_driver_open h false table ≡ (e, some d, log)
    → (c : Config) × (log' : Log) × ((open_connected h c table log').1 ≡ some d)
unfolding opends_driver_open
opened-connected h table opened =
    let o = ap (λ x. x.1) opened in
    elim (Bool-cases (is_given (h.getenv homi_dev))) [
      | inr unset ↦ absurd (none-ne-some _ (rw unset at o))
      | inl set ↦ elim (Bool-cases h.calloc_driver) [
        | inr full ↦ absurd (none-ne-some _ (rw (set, full) at o))
        | inl allocated ↦
            elim (Option-cases (read_env_config h.strtol h.strtoull h.getenv h.vendor)) [
              | inl bad ↦ absurd (none-ne-some _ (rw (set, allocated, bad) at o))
              | inr (c, good) ↦ elim (Bool-cases (is_negative h.homic_connect)) [
                | inl refused ↦ absurd (none-ne-some _ (rw (set, allocated, good, refused) at o))
                | inr accepted ↦ (c, _, rw (set, allocated, good, accepted) at o)
              ]
            ]
      ]
    ]
