-- ===== src/StreamMap/Room.antt =====
-- An insert into the map of src/ds_stream_map.h fails only if every slot is in use.
use opends_fork.Prelude.{
  ℕ, zero, suc, ◌+◌, ◌^◌, ◌<◌, ◌≡◌, ◌≢◌, inl, inr, ap, ◌∙◌, none, some, [], ◌∷◌, arith, ◌==◌,
  ==_iff, if◌then◌else◌, Bool-cases, Option-cases, set, length,
}
use opends_fork.Prelude.Int.{ℤ}
use opends_fork.StreamMap.{Entry, Table, at, slot, hash, cap_of, put}
use opends_fork.StreamMap.Probe.{put-Stops, put-total}
use opends_fork.StreamMap.Invariant.{mask_of, IsPlaced, slot-lt, hash-lt, slot-onto, cap_of-mask}

-- The slots in use.
unfoldable pub occupied : Table → ℕ
occupied [] = 0
occupied (e ∷ t) = if e.key == 0 then occupied t else suc (occupied t)

empty_slot : (t : Table) → occupied t < length t → (i : ℕ) × (i < length t) × ((at t i).key ≡ 0)
unfolding occupied
empty_slot [] h = absurd (omega arith)
empty_slot (e ∷ t) h = elim (Bool-cases (e.key == 0)) [
  | inl free ↦ (0, omega arith, (==_iff e.key 0).0 free)
  | inr used ↦ let (i, lt, free) = empty_slot t (ground arith) in (suc i, omega arith, free)
]

occupied-set :
    (t : Table) (i : ℕ) (e : Entry)
    → i < length t
    → (at t i).key ≡ 0
    → e.key ≢ 0
    → occupied (set t i e) ≡ occupied t + 1
unfolding occupied
occupied-set [] i e lt free full = absurd (omega arith)
occupied-set (x ∷ t) zero e lt free full = ground arith
occupied-set (x ∷ t) (suc i) e lt free full = ground (arith, occupied-set t i e)

module _ {k : ℕ} {t : Table} (v : IsPlaced k t) (s : ℕ) (idx : ℤ) where
  occupied-put :
      {t' : Table} → s ≢ 0 → put t (mask_of k) s idx ≡ some t' → occupied t' ≡ occupied t + 1
  unfolding put
  occupied-put {t'} nonzero e =
      let h = hash s (mask_of k) in
      let (d, lt, stops, w) = put-Stops t (mask_of k) s idx h (cap_of (mask_of k)) {t' = t'} e in
      ap occupied w
      ∙ occupied-set t (slot h (mask_of k) d) (record { key = s; idx = idx })
          (rw v.width (slot-lt k h d)) stops.0 nonzero

  put-ne-none : occupied t < 2 ^ k → put t (mask_of k) s idx ≢ none
  unfolding put
  put-ne-none room =
      let h = hash s (mask_of k) in
      let (i, lt, free) = empty_slot t (rw v.width room) in
      let (d, d_lt, onto) = slot-onto k h i v.small (hash-lt k s) (rw v.width at lt) in
      put-total t (mask_of k) s idx h (cap_of (mask_of k)) d (rw (cap_of-mask k v.small) d_lt)
        (ap (λ j. (at t j).key) onto ∙ free)

  -- While a slot is free an insert succeeds, and it takes up exactly one slot.
  pub put_total :
      s ≢ 0
      → occupied t < 2 ^ k
      → (t' : Table) × (put t (mask_of k) s idx ≡ some t') × (occupied t' ≡ occupied t + 1)
  put_total nonzero room = elim (Option-cases (put t (mask_of k) s idx)) [
    | inl failed ↦ absurd (put-ne-none room failed)
    | inr (t', e) ↦ (t', e, occupied-put nonzero e)
  ]
