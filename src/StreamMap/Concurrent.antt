-- ===== src/StreamMap/Concurrent.antt =====
-- A lookup in the map of src/ds_stream_map.h that runs while another thread inserts: the comment
-- above `ds_stream_map_get` says that it needs no lock.
use opends_fork.Prelude.{
  ℕ, ◌^◌, ◌<◌, ◌≡◌, ◌≢◌, inl, inr, refl, sym, ap, ◌∙◌, ◌==◌, ==_iff, Bool-cases, set, length,
  get_or-set,
}
use opends_fork.Prelude.Int.{ℤ, negsuc}
use opends_fork.StreamMap.{Table, empty_entry, at, slot, hash, get_seen, get}
use opends_fork.StreamMap.Probe.{get_seen-found}
use opends_fork.StreamMap.Invariant.{
  mask_of, IsPlaced, Home-key, cap_of-mask, get-present, get-absent, occurs,
}

-- The two stores of an insert, in the order of the code: the index, then (release) the key.
pub data Store (t : Table) : Table → Type 0 where
  store_idx :
      (i : ℕ) (idx : ℤ)
      → (at t i).key ≡ 0
      → i < length t
      → Store t (set t i (record { key = 0; idx = idx }))
  store_key :
      (i s : ℕ)
      → (at t i).key ≡ 0
      → i < length t
      → Store t (set t i (record { key = s; idx = (at t i).idx }))

-- Any number of stores by writers.
pub data Grows (t : Table) : Table → Type 0 where
  same : Grows t t
  more : {u w : Table} → Grows t u → Store u w → Grows t w

Store-kept : {t u : Table} → Store t u → (i : ℕ) → (at t i).key ≢ 0 → at u i ≡ at t i
Store-kept {t} (store_idx j idx free lt) i full = elim (Bool-cases (j == i)) [
  | inl here ↦ absurd (full (ap (λ x. (at t x).key) (sym ((==_iff j i).0 here)) ∙ free))
  | inr other ↦ get_or-set t j i (record { key = 0; idx = idx }) empty_entry lt ∙ rw other refl
]
Store-kept {t} (store_key j s free lt) i full = elim (Bool-cases (j == i)) [
  | inl here ↦ absurd (full (ap (λ x. (at t x).key) (sym ((==_iff j i).0 here)) ∙ free))
  | inr other ↦
      get_or-set t j i (record { key = s; idx = (at t j).idx }) empty_entry lt ∙ rw other refl
]

-- What a slot in use holds never changes.
Grows-kept : {t u : Table} → Grows t u → (i : ℕ) → (at t i).key ≢ 0 → at u i ≡ at t i
Grows-kept same i full = refl
Grows-kept (more g st) i full =
    let e = Grows-kept g i full in Store-kept st i (λ z. full (sym (ap (λ x. x.key) e) ∙ z)) ∙ e

module _ {k : ℕ} {t : Table} (v : IsPlaced k t) where
  -- A reader of a stream that was registered before the lookup began returns its index, whatever
  -- stores writers make between any two of its probes.
  pub get_seen-registered :
      (seen : ℕ → Table)
      → ((p : ℕ) → Grows t (seen p))
      → (s : ℕ) → s ≢ 0
      → get t (mask_of k) s ≢ negsuc 0
      → get_seen seen (mask_of k) s ≡ get t (mask_of k) s
  unfolding get_seen
  get_seen-registered seen grows s nonzero hit = elim (occurs t s nonzero) [
    | inr nowhere ↦ absurd (hit (get-absent v s nowhere))
    | inl (i, found) ↦
        let h = Home-key v i s found nonzero in
        let j : ℕ → ℕ = slot (hash s (mask_of k)) (mask_of k) in
        let key_j : ((q : ℕ) → q < h.probe → (at (seen q) (j q)).key ≡ (at t (j q)).key) =
          λ q lt. ap (λ x. x.key) (Grows-kept (grows q) (j q) (h.passes q lt).1) in
        let full : (at t (j h.probe)).key ≢ 0 =
          λ z. nonzero (sym found ∙ ap (λ x. (at t x).key) (sym h.lands) ∙ z) in
        let e : at (seen h.probe) (j h.probe) ≡ at t (j h.probe) =
          Grows-kept (grows h.probe) (j h.probe) full in
        rw (cap_of-mask k v.small) (
          get_seen-found seen (mask_of k) s (hash s (mask_of k)) (2 ^ k) h.probe
            (λ q lt. (
              λ z. (h.passes q lt).0 (sym (key_j q lt) ∙ z),
              λ z. (h.passes q lt).1 (sym (key_j q lt) ∙ z),
            ))
            h.in_cap (ap (λ x. x.key) e ∙ ap (λ x. (at t x).key) h.lands ∙ found)
          ∙ ap (λ x. x.idx) e
          ∙ ap (λ x. (at t x).idx) h.lands
          ∙ sym (get-present v i s found nonzero))
  ]
