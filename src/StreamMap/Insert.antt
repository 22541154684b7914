-- ===== src/StreamMap/Insert.antt =====
-- What an insert into the map of src/ds_stream_map.h does to every lookup.
use opends_fork.Prelude.{
  ℕ, ◌^◌, ◌<◌, ◌≡◌, ◌≢◌, inl, inr, refl, sym, ap, ◌∙◌, false, some, arith, ◌==◌, ==_iff,
  if◌then◌else◌, Bool-cases, length, length-set, get_or-set,
}
use mathlib.Core.Path.{subst}
use opends_fork.Prelude.Int.{ℤ, negsuc, is_negative}
use opends_fork.StreamMap.{Table, empty_entry, at, slot, hash, cap_of, get, put}
use opends_fork.StreamMap.Probe.{put-Stops, written, Stops}
use opends_fork.StreamMap.Invariant.{
  mask_of, Home, IsPlaced, slot-lt, cap_of-mask, occurs, get-present, get-absent, absent_of_miss,
}

module _ (k : ℕ) (t : Table) (v : IsPlaced k t) (s : ℕ) (idx : ℤ) (d : ℕ)
    (stops : Stops t (mask_of k) s idx (hash s (mask_of k)) 0 d) where
  -- The slot that the insert fills, and the table after it.
  abbrev place : ℕ
  place = slot (hash s (mask_of k)) (mask_of k) d

  abbrev after : Table
  after = written t (mask_of k) s idx (hash s (mask_of k)) d

  place-lt : place < length t
  place-lt = rw v.width (slot-lt k (hash s (mask_of k)) d)

  at-after : (i : ℕ) → at after i ≡ (if place == i then record { key = s; idx = idx } else at t i)
  at-after i = get_or-set t place i (record { key = s; idx = idx }) empty_entry place-lt

  at-place : at after place ≡ record { key = s; idx = idx }
  at-place = ground (arith, at-after place)

  -- An entry that stood in the table stands there after the insert.
  kept : (i : ℕ) → (at t i).key ≢ 0 → at after i ≡ at t i
  kept i full = elim (Bool-cases (place == i)) [
    | inl same ↦ absurd (full (ap (λ j. (at t j).key) (sym ((==_iff place i).0 same)) ∙ stops.0))
    | inr other ↦ at-after i ∙ rw other refl
  ]

  Home-kept : (r i : ℕ) → Home k t r i → Home k after r i
  Home-kept r i h = record {
    probe = h.probe;
    in_cap = h.in_cap;
    lands = h.lands;
    passes = λ q lt.
        let j = slot (hash r (mask_of k)) (mask_of k) q in
        let e : (at after j).key ≡ (at t j).key = ap (λ x. x.key) (kept j (h.passes q lt).1) in
        (λ z. (h.passes q lt).0 (sym e ∙ z), λ z. (h.passes q lt).1 (sym e ∙ z));
  }

  Home-place : d < 2 ^ k → ((i : ℕ) → (at t i).key ≢ s) → Home k after s place
  Home-place lt fresh = record {
    probe = d;
    in_cap = lt;
    lands = refl;
    passes = λ q before.
        let j = slot (hash s (mask_of k)) (mask_of k) q in
        let full : (at t j).key ≢ 0 = stops.1 q (omega arith) before in
        let e : (at after j).key ≡ (at t j).key = ap (λ x. x.key) (kept j full) in
        (λ z. fresh j (sym e ∙ z), λ z. full (sym e ∙ z));
  }

  -- The insert keeps the invariant.
  after-IsPlaced :
      d < 2 ^ k → ((i : ℕ) → (at t i).key ≢ s) → is_negative idx ≡ false → IsPlaced k after
  after-IsPlaced lt fresh count = record {
    width = length-set t place (record { key = s; idx = idx }) ∙ v.width;
    small = v.small;
    placed = λ i full. elim (Bool-cases (place == i)) [
      | inl same ↦
          subst (λ j. Home k after (at after j).key j) ((==_iff place i).0 same)
            (subst (λ e. Home k after e.key place) (sym at-place) (Home-place lt fresh))
      | inr other ↦
          let e : at after i ≡ at t i = at-after i ∙ rw other refl in
          subst (λ x. Home k after x.key i) (sym e)
            (Home-kept (at t i).key i (v.placed i (λ z. full (ap (λ x. x.key) e ∙ z))))
    ];
    counts = λ i full. ground (arith, at-after i, v.counts i);
  }

  get-after :
      d < 2 ^ k
      → s ≢ 0
      → ((i : ℕ) → (at t i).key ≢ s)
      → is_negative idx ≡ false
      → (r : ℕ) → r ≢ 0
      → get after (mask_of k) r ≡ (if r == s then idx else get t (mask_of k) r)
  get-after lt nonzero fresh count r r_nonzero = elim (Bool-cases (r == s)) [
    | inl same ↦
        let e : r ≡ s = (==_iff r s).0 same in
        rw same (
          get-present w place r (ap (λ x. x.key) at-place ∙ sym e) r_nonzero
          ∙ ap (λ x. x.idx) at-place)
    | inr other ↦ rw other (elim (occurs t r r_nonzero) [
      | inl (i, found) ↦
          let full : (at t i).key ≢ 0 = λ z. r_nonzero (sym found ∙ z) in
          get-present w i r (ap (λ x. x.key) (kept i full) ∙ found) r_nonzero
          ∙ ap (λ x. x.idx) (kept i full)
          ∙ sym (get-present v i r found r_nonzero)
      | inr nowhere ↦
          get-absent w r (λ i. ground (arith, at-after i, nowhere i)) ∙ sym (get-absent v r nowhere)
    ])
  ]
    where
      w : IsPlaced k after
      w = after-IsPlaced lt fresh count

module _ {k : ℕ} {t : Table} (v : IsPlaced k t) (s : ℕ) (idx : ℤ) where
  -- An insert of a stream that is not in the map keeps the invariant, and afterwards a lookup of
  -- that stream returns the new index and a lookup of any other returns what it did before.
  pub get-put :
      {t' : Table}
      → s ≢ 0
      → get t (mask_of k) s ≡ negsuc 0
      → is_negative idx ≡ false
      → put t (mask_of k) s idx ≡ some t'
      → IsPlaced k t'
        × ((r : ℕ) → r ≢ 0 → get t' (mask_of k) r ≡ (if r == s then idx else get t (mask_of k) r))
  unfolding put
  get-put {t'} nonzero miss count e =
      let (d, lt, stops, w) =
        put-Stops t (mask_of k) s idx (hash s (mask_of k)) (cap_of (mask_of k)) {t' = t'} e in
      let d_lt : d < 2 ^ k = omega (arith, cap_of-mask k v.small) in
      let fresh = absent_of_miss v s nonzero miss in
      subst
        (λ x.
          IsPlaced k x
          × ((r : ℕ) → r ≢ 0 → get x (mask_of k) r ≡ (if r == s then idx else get t (mask_of k) r)))
        (sym w)
        (
          after-IsPlaced k t v s idx d stops d_lt fresh count,
          get-after k t v s idx d stops d_lt nonzero fresh count,
        )
