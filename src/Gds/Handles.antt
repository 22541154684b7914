-- ===== src/Gds/Handles.antt =====
-- The handles of src/opends_gds.c over any calls: `opends_use_count`, the files that cuFile has
-- registered, and the file that a handle reads.
use opends_fork.Prelude.{
  ℕ, suc, ◌+◌, ◌-◌, ◌≡◌, ap, ◌∙◌, Bool, true, false, Option, none, some, List, [], ◌∷◌, ◌==◌,
  if◌then◌else◌, length, arith, Bool-cases, Option-cases, inl, inr,
}
use opends_fork.Prelude.Int.{ℤ, pos}
use opends_fork.Buffers.{find_buf}
use opends_fork.Buffers.Array.{count}
use opends_fork.Buffers.Reference.{itself, increment, decrement}
use opends_fork.Gds.{
  CuError, Handle, place_of, Driver, forget, is_refused, opends_driver_open, opends_driver_close,
  opends_handle_register, opends_handle_deregister, opends_alloc, opends_free, opends_buf_register,
  opends_buf_deregister,
}
use opends_fork.Gds.Calls.{
  Call, open_driver, close_driver, register_handle, deregister_handle, alloc, free, register_buf,
  deregister_buf, run, run_all, forget-head,
}

abbrev pub file_of : Handle → ℕ
file_of h = h.cufh

-- `opends_use_count` returns the number of handles, and cuFile has registered each file as often as
-- a handle stands for it; the places that `malloc` has handed out are those of the handles.
pub record IsCounted (d : Driver) : Type 0 where
  pub counts : d.use_count ≡ pos (length d.handles)
  pub files : (c : ℕ) → count itself c d.files ≡ count file_of c d.handles
  pub places : (p : ℕ) → count itself p d.allocated ≡ count place_of p d.handles

abbrev once : ℕ → ℕ → ℕ
once b c = if b == c then 1 else 0

length-forget :
    (fh : ℕ) (hs : List Handle) {h : Handle}
    → find_buf place_of fh hs ≡ some h
    → length (forget place_of fh hs) + 1 ≡ length hs
unfolding find_buf forget
length-forget fh [] e = ground arith
length-forget fh (g ∷ hs) e = elim (Bool-cases (place_of g == fh)) [
  | inl here ↦ rw here (omega arith)
  | inr there ↦ rw there (omega (arith, length-forget fh hs (rw there at e)))
]

less :
    (fh : ℕ) (hs : List Handle) {h : Handle}
    → find_buf place_of fh hs ≡ some h
    → length hs ≡ suc (length (forget place_of fh hs))
less fh hs e = omega (arith, length-forget fh hs e)

count-forget :
    (c b : ℕ) (bs : List ℕ) → count itself c (forget itself b bs) ≡ count itself c bs - once b c
unfolding forget count
count-forget c b [] = ground arith
count-forget c b (x ∷ bs) = let ih = count-forget c b bs in ground arith

count-forget_handle :
    (c fh : ℕ) (hs : List Handle) {h : Handle}
    → find_buf place_of fh hs ≡ some h
    → count file_of c (forget place_of fh hs) + once h.cufh c ≡ count file_of c hs
unfolding find_buf forget count
count-forget_handle c fh [] e = ground arith
count-forget_handle c fh (g ∷ hs) {h = h} e = elim (Bool-cases (place_of g == fh)) [
  | inl here ↦ (let e' = rw here at e in ground arith)
  | inr there ↦ (let ih = count-forget_handle c fh hs (rw there at e) in ground arith)
]

count-forget_place :
    (p fh : ℕ) (hs : List Handle)
    → count place_of p (forget place_of fh hs) ≡ count place_of p hs - once fh p
unfolding forget count
count-forget_place p fh [] = ground arith
count-forget_place p fh (h ∷ hs) = let ih = count-forget_place p fh hs in ground arith

module _ (o_direct : ℕ) where
  register-IsCounted :
      (fcntl : ℤ → Option ℕ) (place : ℕ) (cu_register : ℤ → CuError × ℕ) (has_fh : Bool) (fd : ℤ)
      (d : Driver)
      → IsCounted d
      → IsCounted (opends_handle_register o_direct fcntl place cu_register has_fh fd d).1
  unfolding opends_handle_register
  register-IsCounted fcntl place cu_register has_fh fd d v =
      let added : IsCounted (record d {
        allocated = place ∷ d.allocated;
        handles = record { place = place; cufh = (cu_register fd).1 } ∷ d.handles;
        files = (cu_register fd).1 ∷ d.files;
        use_count = increment d.use_count;
      }) =
        record {
          counts = ap increment v.counts;
          files = λ c. unfold count in (let f = v.files c in ground arith);
          places = λ p. unfold count in (let f = v.places p in ground arith);
        } in
      let freed : IsCounted (record d { allocated = forget itself place (place ∷ d.allocated) }) =
        record {
          counts = v.counts;
          files = v.files;
          places = λ p. ap (count itself p) (forget-head place d.allocated) ∙ v.places p;
        } in
      elim (Option-cases (fcntl fd)) [ inl failed ↦ ground arith | inr (flags, got) ↦ ground arith ]

  deregister-IsCounted :
      (fh : ℕ) (d : Driver) → IsCounted d → IsCounted (opends_handle_deregister fh d)
  unfolding opends_handle_deregister
  deregister-IsCounted fh d v = elim (Bool-cases (fh == 0)) [
    | inl null ↦ rw null v
    | inr given ↦ elim (Option-cases (find_buf place_of fh d.handles)) [
      | inl missing ↦ rw (given, missing) v
      | inr (h, found) ↦
          rw (given, found)
            (record {
              counts = ap decrement (v.counts ∙ ap pos (less fh d.handles found));
              files = λ c. omega (
                arith,
                v.files c,
                count-forget c h.cufh d.files,
                count-forget_handle c fh d.handles found,
              );
              places = λ p. omega (
                arith,
                v.places p,
                count-forget p fh d.allocated,
                count-forget_place p fh d.handles,
              );
            })
    ]
  ]

  alloc-IsCounted :
      (allocated : Option ℕ) (rc : CuError) (d : Driver)
      → IsCounted d
      → IsCounted (opends_alloc allocated rc d).1
  unfolding opends_alloc
  alloc-IsCounted none rc d v = v
  alloc-IsCounted (some ptr) rc d v = elim (Bool-cases (is_refused rc)) [
    | inl refused ↦ rw refused (record { counts = v.counts; files = v.files; places = v.places })
    | inr granted ↦ rw granted (record { counts = v.counts; files = v.files; places = v.places })
  ]

  free-IsCounted :
      (rc : CuError) (buf : ℕ) (d : Driver) → IsCounted d → IsCounted (opends_free rc buf d)
  unfolding opends_free
  free-IsCounted rc buf d v = elim (Bool-cases (buf == 0)) [
    | inl null ↦ rw null v
    | inr given ↦ rw given (record { counts = v.counts; files = v.files; places = v.places })
  ]

  run-IsCounted : (c : Call) (d : Driver) → IsCounted d → IsCounted (run o_direct c d).1
  unfolding run
  run-IsCounted (open_driver rc) d v =
      let opened : IsCounted (record d { driver_open = true }) = record {
        counts = v.counts;
        files = v.files;
        places = v.places;
      } in
      unfold opends_driver_open in ground arith
  run-IsCounted (close_driver rc) d v =
      let closed : IsCounted (record d { driver_open = false }) = record {
        counts = v.counts;
        files = v.files;
        places = v.places;
      } in
      unfold opends_driver_close in ground arith
  run-IsCounted (register_handle fcntl place cu_register has_fh fd) d v =
      register-IsCounted fcntl place cu_register has_fh fd d v
  run-IsCounted (deregister_handle fh) d v = deregister-IsCounted fh d v
  run-IsCounted (alloc allocated rc) d v = alloc-IsCounted allocated rc d v
  run-IsCounted (free rc buf) d v = free-IsCounted rc buf d v
  run-IsCounted (register_buf rc buf size) d v =
      let pinned : IsCounted (record d { pinned = buf ∷ d.pinned }) = record {
        counts = v.counts;
        files = v.files;
        places = v.places;
      } in
      unfold opends_buf_register in ground arith
  run-IsCounted (deregister_buf rc buf) d v =
      let released : (bufs : List ℕ) → IsCounted (record d { pinned = bufs }) =
        λ bufs. record { counts = v.counts; files = v.files; places = v.places } in
      unfold opends_buf_deregister in ground arith

  -- Over any calls `opends_use_count` returns the number of handles that are registered, and cuFile
  -- has registered each file as often as a handle stands for it. No memory of a handle is leaked: the
  -- places that `malloc` has handed out and that are not freed are those of the handles.
  pub run_all-IsCounted :
      (cs : List Call) (d : Driver) → IsCounted d → IsCounted (run_all o_direct cs d)
  unfolding run_all
  run_all-IsCounted [] d v = v
  run_all-IsCounted (c ∷ cs) d v = run_all-IsCounted cs (run o_direct c d).1 (run-IsCounted c d v)
