-- ===== src/Vdev/Refusals.antt =====
-- The checks of `read_block_pointer` in src/vdev.rs that come before any read.
use lamzfs.Common.{
  ℕ, ◌*◌, ◌≤◌, ◌<◌, ◌≡◌, refl, ap, sym, ◌∙◌, append_assoc, ◌⊎◌, inl, inr, Bool, true, false, ◌||◌,
  List, [], ◌∷◌, ◌++◌, arith, ltb, ◌==◌, ==_iff, All, Bool-cases,
}
use lamzfs.Error.{Error, mos, unsupported, inconsistent}
use lamzfs.Outcome.{err, refuse_if, ◌>>◌, >>=-of-ok}
use lamzfs.Phys.{Dva, BlockPointerRegular, regular}
use lamzfs.Vendored.{Vendored}
use lamzfs.BlockRead.{PoolMember}
use lamzfs.Compress.{max_block_lsize}
use lamzfs.Vdev.{check_dvas, read_copies, read_regular, read_block_pointer}
use lamzfs.Vdev.Tree.{Topology, flatten}

-- An address on the one vdev that is no gang header.
abbrev pub IsPlain : Dva → Type 0
IsPlain dva = (dva.is_gang ≡ false) × (dva.vdev ≡ 0)

All-snoc :
    {A : Type 0} (P : A → Type 0) (xs : List A) (x : A) → All P xs → P x → All P (xs ++ x ∷ [])
All-snoc P [] x h p = (p, tt)
All-snoc P (y ∷ xs) x (q, h) p = (q, All-snoc P xs x h p)

check_dvas-append :
    (before after : List Dva) → All IsPlain before → check_dvas (before ++ after) ≡ check_dvas after
unfolding check_dvas
check_dvas-append [] after h = refl
check_dvas-append (dva ∷ before) after ((g, z), h) =
    let zero_vdev : (dva.vdev == 0) ≡ true = (==_iff dva.vdev 0).1 z in
    rw (g, check_dvas) (rw (zero_vdev, check_dvas) (check_dvas-append before after h))

check_dvas-gang :
    (dva : Dva) (after : List Dva)
    → dva.is_gang ≡ true
    → check_dvas (dva ∷ after) ≡ err (unsupported "gang_block")
unfolding check_dvas
check_dvas-gang dva after g = rw (g, check_dvas) refl

check_dvas-vdev :
    (dva : Dva) (after : List Dva)
    → dva.is_gang ≡ false
    → 0 < dva.vdev
    → check_dvas (dva ∷ after) ≡ err (inconsistent "dva_vdev" mos)
unfolding check_dvas
check_dvas-vdev dva after g pos =
    let z : (dva.vdev == 0) ≡ false = ground arith in rw (g, check_dvas) (rw (z, check_dvas) refl)

module _ (r : BlockPointerRegular) where
  abbrev pub psize : ℕ
  psize = r.physical_sectors * 512

  abbrev pub HasSize : Type 0
  HasSize = (0 < psize) × (psize ≤ max_block_lsize)

  abbrev size_guard : Bool
  size_guard = psize == 0 || ltb max_block_lsize psize

  size_guard-false : HasSize → size_guard ≡ false
  size_guard-false (low, high) = ground arith

  -- The first fault of the pointer, and the error for it.
  pub data Fault : Error → Type 0 where
    bad_size : (psize ≡ 0) ⊎ (max_block_lsize < psize) → Fault (inconsistent "bp_bad_psize" mos)
    gang :
        (before after : List Dva) (dva : Dva)
        → HasSize
        → flatten r.dvas ≡ before ++ dva ∷ after
        → All IsPlain before
        → dva.is_gang ≡ true
        → Fault (unsupported "gang_block")
    other_vdev :
        (before after : List Dva) (dva : Dva)
        → HasSize
        → flatten r.dvas ≡ before ++ dva ∷ after
        → All IsPlain before
        → dva.is_gang ≡ false
        → 0 < dva.vdev
        → Fault (inconsistent "dva_vdev" mos)

module _ (v : Vendored) (members : List PoolMember) (topo : Topology)
    (r : BlockPointerRegular) where
  -- Whatever the checks of the addresses give.
  read_regular-checked :
      HasSize r
      → read_regular v members topo r ≡ (
          check_dvas (flatten r.dvas)
          >> read_copies v members topo topo.layout r (psize r) (r.logical_sectors * 512))
  unfolding read_regular
  read_regular-checked size =
      >>=-of-ok (refuse_if (size_guard r) (inconsistent "bp_bad_psize" mos)) _
        (ap (λ b. refuse_if b (inconsistent "bp_bad_psize" mos)) (size_guard-false r size)) refl

  refused_dva :
      (before after : List Dva) {e : Error}
      → HasSize r
      → flatten r.dvas ≡ before ++ after
      → All IsPlain before
      → check_dvas after ≡ err e
      → read_regular v members topo r ≡ err e
  refused_dva before after size split plain bad =
      read_regular-checked size
      ∙ ap (λ o. o >> read_copies v members topo topo.layout r (psize r) (r.logical_sectors * 512))
          (ap check_dvas split ∙ check_dvas-append before after plain ∙ bad)

  abbrev pub Refused : Type 0
  Refused = (e : Error) × Fault r e × (read_block_pointer v members topo (regular r) ≡ err e)

  Refused-size : (psize r ≡ 0) ⊎ (max_block_lsize < psize r) → Refused
  unfolding read_block_pointer read_regular
  Refused-size bad = (
    inconsistent "bp_bad_psize" mos,
    bad_size bad,
    ap
        (λ b.
          refuse_if b (inconsistent "bp_bad_psize" mos)
          >> (check_dvas (flatten r.dvas)
              >> read_copies v members topo topo.layout r (psize r) (r.logical_sectors * 512)))
        (oversized bad),
  )
    where
      oversized : (psize r ≡ 0) ⊎ (max_block_lsize < psize r) → (size_guard r) ≡ true
      oversized (inl z) = ground arith
      oversized (inr m) = ground arith

  -- The addresses from some point on, with plain ones before.
  Refused-dvas :
      (before after : List Dva)
      → HasSize r
      → flatten r.dvas ≡ before ++ after
      → All IsPlain before
      → All IsPlain after ⊎ Refused
  unfolding read_block_pointer
  Refused-dvas before [] size split plain = inl tt
  Refused-dvas before (dva ∷ after) size split plain = elim (Bool-cases dva.is_gang) [
    | inl g ↦ inr (
      unsupported "gang_block",
      gang before after dva size split plain g,
      refused_dva before (dva ∷ after) size split plain (check_dvas-gang dva after g),
    )
    | inr g ↦ elim (Bool-cases (dva.vdev == 0)) [
      | inr z ↦ inr (
        inconsistent "dva_vdev" mos,
        other_vdev before after dva size split plain g (ground arith),
        refused_dva before (dva ∷ after) size split plain
            (check_dvas-vdev dva after g (ground arith)),
      )
      | inl z ↦
          let here : IsPlain dva = (g, (==_iff dva.vdev 0).0 z) in
          elim (Refused-dvas (before ++ dva ∷ []) after size
            (split ∙ sym (append_assoc before (dva ∷ []) after))
            (All-snoc IsPlain before dva plain here)) [
              | inl rest ↦ inl (here, rest)
              | inr fault ↦ inr fault
            ]
    ]
  ]

  -- A regular pointer either passes its checks (a physical size of 1 byte to 16 MiB, and no address
  -- that is a gang header or on another vdev than the only one), or the read fails with the error of
  -- its first fault, whatever the devices hold: `bp_bad_psize`, `gang_block` or `dva_vdev`.
  pub read_block_pointer-refuses : (HasSize r × All IsPlain (flatten r.dvas)) ⊎ Refused
  read_block_pointer-refuses = elim (Bool-cases (size_guard r)) [
    | inl bad ↦ inr (Refused-size (which bad))
    | inr good ↦
        let size : HasSize r = ground arith in
        elim (Refused-dvas [] (flatten r.dvas) size refl tt) [
          | inl plain ↦ inl (size, plain)
          | inr fault ↦ inr fault
        ]
  ]
    where
      which : (size_guard r) ≡ true → (psize r ≡ 0) ⊎ (max_block_lsize < psize r)
      which bad = elim (Bool-cases (psize r == 0)) [
        | inl z ↦ inl ((==_iff (psize r) 0).0 z)
        | inr z ↦ inr (ground arith)
      ]
