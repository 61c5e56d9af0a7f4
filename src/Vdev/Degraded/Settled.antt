-- ===== src/Vdev/Degraded/Settled.antt =====
-- The RAID-Z1 read of src/vdev.rs where no two blocks that the columns give verify.
use lamzfs.Common.{
  ℕ, ◌+◌, ◌≡◌, ◌≢◌, refl, ap, Option, none, some, true, List, [], ◌∷◌, length, InList, Bool-cases,
  inl, inr,
}
use lamzfs.Error.{checksum_mismatch}
use lamzfs.Outcome.{Outcome, ok, err, panic}
use lamzfs.Phys.{Dva, BlockPointerRegular}
use lamzfs.Vendored.{Vendored}
use lamzfs.BlockRead.{PoolMember}
use lamzfs.Compress.{decompress}
use lamzfs.Vdev.Tree.{Attempt, found}
use lamzfs.Vdev.Raidz.{
  RaidzCol, raidz1_read_columns, verifies, accept_or, rebuilt_block, degraded, raidz1_columns,
  mapped, raidz1_assemble, raidz_map, raidz1_copy,
}
use lamzfs.Vdev.Copies.{Settled}
use lamzfs.Vdev.Sound.Columns.{raidz_map-ne-panic}

module _ (v : Vendored) (salt : Option (List ℕ)) (r : BlockPointerRegular) (psize lsize : ℕ) where
  -- Of the blocks that these columns give, as they were read or with one rebuilt, only this verifies.
  abbrev pub OnlyRow : List RaidzCol → List (Option (List ℕ)) → Dva → List ℕ → Type 0
  OnlyRow cols colbufs dva raw =
      ((block : List ℕ)
        → raidz1_assemble cols colbufs psize none ≡ some block
        → verifies v salt r psize lsize dva block ≡ true
        → block ≡ raw)
      × ((i : ℕ) (block : List ℕ)
          → rebuilt_block v salt r psize lsize cols colbufs i ≡ some block
          → verifies v salt r psize lsize dva block ≡ true
          → block ≡ raw)

  -- The same of the rows at all listed addresses.
  abbrev pub OnlyBlock : List PoolMember → List (Option ℕ) → ℕ → List Dva → List ℕ → Type 0
  OnlyBlock members children ashift dvas raw =
      (dva : Dva) (cols : List RaidzCol)
      → InList dva dvas
      → raidz_map dva ashift (length children) 1 psize ≡ ok cols
      → OnlyRow cols (raidz1_read_columns members children cols dva.vdev) dva raw

  module _ (raw : List ℕ) where
    -- What the read of the block gives.
    abbrev pub decoded : Outcome (List ℕ)
    decoded = decompress v r.compression raw lsize

    accept_or-Settled :
        (dva : Dva) (block : Option (List ℕ)) (next : Attempt)
        → ((b : List ℕ) → block ≡ some b → verifies v salt r psize lsize dva b ≡ true → b ≡ raw)
        → Settled decoded next
        → Settled decoded (accept_or v salt r psize lsize dva block next)
    unfolding accept_or
    accept_or-Settled dva none next only h = h
    accept_or-Settled dva (some b) next only h =
        elim (Bool-cases (verifies v salt r psize lsize dva b)) [
          | inl e ↦
              rw (e, accept_or)
                (inl (ap (λ x. found (decompress v r.compression x lsize)) (only b refl e)))
          | inr e ↦ rw (e, accept_or) h
        ]

    degraded-Settled :
        (dva : Dva) (cols : List RaidzCol) (colbufs : List (Option (List ℕ)))
        → OnlyRow cols colbufs dva raw
        → (rest : List RaidzCol) (i : ℕ)
        → Settled decoded (degraded v salt r psize lsize dva cols colbufs rest i)
    unfolding degraded
    degraded-Settled dva cols colbufs only [] i =
        inr (checksum_mismatch dva.vdev dva.offset "raidz_unrecoverable", refl)
    degraded-Settled dva cols colbufs only (c ∷ rest) i =
        let deeper = degraded-Settled dva cols colbufs only rest (i + 1) in
        elim (Bool-cases c.parity) [
          | inl e ↦ rw (e, degraded) deeper
          | inr e ↦
              rw (e, degraded)
                (accept_or-Settled dva (rebuilt_block v salt r psize lsize cols colbufs i) _
                  (only.1 i) deeper)
        ]

    mapped-Settled :
        (members : List PoolMember) (children : List (Option ℕ)) (dva : Dva)
        (o : Outcome (List RaidzCol))
        → o ≢ panic
        → ((cols : List RaidzCol)
            → o ≡ ok cols
            → OnlyRow cols (raidz1_read_columns members children cols dva.vdev) dva raw)
        → Settled decoded (mapped v salt r psize lsize members children dva o)
    unfolding mapped raidz1_columns
    mapped-Settled members children dva (ok cols) calm only =
        let colbufs = raidz1_read_columns members children cols dva.vdev in
        accept_or-Settled dva (raidz1_assemble cols colbufs psize none) _ ((only cols refl).0)
          (degraded-Settled dva cols colbufs (only cols refl) cols 0)
    mapped-Settled members children dva (err e) calm only = inr (e, refl)
    mapped-Settled members children dva panic calm only = absurd (calm refl)

    module _ (members : List PoolMember) (children : List (Option ℕ)) (ashift : ℕ) where
      pub raidz1_copy-Settled :
          (dvas : List Dva) (dva : Dva)
          → InList dva dvas
          → OnlyBlock members children ashift dvas raw
          → Settled decoded (raidz1_copy v salt r psize lsize members children ashift dva)
      unfolding raidz1_copy
      raidz1_copy-Settled dvas dva l only =
          mapped-Settled members children dva (raidz_map dva ashift (length children) 1 psize)
            (raidz_map-ne-panic dva ashift (length children) 1 psize) (λ cols. only dva cols l)
