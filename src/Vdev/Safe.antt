-- ===== src/Vdev/Safe.antt =====
-- src/vdev.rs: no read of a block pointer panics.
use lamzfs.Common.{
  ℕ, ◌+◌, ◌*◌, ◌≢◌, refl, Option, none, some, not, ◌||◌, List, [], ◌∷◌, ltb, ◌==◌, length,
  get_elem?, get_range, Bool-cases, Option-cases, inl, inr,
}
use lamzfs.Error.{Error}
use lamzfs.Outcome.{
  Outcome, ok, err, panic, ok_or, refuse_if, NoPanic, NoPanic->>=, NoPanic-ok_or, NoPanic-refuse_if,
  NoPanic-if, ne-panic,
}
use lamzfs.Phys.{Dva, BlockPointer, embedded, encrypted, regular, BlockPointerRegular}
use lamzfs.Vendored.{Vendored}
use lamzfs.BlockRead.{PoolMember, read_exact}
use lamzfs.Cksum.Sound.{verify_block-ne-panic}
use lamzfs.Compress.{max_block_lsize}
use lamzfs.Compress.Sound.{decompress-NoPanic}
use lamzfs.Vdev.{
  check_dvas, judged, checked, try_member, try_children, try_copies, read_embedded, read_copies,
  read_regular, read_block_pointer, no_readable_copy,
}
use lamzfs.Vdev.Tree.{
  Layout, single, mirror, raidz1, Topology, flatten, dva_byte_offset, Attempt, found, failed,
  or_next, or_else,
}
use lamzfs.Vdev.Raidz.{
  RaidzCol, raidz_map, verifies, accept_or, degraded, raidz1_columns, mapped, raidz1_copy,
  raidz1_loop, raidz1_read, raidz1_read_columns,
}
use lamzfs.Vdev.Sound.Columns.{raidz_map-ne-panic}

-- An attempt that does not return a panic.
abbrev Calm : Attempt → Type 0
Calm (found o) = NoPanic o
Calm (failed e) = Unit

Calm-or_next :
    (a : Attempt) (next : Error → Attempt)
    → Calm a
    → ((e : Error) → Calm (next e))
    → Calm (or_next a next)
unfolding or_next
Calm-or_next (found o) next h k = h
Calm-or_next (failed e) next h k = k e

NoPanic-or_else :
    (a : Attempt) (next : Error → Outcome (List ℕ))
    → Calm a
    → ((e : Error) → NoPanic (next e))
    → NoPanic (or_else a next)
unfolding or_else
NoPanic-or_else (found o) next h k = h
NoPanic-or_else (failed e) next h k = k e

module _ (v : Vendored) (salt : Option (List ℕ)) (r : BlockPointerRegular) (psize lsize : ℕ) where
  Calm-judged :
      (raw : List ℕ) (o : Outcome (Unit {0})) → o ≢ panic → Calm (judged v salt r psize lsize raw o)
  unfolding judged
  Calm-judged raw (ok _) h = decompress-NoPanic v raw lsize r.compression
  Calm-judged raw (err e) h = tt
  Calm-judged raw panic h = h refl

  Calm-checked :
      (dva : Dva) (byte : ℕ) (o : Outcome (List ℕ)) → Calm (checked v salt r psize lsize dva byte o)
  unfolding checked
  Calm-checked dva byte (ok raw) = Calm-judged raw _ (
      verify_block-ne-panic v r.checksum_type r.order raw r.checksum_value salt dva.vdev dva.offset)
  Calm-checked dva byte (err e) = tt
  Calm-checked dva byte panic = tt

  Calm-try_children :
      (members : List PoolMember) (dva : Dva) (byte : ℕ) (last : Error) (children : List ℕ)
      → Calm (try_children v salt r psize lsize members dva byte last children)
  unfolding try_children try_member
  Calm-try_children members dva byte last [] = tt
  Calm-try_children members dva byte last (mi ∷ rest) = elim (Option-cases (get_elem? members mi)) [
    | inl e ↦ rw (e, try_children) (Calm-try_children members dva byte last rest)
    | inr (m, e) ↦
        rw (e, try_children)
          (Calm-or_next (try_member v salt r psize lsize m dva byte) _
            (Calm-checked dva byte (read_exact m byte psize dva.vdev "io_block"))
            λ x. Calm-try_children members dva byte x rest)
  ]

  NoPanic-try_copies :
      (members : List PoolMember) (children : List ℕ) (last : Error) (dvas : List Dva)
      → NoPanic (try_copies v salt r psize lsize members children last dvas)
  unfolding try_copies
  NoPanic-try_copies members children last [] = tt
  NoPanic-try_copies members children last (dva ∷ dvas) =
      elim (Option-cases (dva_byte_offset dva.offset)) [
        | inl e ↦ rw (e, try_copies) (NoPanic-try_copies members children _ dvas)
        | inr (byte, e) ↦
            rw (e, try_copies)
              (NoPanic-or_else (try_children v salt r psize lsize members dva byte last children) _
                (Calm-try_children members dva byte last children)
                λ x. NoPanic-try_copies members children x dvas)
      ]

  Calm-accept_or :
      (dva : Dva) (block : Option (List ℕ)) (next : Attempt)
      → Calm next
      → Calm (accept_or v salt r psize lsize dva block next)
  unfolding accept_or
  Calm-accept_or dva none next h = h
  Calm-accept_or dva (some raw) next h = elim (Bool-cases (verifies v salt r psize lsize dva raw)) [
    | inl e ↦ rw (e, accept_or) (decompress-NoPanic v raw lsize r.compression)
    | inr e ↦ rw (e, accept_or) h
  ]

  Calm-degraded :
      (dva : Dva) (cols : List RaidzCol) (colbufs : List (Option (List ℕ))) (rest : List RaidzCol)
      (i : ℕ)
      → Calm (degraded v salt r psize lsize dva cols colbufs rest i)
  unfolding degraded
  Calm-degraded dva cols colbufs [] i = tt
  Calm-degraded dva cols colbufs (col ∷ rest) i = elim (Bool-cases col.parity) [
    | inl e ↦ rw (e, degraded) (Calm-degraded dva cols colbufs rest (i + 1))
    | inr e ↦
        rw (e, degraded) (Calm-accept_or dva _ _ (Calm-degraded dva cols colbufs rest (i + 1)))
  ]

  Calm-mapped :
      (members : List PoolMember) (children : List (Option ℕ)) (dva : Dva)
      (o : Outcome (List RaidzCol))
      → o ≢ panic
      → Calm (mapped v salt r psize lsize members children dva o)
  unfolding mapped raidz1_columns
  Calm-mapped members children dva (ok cols) h =
      Calm-accept_or dva _ _
        (Calm-degraded dva cols (raidz1_read_columns members children cols dva.vdev) cols 0)
  Calm-mapped members children dva (err e) h = tt
  Calm-mapped members children dva panic h = h refl

  NoPanic-raidz1_loop :
      (members : List PoolMember) (children : List (Option ℕ)) (ashift : ℕ) (last : Error)
      (dvas : List Dva)
      → NoPanic (raidz1_loop v salt r psize lsize members children ashift last dvas)
  unfolding raidz1_loop raidz1_copy
  NoPanic-raidz1_loop members children ashift last [] = tt
  NoPanic-raidz1_loop members children ashift last (dva ∷ dvas) =
      NoPanic-or_else (raidz1_copy v salt r psize lsize members children ashift dva) _
        (Calm-mapped members children dva (raidz_map dva ashift (length children) 1 psize)
          (raidz_map-ne-panic dva ashift (length children) 1 psize))
        λ e. NoPanic-raidz1_loop members children ashift e dvas

NoPanic-check_dvas : (dvas : List Dva) → NoPanic (check_dvas dvas)
unfolding check_dvas
NoPanic-check_dvas [] = tt
NoPanic-check_dvas (dva ∷ dvas) =
    NoPanic-if dva.is_gang _ _ tt
      (NoPanic-if (not (dva.vdev == 0)) _ _ tt (NoPanic-check_dvas dvas))

module _ (v : Vendored) (members : List PoolMember) (topo : Topology) where
  NoPanic-read_copies :
      (layout : Layout) (r : BlockPointerRegular) (psize lsize : ℕ)
      → NoPanic (read_copies v members topo layout r psize lsize)
  unfolding read_copies raidz1_read
  NoPanic-read_copies (raidz1 children ashift) r psize lsize =
      NoPanic-raidz1_loop v topo.checksum_salt r psize lsize members children ashift _
        (flatten r.dvas)
  NoPanic-read_copies (single idx) r psize lsize =
      NoPanic-try_copies v topo.checksum_salt r psize lsize members (idx ∷ []) no_readable_copy
        (flatten r.dvas)
  NoPanic-read_copies (mirror children) r psize lsize =
      NoPanic-try_copies v topo.checksum_salt r psize lsize members children no_readable_copy
        (flatten r.dvas)

  pub read_block_pointer-NoPanic :
      (bp : BlockPointer) → NoPanic (read_block_pointer v members topo bp)
  unfolding read_block_pointer read_embedded read_regular
  read_block_pointer-NoPanic (encrypted order) = tt
  read_block_pointer-NoPanic (embedded e) =
      NoPanic->>= (ok_or (get_range e.payload 0 e.physical_size) _) _
        (NoPanic-ok_or (get_range e.payload 0 e.physical_size) _)
        λ src _. decompress-NoPanic v src e.logical_size e.compression
  read_block_pointer-NoPanic (regular r) =
      NoPanic->>=
        (refuse_if (r.physical_sectors * 512 == 0 || ltb max_block_lsize (r.physical_sectors * 512))
          _)
        _
        (NoPanic-refuse_if
          (r.physical_sectors * 512 == 0 || ltb max_block_lsize (r.physical_sectors * 512)) _)
        λ _ _.
          NoPanic->>= (check_dvas (flatten r.dvas)) _ (NoPanic-check_dvas (flatten r.dvas)) λ _ _.
            NoPanic-read_copies topo.layout r (r.physical_sectors * 512) (r.logical_sectors * 512)

  -- Whatever the pointer, the devices, the layout and the decoders, the read of a block pointer ends
  -- with bytes or with an error.
  pub read_block_pointer-ne-panic :
      (bp : BlockPointer) → read_block_pointer v members topo bp ≢ panic
  read_block_pointer-ne-panic bp = ne-panic _ (read_block_pointer-NoPanic bp)
