-- ===== src/Vdev/Sound/Children.antt =====
-- The copies that the loops over addresses and children of src/vdev.rs accept are verified.
use lamzfs.Common.{
  ℕ, ◌≡◌, refl, sym, ◌∙◌, inl, inr, Option, List, [], ◌∷◌, length, get_elem?, Option-cases,
}
use lamzfs.Error.{Error}
use lamzfs.Outcome.{Outcome, ok, err, panic}
use lamzfs.Phys.{Dva, BlockPointerRegular}
use lamzfs.Vendored.{Vendored}
use lamzfs.BlockRead.{PoolMember, read_exact, length-read_exact}
use lamzfs.Cksum.{verify_block}
use lamzfs.Cksum.Sound.{verify_block-ne-panic}
use lamzfs.Vdev.{judged, checked, try_member, try_children, try_copies}
use lamzfs.Vdev.Tree.{dva_byte_offset, Attempt, found, failed, or_next, or_else}
use lamzfs.Vdev.Copies.{FoundCopy, ListedCopy}

module _ (v : Vendored) (salt : Option (List ℕ)) (r : BlockPointerRegular) (psize lsize : ℕ) where
  abbrev pub Found : Dva → Attempt → Type 0
  Found = FoundCopy v salt r psize lsize

  abbrev check : Dva → List ℕ → Outcome (Unit {0})
  check dva raw =
      verify_block v r.checksum_type r.order raw r.checksum_value salt dva.vdev dva.offset

  judged-Found :
      (dva : Dva) (raw : List ℕ) (o : Outcome (Unit {0}))
      → check dva raw ≡ o
      → length raw ≡ psize
      → Found dva (judged v salt r psize lsize raw o)
  unfolding judged
  judged-Found dva raw (ok tt) e l = record { raw = raw; whole = l; accepted = e; decoded = refl }
  judged-Found dva raw (err x) e l = tt
  judged-Found dva raw panic e l = absurd (
      verify_block-ne-panic v r.checksum_type r.order raw r.checksum_value salt dva.vdev dva.offset
        e)

  checked-Found :
      (dva : Dva) (byte : ℕ) (o : Outcome (List ℕ))
      → ((raw : List ℕ) → o ≡ ok raw → length raw ≡ psize)
      → Found dva (checked v salt r psize lsize dva byte o)
  unfolding checked
  checked-Found dva byte (ok raw) h = judged-Found dva raw (check dva raw) refl (h raw refl)
  checked-Found dva byte (err e) h = tt
  checked-Found dva byte panic h = tt

  try_member-Found :
      (m : PoolMember) (dva : Dva) (byte : ℕ)
      → Found dva (try_member v salt r psize lsize m dva byte)
  unfolding try_member
  try_member-Found m dva byte =
      checked-Found dva byte (read_exact m byte psize dva.vdev "io_block")
        λ raw e. length-read_exact m byte psize dva.vdev "io_block" e

  or_next-Found :
      (dva : Dva) (a : Attempt) (next : Error → Attempt)
      → Found dva a
      → ((e : Error) → Found dva (next e))
      → Found dva (or_next a next)
  unfolding or_next
  or_next-Found dva (found o) next h k = h
  or_next-Found dva (failed e) next h k = k e

  pub try_children-Found :
      (members : List PoolMember) (dva : Dva) (byte : ℕ) (last : Error) (children : List ℕ)
      → Found dva (try_children v salt r psize lsize members dva byte last children)
  unfolding try_children
  try_children-Found members dva byte last [] = tt
  try_children-Found members dva byte last (mi ∷ rest) =
      elim (Option-cases (get_elem? members mi)) [
        | inl e ↦ rw (e, try_children) (try_children-Found members dva byte last rest)
        | inr (m, e) ↦
            rw (e, try_children)
              (or_next-Found dva (try_member v salt r psize lsize m dva byte) _
                (try_member-Found m dva byte) λ x. try_children-Found members dva byte x rest)
      ]

  abbrev Listed : List Dva → Outcome (List ℕ) → Type 0
  Listed = ListedCopy v salt r psize lsize

  pub or_else-Listed :
      (dva : Dva) (dvas : List Dva) (a : Attempt) (next : Error → Outcome (List ℕ)) (bs : List ℕ)
      → Found dva a
      → ((e : Error) → next e ≡ ok bs → Listed dvas (ok bs))
      → or_else a next ≡ ok bs
      → Listed (dva ∷ dvas) (ok bs)
  unfolding or_else
  or_else-Listed dva dvas (found o) next bs h k e = (
    dva,
    inl refl,
    record { raw = h.raw; whole = h.whole; accepted = h.accepted; decoded = sym e ∙ h.decoded },
  )
  or_else-Listed dva dvas (failed x) next bs h k e = let (d, m, c) = k x e in (d, inr m, c)

  pub try_copies_sound :
      (members : List PoolMember) (children : List ℕ) (last : Error) (dvas : List Dva) (bs : List ℕ)
      → try_copies v salt r psize lsize members children last dvas ≡ ok bs
      → Listed dvas (ok bs)
  unfolding try_copies
  try_copies_sound members children last [] bs h = absurd (cc)
  try_copies_sound members children last (dva ∷ dvas) bs h =
      elim (Option-cases (dva_byte_offset dva.offset)) [
        | inl e ↦
            let (d, m, c) = try_copies_sound members children _ dvas bs (rw (e, try_copies) at h) in
            (d, inr m, c)
        | inr (byte, e) ↦
            or_else-Listed dva dvas
              (try_children v salt r psize lsize members dva byte last children)
              (λ x. try_copies v salt r psize lsize members children x dvas) bs
              (try_children-Found members dva byte last children)
              (λ x. try_copies_sound members children x dvas bs) (rw (e, try_copies) at h)
      ]
