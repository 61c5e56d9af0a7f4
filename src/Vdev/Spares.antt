-- ===== src/Vdev/Spares.antt =====
-- The block reads of src/vdev.rs on a mirror whose children may fail any of their reads, beside those
-- on one disk that fails none.
pub mod Children
use lamzfs.Common.{
  ℕ, ◌*◌, ◌≡◌, refl, ap, ◌∙◌, ◌⊎◌, inl, inr, Option, none, some, List, [], ◌∷◌, ltb, ◌==◌, ◌||◌,
  get_elem?, InList, All, Option-cases,
}
use lamzfs.Error.{Error, io, inconsistent, mos}
use lamzfs.Compress.{max_block_lsize}
use lamzfs.Outcome.{Outcome, ok, err, panic, refuse_if}
use lamzfs.Outcome.Alike.{IsFault, MayFault, Alike, Alike-then}
use lamzfs.Phys.{Dva, BlockPointer, embedded, encrypted, regular, BlockPointerRegular}
use lamzfs.Vendored.{Vendored}
use lamzfs.BlockRead.{PoolMember, read_exact, fill}
use lamzfs.Cksum.Faults.{verify_block-MayFault}
use lamzfs.Vdev.{
  check_dvas, judged, checked, try_member, try_children, try_copies, read_embedded, read_copies,
  read_regular, read_block_pointer, no_readable_copy,
}
use lamzfs.Vdev.Tree.{
  single, mirror, flatten, dva_byte_offset, Attempt, found, failed, or_next, or_else,
}
use Children.{
  FailsOrGives, IsWhole, FailsByFault, Follows, or_next-failed, attempt, attempt-FailsByFault,
  children-Follows,
}

module _ (v : Vendored) (salt : Option (List ℕ)) (r : BlockPointerRegular) (psize lsize : ℕ) where
  disk_alone :
      (disk : PoolMember) (dva : Dva) (byte : ℕ) (last : Error)
      → try_children v salt r psize lsize (disk ∷ []) dva byte last (0 ∷ [])
        ≡ attempt v salt r psize lsize disk dva byte
  unfolding try_children
  disk_alone disk dva byte last = or_next-failed (attempt v salt r psize lsize disk dva byte)

  or_else-Alike :
      (a t : Attempt) (next next' : Error → Outcome (List ℕ))
      → Follows a t
      → FailsByFault t
      → ((e e' : Error) → IsFault e → IsFault e' → Alike (next e) (next' e'))
      → Alike (or_else a next) (or_else t next')
  unfolding or_else
  or_else-Alike a (found o) next next' f g h = rw (f, or_else) (inl refl)
  or_else-Alike a (failed e) next next' (e', f, l) g h = rw (f, or_else) (h e' e l g)

  try_copies-Alike :
      (members : List PoolMember) (disk : PoolMember) (children : List ℕ) (child : ℕ)
      → All (FailsOrGives members disk) children
      → InList child children
      → IsWhole members disk child
      → (dvas : List Dva) (last last' : Error) → IsFault last
      → IsFault last'
      → Alike
          (try_copies v salt r psize lsize members children last dvas)
          (try_copies v salt r psize lsize (disk ∷ []) (0 ∷ []) last' dvas)
  unfolding try_copies
  try_copies-Alike members disk children child f i w [] last last' l l' = inr (l, l')
  try_copies-Alike members disk children child f i w (dva ∷ dvas) last last' l l' =
      elim (Option-cases (dva_byte_offset dva.offset)) [
        | inl q ↦
            rw (q, try_copies) (try_copies-Alike members disk children child f i w dvas _ _ tt tt)
        | inr (byte, q) ↦
            rw (q, try_copies)
              (rw (disk_alone disk dva byte last') (
                or_else-Alike (try_children v salt r psize lsize members dva byte last children)
                  (attempt v salt r psize lsize disk dva byte) _ _
                  (children-Follows v salt r psize lsize members disk dva byte children last child l
                    f i w)
                  (attempt-FailsByFault v salt r psize lsize disk dva byte)
                  λ e e' g g'. try_copies-Alike members disk children child f i w dvas e e' g g'))
      ]

-- A mirror that may fail any read, with one child whole, reads each block as the whole disk alone
-- does, or both fail.
pub mirror-Alike :
    (v : Vendored) (members : List PoolMember) (disk : PoolMember) (children : List ℕ) (child : ℕ)
    (salt : Option (List ℕ))
    → All (FailsOrGives members disk) children
    → InList child children
    → IsWhole members disk child
    → (bp : BlockPointer)
    → Alike
        (read_block_pointer v members
          (record { layout = mirror children; checksum_salt = salt })
          bp)
        (read_block_pointer v (disk ∷ []) (record { layout = single 0; checksum_salt = salt }) bp)
unfolding read_block_pointer read_embedded read_regular read_copies
mirror-Alike v members disk children child salt f i w (embedded e) = inl refl
mirror-Alike v members disk children child salt f i w (encrypted order) = inl refl
mirror-Alike v members disk children child salt f i w (regular r) =
    Alike-then
      (refuse_if (r.physical_sectors * 512 == 0 || ltb max_block_lsize (r.physical_sectors * 512))
        (inconsistent "bp_bad_psize" mos))
      _ _
      λ _. Alike-then (check_dvas (flatten r.dvas)) _ _ λ _.
        try_copies-Alike v salt r (r.physical_sectors * 512) (r.logical_sectors * 512) members disk
          children child f i w (flatten r.dvas) no_readable_copy no_readable_copy tt tt
