-- ===== src/Vdev/Spares/Children.antt =====
-- One copy of a block in src/vdev.rs, on the children of a mirror and on one disk.
use lamzfs.Common.{
  ℕ, ◌≡◌, refl, ap, ◌∙◌, ◌⊎◌, inl, inr, Option, none, some, List, [], ◌∷◌, get_elem?, InList, All,
  Option-cases,
}
use lamzfs.Error.{Error, io}
use lamzfs.Outcome.{Outcome, ok, err, panic}
use lamzfs.Outcome.Alike.{IsFault, MayFault}
use lamzfs.Phys.{Dva, BlockPointerRegular}
use lamzfs.Vendored.{Vendored}
use lamzfs.BlockRead.{PoolMember, read_exact, fill}
use lamzfs.Cksum.Faults.{verify_block-MayFault}
use lamzfs.Vdev.{judged, checked, try_member, try_children}
use lamzfs.Vdev.Tree.{Attempt, found, failed, or_next}

-- A member that is listed fails each read or gives what the disk gives.
abbrev pub FailsOrGives : List PoolMember → PoolMember → ℕ → Type 0
FailsOrGives members disk child =
    (member : PoolMember)
    → get_elem? members child ≡ some member
    → (off len : ℕ) → (member.reader off len ≡ none) ⊎ (member.reader off len ≡ disk.reader off len)

-- A member that is listed and fails no read that the disk does not.
abbrev pub IsWhole : List PoolMember → PoolMember → ℕ → Type 0
IsWhole members disk child =
    (member : PoolMember) × (get_elem? members child ≡ some member)
    × ((off len : ℕ) → member.reader off len ≡ disk.reader off len)

-- An attempt that returns, or fails with a fault.
abbrev pub FailsByFault : Attempt → Type 0
FailsByFault (found o) = Unit
FailsByFault (failed e) = IsFault e

-- The attempt of the mirror beside that of the disk.
abbrev pub Follows : Attempt → Attempt → Type 0
Follows a (found o) = a ≡ found o
Follows a (failed e) = (e' : Error) × (a ≡ failed e') × IsFault e'

pub or_next-failed : (a : Attempt) → or_next a failed ≡ a
unfolding or_next
or_next-failed (found o) = refl
or_next-failed (failed e) = refl

module _ (v : Vendored) (salt : Option (List ℕ)) (r : BlockPointerRegular) (psize lsize : ℕ) where
  judged-FailsByFault :
      (raw : List ℕ) (o : Outcome (Unit {0}))
      → MayFault o
      → FailsByFault (judged v salt r psize lsize raw o)
  unfolding judged
  judged-FailsByFault raw (ok _) h = tt
  judged-FailsByFault raw (err e) h = h
  judged-FailsByFault raw panic h = absurd h

  checked-FailsByFault :
      (dva : Dva) (byte : ℕ) (o : Outcome (List ℕ))
      → FailsByFault (checked v salt r psize lsize dva byte o)
  unfolding checked
  checked-FailsByFault dva byte (ok raw) = judged-FailsByFault raw _ (
      verify_block-MayFault v r.checksum_type r.order raw r.checksum_value salt dva.vdev dva.offset)
  checked-FailsByFault dva byte (err e) = tt
  checked-FailsByFault dva byte panic = tt

  -- What one child gives.
  abbrev pub attempt : PoolMember → Dva → ℕ → Attempt
  attempt member dva byte = try_member v salt r psize lsize member dva byte

  pub attempt-FailsByFault :
      (member : PoolMember) (dva : Dva) (byte : ℕ) → FailsByFault (attempt member dva byte)
  unfolding try_member
  attempt-FailsByFault member dva byte =
      checked-FailsByFault dva byte (read_exact member byte psize dva.vdev "io_block")

  attempt-fails :
      (member : PoolMember) (dva : Dva) (byte : ℕ)
      → member.reader byte psize ≡ none
      → attempt member dva byte ≡ failed (io "io_block" dva.vdev byte)
  unfolding try_member read_exact checked
  attempt-fails member dva byte h = rw (h, checked) refl

  attempt-same :
      (member disk : PoolMember) (dva : Dva) (byte : ℕ)
      → member.reader byte psize ≡ disk.reader byte psize
      → attempt member dva byte ≡ attempt disk dva byte
  unfolding try_member read_exact checked
  attempt-same member disk dva byte h =
      ap
        (λ (x : Option (List ℕ)).
          checked v salt r psize lsize dva byte
            (elim x [ none ↦ err (io "io_block" dva.vdev byte) | some bs ↦ ok (fill psize bs) ]))
        h

  module _ (members : List PoolMember) (disk : PoolMember) (dva : Dva) (byte : ℕ) where
    abbrev children_give : Error → List ℕ → Attempt
    children_give last children = try_children v salt r psize lsize members dva byte last children

    -- Where the disk's copy is good, each child that is reached gives it or goes on.
    follow_found :
        (o : Outcome (List ℕ)) (children : List ℕ) (last : Error) (child : ℕ)
        → attempt disk dva byte ≡ found o
        → All (FailsOrGives members disk) children
        → InList child children
        → IsWhole members disk child
        → children_give last children ≡ found o
    unfolding try_children or_next
    follow_found o [] last child t f i w = absurd i
    follow_found o (c ∷ rest) last child t (f, fs) (inl p) (member, at, whole) =
        let here : get_elem? members c ≡ some member = rw (← p) at in
        rw (here, try_children)
          (rw (attempt-same member disk dva byte (whole byte psize) ∙ t, or_next) refl)
    follow_found o (c ∷ rest) last child t (f, fs) (inr i) w =
        elim (Option-cases (get_elem? members c)) [
          | inl q ↦ rw (q, try_children) (follow_found o rest last child t fs i w)
          | inr (member, q) ↦ elim (f member q byte psize) [
            | inl lost ↦
                rw (q, try_children)
                  (rw (attempt-fails member dva byte lost, or_next)
                    (follow_found o rest (io "io_block" dva.vdev byte) child t fs i w))
            | inr same ↦
                rw (q, try_children) (rw (attempt-same member disk dva byte same ∙ t, or_next) refl)
          ]
        ]

    -- Where it is not, no child has it.
    follow_failed :
        (e : Error) (children : List ℕ) (last : Error)
        → attempt disk dva byte ≡ failed e
        → IsFault e
        → IsFault last
        → All (FailsOrGives members disk) children
        → Follows (children_give last children) (failed e)
    unfolding try_children or_next
    follow_failed e [] last t g l f = (last, refl, l)
    follow_failed e (c ∷ rest) last t g l (f, fs) = elim (Option-cases (get_elem? members c)) [
      | inl q ↦ rw (q, try_children) (follow_failed e rest last t g l fs)
      | inr (member, q) ↦ elim (f member q byte psize) [
        | inl lost ↦
            rw (q, try_children)
              (rw (attempt-fails member dva byte lost, or_next)
                (follow_failed e rest (io "io_block" dva.vdev byte) t g tt fs))
        | inr same ↦
            rw (q, try_children)
              (rw (attempt-same member disk dva byte same ∙ t, or_next)
                (follow_failed e rest e t g g fs))
      ]
    ]

    pub children-Follows :
        (children : List ℕ) (last : Error) (child : ℕ)
        → IsFault last
        → All (FailsOrGives members disk) children
        → InList child children
        → IsWhole members disk child
        → Follows (children_give last children) (attempt disk dva byte)
    children-Follows children last child l f i w =
        at (attempt disk dva byte) refl (attempt-FailsByFault disk dva byte)
      where
        at :
            (t : Attempt)
            → attempt disk dva byte ≡ t
            → FailsByFault t
            → Follows (children_give last children) t
        at (found o) e g = follow_found o children last child e f i w
        at (failed x) e g = follow_failed x children last e g l f
