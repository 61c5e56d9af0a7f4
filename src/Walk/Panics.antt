-- ===== src/Walk/Panics.antt =====
-- The entries of a ZAP in src/walk.rs: exactly when reading them panics.
use lamzfs.Common.{
  ℕ, ◌+◌, ◌*◌, ◌<◌, ◌≡◌, ◌↔◌, refl, inl, inr, some, true, false, List, arith, leb, ◌==◌, length,
  Bool-cases, Option-cases, ◌⊎◌,
}
use lamzfs.Outcome.{ok, err, panic, refuse_if, ne-panic, Outcome-cases, >>=-of-ok}
use lamzfs.Phys.{EndianOrder, Dnode}
use lamzfs.Vendored.{Vendored}
use lamzfs.BlockRead.{PoolMember}
use lamzfs.Vdev.Tree.{Topology}
use lamzfs.File.{read_dnode_block}
use lamzfs.Walk.{zap_entries}
use lamzfs.Walk.Leaf.{zap_error, block_type}
use lamzfs.Walk.Typed.{HasType, zap_entries-NoPanic}

module _ (v : Vendored) (members : List PoolMember) (topo : Topology) (order : EndianOrder) where
  -- The first block is there and too short.
  abbrev pub IsShort : Dnode → Type 0
  IsShort zap =
      (block : List ℕ) × (read_dnode_block v members topo order zap 0 ≡ ok (some block))
      × (length block < 8)

  HasType-or-IsShort : (zap : Dnode) → HasType v members topo order zap ⊎ IsShort zap
  HasType-or-IsShort zap = elim (Outcome-cases (read_dnode_block v members topo order zap 0)) [
    | inl (found, e) ↦ elim (Option-cases found) [
      | inl n ↦ inl (λ block h. absurd (cc))
      | inr (b, s) ↦ elim (Bool-cases (leb 8 (length b))) [
        | inl l ↦ inl (λ block h. let same : b ≡ block = cc in rw (← same) (ground arith))
        | inr l ↦ inr (b, cc, ground arith)
      ]
    ]
    | inr (inl (x, e)) ↦ inl (λ block h. absurd (cc))
    | inr (inr e) ↦ inl (λ block h. absurd (cc))
  ]

  zap_entries-dbsz0 :
      (zap : Dnode)
      → zap.data_block_size_sectors ≡ 0
      → zap_entries v members topo order zap ≡ err (zap_error "zap_dbsz0")
  unfolding zap_entries
  zap_entries-dbsz0 zap z =
      let e : (zap.data_block_size_sectors * 512 == 0) ≡ true = ground arith in rw e refl

  zap_entries-short :
      (zap : Dnode)
      → 0 < zap.data_block_size_sectors
      → IsShort zap
      → zap_entries v members topo order zap ≡ panic
  unfolding zap_entries block_type
  zap_entries-short zap pos (block, e, short) =
      let sized : (zap.data_block_size_sectors * 512 == 0) ≡ false = ground arith in
      let cut : leb (0 + 8) (length block) ≡ false = ground arith in
      >>=-of-ok (refuse_if (zap.data_block_size_sectors * 512 == 0) (zap_error "zap_dbsz0")) _
        (rw sized refl) (>>=-of-ok (read_dnode_block v members topo order zap 0) _ e (rw cut refl))

  -- Reading the entries of a ZAP panics exactly if the ZAP has a block size and its first block reads
  -- with fewer than eight bytes, whatever the devices and the decoders give.
  pub zap_entries-panic_iff :
      (zap : Dnode)
      → (zap_entries v members topo order zap ≡ panic)
        ↔ ((0 < zap.data_block_size_sectors) × IsShort zap)
  zap_entries-panic_iff zap = (
    λ p. elim (HasType-or-IsShort zap) [
      | inl long ↦ absurd (ne-panic _ (zap_entries-NoPanic v members topo order zap long) p)
      | inr short ↦ (sized p (zap_entries-dbsz0 zap), short)
    ],
    λ (pos, short). zap_entries-short zap pos short,
  )
    where
      sized :
          zap_entries v members topo order zap ≡ panic
          → (zap.data_block_size_sectors ≡ 0
              → zap_entries v members topo order zap ≡ err (zap_error "zap_dbsz0"))
          → 0 < zap.data_block_size_sectors
      sized p z = elim (Bool-cases (zap.data_block_size_sectors == 0)) [
        | inl e ↦ let f = z (ground arith) in absurd (cc)
        | inr e ↦ ground arith
      ]
