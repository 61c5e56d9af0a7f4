-- ===== src/Walk/Entries.antt =====
-- `fat_entries_raw` of src/walk.rs: exactly which entries of a fat ZAP it gives.
use mathlib.Core.Path.{subst}
use lamzfs.Common.{
  ℕ, zero, suc, ◌+◌, ◌-◌, ◌*◌, ◌/◌, ◌^◌, ◌≤◌, ◌<◌, ◌≡◌, ◌↔◌, ◌⊎◌, ap, sym, ◌∙◌, inl, inr, Option,
  none, some, List, [], ◌++◌, arith, leb, ◌==◌, ==_iff, length, InList, InList-append, Bool-cases,
  true, if◌then◌else◌,
}
use lamzfs.Outcome.{Outcome, ok, refuse_if, ◌>>=◌, >>=-eq-ok, ok-injective}
use lamzfs.Phys.{EndianOrder, Dnode}
use lamzfs.Vendored.{Vendored}
use lamzfs.BlockRead.{PoolMember}
use lamzfs.Vdev.Tree.{Topology}
use lamzfs.File.{read_dnode_block}
use lamzfs.Walk.Leaf.{zap_error, block_type, collect_leaf, leaf_chunk_size}
use lamzfs.Walk.Leaf.Entries.{EntryAt, collect_leaf-InList}
use lamzfs.Walk.{
  zap_leaf_type, zap_leaf_header_size, max_zap_leaf_blocks, trailing_zeros, fat_blocks,
  fat_entries_raw,
}

-- Where the chunks of a leaf begin, and how many there are, at this block size.
abbrev pub first_chunk : ℕ → ℕ
first_chunk dbsz = zap_leaf_header_size + 2 ^ (trailing_zeros 64 dbsz - 5) * 2

abbrev pub chunk_count : ℕ → ℕ
chunk_count dbsz = (dbsz - first_chunk dbsz) / leaf_chunk_size

module _ (v : Vendored) (members : List PoolMember) (topo : Topology) (order : EndianOrder) where
  module _ (chunk_base nchunks : ℕ) where
    -- What one block gives.
    abbrev of_block : List ℕ → Outcome (List (List ℕ × List ℕ))
    of_block bytes =
        if leb 8 (length bytes)
        then (block_type bytes order >>= λ kind.
            if kind == zap_leaf_type then collect_leaf v order bytes chunk_base nchunks else ok [])
        else ok []

    -- The block is a leaf, and one of its entry chunks reads as the entry.
    abbrev pub InLeaf : List ℕ → List ℕ × List ℕ → Type 0
    InLeaf bytes e =
        (8 ≤ length bytes)
        × (block_type bytes order ≡ ok zap_leaf_type)
        × ((ci : ℕ) × (ci < nchunks) × EntryAt v order bytes chunk_base nchunks ci e)

    of_block-InList :
        (bytes : List ℕ) (es : List (List ℕ × List ℕ))
        → of_block bytes ≡ ok es
        → (e : List ℕ × List ℕ) → InList e es ↔ InLeaf bytes e
    of_block-InList bytes es h e = elim (Bool-cases (leb 8 (length bytes))) [
      | inl l ↦
          let (kind, t, h₁) = >>=-eq-ok (block_type bytes order) _ (rw l at h) in
          elim (Bool-cases (kind == zap_leaf_type)) [
            | inl y ↦
                let (to, from) =
                  collect_leaf-InList v order bytes chunk_base nchunks es (rw y at h₁) e in
                let typed : block_type bytes order ≡ ok zap_leaf_type =
                  t ∙ ap ok ((==_iff kind zap_leaf_type).0 y) in
                (λ i. (ground arith, typed, to i), λ (_, _, w). from w)
            | inr n ↦
                let empty = ok-injective (rw n at h₁) in
                (
                  λ i. absurd (subst (InList e) (sym empty) i),
                  λ (_, typed, _).
                      let same : kind ≡ zap_leaf_type = ok-injective (sym t ∙ typed) in
                      let yes : (kind == zap_leaf_type) ≡ true =
                        (==_iff kind zap_leaf_type).1 same in
                      absurd (cc),
                )
          ]
      | inr s ↦
          let empty = ok-injective (rw s at h) in
          (λ i. absurd (subst (InList e) (sym empty) i), λ (long, _, _). absurd (ground arith))
    ]

    module _ (zap : Dnode) where
      -- The block is not a hole.
      abbrev pub IsThere : ℕ → Type 0
      IsThere blkid =
          (bytes : List ℕ) × (read_dnode_block v members topo order zap blkid ≡ ok (some bytes))

      abbrev pub EntryOf : ℕ → List ℕ × List ℕ → Type 0
      EntryOf blkid e =
          (bytes : List ℕ) × (read_dnode_block v members topo order zap blkid ≡ ok (some bytes))
          × InLeaf bytes e

      -- An entry of a block from `blkid` on, with no hole up to that block.
      abbrev pub EntryBefore : ℕ → ℕ → List ℕ × List ℕ → Type 0
      EntryBefore blkid past e =
          (b : ℕ) × (blkid ≤ b)
          × (b < past)
          × ((p : ℕ) → blkid ≤ p → p ≤ b → IsThere p)
          × EntryOf b e

      widen :
          (blkid past past' : ℕ) (e : List ℕ × List ℕ)
          → past ≤ past'
          → IsThere blkid
          → EntryBefore (blkid + 1) past e
          → EntryBefore blkid past' e
      widen blkid past past' e le here (b, low, high, there, of) = (
        b,
        omega arith,
        omega arith,
        λ p l h. elim (Bool-cases (p == blkid)) [
          | inl y ↦ subst IsThere (sym ((==_iff p blkid).0 y)) here
          | inr n ↦ there p (ground arith) h
        ],
        of,
      )

      -- An entry from this block on is of this block or from the next block on.
      split_first :
          (blkid past : ℕ) (e : List ℕ × List ℕ)
          → EntryBefore blkid past e
          → EntryOf blkid e ⊎ EntryBefore (blkid + 1) past e
      split_first blkid past e (b, low, high, there, of) = elim (Bool-cases (b == blkid)) [
        | inl y ↦ inl (subst (λ i. EntryOf i e) ((==_iff b blkid).0 y) of)
        | inr n ↦ inr (b, ground arith, high, λ p l h. there p (omega arith) h, of)
      ]

      block_step :
          (left blkid : ℕ) (es here rest : List (List ℕ × List ℕ)) (bytes : List ℕ)
          (e : List ℕ × List ℕ)
          → read_dnode_block v members topo order zap blkid ≡ ok (some bytes)
          → of_block bytes ≡ ok here
          → here ++ rest ≡ es
          → (InList e rest ↔ EntryBefore (blkid + 1) (blkid + 1 + left) e)
          → InList e es ↔ EntryBefore blkid (blkid + suc left) e
      block_step left blkid es here rest bytes e r h same (to, from) =
          let (to_here, from_here) = of_block-InList bytes here h e in
          let (apart, join) = InList-append e here rest in
          (
            λ i. elim (apart (subst (InList e) (sym same) i)) [
              | inl j ↦ (
                blkid,
                omega arith,
                omega arith,
                λ p l u. let one : blkid ≡ p = omega arith in subst IsThere one (bytes, r),
                (bytes, r, to_here j),
              )
              | inr j ↦
                  widen blkid (blkid + 1 + left) (blkid + suc left) e (omega arith) (bytes, r)
                    (to j)
            ],
            λ w. subst (InList e) same (
                join (elim (split_first blkid (blkid + suc left) e w) [
                  | inl (bytes', r', inside) ↦
                      let one : bytes' ≡ bytes = cc in
                      inl (from_here (subst (λ b. InLeaf b e) one inside))
                  | inr (b, low, high, there, of) ↦ inr (from (b, low, omega arith, there, of))
                ])),
          )

      fat_blocks-InList :
          (left blkid : ℕ) (es : List (List ℕ × List ℕ))
          → fat_blocks v members topo order zap chunk_base nchunks left blkid ≡ ok es
          → (e : List ℕ × List ℕ) → InList e es ↔ EntryBefore blkid (blkid + left) e
      unfolding fat_blocks
      fat_blocks-InList zero blkid es h e =
          let empty = ok-injective h in
          (
            λ i. absurd (subst (InList e) (sym empty) i),
            λ (b, low, high, there, of). absurd (omega arith),
          )
      fat_blocks-InList (suc left) blkid es h e =
          let (block, r, h₁) = >>=-eq-ok (read_dnode_block v members topo order zap blkid) _ h in
          at block r h₁ λ rest f. fat_blocks-InList left (blkid + 1) rest f e
        where
          at :
              (block : Option (List ℕ))
              → read_dnode_block v members topo order zap blkid ≡ ok block
              → (elim block [
                | none ↦ ok []
                | some bytes ↦ of_block bytes >>= λ here.
                    fat_blocks v members topo order zap chunk_base nchunks left (blkid + 1)
                    >>= λ rest. ok (here ++ rest)
              ])
                ≡ ok es
              → ((rest : List (List ℕ × List ℕ))
                  → fat_blocks v members topo order zap chunk_base nchunks left (blkid + 1)
                    ≡ ok rest
                  → InList e rest ↔ EntryBefore (blkid + 1) (blkid + 1 + left) e)
              → InList e es ↔ EntryBefore blkid (blkid + suc left) e
          at none r g again =
              let empty = ok-injective g in
              (
                λ i. absurd (subst (InList e) (sym empty) i),
                λ (b, low, high, there, of).
                    let (bytes, r') = there blkid (omega arith) low in absurd (cc),
              )
          at (some bytes) r g again =
              let (here, o, g₁) = >>=-eq-ok (of_block bytes) _ g in
              let (rest, f, g₂) =
                >>=-eq-ok (fat_blocks v members topo order zap chunk_base nchunks left (blkid + 1))
                  _ g₁ in
              block_step left blkid es here rest bytes e r o (ok-injective g₂) (again rest f)

  -- The entries that are read of a fat ZAP are exactly those of the entry chunks of its leaf blocks
  -- before the first hole: an entry in a leaf behind a hole is not among them.
  pub fat_entries_raw-InList :
      (zap : Dnode) (dbsz : ℕ) (es : List (List ℕ × List ℕ))
      → fat_entries_raw v members topo order zap dbsz ≡ ok es
      → (e : List ℕ × List ℕ)
      → InList e es ↔ EntryBefore (first_chunk dbsz) (chunk_count dbsz) zap 1 max_zap_leaf_blocks e
  unfolding fat_entries_raw
  fat_entries_raw-InList zap dbsz es h e =
      let (_, _, h₁) =
        >>=-eq-ok (refuse_if (leb dbsz (first_chunk dbsz)) (zap_error "zap_leaf_geom")) _ h in
      fat_blocks-InList (first_chunk dbsz) (chunk_count dbsz) zap (max_zap_leaf_blocks - 1) 1 es h₁
        e
