-- ===== src/File/Total.antt =====
-- `read_dnode_range` of src/file.rs returns whenever the bytes are there, and the reads of parts of a
-- range agree with the read of the whole.
use native.Mathlib.Nat.{mod-lt}
use lamzfs.Common.{
  ℕ, zero, suc, ◌+◌, ◌-◌, ◌*◌, ◌/◌, ◌%◌, ◌^◌, ◌≤◌, ◌<◌, ◌≡◌, refl, ap, sym, ◌∙◌, min, Option, none,
  some, true, false, List, [], ◌++◌, arith, ltb, leb, ◌==◌, length, take, drop, replicate,
  checked_add, get_elem?_bound, get_elem?-in_range, get_elem?_ext, get_elem?-take, get_elem?-drop,
  length-take, length-drop, Bool-cases, inl, inr,
}
use lamzfs.Outcome.{Outcome, ok, err, panic}
use lamzfs.Phys.{EndianOrder, Dnode}
use lamzfs.Vendored.{Vendored}
use lamzfs.BlockRead.{PoolMember}
use lamzfs.Vdev.Tree.{Topology}
use lamzfs.File.{read_dnode_block, block_piece, range_loop, read_dnode_range}
use lamzfs.File.Range.{
  byte_of, logical_byte, logical_byte_within, read_dnode_range-bytes, read_dnode_range-block_size,
}

byte_of-some :
    (o : Outcome (Option (List ℕ))) (i : ℕ) {b : ℕ}
    → byte_of o i ≡ some b
    → (block : Option (List ℕ)) × (o ≡ ok block)
byte_of-some (ok block) i h = (block, refl)
byte_of-some (err e) i h = absurd (cc)
byte_of-some panic i h = absurd (cc)

module _ (v : Vendored) (members : List PoolMember) (topo : Topology) (order : EndianOrder)
    (dnode : Dnode) where
  -- Each position has a byte.
  abbrev pub HasBytes : ℕ → ℕ → ℕ → Type 0
  HasBytes dbsz first past =
      (pos : ℕ)
      → first ≤ pos
      → pos < past
      → (b : ℕ) × (logical_byte v members topo order dnode dbsz pos ≡ some b)

  block_piece-total :
      (block : Option (List ℕ)) (within want : ℕ) {b : ℕ}
      → 0 < want
      → byte_of (ok block) (within + (want - 1)) ≡ some b
      → (piece : List ℕ) × (block_piece v members topo order block within want ≡ ok piece)
  unfolding block_piece
  block_piece-total none within want pos h = (replicate want 0, refl)
  block_piece-total (some block) within want pos h =
      let fits : leb (within + want) (length block) ≡ true =
        ground (arith, get_elem?_bound block (within + (want - 1)) h) in
      (take want (drop within block), rw fits refl)

  range_loop-total :
      (dbsz off len : ℕ)
      → 0 < dbsz
      → off + len ≤ 2 ^ 64
      → HasBytes dbsz off (off + len)
      → (fuel filled : ℕ) → len - filled < fuel
      → (bs : List ℕ) × (range_loop v members topo order dnode dbsz off len fuel filled ≡ ok bs)
  unfolding range_loop
  range_loop-total dbsz off len pos fits h zero filled l = absurd (omega arith)
  range_loop-total dbsz off len pos fits h (suc fuel) filled l =
      elim (Bool-cases (ltb filled len)) [
        | inr e ↦ ([], rw (e, range_loop) refl)
        | inl e ↦
            let p = off + filled in
            let want = min (dbsz - p % dbsz) (len - filled) in
            let below = mod-lt p pos in
            let added : checked_add off filled ≡ some (off + filled) = ground arith in
            let (b, here) = h p (omega arith) (ground arith) in
            let (block, eb) =
              byte_of-some (read_dnode_block v members topo order dnode (p / dbsz)) (p % dbsz)
                here in
            let (c, there) = h (p + (want - 1)) (omega arith) (ground arith) in
            let (piece, ec) = block_piece-total block (p % dbsz) want (ground arith) (
              logical_byte_within v members topo order dnode dbsz p (want - 1) pos (ground arith) eb
              ∙ there) in
            let (rest, er) =
              range_loop-total dbsz off len pos fits h fuel (filled + want) (ground arith) in
            (piece ++ rest, rw (e, added, range_loop) (rw (eb, ec, er, range_loop) refl))
      ]

  -- Where the block size is not zero, the range stays below 2^64 and each of its positions has a
  -- byte, the read returns.
  pub read_dnode_range-total :
      (off len : ℕ)
      → 0 < dnode.data_block_size_sectors
      → off + len ≤ 2 ^ 64
      → HasBytes (dnode.data_block_size_sectors * 512) off (off + len)
      → (bs : List ℕ) × (read_dnode_range v members topo order dnode off len ≡ ok bs)
  unfolding read_dnode_range
  read_dnode_range-total off len pos fits h =
      let nonzero : (dnode.data_block_size_sectors * 512 == 0) ≡ false = ground arith in
      let (bs, e) =
        range_loop-total (dnode.data_block_size_sectors * 512) off len (omega arith) fits h
          (len + 1) 0 (omega arith) in
      (bs, rw (nonzero, read_dnode_range) e)

  -- A part of a range that was read can be read by itself, and gives the same bytes.
  pub read_dnode_range-slice :
      (off len a n : ℕ) (bs : List ℕ)
      → off + len ≤ 2 ^ 64
      → a + n ≤ len
      → read_dnode_range v members topo order dnode off len ≡ ok bs
      → read_dnode_range v members topo order dnode (off + a) n ≡ ok (take n (drop a bs))
  read_dnode_range-slice off len a n bs fits inside h =
      let dbsz = dnode.data_block_size_sectors * 512 in
      let (pos, _) = read_dnode_range-block_size v members topo order dnode off len h in
      let (l, whole) = read_dnode_range-bytes v members topo order dnode off len bs h in
      let has : HasBytes dbsz (off + a) (off + a + n) = λ p low high.
        let (b, e) = get_elem?-in_range bs (p - off) (omega arith) in
        let back : off + (p - off) ≡ p = omega arith in
        (
          b,
          ap (logical_byte v members topo order dnode dbsz) (sym back)
              ∙ sym (whole (p - off) (omega arith))
              ∙ e,
        ) in
      let (part, r) = read_dnode_range-total (off + a) n pos (omega arith) has in
      let (m, bytes) = read_dnode_range-bytes v members topo order dnode (off + a) n part r in
      let same : part ≡ take n (drop a bs) =
        get_elem?_ext part (take n (drop a bs))
          (omega (arith, length-take n (drop a bs), length-drop a bs))
          (λ k below.
            let assoc : off + a + k ≡ off + (a + k) = omega arith in
            bytes k (omega arith)
            ∙ ap (logical_byte v members topo order dnode dbsz) assoc
            ∙ sym (whole (a + k) (omega arith))
            ∙ sym (get_elem?-drop a k bs)
            ∙ sym (get_elem?-take n k (drop a bs) (omega arith))) in
      r ∙ ap ok same
