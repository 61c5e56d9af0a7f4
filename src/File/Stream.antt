-- ===== src/File/Stream.antt =====
-- Ranges of src/file.rs that follow one another.
use lamzfs.Common.{
  ℕ, ◌+◌, ◌-◌, ◌*◌, ◌^◌, ◌≤◌, ◌<◌, ◌≡◌, ap, sym, ◌∙◌, Option, List, ◌++◌, arith, ltb, length,
  get_elem?, length-append, get_elem?_ext, get_elem?-in_range, get_elem?-append_left,
  get_elem?-append_right, Bool-cases, inl, inr,
}
use lamzfs.Outcome.{ok}
use lamzfs.Phys.{EndianOrder, Dnode}
use lamzfs.Vendored.{Vendored}
use lamzfs.BlockRead.{PoolMember}
use lamzfs.Vdev.Tree.{Topology}
use lamzfs.File.{read_dnode_range}
use lamzfs.File.Range.{logical_byte, read_dnode_range-bytes, read_dnode_range-block_size}
use lamzfs.File.Total.{HasBytes, read_dnode_range-total}

-- An element behind the first list.
get_elem?-append_past :
    (xs ys : List ℕ) (n k : ℕ)
    → length xs ≡ n
    → n ≤ k
    → get_elem? (xs ++ ys) k ≡ get_elem? ys (k - n)
get_elem?-append_past xs ys n k l h =
    let split : k ≡ length xs + (k - n) = omega arith in
    ap (get_elem? (xs ++ ys)) split ∙ get_elem?-append_right xs ys (k - n)

module _ (v : Vendored) (members : List PoolMember) (topo : Topology) (order : EndianOrder)
    (dnode : Dnode) where
  abbrev byte : ℕ → Option ℕ
  byte pos = logical_byte v members topo order dnode (dnode.data_block_size_sectors * 512) pos

  -- Two ranges that were read, one behind the other, can be read at once, and give the bytes of both.
  pub read_dnode_range-append :
      (off m n : ℕ) (xs ys : List ℕ)
      → off + (m + n) ≤ 2 ^ 64
      → read_dnode_range v members topo order dnode off m ≡ ok xs
      → read_dnode_range v members topo order dnode (off + m) n ≡ ok ys
      → read_dnode_range v members topo order dnode off (m + n) ≡ ok (xs ++ ys)
  read_dnode_range-append off m n xs ys fits h g =
      let (pos, _) = read_dnode_range-block_size v members topo order dnode off m h in
      let (lx, bx) = read_dnode_range-bytes v members topo order dnode off m xs h in
      let (ly, by) = read_dnode_range-bytes v members topo order dnode (off + m) n ys g in
      let whole : (k : ℕ) → k < m + n → get_elem? (xs ++ ys) k ≡ byte (off + k) = λ k below.
        elim (Bool-cases (ltb k m)) [
          | inl e ↦ get_elem?-append_left xs ys k (ground (arith, lx)) ∙ bx k (ground arith)
          | inr e ↦
              let at : off + m + (k - m) ≡ off + k = ground arith in
              get_elem?-append_past xs ys m k lx (ground arith)
              ∙ by (k - m) (ground arith)
              ∙ ap byte at
        ] in
      let len = length-append xs ys in
      let has : HasBytes v members topo order dnode (dnode.data_block_size_sectors * 512) off
          (off + (m + n)) =
        λ p low high.
          let (b, e) = get_elem?-in_range (xs ++ ys) (p - off) (omega arith) in
          let back : off + (p - off) ≡ p = omega arith in
          (b, ap byte (sym back) ∙ sym (whole (p - off) (omega arith)) ∙ e) in
      let (bs, r) = read_dnode_range-total v members topo order dnode off (m + n) pos fits has in
      let (l, b) = read_dnode_range-bytes v members topo order dnode off (m + n) bs r in
      let same : bs ≡ xs ++ ys =
        get_elem?_ext bs (xs ++ ys) (omega arith)
          (λ k below. b k (omega arith) ∙ sym (whole k (omega arith))) in
      r ∙ ap ok same
