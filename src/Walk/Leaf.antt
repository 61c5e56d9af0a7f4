-- ===== src/Walk/Leaf.antt =====
-- The leaf blocks of a fat ZAP in src/walk.rs: entry chunks, and the chains of array chunks that
-- hold their names and values.
pub mod Safe
pub mod Entries
use lamzfs.Common.{
  ℕ, zero, suc, ◌+◌, ◌-◌, ◌*◌, min, String, Option, none, some, List, [], ◌∷◌, ◌++◌, ◌||◌, ltb, leb,
  ◌==◌, if◌then◌else◌, length, take, get_elem?, get_range,
}
use lamzfs.Common.Bytes.{utf8_lossy}
use lamzfs.Error.{Error, Location, inconsistent}
use lamzfs.Outcome.{Outcome, ok, err, panic, ok_or, or_panic, ◌>>=◌}
use lamzfs.Phys.{EndianOrder}
use lamzfs.Vendored.{Vendored}
use lamzfs.Cksum.{from_bytes}

abbrev pub leaf_chunk_size : ℕ
leaf_chunk_size = 24

-- `ZapLeafChunkData::ZAP_LEAF_DATA_SIZE` and `ZapLeafChunkEntry::CHUNK_TYPE`.
abbrev pub zap_leaf_data_size : ℕ
zap_leaf_data_size = 21

abbrev pub entry_chunk_type : ℕ
entry_chunk_type = 252

abbrev pub zap_error : String → Error
zap_error token = inconsistent token (Location.zap 0)

-- The first eight bytes of a block; a shorter block panics.
unfoldable pub block_type : List ℕ → EndianOrder → Outcome ℕ
unfolding from_bytes
block_type block order = do bytes ← or_panic (get_range block 0 8); ok (from_bytes order bytes)

-- The bytes up to the first zero.
unfoldable pub until_zero : List ℕ → List ℕ
until_zero [] = []
until_zero (b ∷ bs) = if b == 0 then [] else b ∷ until_zero bs

module _ (v : Vendored) (order : EndianOrder) (block : List ℕ) (chunk_base nchunks : ℕ) where
  -- The `while out.len() < length` loop at the chunk `next`, with `guard` chunks behind it and
  -- `got` bytes in `out`: the bytes still to come. Out of fuel it panics, which the source cannot
  -- do: `guard` bounds the rounds.
  unfoldable pub follow_chunks : ℕ → Option ℕ → ℕ → ℕ → ℕ → Outcome (List ℕ)
  follow_chunks zero next guard length got = panic
  follow_chunks (suc fuel) none guard length got = ok []
  follow_chunks (suc fuel) (some idx) guard length got =
      let round : Outcome (List ℕ) = (do
        chunk ←
            ok_or (get_range block (chunk_base + idx * leaf_chunk_size) leaf_chunk_size)
              (zap_error "zap_array_chunk")
        item ← ok_or (v.zap_leaf_data_decode order chunk) (zap_error "zap_array_chunk")
        let piece = take (min (length - got) zap_leaf_data_size) item.bytes
        rest ←
            follow_chunks fuel item.next (guard + 1) length
              (got + min (length - got) zap_leaf_data_size)
        ok (piece ++ rest)) in
      if ltb got length
      then (if leb nchunks idx || ltb nchunks guard
          then err (zap_error "zap_array_chunk")
          else round)
      else ok []

  unfoldable pub collect_chunks : ℕ → ℕ → Outcome (List ℕ)
  unfolding follow_chunks
  collect_chunks start length = follow_chunks (nchunks + 2) (some start) 0 length 0

  -- One entry chunk: its name up to the first zero byte, and its value's bytes.
  unfoldable pub leaf_entry : List ℕ → Outcome (List ℕ × List ℕ)
  unfolding collect_chunks until_zero
  leaf_entry chunk = do
    entry ← ok_or (v.zap_leaf_entry_decode order chunk) (zap_error "zap_leaf_chunk")
    name_bytes ← collect_chunks entry.name_chunk entry.name_length
    let name = utf8_lossy (until_zero name_bytes)
    value_bytes ← collect_chunks entry.value_chunk (entry.value_int_size * entry.value_length)
    ok (name, value_bytes)

  -- `for ci in ci..ci + left`: what the loop pushes into `out`.
  unfoldable pub leaf_chunks : ℕ → ℕ → Outcome (List (List ℕ × List ℕ))
  unfolding leaf_entry
  leaf_chunks zero ci = ok []
  leaf_chunks (suc left) ci = do
    chunk ←
        ok_or (get_range block (chunk_base + ci * leaf_chunk_size) leaf_chunk_size)
          (zap_error "zap_leaf_chunk")
    kind ← or_panic (get_elem? chunk 0)
    let rest = leaf_chunks left (ci + 1)
    let with_entry : Outcome (List (List ℕ × List ℕ)) = (do
      entry ← leaf_entry chunk
      more ← rest
      ok (entry ∷ more))
    if kind == entry_chunk_type then with_entry else rest

  unfoldable pub collect_leaf : Outcome (List (List ℕ × List ℕ))
  unfolding leaf_chunks
  collect_leaf = leaf_chunks nchunks 0
