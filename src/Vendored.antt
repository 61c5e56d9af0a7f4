-- ===== src/Vendored.antt =====
-- What the reader calls and does not implement: the vendored rzfs decoders (src/phys,
-- src/checksum, src/compression) and the third-party crates. `none` is the callee's `Err`.
use lamzfs.Common.{ℕ, Option, List, Bool}
use lamzfs.Phys.{
  EndianOrder, BlockPointer, Dnode, UberBlock, ZapLeafChunkEntry, ZapLeafChunkData, DslDirectory,
  DslDataSet, NvList,
}

-- The Cargo features.
pub record Features : Type 0 where
  pub lz4 : Bool
  pub gzip : Bool
  pub zstd : Bool
  pub sha512 : Bool
  pub blake3 : Bool

-- A zstd stream decoder: `read_exact n` gives the next `n` bytes, and then how many bytes a further
-- `read` into a one-byte buffer returns.
pub record ZstdDecoder : Type 0 where
  pub read_exact : ℕ → Option (List ℕ × Option ℕ)

pub record Vendored : Type 0 where
  pub features : Features
  -- A decompressor into a buffer of the given size: the bytes written, and their count.
  pub lzjb_decompress : List ℕ → ℕ → Option (List ℕ)
  pub lz4_decompress_into : List ℕ → ℕ → Option (ℕ × List ℕ)
  pub zlib_inflate : List ℕ → ℕ → Option (ℕ × List ℕ)
  pub zstd_decoder : List ℕ → Option ZstdDecoder
  -- Whether `Sha256::new(Generic)` succeeds.
  pub sha256_available : Bool
  -- The scalar checksums give four words; the digests give bytes.
  pub fletcher2_hash : List ℕ → EndianOrder → Option (List ℕ)
  pub fletcher4_hash : List ℕ → EndianOrder → Option (List ℕ)
  pub sha256_hash : List ℕ → EndianOrder → Option (List ℕ)
  pub sha512_256_digest : List ℕ → List ℕ
  pub blake3_keyed_hash : List ℕ → List ℕ → List ℕ
  -- The decoders of `src/phys`, each on a slice in a byte order. `some none` is an empty slot.
  pub block_pointer_decode : EndianOrder → List ℕ → Option (Option BlockPointer)
  pub dnode_decode : EndianOrder → List ℕ → Option (Option Dnode)
  pub object_set_decode : EndianOrder → List ℕ → Option Dnode
  pub dsl_directory_decode : EndianOrder → List ℕ → Option DslDirectory
  pub dsl_data_set_decode : EndianOrder → List ℕ → Option DslDataSet
  -- The micro-ZAP iterator's items, each a name with its value or an error.
  pub zap_micro_decode : EndianOrder → List ℕ → Option (List (Option (List ℕ × ℕ)))
  pub zap_leaf_entry_decode : EndianOrder → List ℕ → Option ZapLeafChunkEntry
  pub zap_leaf_data_decode : EndianOrder → List ℕ → Option ZapLeafChunkData
  -- The label's payload if its checksum, seeded with the sector, verifies.
  pub label_nv_pairs_decode : List ℕ → ℕ → Option (List ℕ)
  pub nv_list_decode : List ℕ → Option NvList
  pub uber_block_decode : List ℕ → ℕ → Option (Option UberBlock)
