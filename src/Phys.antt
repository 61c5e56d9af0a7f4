-- ===== src/Phys.antt =====
-- The on-disk types of src/phys that the pool reader's own code takes apart: their decoders are
-- vendored, and each record has the fields that the reader's own code reads.
use lamzfs.Common.{ℕ, Option, List, Bool, ◌&&◌, ◌||◌, ltb, ◌==◌}

pub data EndianOrder : Type 0 where
  big little : EndianOrder

pub data CompressionType : Type 0 where
  inherit on off lzjb empty : CompressionType
  gzip1 gzip2 gzip3 gzip4 gzip5 gzip6 gzip7 gzip8 gzip9 : CompressionType
  zle lz4 zstd : CompressionType

-- The discriminants, `comp as u8`.
unfoldable pub comp_id : CompressionType → ℕ
comp_id inherit = 0
comp_id on = 1
comp_id off = 2
comp_id lzjb = 3
comp_id empty = 4
comp_id gzip1 = 5
comp_id gzip2 = 6
comp_id gzip3 = 7
comp_id gzip4 = 8
comp_id gzip5 = 9
comp_id gzip6 = 10
comp_id gzip7 = 11
comp_id gzip8 = 12
comp_id gzip9 = 13
comp_id zle = 14
comp_id lz4 = 15
comp_id zstd = 16

pub data ChecksumType : Type 0 where
  inherit on off label gang_header zilog fletcher2 fletcher4 sha256 zilog2 : ChecksumType
  no_parity sha512_256 skein edonr blake3 : ChecksumType

pub record Dva : Type 0 where
  pub allocated : ℕ
  pub offset : ℕ
  pub is_gang : Bool
  pub vdev : ℕ

pub record BlockPointerEmbedded : Type 0 where
  pub compression : CompressionType
  pub order : EndianOrder
  pub logical_size : ℕ
  pub physical_size : ℕ
  pub payload : List ℕ

pub record BlockPointerRegular : Type 0 where
  pub checksum_type : ChecksumType
  pub checksum_value : List ℕ
  pub compression : CompressionType
  pub dvas : List (Option Dva)
  pub order : EndianOrder
  pub logical_sectors : ℕ
  pub physical_sectors : ℕ

-- Of an encrypted pointer only the byte order is read.
pub data BlockPointer : Type 0 where
  embedded : BlockPointerEmbedded → BlockPointer
  encrypted : EndianOrder → BlockPointer
  regular : BlockPointerRegular → BlockPointer

unfoldable pub bp_order : BlockPointer → EndianOrder
bp_order (embedded e) = e.order
bp_order (encrypted o) = o
bp_order (regular r) = r.order

-- `ptrs` and `bonus` are those of the dnode's tail, which has five shapes on disk.
pub record Dnode : Type 0 where
  pub bonus_len : ℕ
  pub data_block_size_sectors : ℕ
  pub indirect_block_shift : ℕ
  pub levels : ℕ
  pub ptrs : List (Option BlockPointer)
  pub bonus : List ℕ

pub record UberBlock : Type 0 where
  pub raidz_reflow_info : ℕ
  pub order : EndianOrder
  pub ptr : BlockPointer
  pub timestamp : ℕ
  pub txg : ℕ

unfoldable pub is_newer_than : UberBlock → UberBlock → Bool
is_newer_than a b = ltb b.txg a.txg || (a.txg == b.txg && ltb b.timestamp a.timestamp)

pub record ZapLeafChunkEntry : Type 0 where
  pub name_chunk : ℕ
  pub name_length : ℕ
  pub value_chunk : ℕ
  pub value_length : ℕ
  pub value_int_size : ℕ

pub record ZapLeafChunkData : Type 0 where
  pub bytes : List ℕ
  pub next : Option ℕ

pub record DslDirectory : Type 0 where
  pub head_dataset_obj : Option ℕ
  pub child_directory_zap_obj : ℕ

pub record DslDataSet : Type 0 where
  pub block_pointer : Option BlockPointer

-- An nvlist as its iterator and accessors show it: `bad` is a pair that fails to decode, and
-- `other` a value of any type on which `get_u64`, `get_str`, `get_nv_list` and
-- `get_nv_list_array` fail.
mutual
  pub data NvList : Type 0 where
    nil : NvList
    bad : NvList → NvList
    pair : List ℕ → NvValue → NvList → NvList

  pub data NvValue : Type 0 where
    u64 : ℕ → NvValue
    str : List ℕ → NvValue
    list : NvList → NvValue
    list_array : NvLists → NvValue
    other : NvValue

  pub data NvLists : Type 0 where
    end : NvLists
    bad_child : NvLists → NvLists
    child : NvList → NvLists → NvLists
