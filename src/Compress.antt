-- ===== src/Compress.antt =====
-- src/compress.rs: the decompression of one block. The ZLE decoder is the reader's own code and
-- stands in Zle; the other decoders are calls of the vendored code, and their adapters are here.
pub mod Zle
pub mod Sound
use lamzfs.Common.{
  ℕ, ◌+◌, ◌*◌, Option, none, some, List, [], ◌∷◌, ◌++◌, Bool, true, false, not, ltb, ◌==◌,
  if◌then◌else◌, take, get_range,
}
use lamzfs.Common.Bytes.{from_be_bytes}
use lamzfs.Error.{file_too_large, bad_compression, unsupported_compression}
use lamzfs.Outcome.{Outcome, ok, err, ok_or, refuse_if, ◌>>=◌, ◌>>◌}
use lamzfs.Phys.{
  CompressionType, inherit, on, off, lzjb, empty, gzip1, gzip2, gzip3, gzip4, gzip5, gzip6, gzip7,
  gzip8, gzip9, zle, lz4, zstd, comp_id,
}
use lamzfs.Vendored.{Vendored, ZstdDecoder}
use lamzfs.BlockRead.{fill}
use Zle.{zle_decode}

abbrev pub max_block_lsize : ℕ
max_block_lsize = 16 * 1024 * 1024

-- The magic that OpenZFS omits from a zstd frame.
abbrev pub zstd_magic : List ℕ
zstd_magic = 0x28 ∷ 0xb5 ∷ 0x2f ∷ 0xfd ∷ []

module _ (v : Vendored) where
  unfoldable pub lzjb_decode : List ℕ → ℕ → Outcome (List ℕ)
  lzjb_decode src lsize = do
    dst ← ok_or (v.lzjb_decompress src lsize) (bad_compression 3 "lzjb_bad")
    ok (fill lsize dst)

  unfoldable pub lz4_decode : List ℕ → ℕ → Outcome (List ℕ)
  lz4_decode src lsize =
      if v.features.lz4
      then (do
        len_bytes ← ok_or (get_range src 0 4) (bad_compression 15 "lz4_no_prefix")
        let clen = from_be_bytes len_bytes
        block ← ok_or (get_range src 4 clen) (bad_compression 15 "lz4_short")
        (n, dst) ← ok_or (v.lz4_decompress_into block lsize) (bad_compression 15 "lz4_decode")
        refuse_if (not (n == lsize)) (bad_compression 15 "lz4_len")
        ok (fill lsize dst))
      else err (unsupported_compression 15)

  unfoldable pub gzip_decode : List ℕ → ℕ → Outcome (List ℕ)
  gzip_decode src lsize =
      if v.features.gzip
      then (do
        (n, dst) ← ok_or (v.zlib_inflate src lsize) (bad_compression 5 "gzip_decode")
        refuse_if (not (n == lsize)) (bad_compression 5 "gzip_len")
        ok (fill lsize dst))
      else err (unsupported_compression 5)

  -- Does a further read return a byte?
  abbrev pub more_bytes : Option ℕ → Bool
  more_bytes none = false
  more_bytes (some n) = not (n == 0)

  unfoldable pub zstd_decode : List ℕ → ℕ → Outcome (List ℕ)
  zstd_decode src lsize =
      if v.features.zstd
      then (do
        hdr ← ok_or (get_range src 0 8) (bad_compression 16 "zstd_no_hdr")
        let clen = from_be_bytes (take 4 hdr)
        frame ← ok_or (get_range src 8 clen) (bad_compression 16 "zstd_short")
        dec ← ok_or (v.zstd_decoder (zstd_magic ++ frame)) (bad_compression 16 "zstd_frame")
        (dst, extra) ← ok_or (dec.read_exact lsize) (bad_compression 16 "zstd_decode")
        refuse_if (more_bytes extra) (bad_compression 16 "zstd_len")
        ok (fill lsize dst))
      else err (unsupported_compression 16)

  -- The dispatch of `decompress`, behind the cap on the logical size.
  unfoldable pub dispatch : CompressionType → List ℕ → ℕ → Outcome (List ℕ)
  dispatch off src lsize = ok_or (get_range src 0 lsize) (bad_compression 2 "off_short")
  dispatch zle src lsize = zle_decode src lsize
  dispatch lzjb src lsize = lzjb_decode src lsize
  dispatch lz4 src lsize = lz4_decode src lsize
  dispatch zstd src lsize = zstd_decode src lsize
  dispatch inherit src lsize = err (unsupported_compression (comp_id inherit))
  dispatch on src lsize = err (unsupported_compression (comp_id on))
  dispatch empty src lsize = err (unsupported_compression (comp_id empty))
  dispatch _ src lsize = gzip_decode src lsize

  unfoldable pub decompress : CompressionType → List ℕ → ℕ → Outcome (List ℕ)
  unfolding dispatch lzjb_decode lz4_decode gzip_decode zstd_decode comp_id
  decompress comp src lsize =
      if ltb max_block_lsize lsize
      then err (file_too_large lsize max_block_lsize)
      else dispatch comp src lsize
