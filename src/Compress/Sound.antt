-- ===== src/Compress/Sound.antt =====
-- `decompress` of src/compress.rs: it does not panic, and what it returns has the logical size.
use lamzfs.Common.{
  ℕ, ◌≤◌, ◌≡◌, ◌≢◌, not, List, ◌++◌, arith, ltb, ◌==◌, length, take, get_range, length-get_range,
  Bool-cases, inl, inr,
}
use lamzfs.Common.Bytes.{from_be_bytes}
use lamzfs.Error.{file_too_large}
use lamzfs.Outcome.{
  ok, err, panic, ok_or, refuse_if, IfOk, IfOk->>=, IfOk-if, IfOk-ok_or, IfOk-elim, IfOk-intro,
  NoPanic, NoPanic->>=, NoPanic-ok_or, NoPanic-refuse_if, NoPanic-if, ne-panic,
}
use lamzfs.Phys.{CompressionType, inherit, on, off, lzjb, empty, zle, lz4, zstd}
use lamzfs.Vendored.{Vendored}
use lamzfs.BlockRead.{length-fill}
use lamzfs.Compress.{
  max_block_lsize, zstd_magic, more_bytes, lzjb_decode, lz4_decode, gzip_decode, zstd_decode,
  dispatch, decompress,
}
use lamzfs.Compress.Zle.Bounds.{Filled, length-zle_decode, zle_decode-NoPanic}

module _ (v : Vendored) (src : List ℕ) (lsize : ℕ) where
  length-gzip_decode : IfOk (Filled lsize) (gzip_decode v src lsize)
  unfolding gzip_decode
  length-gzip_decode =
      IfOk-if (Filled lsize) v.features.gzip _ _
        (IfOk->>= (Filled lsize) (ok_or (v.zlib_inflate src lsize) _) _ λ (n, dst) _.
          IfOk->>= (Filled lsize) (refuse_if (not (n == lsize)) _) _ λ _ _. length-fill lsize dst)
        tt

  length-lz4_decode : IfOk (Filled lsize) (lz4_decode v src lsize)
  unfolding lz4_decode
  length-lz4_decode =
      IfOk-if (Filled lsize) v.features.lz4 _ _
        (IfOk->>= (Filled lsize) (ok_or (get_range src 0 4) _) _ λ len_bytes _.
          IfOk->>= (Filled lsize) (ok_or (get_range src 4 (from_be_bytes len_bytes)) _) _ λ block _.
            IfOk->>= (Filled lsize) (ok_or (v.lz4_decompress_into block lsize) _) _ λ (n, dst) _.
              IfOk->>= (Filled lsize) (refuse_if (not (n == lsize)) _) _
                λ _ _. length-fill lsize dst)
        tt

  length-zstd_decode : IfOk (Filled lsize) (zstd_decode v src lsize)
  unfolding zstd_decode
  length-zstd_decode =
      IfOk-if (Filled lsize) v.features.zstd _ _
        (IfOk->>= (Filled lsize) (ok_or (get_range src 0 8) _) _ λ hdr _.
          IfOk->>= (Filled lsize) (ok_or (get_range src 8 (from_be_bytes (take 4 hdr))) _) _
            λ frame _.
              IfOk->>= (Filled lsize) (ok_or (v.zstd_decoder (zstd_magic ++ frame)) _) _ λ dec _.
                IfOk->>= (Filled lsize) (ok_or (dec.read_exact lsize) _) _ λ (dst, extra) _.
                  IfOk->>= (Filled lsize) (refuse_if (more_bytes v extra) _) _
                    λ _ _. length-fill lsize dst)
        tt

  length-dispatch : (comp : CompressionType) → IfOk (Filled lsize) (dispatch v comp src lsize)
  unfolding dispatch lzjb_decode
  length-dispatch inherit = tt
  length-dispatch on = tt
  length-dispatch empty = tt
  length-dispatch off =
      IfOk-ok_or (Filled lsize) (get_range src 0 lsize) _ λ bs e. length-get_range src 0 lsize e
  length-dispatch zle = length-zle_decode src lsize
  length-dispatch lzjb =
      IfOk->>= (Filled lsize) (ok_or (v.lzjb_decompress src lsize) _) _
        λ dst _. length-fill lsize dst
  length-dispatch lz4 = length-lz4_decode
  length-dispatch zstd = length-zstd_decode
  length-dispatch _ = length-gzip_decode

  gzip_decode-NoPanic : NoPanic (gzip_decode v src lsize)
  unfolding gzip_decode
  gzip_decode-NoPanic =
      NoPanic-if v.features.gzip _ _
        (NoPanic->>= (ok_or (v.zlib_inflate src lsize) _) _
          (NoPanic-ok_or (v.zlib_inflate src lsize) _)
          λ (n, dst) _.
            NoPanic->>= (refuse_if (not (n == lsize)) _) _ (NoPanic-refuse_if (not (n == lsize)) _)
              λ _ _. tt)
        tt

  lz4_decode-NoPanic : NoPanic (lz4_decode v src lsize)
  unfolding lz4_decode
  lz4_decode-NoPanic =
      NoPanic-if v.features.lz4 _ _
        (NoPanic->>= (ok_or (get_range src 0 4) _) _ (NoPanic-ok_or (get_range src 0 4) _)
          λ len_bytes _.
            NoPanic->>= (ok_or (get_range src 4 (from_be_bytes len_bytes)) _) _
              (NoPanic-ok_or (get_range src 4 (from_be_bytes len_bytes)) _)
              λ block _.
                NoPanic->>= (ok_or (v.lz4_decompress_into block lsize) _) _
                  (NoPanic-ok_or (v.lz4_decompress_into block lsize) _)
                  λ (n, dst) _.
                    NoPanic->>= (refuse_if (not (n == lsize)) _) _
                      (NoPanic-refuse_if (not (n == lsize)) _) λ _ _. tt)
        tt

  zstd_decode-NoPanic : NoPanic (zstd_decode v src lsize)
  unfolding zstd_decode
  zstd_decode-NoPanic =
      NoPanic-if v.features.zstd _ _
        (NoPanic->>= (ok_or (get_range src 0 8) _) _ (NoPanic-ok_or (get_range src 0 8) _) λ hdr _.
          NoPanic->>= (ok_or (get_range src 8 (from_be_bytes (take 4 hdr))) _) _
            (NoPanic-ok_or (get_range src 8 (from_be_bytes (take 4 hdr))) _)
            λ frame _.
              NoPanic->>= (ok_or (v.zstd_decoder (zstd_magic ++ frame)) _) _
                (NoPanic-ok_or (v.zstd_decoder (zstd_magic ++ frame)) _)
                λ dec _.
                  NoPanic->>= (ok_or (dec.read_exact lsize) _) _
                    (NoPanic-ok_or (dec.read_exact lsize) _)
                    λ (dst, extra) _.
                      NoPanic->>= (refuse_if (more_bytes v extra) _) _
                        (NoPanic-refuse_if (more_bytes v extra) _) λ _ _. tt)
        tt

  dispatch-NoPanic : (comp : CompressionType) → NoPanic (dispatch v comp src lsize)
  unfolding dispatch lzjb_decode
  dispatch-NoPanic inherit = tt
  dispatch-NoPanic on = tt
  dispatch-NoPanic empty = tt
  dispatch-NoPanic off = NoPanic-ok_or (get_range src 0 lsize) _
  dispatch-NoPanic zle = zle_decode-NoPanic src lsize
  dispatch-NoPanic lzjb =
      NoPanic->>= (ok_or (v.lzjb_decompress src lsize) _) _
        (NoPanic-ok_or (v.lzjb_decompress src lsize) _) λ dst _. tt
  dispatch-NoPanic lz4 = lz4_decode-NoPanic
  dispatch-NoPanic zstd = zstd_decode-NoPanic
  dispatch-NoPanic _ = gzip_decode-NoPanic

  pub decompress-NoPanic : (comp : CompressionType) → NoPanic (decompress v comp src lsize)
  unfolding decompress
  decompress-NoPanic comp =
      NoPanic-if (ltb max_block_lsize lsize) (err (file_too_large lsize max_block_lsize)) _ tt
        (dispatch-NoPanic comp)

  -- Whatever the bytes and the compression, and whatever the decoders of other crates give,
  -- `decompress` does not panic, and what it returns is as long as the logical size, which is at
  -- most 16 MiB.
  pub decompress_lem :
      (comp : CompressionType)
      → (decompress v comp src lsize ≢ panic)
        × IfOk (λ bs. (length bs ≡ lsize) × (lsize ≤ max_block_lsize)) (decompress v comp src lsize)
  unfolding decompress
  decompress_lem comp = (
    ne-panic _ (decompress-NoPanic comp),
    IfOk-intro (λ bs. (length bs ≡ lsize) × (lsize ≤ max_block_lsize)) (decompress v comp src lsize)
        sized,
  )
    where
      sized :
          (bs : List ℕ)
          → decompress v comp src lsize ≡ ok bs
          → (length bs ≡ lsize) × (lsize ≤ max_block_lsize)
      sized bs h = elim (Bool-cases (ltb max_block_lsize lsize)) [
        | inl e ↦ let g = rw e at h in absurd (cc)
        | inr e ↦ (IfOk-elim (Filled lsize) _ (length-dispatch comp) bs (rw e at h), ground arith)
      ]
