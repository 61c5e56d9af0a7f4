-- ===== src/Walk/Leaf/Safe.antt =====
-- The leaves of a fat ZAP in src/walk.rs: the chains of chunks end, and no chunk is out of range.
use lamzfs.Common.{
  ℕ, zero, suc, ◌+◌, ◌-◌, ◌*◌, ◌≤◌, ◌≡◌, ◌≢◌, min, Option, none, some, ◌||◌, List, arith, ltb, leb,
  ◌==◌, length, take, get_elem?, get_range, length-append, length-take, length-get_range,
  get_elem?-in_range, Bool-cases, inl, inr,
}
use lamzfs.Outcome.{
  panic, ok_or, or_panic, IfOk, IfOk->>=, IfOk-elim, IfOk-intro, NoPanic, NoPanic->>=,
  NoPanic-ok_or, NoPanic-if, ne-panic, ok_or-eq-ok,
}
use lamzfs.Phys.{EndianOrder}
use lamzfs.Vendored.{Vendored}
use lamzfs.Walk.Leaf.{
  leaf_chunk_size, zap_leaf_data_size, entry_chunk_type, zap_error, follow_chunks, collect_chunks,
  leaf_entry, leaf_chunks, collect_leaf,
}

module _ (v : Vendored) (order : EndianOrder) (block : List ℕ) (chunk_base nchunks : ℕ) where
  follow_chunks-NoPanic :
      (fuel : ℕ) (next : Option ℕ) (guard len got : ℕ)
      → guard ≤ nchunks + 1
      → fuel + guard ≡ nchunks + 2
      → NoPanic (follow_chunks v order block chunk_base nchunks fuel next guard len got)
  unfolding follow_chunks
  follow_chunks-NoPanic zero next guard len got h e = omega arith
  follow_chunks-NoPanic (suc fuel) none guard len got h e = tt
  follow_chunks-NoPanic (suc fuel) (some idx) guard len got h e = elim (Bool-cases (ltb got len)) [
    | inr b ↦ rw (b, follow_chunks) tt
    | inl b ↦ elim (Bool-cases (leb nchunks idx || ltb nchunks guard)) [
      | inl c ↦ rw (b, c, follow_chunks) tt
      | inr c ↦
          let low : guard + 1 ≤ nchunks + 1 = ground arith in
          rw (b, c, follow_chunks)
            (NoPanic->>=
              (ok_or (get_range block (chunk_base + idx * leaf_chunk_size) leaf_chunk_size)
                (zap_error "zap_array_chunk"))
              _ (NoPanic-ok_or _ _)
              λ chunk _.
                NoPanic->>=
                  (ok_or (v.zap_leaf_data_decode order chunk) (zap_error "zap_array_chunk")) _
                  (NoPanic-ok_or _ _)
                  λ item _.
                    NoPanic->>=
                      (follow_chunks v order block chunk_base nchunks fuel item.next (guard + 1) len
                        (got + min (len - got) zap_leaf_data_size))
                      _
                      (follow_chunks-NoPanic fuel item.next (guard + 1) len
                        (got + min (len - got) zap_leaf_data_size) low (omega arith))
                      λ rest _. tt)
    ]
  ]

  abbrev AtMost : ℕ → List ℕ → Type 0
  AtMost n bs = length bs ≤ n

  length-follow_chunks :
      (fuel : ℕ) (next : Option ℕ) (guard len got : ℕ)
      → IfOk
          (AtMost (len - got))
          (follow_chunks v order block chunk_base nchunks fuel next guard len got)
  unfolding follow_chunks
  length-follow_chunks zero next guard len got = tt
  length-follow_chunks (suc fuel) none guard len got = omega arith
  length-follow_chunks (suc fuel) (some idx) guard len got = elim (Bool-cases (ltb got len)) [
    | inr b ↦ rw (b, follow_chunks) (omega arith)
    | inl b ↦ elim (Bool-cases (leb nchunks idx || ltb nchunks guard)) [
      | inl c ↦ rw (b, c, follow_chunks) tt
      | inr c ↦
          let step = min (len - got) zap_leaf_data_size in
          rw (b, c, follow_chunks)
            (IfOk->>= (AtMost (len - got))
              (ok_or (get_range block (chunk_base + idx * leaf_chunk_size) leaf_chunk_size)
                (zap_error "zap_array_chunk"))
              _
              λ chunk _.
                IfOk->>= (AtMost (len - got))
                  (ok_or (v.zap_leaf_data_decode order chunk) (zap_error "zap_array_chunk")) _
                  λ item _.
                    IfOk->>= (AtMost (len - got))
                      (follow_chunks v order block chunk_base nchunks fuel item.next (guard + 1) len
                        (got + step))
                      _
                      λ rest r.
                        let l =
                          IfOk-elim (AtMost (len - (got + step))) _
                            (length-follow_chunks fuel item.next (guard + 1) len (got + step)) rest
                            r in
                        omega (
                          arith,
                          l,
                          length-append (take step item.bytes) rest,
                          length-take step item.bytes,
                        ))
    ]
  ]

  collect_chunks-NoPanic :
      (start len : ℕ) → NoPanic (collect_chunks v order block chunk_base nchunks start len)
  unfolding collect_chunks
  collect_chunks-NoPanic start len =
      follow_chunks-NoPanic (nchunks + 2) (some start) 0 len 0 (omega arith) (omega arith)

  -- A chain of array chunks, wherever it starts and however it is linked, even in a cycle, gives an
  -- error or at most as many bytes as the entry says.
  pub collect_chunks_lem :
      (start len : ℕ)
      → (collect_chunks v order block chunk_base nchunks start len ≢ panic)
        × IfOk (λ bs. length bs ≤ len) (collect_chunks v order block chunk_base nchunks start len)
  unfolding collect_chunks
  collect_chunks_lem start len = (
    ne-panic _ (collect_chunks-NoPanic start len),
    IfOk-intro (λ bs. length bs ≤ len) (collect_chunks v order block chunk_base nchunks start len)
        (λ bs h.
          let l =
            IfOk-elim (AtMost (len - 0)) _ (length-follow_chunks (nchunks + 2) (some start) 0 len 0)
              bs h in
          omega (arith, l)),
  )

  leaf_entry-NoPanic :
      (chunk : List ℕ) → NoPanic (leaf_entry v order block chunk_base nchunks chunk)
  unfolding leaf_entry
  leaf_entry-NoPanic chunk =
      NoPanic->>= (ok_or (v.zap_leaf_entry_decode order chunk) (zap_error "zap_leaf_chunk")) _
        (NoPanic-ok_or _ _)
        λ entry _.
          NoPanic->>=
            (collect_chunks v order block chunk_base nchunks entry.name_chunk entry.name_length) _
            (collect_chunks-NoPanic entry.name_chunk entry.name_length)
            λ name _.
              NoPanic->>=
                (collect_chunks v order block chunk_base nchunks entry.value_chunk
                  (entry.value_int_size * entry.value_length))
                _
                (collect_chunks-NoPanic entry.value_chunk
                  (entry.value_int_size * entry.value_length))
                λ value _. tt

  first_byte :
      (chunk : List ℕ) → length chunk ≡ leaf_chunk_size → NoPanic (or_panic (get_elem? chunk 0))
  first_byte chunk h = let (x, e) = get_elem?-in_range chunk 0 (omega arith) in rw e tt

  leaf_chunks-NoPanic :
      (left ci : ℕ) → NoPanic (leaf_chunks v order block chunk_base nchunks left ci)
  unfolding leaf_chunks
  leaf_chunks-NoPanic zero ci = tt
  leaf_chunks-NoPanic (suc left) ci =
      NoPanic->>=
        (ok_or (get_range block (chunk_base + ci * leaf_chunk_size) leaf_chunk_size)
          (zap_error "zap_leaf_chunk"))
        _ (NoPanic-ok_or _ _)
        λ chunk e.
          NoPanic->>= (or_panic (get_elem? chunk 0)) _
            (first_byte chunk (
              length-get_range block (chunk_base + ci * leaf_chunk_size) leaf_chunk_size (
                ok_or-eq-ok (get_range block (chunk_base + ci * leaf_chunk_size) leaf_chunk_size) _
                  e)))
            λ kind _.
              NoPanic-if (kind == entry_chunk_type) _ _
                (NoPanic->>= (leaf_entry v order block chunk_base nchunks chunk) _
                  (leaf_entry-NoPanic chunk)
                  λ entry _.
                    NoPanic->>= (leaf_chunks v order block chunk_base nchunks left (ci + 1)) _
                      (leaf_chunks-NoPanic left (ci + 1)) λ more _. tt)
                (leaf_chunks-NoPanic left (ci + 1))

  pub collect_leaf-NoPanic : NoPanic (collect_leaf v order block chunk_base nchunks)
  unfolding collect_leaf
  collect_leaf-NoPanic = leaf_chunks-NoPanic nchunks 0
