-- ===== src/Walk/Leaf/Entries.antt =====
-- `collect_leaf` of src/walk.rs: exactly which entries it gives.
use mathlib.Core.Path.{subst}
use lamzfs.Common.{
  ℕ, zero, suc, ◌+◌, ◌*◌, ◌≤◌, ◌<◌, ◌≡◌, ◌↔◌, ap, sym, ◌∙◌, inl, inr, some, List, ◌∷◌, arith, ◌==◌,
  ==_iff, get_elem?, get_range, InList, Bool-cases, true, false,
}
use lamzfs.Outcome.{ok, ok_or, or_panic, >>=-eq-ok, ok_or-eq-ok, or_panic-eq-ok, ok-injective}
use lamzfs.Phys.{EndianOrder}
use lamzfs.Vendored.{Vendored}
use lamzfs.Walk.Leaf.{
  zap_error, leaf_chunk_size, entry_chunk_type, leaf_entry, leaf_chunks, collect_leaf,
}

module _ (v : Vendored) (order : EndianOrder) (block : List ℕ) (chunk_base nchunks : ℕ) where
  -- The chunk at this index is an entry chunk of the block, and reads as the entry.
  abbrev pub EntryAt : ℕ → List ℕ × List ℕ → Type 0
  EntryAt ci e =
      (chunk : List ℕ) × (get_range block (chunk_base + ci * leaf_chunk_size) leaf_chunk_size
        ≡ some chunk)
      × (get_elem? chunk 0 ≡ some entry_chunk_type)
      × (leaf_entry v order block chunk_base nchunks chunk ≡ ok e)

  -- An entry in the chunks from `ci` on, `left` of them.
  abbrev EntryFrom : ℕ → ℕ → List ℕ × List ℕ → Type 0
  EntryFrom left ci e = (k : ℕ) × (ci ≤ k) × (k < ci + left) × EntryAt k e

  later :
      (left ci : ℕ) (e : List ℕ × List ℕ) → EntryFrom left (ci + 1) e → EntryFrom (suc left) ci e
  later left ci e (k, low, high, at) = (k, omega arith, omega arith, at)

  -- An entry of the first chunk is the one that was read there, any other lies behind it.
  first_or_later :
      (left ci : ℕ) (e here : List ℕ × List ℕ) (chunk : List ℕ)
      → get_range block (chunk_base + ci * leaf_chunk_size) leaf_chunk_size ≡ some chunk
      → leaf_entry v order block chunk_base nchunks chunk ≡ ok here
      → (more : List (List ℕ × List ℕ)) → (EntryFrom left (ci + 1) e → InList e more)
      → EntryFrom (suc left) ci e
      → InList e (here ∷ more)
  first_or_later left ci e here chunk r h more later_in (k, low, high, at) =
      elim (Bool-cases (k == ci)) [
        | inl t ↦
            let same : k ≡ ci = (==_iff k ci).0 t in
            let (chunk', r', _, h') = subst (λ i. EntryAt i e) same at in
            let chunks : chunk' ≡ chunk = cc in
            let h'' = rw chunks at h' in inl (ok-injective (sym h'' ∙ h))
        | inr f ↦ inr (later_in (k, ground arith, omega arith, at))
      ]

  not_first :
      (left ci kind : ℕ) (e : List ℕ × List ℕ) (chunk : List ℕ)
      → get_range block (chunk_base + ci * leaf_chunk_size) leaf_chunk_size ≡ some chunk
      → get_elem? chunk 0 ≡ some kind
      → (kind == entry_chunk_type) ≡ false
      → EntryFrom (suc left) ci e
      → EntryFrom left (ci + 1) e
  not_first left ci kind e chunk r t n (k, low, high, at) = elim (Bool-cases (k == ci)) [
    | inl q ↦
        let same : k ≡ ci = (==_iff k ci).0 q in
        let (chunk', r', t', _) = subst (λ i. EntryAt i e) same at in
        let chunks : chunk' ≡ chunk = cc in
        let t'' = rw chunks at t' in
        let kinds : kind ≡ entry_chunk_type = cc in
        let yes : (kind == entry_chunk_type) ≡ true = (==_iff kind entry_chunk_type).1 kinds in
        absurd (cc)
    | inr f ↦ (k, ground arith, omega arith, at)
  ]

  entry_step :
      (left ci kind : ℕ) (es more : List (List ℕ × List ℕ)) (e here : List ℕ × List ℕ)
      (chunk : List ℕ)
      → get_range block (chunk_base + ci * leaf_chunk_size) leaf_chunk_size ≡ some chunk
      → get_elem? chunk 0 ≡ some kind
      → (kind == entry_chunk_type) ≡ true
      → leaf_entry v order block chunk_base nchunks chunk ≡ ok here
      → here ∷ more ≡ es
      → (InList e more ↔ EntryFrom left (ci + 1) e)
      → InList e es ↔ EntryFrom (suc left) ci e
  entry_step left ci kind es more e here chunk range kind_is y g both (to, from) =
      let marked : get_elem? chunk 0 ≡ some entry_chunk_type =
        kind_is ∙ ap some ((==_iff kind entry_chunk_type).0 y) in
      (
        λ i. elim (subst (InList e) (sym both) i) [
          | inl p ↦ (ci, omega arith, omega arith, (chunk, range, marked, g ∙ ap ok (sym p)))
          | inr j ↦ later left ci e (to j)
        ],
        λ w. subst (InList e) both (first_or_later left ci e here chunk range g more from w),
      )

  leaf_chunks-InList :
      (left ci : ℕ) (es : List (List ℕ × List ℕ))
      → leaf_chunks v order block chunk_base nchunks left ci ≡ ok es
      → (e : List ℕ × List ℕ) → InList e es ↔ EntryFrom left ci e
  unfolding leaf_chunks
  leaf_chunks-InList zero ci es h e =
      let none_here = ok-injective h in
      (λ i. absurd (subst (InList e) (sym none_here) i), λ (k, low, high, at). absurd (omega arith))
  leaf_chunks-InList (suc left) ci es h e =
      let (chunk, r, h₁) =
        >>=-eq-ok
          (ok_or (get_range block (chunk_base + ci * leaf_chunk_size) leaf_chunk_size)
            (zap_error "zap_leaf_chunk"))
          _ h in
      let (kind, t, h₂) = >>=-eq-ok (or_panic (get_elem? chunk 0)) _ h₁ in
      let range = ok_or-eq-ok _ _ r in
      let kind_is = or_panic-eq-ok _ t in
      elim (Bool-cases (kind == entry_chunk_type)) [
        | inl y ↦
            let (here, g, h₃) =
              >>=-eq-ok (leaf_entry v order block chunk_base nchunks chunk) _ (rw y at h₂) in
            let (more, m, h₄) =
              >>=-eq-ok (leaf_chunks v order block chunk_base nchunks left (ci + 1)) _ h₃ in
            entry_step left ci kind es more e here chunk range kind_is y g (ok-injective h₄)
              (leaf_chunks-InList left (ci + 1) more m e)
        | inr n ↦
            let (to, from) = leaf_chunks-InList left (ci + 1) es (rw n at h₂) e in
            (
              λ i. later left ci e (to i),
              λ w. from (not_first left ci kind e chunk range kind_is n w),
            )
      ]

  -- The entries of a leaf are those of its entry chunks.
  pub collect_leaf-InList :
      (es : List (List ℕ × List ℕ))
      → collect_leaf v order block chunk_base nchunks ≡ ok es
      → (e : List ℕ × List ℕ) → InList e es ↔ ((ci : ℕ) × (ci < nchunks) × EntryAt ci e)
  unfolding collect_leaf
  collect_leaf-InList es h e =
      let (to, from) = leaf_chunks-InList nchunks 0 es h e in
      (
        λ i. let (k, low, high, at) = to i in (k, omega arith, at),
        λ (k, high, at). from (k, omega arith, omega arith, at),
      )
