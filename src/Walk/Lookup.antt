-- ===== src/Walk/Lookup.antt =====
-- ZAP lookup in src/walk.rs: a value as a number and as its bytes.
use mathlib.Core.Option
use lamzfs.Common.{
  ℕ, ◌*◌, ◌^◌, ◌<◌, ◌≡◌, refl, ap, sym, Option, none, some, false, List, [], ◌∷◌, map, arith, ◌==◌,
  All, bytes_eq, Bool-cases, inl, inr,
}
use lamzfs.Common.Bytes.{from_be_bytes, to_be_bytes}
use lamzfs.Outcome.{
  Outcome, ok, err, panic, ok_or, ◌>>=◌, IfOk, IfOk->>=, IfOk-elim, ok_or-eq-ok, Outcome-cases,
}
use lamzfs.Phys.{EndianOrder, Dnode}
use lamzfs.Vendored.{Vendored}
use lamzfs.BlockRead.{PoolMember}
use lamzfs.Vdev.Tree.{Topology}
use lamzfs.File.{read_dnode_block}
use lamzfs.Walk.Leaf.{zap_error, block_type}
use lamzfs.Walk.{
  zap_micro, zap_fat_header, value_as_u64, find_name, micro_items, micro_entries, fat_entries_raw,
  fat_entries, zap_entries, zap_lookup, zap_lookup_bytes,
}

-- Eight big-endian bytes give the number back.
value_as_u64-to_be_bytes : (n : ℕ) → n < 2 ^ 64 → value_as_u64 (to_be_bytes 8 n) ≡ n
unfolding value_as_u64 to_be_bytes from_be_bytes
value_as_u64-to_be_bytes n h = omega arith

-- A micro-ZAP's value is a word of 64 bits.
abbrev pub IsWord : Option (List ℕ × ℕ) → Type 0
IsWord none = Unit
IsWord (some (name, value)) = value < 2 ^ 64

abbrev pub MicroWords : Vendored → Type 0
MicroWords v =
    (order : EndianOrder) (block : List ℕ) (items : List (Option (List ℕ × ℕ)))
    → v.zap_micro_decode order block ≡ some items
    → All IsWord items

abbrev Words : List (List ℕ × ℕ) → Type 0
Words = All (λ (e : List ℕ × ℕ). e.1 < 2 ^ 64)

micro_items-Words :
    (items : List (Option (List ℕ × ℕ))) → All IsWord items → IfOk Words (micro_items items)
unfolding micro_items
micro_items-Words [] h = tt
micro_items-Words (none ∷ items) h = tt
micro_items-Words (some e ∷ items) (w, h) =
    IfOk->>= Words (micro_items items) _
      λ rest r. (w, IfOk-elim Words _ (micro_items-Words items h) rest r)

-- The conversions of a value that was found.
as_number : Option (List ℕ) → Option ℕ
as_number = Option.map value_as_u64

find_name-map :
    (name : List ℕ) (entries : List (List ℕ × List ℕ))
    → find_name name (map (λ (e : List ℕ × List ℕ). (e.0, value_as_u64 e.1)) entries)
      ≡ as_number (find_name name entries)
unfolding find_name as_number
find_name-map name [] = refl
find_name-map name ((n, value) ∷ entries) = elim (Bool-cases (bytes_eq n name)) [
  | inl e ↦ rw (e, find_name) refl
  | inr e ↦ rw (e, find_name) (find_name-map name entries)
]

find_name-Words :
    (name : List ℕ) (entries : List (List ℕ × ℕ))
    → Words entries
    → as_number (Option.map (to_be_bytes 8) (find_name name entries)) ≡ find_name name entries
unfolding find_name as_number
find_name-Words name [] h = refl
find_name-Words name ((n, value) ∷ entries) (w, h) = elim (Bool-cases (bytes_eq n name)) [
  | inl e ↦ rw (e, find_name) (ap some (value_as_u64-to_be_bytes value w))
  | inr e ↦ rw (e, find_name) (find_name-Words name entries h)
]

module _ (v : Vendored) (members : List PoolMember) (topo : Topology) (order : EndianOrder) where
  micro_entries-Words :
      (block : List ℕ) → MicroWords v → IfOk Words (micro_entries v members topo order block)
  unfolding micro_entries
  micro_entries-Words block h =
      IfOk->>= Words (ok_or (v.zap_micro_decode order block) (zap_error "zap_micro")) _ λ items e.
        micro_items-Words items
          (h order block items (ok_or-eq-ok (v.zap_micro_decode order block) _ e))

  -- What a lookup makes of the entries.
  abbrev Found : List ℕ → Outcome (List (List ℕ × ℕ)) → Outcome (Option ℕ)
  Found name entries = entries >>= λ es. ok (find_name name es)

  abbrev Numbers : Outcome (Option (List ℕ)) → Outcome (Option ℕ)
  Numbers o = o >>= λ value. ok (as_number value)

  fat_agrees :
      (zap_dnode : Dnode) (dbsz : ℕ) (name : List ℕ)
      → Found name (fat_entries v members topo order zap_dnode dbsz)
        ≡ Numbers
            (fat_entries_raw v members topo order zap_dnode dbsz >>= λ es. ok (find_name name es))
  unfolding fat_entries
  fat_agrees zap_dnode dbsz name = go (fat_entries_raw v members topo order zap_dnode dbsz)
    where
      go :
          (o : Outcome (List (List ℕ × List ℕ)))
          → Found name
              (o >>= λ raw. ok (map (λ (e : List ℕ × List ℕ). (e.0, value_as_u64 e.1)) raw))
            ≡ Numbers (o >>= λ es. ok (find_name name es))
      go (ok raw) = ap ok (find_name-map name raw)
      go (err e) = refl
      go panic = refl

  micro_agrees :
      (o : Outcome (List (List ℕ × ℕ))) (name : List ℕ)
      → IfOk Words o
      → Found name o ≡ Numbers (Found name o >>= λ value. ok (Option.map (to_be_bytes 8) value))
  micro_agrees (ok es) name h = ap ok (sym (find_name-Words name es h))
  micro_agrees (err e) name h = refl
  micro_agrees panic name h = refl

  -- Given that micro-ZAP values are words of 64 bits, a lookup by number gives the number that the
  -- last eight bytes of a lookup by bytes stand for, in micro and fat ZAPs, with the same errors, for
  -- every ZAP whose block size is not zero.
  pub zap_lookup-zap_lookup_bytes :
      (zap_dnode : Dnode) (name : List ℕ)
      → MicroWords v
      → 0 < zap_dnode.data_block_size_sectors
      → zap_lookup v members topo order zap_dnode name ≡ (
          zap_lookup_bytes v members topo order zap_dnode name >>= λ value.
          ok (Option.map value_as_u64 value))
  unfolding zap_lookup zap_lookup_bytes zap_entries as_number
  zap_lookup-zap_lookup_bytes zap_dnode name words pos =
      let sized : (zap_dnode.data_block_size_sectors * 512 == 0) ≡ false = ground arith in
      elim (Outcome-cases (read_dnode_block v members topo order zap_dnode 0)) [
        | inr (inl (e, r)) ↦ rw (sized, r) refl
        | inr (inr r) ↦ rw (sized, r) refl
        | inl (none, r) ↦ rw (sized, r) refl
        | inl (some block, r) ↦ elim (Outcome-cases (block_type block order)) [
          | inr (inl (e, b)) ↦ rw (sized, r, b) refl
          | inr (inr b) ↦ rw (sized, r, b) refl
          | inl (bt, b) ↦ elim (Bool-cases (bt == zap_fat_header)) [
            | inl f ↦
                let other : (bt == zap_micro) ≡ false = ground arith in
                rw (sized, r, b, f, other)
                  (fat_agrees zap_dnode (zap_dnode.data_block_size_sectors * 512) name)
            | inr f ↦ elim (Bool-cases (bt == zap_micro)) [
              | inl m ↦
                  rw (sized, r, b, f, m)
                    (micro_agrees (micro_entries v members topo order block) name
                      (micro_entries-Words block words))
              | inr m ↦ rw (sized, r, b, f, m) refl
            ]
          ]
        ]
      ]
