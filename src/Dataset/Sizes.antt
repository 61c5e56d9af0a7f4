-- ===== src/Dataset/Sizes.antt =====
-- `sa_file_size` of src/dataset.rs on the system attributes that ZFS writes.
use lamzfs.Common.{
  ℕ, zero, suc, ◌+◌, ◌*◌, ◌/◌, ◌%◌, ◌^◌, ◌<◌, ◌≡◌, refl, ap, sym, ◌∙◌, some, not, List, [], ◌∷◌,
  ◌++◌, arith, ◌==◌, length, get_range, length-append, append_assoc, get_range-middle,
}
use lamzfs.Common.Bytes.{from_le_bytes, from_be_bytes, to_be_bytes}
use lamzfs.Outcome.{ok, ok_or, refuse_if, >>=-of-ok}
use lamzfs.Phys.{EndianOrder, big, little}
use lamzfs.Cksum.{from_bytes}
use lamzfs.Dataset.{sa_magic, sa_size_offset_std, sa_unsupported, sa_file_size}

-- `uN::to_le_bytes`, of `w` bytes.
unfoldable pub to_le_bytes : ℕ → ℕ → List ℕ
to_le_bytes zero n = []
to_le_bytes (suc w) n = (n % 256) ∷ to_le_bytes w (n / 256)

-- A number as the pool's byte order stores it.
unfoldable pub word : EndianOrder → ℕ → ℕ → List ℕ
unfolding to_le_bytes
word big w n = to_be_bytes w n
word little w n = to_le_bytes w n

length-to_le_bytes : (w n : ℕ) → length (to_le_bytes w n) ≡ w
unfolding to_le_bytes
length-to_le_bytes zero n = refl
length-to_le_bytes (suc w) n = omega (arith, length-to_le_bytes w (n / 256))

length-to_be_bytes : (w n : ℕ) → length (to_be_bytes w n) ≡ w
unfolding to_be_bytes
length-to_be_bytes zero n = refl
length-to_be_bytes (suc w) n = omega (
  arith,
  length-append (to_be_bytes w (n / 256)) ((n % 256) ∷ []),
  length-to_be_bytes w (n / 256),
)

length-word : (order : EndianOrder) (w n : ℕ) → length (word order w n) ≡ w
unfolding word
length-word big w n = length-to_be_bytes w n
length-word little w n = length-to_le_bytes w n

from_bytes-word2 :
    (order : EndianOrder) (n : ℕ) → n < 2 ^ 16 → from_bytes order (word order 2 n) ≡ n
unfolding from_bytes word to_le_bytes to_be_bytes from_le_bytes from_be_bytes
from_bytes-word2 big n h = omega arith
from_bytes-word2 little n h = omega arith

from_bytes-word4 :
    (order : EndianOrder) (n : ℕ) → n < 2 ^ 32 → from_bytes order (word order 4 n) ≡ n
unfolding from_bytes word to_le_bytes to_be_bytes from_le_bytes from_be_bytes
from_bytes-word4 big n h = omega arith
from_bytes-word4 little n h = omega arith

from_bytes-word8 :
    (order : EndianOrder) (n : ℕ) → n < 2 ^ 64 → from_bytes order (word order 8 n) ≡ n
unfolding from_bytes word to_le_bytes to_be_bytes from_le_bytes from_be_bytes
from_bytes-word8 big n h = omega arith
from_bytes-word8 little n h = omega arith

-- The attributes: the magic, the layout word (the header's size in units of eight bytes above the
-- layout's number), the rest of the header, the mode, the size, and what the layout has behind it.
abbrev pub sa_attributes : EndianOrder → ℕ → ℕ → List ℕ → List ℕ → ℕ → List ℕ → List ℕ
sa_attributes order units layout pad mode size rest =
    word order 4 sa_magic
    ++ (word order 2 (units * 2 ^ 10 + layout) ++ (pad ++ (mode ++ (word order 8 size ++ rest))))

module _ (order : EndianOrder) (units layout : ℕ) (pad mode : List ℕ) (size : ℕ)
    (rest : List ℕ) where
  abbrev attributes : List ℕ
  attributes = sa_attributes order units layout pad mode size rest

  at_magic : get_range attributes 0 4 ≡ some (word order 4 sa_magic)
  at_magic =
      let l = length-word order 4 sa_magic in
      rw l at (
        get_range-middle [] (word order 4 sa_magic) (
          word order 2 (units * 2 ^ 10 + layout) ++ (pad ++ (mode ++ (word order 8 size ++ rest)))))

  at_info : get_range attributes 4 2 ≡ some (word order 2 (units * 2 ^ 10 + layout))
  at_info =
      let l = length-word order 4 sa_magic in
      let m = length-word order 2 (units * 2 ^ 10 + layout) in
      rw (l, m) at
        (get_range-middle (word order 4 sa_magic) (word order 2 (units * 2 ^ 10 + layout))
          (pad ++ (mode ++ (word order 8 size ++ rest))))

  -- What stands before the size.
  abbrev front : List ℕ
  front = word order 4 sa_magic ++ (word order 2 (units * 2 ^ 10 + layout) ++ (pad ++ mode))

  split_front : attributes ≡ front ++ (word order 8 size ++ rest)
  split_front = sym (
      append_assoc (word order 4 sa_magic) (word order 2 (units * 2 ^ 10 + layout) ++ (pad ++ mode))
        (word order 8 size ++ rest)
      ∙ ap (◌++◌ (word order 4 sa_magic)) (
          append_assoc (word order 2 (units * 2 ^ 10 + layout)) (pad ++ mode)
            (word order 8 size ++ rest)
          ∙ ap (◌++◌ (word order 2 (units * 2 ^ 10 + layout)))
              (append_assoc pad mode (word order 8 size ++ rest))))

  at_size :
      length pad + 6 ≡ units * 8
      → length mode ≡ 8
      → get_range attributes (units * 8 + 8) 8 ≡ some (word order 8 size)
  at_size header moded =
      let before : length front ≡ units * 8 + 8 = omega (
        arith,
        length-append (word order 4 sa_magic)
            (word order 2 (units * 2 ^ 10 + layout) ++ (pad ++ mode)),
        length-append (word order 2 (units * 2 ^ 10 + layout)) (pad ++ mode),
        length-append pad mode,
        length-word order 4 sa_magic,
        length-word order 2 (units * 2 ^ 10 + layout),
      ) in
      ap (λ t. get_range t (units * 8 + 8) 8) split_front
      ∙ ap (λ n. get_range (front ++ (word order 8 size ++ rest)) n 8) (sym before)
      ∙ ap (get_range (front ++ (word order 8 size ++ rest)) (length front))
          (sym (length-word order 8 size))
      ∙ get_range-middle front (word order 8 size) rest

  -- The size that ZFS writes into a bonus is the one that is read back, in both byte orders, for
  -- every header size up to 63 units of eight bytes, every layout number and whatever follows.
  pub sa_file_size-attributes :
      units < 64
      → layout < 2 ^ 10
      → length pad + 6 ≡ units * 8
      → length mode ≡ 8
      → size < 2 ^ 64
      → sa_file_size order attributes ≡ ok size
  unfolding sa_file_size
  sa_file_size-attributes u l header moded s =
      let magic : from_bytes order (word order 4 sa_magic) ≡ sa_magic =
        from_bytes-word4 order sa_magic (omega arith) in
      let info : from_bytes order (word order 2 (units * 2 ^ 10 + layout))
          ≡ units * 2 ^ 10 + layout =
        from_bytes-word2 order (units * 2 ^ 10 + layout) (omega arith) in
      let hdrsz : (units * 2 ^ 10 + layout) / 2 ^ 10 % 2 ^ 6 * 8 ≡ units * 8 = omega arith in
      >>=-of-ok (ok_or (get_range attributes 0 4) sa_unsupported) _
        (ap (λ o. ok_or o sa_unsupported) at_magic)
        (>>=-of-ok
          (refuse_if (not (from_bytes order (word order 4 sa_magic) == sa_magic)) sa_unsupported) _
          (ap (λ n. refuse_if (not (n == sa_magic)) sa_unsupported) magic)
          (>>=-of-ok (ok_or (get_range attributes 4 2) sa_unsupported) _
            (ap (λ o. ok_or o sa_unsupported) at_info)
            (>>=-of-ok
              (ok_or
                (get_range attributes
                  (from_bytes order (word order 2 (units * 2 ^ 10 + layout)) / 2 ^ 10 % 2 ^ 6 * 8
                    + sa_size_offset_std)
                  8)
                sa_unsupported)
              _
              (ap
                  (λ n.
                    ok_or (get_range attributes (n / 2 ^ 10 % 2 ^ 6 * 8 + sa_size_offset_std) 8)
                      sa_unsupported)
                  info
                ∙ ap (λ n. ok_or (get_range attributes (n + sa_size_offset_std) 8) sa_unsupported)
                    hdrsz
                ∙ ap (λ o. ok_or o sa_unsupported) (at_size header moded))
              (ap ok (from_bytes-word8 order size s)))))
