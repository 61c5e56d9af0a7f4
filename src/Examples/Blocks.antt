-- ===== src/Examples/Blocks.antt =====
-- Examples of reads of one block.
use mathlib.Core.Option.{some-injective}
use lamzfs.Common.{
  ℕ, ap, sym, ◌∙◌, some, replicate, ◌≡◌, ◌≢◌, refl, inl, inr, none, List, [], ◌∷◌, ◌++◌, ◌*◌, ◌≤◌,
  arith, InList, length, bytes_eq,
}
use lamzfs.Outcome.{Outcome, ok, panic, IfOk, ok-injective}
use lamzfs.Phys.{regular, CompressionType}
use lamzfs.Vdev.{read_block_pointer, check_dvas}
use lamzfs.Vdev.Tree.{flatten, read_order, dva_byte_offset}
use lamzfs.Vdev.Copies.{ListedCopy}
use lamzfs.Vdev.Sound.{read_block_pointer_verified}
use lamzfs.Vdev.Heal.Children.{GoodCopy, OnlyCopy}
use lamzfs.Vdev.Heal.{PassesChecks, read_block_pointer_heals}
use lamzfs.Vdev.Safe.{read_block_pointer-ne-panic}
use lamzfs.BlockRead.{PoolMember, read_exact, fill}
use lamzfs.Cksum.{verify_block}
use lamzfs.Compress.{decompress, max_block_lsize}
use lamzfs.Compress.Sound.{decompress_lem}
use lamzfs.Compress.Zle.{zle_decode}
use lamzfs.Compress.Zle.Runs.{literal, zeros, Run, encode, expand, zle_decode-encode}
use lamzfs.Examples.{
  toy, toy_words, sevens, sevens_pointer, dva_0, constant_device, one_disk, two_disks,
}

reads_sevens :
    read_block_pointer toy (constant_device 7 ∷ []) one_disk (regular sevens_pointer) ≡ ok sevens
unfolding read_block_pointer toy_words dva_byte_offset read_exact verify_block bytes_eq fill
    decompress
reads_sevens = refl

read_block_pointer_verified_example :
    ListedCopy toy none sevens_pointer 512 512 (flatten sevens_pointer.dvas) (ok sevens)
read_block_pointer_verified_example =
    read_block_pointer_verified toy (constant_device 7 ∷ []) one_disk sevens_pointer sevens
      reads_sevens

sevens_PassesChecks :
    PassesChecks toy (constant_device 9 ∷ constant_device 7 ∷ []) two_disks sevens_pointer
unfolding check_dvas flatten
sevens_PassesChecks = record {
  size_lower = omega arith;
  size_upper = omega arith;
  addresses = refl;
}

sevens_on_second :
    GoodCopy toy none sevens_pointer 512 512
      (constant_device 9 ∷ constant_device 7 ∷ [])
      (read_order two_disks.layout)
      dva_0
unfolding dva_byte_offset read_order read_exact verify_block toy_words fill bytes_eq
sevens_on_second = record {
  byte = 4 * 1024 * 1024;
  at = refl;
  child = 1;
  in_order = inr (inl refl);
  member = constant_device 7;
  is_member = refl;
  raw = sevens;
  reads = refl;
  accepted = refl;
}

dva_0_listed : InList dva_0 (flatten sevens_pointer.dvas)
unfolding flatten
dva_0_listed = inl refl

abbrev corrupt_mirror : List PoolMember
corrupt_mirror = constant_device 9 ∷ constant_device 7 ∷ []

-- The bytes that the address has on each of the two disks.
abbrev copy_of : ℕ → List ℕ
copy_of n = replicate 512 n

reads_copy :
    (n byte : ℕ) (member : PoolMember) (other : List ℕ)
    → dva_byte_offset dva_0.offset ≡ some byte
    → constant_device n ≡ member
    → read_exact member byte 512 0 "io_block" ≡ ok other
    → copy_of n ≡ other
unfolding dva_byte_offset read_exact fill
reads_copy n byte member other at is_member reads =
    let here : 4 * 1024 * 1024 ≡ byte = cc in
    let read : ◌≡◌ {A = Outcome (List ℕ)} (ok (copy_of n)) (ok other) =
      ap (λ m. read_exact m (4 * 1024 * 1024) 512 0 "io_block") is_member
      ∙ ap (λ b. read_exact member b 512 0 "io_block") here
      ∙ reads in
    ok-injective read

nines_rejected :
    (other : List ℕ)
    → copy_of 9 ≡ other
    → verify_block toy sevens_pointer.checksum_type sevens_pointer.order other
        sevens_pointer.checksum_value none 0 dva_0.offset
      ≢ ok tt
unfolding verify_block toy_words bytes_eq
nines_rejected other same h =
    let bad : ◌≡◌ {A = Outcome (Unit {0})}
        (verify_block toy sevens_pointer.checksum_type sevens_pointer.order (copy_of 9)
          sevens_pointer.checksum_value none 0 dva_0.offset)
        (ok tt) =
      ap
        (λ x.
          verify_block toy sevens_pointer.checksum_type sevens_pointer.order x
            sevens_pointer.checksum_value none 0 dva_0.offset)
        same
      ∙ h in
    cc

only_sevens :
    OnlyCopy toy none sevens_pointer 512 512 corrupt_mirror
      (read_order two_disks.layout)
      (flatten sevens_pointer.dvas)
      sevens
unfolding flatten read_order
only_sevens dva byte child member other (inr l) at c m reads good = absurd l
only_sevens dva byte child member other (inl p) at c m reads good =
    let good_0 = rw p at good in
    let same : (n : ℕ) → constant_device n ≡ member → copy_of n ≡ other =
      λ n is. reads_copy n byte member other (rw p at at) is (rw p at reads) in
    elim c [
      | inl q ↦
          let is : constant_device 9 ≡ member = some-injective _ _ (rw q at m) in
          absurd (nines_rejected other (same 9 is) good_0)
      | inr (inl q) ↦
          let is : constant_device 7 ≡ member = some-injective _ _ (rw q at m) in sym (same 7 is)
      | inr (inr x) ↦ absurd x
    ]

read_block_pointer_heals_example :
    read_block_pointer toy corrupt_mirror two_disks (regular sevens_pointer) ≡ ok sevens
unfolding decompress sevens_on_second
read_block_pointer_heals_example =
    read_block_pointer_heals toy corrupt_mirror two_disks sevens_pointer dva_0 sevens_PassesChecks
      dva_0_listed sevens_on_second only_sevens

read_block_pointer-ne-panic_example :
    read_block_pointer toy (constant_device 9 ∷ []) one_disk (regular sevens_pointer) ≢ panic
read_block_pointer-ne-panic_example =
    read_block_pointer-ne-panic toy (constant_device 9 ∷ []) one_disk (regular sevens_pointer)

decompress_lem_example :
    (decompress toy CompressionType.zle (2 ∷ 8 ∷ 9 ∷ 7 ∷ 65 ∷ []) 5 ≢ panic)
    × IfOk
        (λ bs. (length bs ≡ 5) × (5 ≤ max_block_lsize))
        (decompress toy CompressionType.zle (2 ∷ 8 ∷ 9 ∷ 7 ∷ 65 ∷ []) 5)
decompress_lem_example = decompress_lem toy (2 ∷ 8 ∷ 9 ∷ 7 ∷ 65 ∷ []) 5 CompressionType.zle

abbrev runs_0 : List Run
runs_0 = literal (8 ∷ 9 ∷ 7 ∷ []) ∷ zeros 2 ∷ literal (4 ∷ []) ∷ []

zle_decode-encode_example :
    zle_decode (encode runs_0 ++ (255 ∷ [])) (length (expand runs_0)) ≡ ok (expand runs_0)
zle_decode-encode_example =
    zle_decode-encode runs_0 (255 ∷ [])
      ((omega arith, omega arith), ((omega arith, omega arith), ((omega arith, omega arith), tt)))
