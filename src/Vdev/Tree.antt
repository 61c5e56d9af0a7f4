-- ===== src/Vdev/Tree.antt =====
-- The topology of src/vdev.rs, the offset of a DVA on a leaf, and what the read paths share.
use lamzfs.Common.{ℕ, ◌+◌, ◌*◌, ◌^◌, Option, none, some, List, [], ◌∷◌, ltb, if◌then◌else◌}
use lamzfs.Error.{Error}
use lamzfs.Outcome.{Outcome}

-- 4 MiB: two labels and the boot block.
abbrev pub label_reserve : ℕ
label_reserve = 4 * 1024 * 1024

abbrev pub sector_shift : ℕ
sector_shift = 9

abbrev pub ashift_max : ℕ
ashift_max = 16

pub data Layout : Type 0 where
  single : ℕ → Layout
  mirror : List ℕ → Layout
  raidz1 : List (Option ℕ) → ℕ → Layout

pub record Topology : Type 0 where
  pub layout : Layout
  pub checksum_salt : Option (List ℕ)

-- `iter().flatten()` over options.
unfoldable pub flatten {ℓ} : {A : Type ℓ} → List (Option A) → List A
flatten [] = []
flatten (none ∷ xs) = flatten xs
flatten (some x ∷ xs) = x ∷ flatten xs

layout_members : Layout → List ℕ
unfolding flatten
layout_members (single idx) = idx ∷ []
layout_members (mirror children) = children
layout_members (raidz1 children ashift) = flatten children

unfoldable pub topology_members : Topology → List ℕ
unfolding layout_members
topology_members t = layout_members t.layout

unfoldable pub read_order : Layout → List ℕ
read_order (single idx) = idx ∷ []
read_order (mirror children) = children
read_order (raidz1 children ashift) = []

-- `checked_mul(512)` and `checked_add(LABEL_RESERVE)` on 64 bits.
unfoldable pub dva_byte_offset : ℕ → Option ℕ
dva_byte_offset sector_offset =
    if ltb (sector_offset * 512) (2 ^ 64)
    then (if ltb (sector_offset * 512 + label_reserve) (2 ^ 64)
        then some (sector_offset * 512 + label_reserve)
        else none)
    else none

-- One copy of a block: `found` returns from the loop over the copies, `failed` goes on with `last`.
pub data Attempt : Type 0 where
  found : Outcome (List ℕ) → Attempt
  failed : Error → Attempt

-- What follows an attempt that failed, within a loop and at its end.
unfoldable pub or_next : Attempt → (Error → Attempt) → Attempt
or_next (found o) next = found o
or_next (failed e) next = next e

unfoldable pub or_else : Attempt → (Error → Outcome (List ℕ)) → Outcome (List ℕ)
or_else (found o) next = o
or_else (failed e) next = next e
