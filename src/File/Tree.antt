-- ===== src/File/Tree.antt =====
-- The indirect tree of src/file.rs: each entry of an indirect block covers a run of consecutive
-- blocks, and the walk is that of the subtree with what is left of the block number.
use native.Mathlib.Nat.{
  div-add-mod', mod-lt, mul-add-div_right, mul-add-mod_self_right, div-eq_of_lt, mod-eq_of_lt,
  one-le-pow, pow-suc,
}
use lamzfs.Common.{
  ℕ, zero, suc, ◌+◌, ◌*◌, ◌/◌, ◌%◌, ◌^◌, ◌<◌, ◌≡◌, refl, ap, sym, ◌∙◌, Option, none, some, List,
  arith, ◌==◌, if◌then◌else◌, get_range,
}
use lamzfs.Error.{Location, inconsistent}
use lamzfs.Outcome.{Outcome, ok, err, ok_or, ◌>>=◌, >>=-ext}
use lamzfs.Phys.{EndianOrder, BlockPointer}
use lamzfs.Vendored.{Vendored}
use lamzfs.BlockRead.{PoolMember}
use lamzfs.Vdev.{read_block_pointer}
use lamzfs.Vdev.Tree.{Topology}
use lamzfs.File.{blkptr_size, descend}

regroup : (q base d w m : ℕ) → q * (base * w) + (d * w + m) ≡ (q * base + d) * w + m
regroup q base d w m = omega arith

pow_add : (a b : ℕ) → 2 ^ (a + b) ≡ 2 ^ a * 2 ^ b
pow_add a zero =
    let z : a + 0 ≡ a = omega arith in
    let one : 2 ^ a ≡ 2 ^ a * 1 = omega arith in ap (λ k. 2 ^ k) z ∙ one
pow_add a (suc b) =
    let s : a + suc b ≡ suc (a + b) = omega arith in
    rw s (rw (pow-suc 2 (a + b), pow-suc 2 b, pow_add a b) (omega arith))

-- A number by its digits below `w * base`.
split_rest : (n w base : ℕ) → 0 < w → 0 < base → n % (base * w) ≡ n / w % base * w + n % w
split_rest n w base hw hb =
    let a : n / w * w + n % w ≡ n = div-add-mod' n w in
    let b : n / w / base * base + n / w % base ≡ n / w = div-add-mod' (n / w) base in
    let low : n / w % base * w + n % w < base * w = grind (arith, mod-lt n hw, mod-lt (n / w) hb) in
    let whole : n / w / base * (base * w) + (n / w % base * w + n % w) ≡ n =
      regroup (n / w / base) base (n / w % base) w (n % w) ∙ ap (λ k. k * w + n % w) b ∙ a in
    ap (λ k. k % (base * w)) (sym whole)
    ∙ mul-add-mod_self_right (n / w / base) (base * w) (n / w % base * w + n % w)
    ∙ mod-eq_of_lt low

digit_of_rest : (n w base : ℕ) → 0 < w → 0 < base → n % (base * w) / w ≡ n / w % base
digit_of_rest n w base hw hb =
    let z : n / w % base + 0 ≡ n / w % base = omega arith in
    ap (λ k. k / w) (split_rest n w base hw hb)
    ∙ mul-add-div_right hw (n / w % base) (n % w)
    ∙ ap (λ k. n / w % base + k) (div-eq_of_lt (mod-lt n hw))
    ∙ z

rest_of_rest : (n w base : ℕ) → 0 < w → 0 < base → n % (base * w) % w ≡ n % w
rest_of_rest n w base hw hb =
    ap (λ k. k % w) (split_rest n w base hw hb)
    ∙ mul-add-mod_self_right (n / w % base) w (n % w)
    ∙ mod-eq_of_lt (mod-lt n hw)

module _ (v : Vendored) (members : List PoolMember) (topo : Topology) (order : EndianOrder) where
  -- Block number `rest` below an indirect block with `l` levels under it: each of its entries covers
  -- `2 ^ (shift * (l - 1))` blocks, and what is left is the number of the block below the entry.
  unfoldable pub below : ℕ → ℕ → ℕ → List ℕ → Outcome (Option (List ℕ))
  below shift zero rest current = err (inconsistent "indirect_walk" (Location.indirect 0 0))
  below shift (suc l) rest current = do
    slice ←
        ok_or (get_range current (rest / 2 ^ (shift * l) * blkptr_size) blkptr_size)
          (inconsistent "indirect_oob" (Location.indirect 0 (suc l)))
    child ←
        ok_or (v.block_pointer_decode order slice)
          (inconsistent "indirect_bp_decode" (Location.indirect 0 (suc l)))
    elim child [
      | none ↦ ok none
      | some bp ↦ do
        block ← read_block_pointer v members topo bp
        let deeper = below shift l (rest % 2 ^ (shift * l)) block
        if l == 0 then ok (some block) else deeper
    ]

  level_size : (shift l : ℕ) → 2 ^ (shift * suc l) ≡ 2 ^ shift * 2 ^ (shift * l)
  level_size shift l =
      let s : shift * suc l ≡ shift + shift * l = omega arith in rw s (pow_add shift (shift * l))

  positive : (k : ℕ) → 0 < 2 ^ k
  positive k = one-le-pow k 2 (omega arith)

  -- The walk from an indirect block, which takes its entry numbers from the digits of the block
  -- number, is the walk by subtrees: with `l` levels below, the block has `2 ^ (shift * l)` blocks
  -- under it, and reads the one whose number is left by division.
  pub descend-below :
      (shift blkid l : ℕ) (current : List ℕ)
      → descend v members topo order shift blkid l current
        ≡ below shift l (blkid % 2 ^ (shift * l)) current
  unfolding descend below
  descend-below shift blkid zero current = refl
  descend-below shift blkid (suc l) current =
      let w = 2 ^ (shift * l) in
      let size = level_size shift l in
      let digit : blkid % 2 ^ (shift * suc l) / w ≡ blkid / w % 2 ^ shift =
        rw size (digit_of_rest blkid w (2 ^ shift) (positive (shift * l)) (positive shift)) in
      let left : blkid % 2 ^ (shift * suc l) % w ≡ blkid % w =
        rw size (rest_of_rest blkid w (2 ^ shift) (positive (shift * l)) (positive shift)) in
      rw digit (
        >>=-ext (ok_or (get_range current (blkid / w % 2 ^ shift * blkptr_size) blkptr_size) _) _ _
          λ slice. >>=-ext (ok_or (v.block_pointer_decode order slice) _) _ _ λ child.
            at child (λ block.
              descend-below shift blkid l block ∙ ap (λ k. below shift l k block) (sym left)))
    where
      at :
          (child : Option BlockPointer)
          → ((block : List ℕ)
              → descend v members topo order shift blkid l block
                ≡ below shift l (blkid % 2 ^ (shift * suc l) % 2 ^ (shift * l)) block)
          → ◌≡◌ {A = Outcome (Option (List ℕ))}
              (elim child [
                | none ↦ ok none
                | some bp ↦ read_block_pointer v members topo bp >>= λ block.
                    if l == 0
                    then ok (some block)
                    else descend v members topo order shift blkid l block
              ])
              (elim child [
                | none ↦ ok none
                | some bp ↦ read_block_pointer v members topo bp >>= λ block.
                    if l == 0
                    then ok (some block)
                    else below shift l (blkid % 2 ^ (shift * suc l) % 2 ^ (shift * l)) block
              ])
      at none h = refl
      at (some bp) h =
          >>=-ext (read_block_pointer v members topo bp) _ _
            λ block. ap (λ o. if l == 0 then ok (some block) else o) (h block)
