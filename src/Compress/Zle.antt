-- ===== src/Compress/Zle.antt =====
-- `zle_decode` of src/compress.rs: a control byte below 0x40 precedes that many bytes and one more;
-- a control byte from 0x40 stands for a run of zeros.
pub mod Runs
pub mod Bounds
pub mod Cursor
pub mod Inputs
use lamzfs.Common.{
  ℕ, zero, suc, ◌+◌, ◌-◌, Option, none, some, List, [], ◌∷◌, ◌++◌, ◌≡◌, refl, ltb, leb,
  if◌then◌else◌, length, take, drop, replicate, get_elem?, get_range,
}
use lamzfs.Error.{Error, bad_compression}
use lamzfs.Outcome.{Outcome, ok, err, panic, ok_or, ◌>>=◌}

abbrev pub zle_bad : Error
zle_bad = bad_compression 14 "zle_bad"

-- `dst.get_mut(d..d + n)` and `copy_from_slice` of `n` bytes.
unfoldable pub write_at : List ℕ → ℕ → List ℕ → Option (List ℕ)
write_at dst d run =
    if leb (d + length run) (length dst)
    then some (take d dst ++ run ++ drop (d + length run) dst)
    else none

-- The `while d < lsize` loop, at the cursors `s` and `d`. Out of fuel it panics, which the source
-- cannot do: each round moves `d`.
unfoldable pub zle_loop : ℕ → List ℕ → ℕ → List ℕ → ℕ → ℕ → Outcome (List ℕ)
unfolding write_at
zle_loop zero src lsize dst s d = panic
zle_loop (suc fuel) src lsize dst s d =
    let round : Outcome (List ℕ) = (do
      c ← ok_or (get_elem? src s) zle_bad
      let literal : Outcome (List ℕ) = (do
        run ← ok_or (get_range src (s + 1) (c + 1)) zle_bad
        out ← ok_or (write_at dst d run) zle_bad
        zle_loop fuel src lsize out (s + 1 + (c + 1)) (d + (c + 1)))
      let zeros : Outcome (List ℕ) =
          (let n = c - 0x40 + 1 in
            let rest = zle_loop fuel src lsize dst (s + 1) (d + n) in
            if ltb lsize (d + n) then err zle_bad else rest)
      if ltb c 0x40 then literal else zeros) in
    if ltb d lsize then round else ok dst

-- One round for each byte of the output, and one to leave the loop.
unfoldable pub zle_decode : List ℕ → ℕ → Outcome (List ℕ)
unfolding zle_loop
zle_decode src lsize = zle_loop (lsize + 1) src lsize (replicate lsize 0) 0 0

zle_literals_and_zero_runs :
    zle_decode (0x02 ∷ b'a' ∷ b'b' ∷ b'c' ∷ 0x43 ∷ 0x00 ∷ b'z' ∷ []) 8
    ≡ ok (b'a' ∷ b'b' ∷ b'c' ∷ 0 ∷ 0 ∷ 0 ∷ 0 ∷ b'z' ∷ [])
unfolding zle_decode
zle_literals_and_zero_runs = refl
