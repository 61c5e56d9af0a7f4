-- ===== src/Compress/Zle/Bounds.antt =====
-- `zle_decode` of src/compress.rs on any input: it does not panic, and fills its buffer.
use lamzfs.Common.{
  ℕ, zero, suc, ◌+◌, ◌-◌, ◌<◌, ◌≡◌, some, List, ◌++◌, arith, ltb, length, take, drop, replicate,
  get_elem?, get_range, length-append, length-take, length-drop, length-replicate, Bool-cases, inl,
  inr,
}
use lamzfs.Outcome.{
  ok, err, ok_or, ok_or-eq-ok, IfOk, IfOk->>=, IfOk-if, NoPanic, NoPanic->>=, NoPanic-ok_or,
  NoPanic-if,
}
use lamzfs.Compress.Zle.{zle_bad, write_at, zle_loop, zle_decode}

length-write_at :
    (dst : List ℕ) (d : ℕ) (run out : List ℕ)
    → write_at dst d run ≡ some out
    → length out ≡ length dst
unfolding write_at
length-write_at dst d run out h = ground (
  arith,
  length-append (take d dst ++ run) (drop (d + length run) dst),
  length-append (take d dst) run,
  length-take d dst,
  length-drop (d + length run) dst,
)

abbrev pub Filled : ℕ → List ℕ → Type 0
Filled lsize out = length out ≡ lsize

zle_loop-fills :
    (fuel : ℕ) (src : List ℕ) (lsize : ℕ) (dst : List ℕ) (s d : ℕ)
    → length dst ≡ lsize
    → IfOk (Filled lsize) (zle_loop fuel src lsize dst s d)
unfolding zle_loop
zle_loop-fills zero src lsize dst s d h = tt
zle_loop-fills (suc fuel) src lsize dst s d h =
    IfOk-if (Filled lsize) (ltb d lsize) _ (ok dst)
      (IfOk->>= (Filled lsize) (ok_or (get_elem? src s) zle_bad) _ λ c _.
        IfOk-if (Filled lsize) (ltb c 64) _ _
          (IfOk->>= (Filled lsize) (ok_or (get_range src (s + 1) (c + 1)) zle_bad) _ λ run _.
            IfOk->>= (Filled lsize) (ok_or (write_at dst d run) zle_bad) _ λ out e.
              zle_loop-fills fuel src lsize out (s + 1 + (c + 1)) (d + (c + 1)) (
                omega (
                  arith,
                  length-write_at dst d run out (ok_or-eq-ok (write_at dst d run) zle_bad e),
                )))
          (IfOk-if (Filled lsize) (ltb lsize (d + (c - 64 + 1))) (err zle_bad) _ tt
            (zle_loop-fills fuel src lsize dst (s + 1) (d + (c - 64 + 1)) h)))
      h

zle_loop-NoPanic :
    (fuel : ℕ) (src : List ℕ) (lsize : ℕ) (dst : List ℕ) (s d : ℕ)
    → lsize - d < fuel
    → NoPanic (zle_loop fuel src lsize dst s d)
unfolding zle_loop
zle_loop-NoPanic zero src lsize dst s d h = omega arith
zle_loop-NoPanic (suc fuel) src lsize dst s d h = elim (Bool-cases (ltb d lsize)) [
  | inr e ↦ rw e tt
  | inl e ↦
      let deeper = λ (t : ℕ) (out : List ℕ) (n : ℕ).
        zle_loop-NoPanic fuel src lsize out t (d + (n + 1)) (ground arith) in
      rw e (
        NoPanic->>= (ok_or (get_elem? src s) zle_bad) _ (NoPanic-ok_or (get_elem? src s) zle_bad)
          λ c _.
            NoPanic-if (ltb c 64) _ _
              (NoPanic->>= (ok_or (get_range src (s + 1) (c + 1)) zle_bad) _
                (NoPanic-ok_or _ zle_bad)
                λ run _.
                  NoPanic->>= (ok_or (write_at dst d run) zle_bad) _ (NoPanic-ok_or _ zle_bad)
                    λ out _. deeper (s + 1 + (c + 1)) out c)
              (NoPanic-if (ltb lsize (d + (c - 64 + 1))) (err zle_bad) _ tt
                (deeper (s + 1) dst (c - 64))))
]

pub length-zle_decode : (src : List ℕ) (lsize : ℕ) → IfOk (Filled lsize) (zle_decode src lsize)
unfolding zle_decode
length-zle_decode src lsize =
    zle_loop-fills (lsize + 1) src lsize (replicate lsize 0) 0 0 (length-replicate {A = ℕ} lsize 0)

pub zle_decode-NoPanic : (src : List ℕ) (lsize : ℕ) → NoPanic (zle_decode src lsize)
unfolding zle_decode
zle_decode-NoPanic src lsize =
    zle_loop-NoPanic (lsize + 1) src lsize (replicate lsize 0) 0 0 (omega arith)
