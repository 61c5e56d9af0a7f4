-- ===== src/Vdev/Copies.antt =====
-- Of the block reads of src/vdev.rs: what they return was read from a listed copy and verified, and
-- a copy that verifies is not missed.
use lamzfs.Common.{ℕ, ◌≡◌, refl, ◌⊎◌, inl, inr, Option, List, length, InList}
use lamzfs.Error.{Error}
use lamzfs.Outcome.{Outcome, ok}
use lamzfs.Phys.{Dva, BlockPointerRegular}
use lamzfs.Vendored.{Vendored}
use lamzfs.Cksum.{verify_block}
use lamzfs.Compress.{decompress}
use lamzfs.Vdev.Tree.{Attempt, found, failed, or_else}

-- `raw` are the physical bytes of a copy at `dva` whose checksum verifies, and `result` is what they
-- decompress to.
pub record IsCopy (v : Vendored) (salt : Option (List ℕ)) (r : BlockPointerRegular)
    (psize lsize : ℕ) (dva : Dva) (result : Outcome (List ℕ)) : Type 0 where
  pub raw : List ℕ
  pub whole : length raw ≡ psize
  pub accepted :
      verify_block v r.checksum_type r.order raw r.checksum_value salt dva.vdev dva.offset ≡ ok tt
  pub decoded : result ≡ decompress v r.compression raw lsize

-- Of an attempt: if it returns, it returns a verified copy at `dva`.
abbrev pub FoundCopy :
    Vendored → Option (List ℕ) → BlockPointerRegular → ℕ → ℕ → Dva → Attempt → Type 0
FoundCopy v salt r psize lsize dva (found o) = IsCopy v salt r psize lsize dva o
FoundCopy v salt r psize lsize dva (failed e) = Unit

-- Of a result: it is a verified copy at one of the addresses.
abbrev pub ListedCopy :
    Vendored → Option (List ℕ) → BlockPointerRegular → ℕ → ℕ → List Dva → Outcome (List ℕ) → Type 0
ListedCopy v salt r psize lsize dvas result =
    (dva : Dva) × InList dva dvas × IsCopy v salt r psize lsize dva result

-- An attempt that returns this result, or fails and leaves it to the next.
abbrev pub Settled : Outcome (List ℕ) → Attempt → Type 0
Settled result a = (a ≡ found result) ⊎ ((e : Error) × (a ≡ failed e))

pub or_else-Settled :
    (result : Outcome (List ℕ)) (a : Attempt) (next : Error → Outcome (List ℕ))
    → Settled result a
    → ((e : Error) → a ≡ failed e → next e ≡ result)
    → or_else a next ≡ result
unfolding or_else
or_else-Settled result a next (inl h) k = rw (h, or_else) refl
or_else-Settled result a next (inr (e, h)) k = rw (h, or_else) (k e h)
