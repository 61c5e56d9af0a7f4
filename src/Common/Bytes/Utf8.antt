-- ===== src/Common/Bytes/Utf8.antt =====
-- `String::from_utf8_lossy` of the Rust standard library, on bytes: each maximal invalid piece of a
-- sequence becomes U+FFFD, and valid UTF-8 is left alone.
use Prim.Native.Nat.{ℕ, zero, suc, ◌+◌, ◌<◌}
use mathlib.Core.Path.{◌≡◌, refl, ap}
use mathlib.Core.Bool.{Bool, ◌&&◌}
use mathlib.Core.List.{List, [], ◌∷◌, ◌++◌}
use native.Mathlib.Omega.{arith}
use lamzfs.Common.Tests.{ltb, leb, ◌==◌, if◌then◌else◌}
use lamzfs.Common.Lists.{length, take, drop}

between : ℕ → ℕ → ℕ → Bool
between lo hi x = leb lo x && leb x hi

continuation : ℕ → Bool
unfolding between
continuation b = between 128 191 b

-- The width that a first byte announces; 0 for a byte that starts nothing.
width : ℕ → ℕ
unfolding between
width b =
    if ltb b 128
    then 1
    else if between 194 223 b
    then 2
    else if between 224 239 b
    then 3
    else if between 240 244 b
    then 4
    else 0

-- The second byte of a sequence of three or four, which excludes overlong forms and surrogates.
second : ℕ → ℕ → Bool
unfolding between
second b c =
    if b == 224
    then between 160 191 c
    else if b == 237
    then between 128 159 c
    else if b == 240
    then between 144 191 c
    else if b == 244
    then between 128 143 c
    else between 128 191 c

-- How many of the bytes that follow the first belong to its sequence, of `n` wanted.
follow : ℕ → List ℕ → ℕ
follow zero bs = 0
follow (suc n) [] = 0
follow (suc n) (b ∷ bs) = let rest = follow n bs in if continuation b then rest + 1 else 0

tail_len : ℕ → ℕ → List ℕ → ℕ
unfolding follow continuation second
tail_len b zero bs = 0
tail_len b (suc n) [] = 0
tail_len b (suc n) (c ∷ bs) = if second b c then follow n bs + 1 else 0

abbrev replacement : List ℕ
replacement = 0xef ∷ 0xbf ∷ 0xbd ∷ []

-- One piece of the text: what it decodes to, and how many bytes after the first it takes.
piece : ℕ → List ℕ → List ℕ × ℕ
unfolding width tail_len
piece b bs =
    let w = width b in
    if w == 0
    then (replacement, 0)
    else if w == 1
    then (b ∷ [], 0)
    else let n = tail_len b (if w == 2 then 1 else if w == 3 then 2 else 3) bs in
      if n + 1 == w then (b ∷ take n bs, n) else (replacement, n)

lossy : ℕ → List ℕ → List ℕ
lossy zero bs = []
lossy (suc fuel) [] = []
lossy (suc fuel) (b ∷ bs) = let (out, n) = piece b bs in out ++ lossy fuel (drop n bs)

-- The fuel is the length: each piece takes at least one byte.
unfoldable pub utf8_lossy : List ℕ → List ℕ
unfolding lossy piece
utf8_lossy bs = lossy (length bs) bs

abbrev pub IsAscii : List ℕ → Type 0
IsAscii [] = Unit
IsAscii (b ∷ bs) = (b < 128) × IsAscii bs

piece_ascii : (b : ℕ) (bs : List ℕ) → b < 128 → piece b bs ≡ (b ∷ [], 0)
unfolding piece
piece_ascii b bs h = ground arith

pub utf8_lossy_ascii : (bs : List ℕ) → IsAscii bs → utf8_lossy bs ≡ bs
unfolding utf8_lossy
utf8_lossy_ascii [] h = refl
utf8_lossy_ascii (b ∷ bs) h = rw (piece_ascii b bs h.0) (ap (◌∷◌ b) (utf8_lossy_ascii bs h.1))

lossy_valid_and_invalid :
    utf8_lossy (97 ∷ 0xc3 ∷ 0xa9 ∷ 0xe2 ∷ 0x82 ∷ 98 ∷ 0xff ∷ [])
    ≡ 97 ∷ 0xc3 ∷ 0xa9 ∷ 0xef ∷ 0xbf ∷ 0xbd ∷ 98 ∷ 0xef ∷ 0xbf ∷ 0xbd ∷ []
unfolding utf8_lossy
lossy_valid_and_invalid = refl
