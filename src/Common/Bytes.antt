-- ===== src/Common/Bytes.antt =====
-- Byte order, the bytes of a text, and the standard library's `from_utf8_lossy`.
mod Utf8
pub use Utf8.{utf8_lossy_ascii, IsAscii}
unfoldable pub use Utf8.{utf8_lossy}
use Prim.Native.Char.{code}
use Prim.Native.String.{String}
use Prim.Native.Nat.{ℕ, zero, suc, ◌+◌, ◌*◌, ◌/◌, ◌%◌, ◌^◌}
use mathlib.Core.List.{List, [], ◌∷◌, ◌++◌}

-- The bytes of an ASCII text.
abbrev pub codes : String → List ℕ
codes String.[] = []
codes (String.◌∷◌ c s) = code c ∷ codes s

-- `uN::from_le_bytes`.
unfoldable pub from_le_bytes : List ℕ → ℕ
from_le_bytes [] = 0
from_le_bytes (b ∷ bs) = b + 256 * from_le_bytes bs

be_acc : ℕ → List ℕ → ℕ
be_acc acc [] = acc
be_acc acc (b ∷ bs) = be_acc (acc * 256 + b) bs

-- `uN::from_be_bytes`.
unfoldable pub from_be_bytes : List ℕ → ℕ
unfolding be_acc
from_be_bytes = be_acc 0

-- `uN::to_be_bytes`, of `w` bytes.
unfoldable pub to_be_bytes : ℕ → ℕ → List ℕ
to_be_bytes zero n = []
to_be_bytes (suc w) n = to_be_bytes w (n / 256) ++ (n % 256) ∷ []
