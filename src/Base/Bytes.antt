-- ===== src/Base/Bytes.antt =====
-- Bytes and texts as lists of numbers, and the 16-bit little-endian words of the wire formats.
use Prim.Native.Char.{code}
use Prim.Native.String.{String}
use Prim.Native.Nat.{ℕ, ◌+◌, ◌*◌, ◌/◌, ◌%◌, ◌<◌, ◌≤◌}
use mathlib.Core.Path.{◌≡◌}
use mathlib.Core.Bool.{Bool, true, false, ◌&&◌}
use mathlib.Core.List.{List, [], ◌∷◌}
use gpti84_plus.Base.Tests.{◌==◌}
use native.Mathlib.Omega.{arith}

abbrev pub Bytes : Type 0
Bytes = List ℕ

abbrev pub IsByte : ℕ → Type 0
IsByte b = b < 256

-- Printable ASCII.
abbrev pub IsPrintable : ℕ → Type 0
IsPrintable c = (0x20 ≤ c) × (c < 0x7F)

-- The code points of a text; these are its bytes when the text is ASCII.
abbrev pub codes : String → Bytes
codes String.[] = []
codes (String.◌∷◌ c s) = code c ∷ codes s

-- `a == b` of two byte strings
abbrev pub same_bytes : Bytes → Bytes → Bool
same_bytes [] [] = true
same_bytes (a ∷ xs) (b ∷ ys) = (a == b) && same_bytes xs ys
same_bytes _ _ = false

-- `n & 0xFF` and `(n >> 8) & 0xFF`
abbrev pub lo_byte : ℕ → ℕ
lo_byte n = n % 256

abbrev pub hi_byte : ℕ → ℕ
hi_byte n = n / 256 % 256

-- `lo | (hi << 8)`, for a byte `lo`
abbrev pub word : ℕ → ℕ → ℕ
word lo hi = lo + hi * 256

pub word_of_bytes : (n : ℕ) → word (lo_byte n) (hi_byte n) ≡ n % 65536
word_of_bytes n = omega arith
