-- ===== src/Common/Case.antt =====
-- `str.lower` and `str.upper`, as far as the program compares their results with ASCII texts. Beyond
-- ASCII only the dotless i has an upper case that stands in one of those texts, and no character
-- has such a lower case: so what the two give for other characters is never compared.
use Prim.Native.Nat.{ℕ, ◌+◌, ◌-◌}
use Prim.Native.String.{String}
use Prim.Native.Char.{code}
use mathlib.Core.Bool.{Bool, true, false, ◌&&◌}
use mathlib.Core.List.{List, [], ◌∷◌, map}
use data_service.Common.Tests.{leb, if◌then◌else◌, ◌==◌}

-- The code points of a text.
abbrev pub codes : String → List ℕ
codes String.[] = []
codes (String.◌∷◌ c s) = code c ∷ codes s

unfoldable pub lower_code : ℕ → ℕ
lower_code c = if leb b'A' c && leb c b'Z' then c + 32 else c

unfoldable pub upper_code : ℕ → ℕ
upper_code c = if leb b'a' c && leb c b'z' then c - 32 else if c == 305 then b'I' else c

unfoldable pub lower : String → List ℕ
unfolding lower_code
lower s = map lower_code (codes s)

unfoldable pub upper : String → List ℕ
unfolding upper_code
upper s = map upper_code (codes s)

unfoldable pub same_codes : List ℕ → List ℕ → Bool
same_codes [] [] = true
same_codes (a ∷ xs) (b ∷ ys) = a == b && same_codes xs ys
same_codes xs ys = false
