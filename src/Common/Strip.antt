-- ===== src/Common/Strip.antt =====
-- Python's `str.strip`, by the code points that `str.isspace` takes as white space.
use Prim.Native.Nat.{ℕ}
use Prim.Native.String.{String}
use Prim.Native.Char.{Char, code}
use mathlib.Core.Bool.{Bool, ◌&&◌, ◌||◌}
use data_service.Common.Tests.{leb, if◌then◌else◌, ◌==◌}

abbrev between : ℕ → ℕ → ℕ → Bool
between low high n = leb low n && leb n high

unfoldable pub is_space : ℕ → Bool
is_space n =
    between 9 13 n
    || (between 28 32 n
        || (n == 133
            || (n == 160
                || (n == 5760
                    || (between 8192 8202 n
                        || (between 8232 8233 n || (n == 8239 || (n == 8287 || n == 12288))))))))

pub lstrip : String → String
unfolding is_space
lstrip String.[] = String.[]
lstrip (String.◌∷◌ c s) = let rest = lstrip s in if is_space (code c) then rest else String.◌∷◌ c s

keep : Char → String → String
unfolding is_space
keep c String.[] = if is_space (code c) then String.[] else String.◌∷◌ c String.[]
keep c (String.◌∷◌ d s) = String.◌∷◌ c (String.◌∷◌ d s)

pub rstrip : String → String
unfolding keep
rstrip String.[] = String.[]
rstrip (String.◌∷◌ c s) = keep c (rstrip s)

unfoldable pub strip : String → String
unfolding lstrip rstrip
strip s = rstrip (lstrip s)
