-- ===== src/Common/Text.antt =====
-- Texts as their bytes.
use Prim.Native.Nat.{ℕ}
use Prim.Native.Char.{code}
use Prim.Native.String.{String}
use mathlib.Core.List.{List, [], ◌∷◌}
use mathlib.Core.Option.{Option, none, some}
use cp.Common.Tests.{◌==◌, if◌then◌else◌}

-- The bytes of an ASCII text
abbrev pub codes : String → List ℕ
codes String.[] = []
codes (String.◌∷◌ c s) = code c ∷ codes s

-- `str::strip_prefix` of one character
abbrev pub strip_prefix : ℕ → List ℕ → Option (List ℕ)
strip_prefix c [] = none
strip_prefix c (x ∷ text) = if x == c then some text else none

-- What stands before the last slash: `rfind('/')` and the slice up to it
unfoldable pub before_last_slash : List ℕ → Option (List ℕ)
before_last_slash [] = none
before_last_slash (c ∷ path) = elim (before_last_slash path) [
  | some front ↦ some (c ∷ front)
  | none ↦ if c == 47 then some [] else none
]
