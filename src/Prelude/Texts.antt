-- ===== src/Prelude/Texts.antt =====
-- A text as the list of its characters, and blank texts.
use Prim.Native.Nat.{ℕ}
use Prim.Native.Char.{Char, code}
use Prim.Native.String.{String}
use mathlib.Core.Bool.{Bool, true, ◌&&◌, ◌||◌}
use mathlib.Core.List.{List, [], ◌∷◌}
use orihsus.Prelude.Tests.{leb, ◌==◌}

-- `String::from_iter`, and `str::chars`.
abbrev pub of_chars : List Char → String
of_chars (first ∷ rest) = String.◌∷◌ first (of_chars rest)
of_chars [] = String.[]

abbrev pub chars : String → List Char
chars (String.◌∷◌ first rest) = first ∷ chars rest
chars String.[] = []

-- `char::is_whitespace`: the code points of the property White_Space.
unfoldable pub is_whitespace : ℕ → Bool
is_whitespace c =
    (leb 9 c && leb c 13)
    || c == 32
    || c == 0x85
    || c == 0xa0
    || c == 0x1680
    || (leb 0x2000 c && leb c 0x200a)
    || c == 0x2028
    || c == 0x2029
    || c == 0x202f
    || c == 0x205f
    || c == 0x3000

-- `s.trim().is_empty()`.
unfoldable pub is_blank : String → Bool
unfolding is_whitespace
is_blank (String.◌∷◌ first rest) = is_whitespace (code first) && is_blank rest
is_blank String.[] = true
