-- ===== src/Prelude/Text.antt =====
-- Texts as Rust's `String`: the bytes of their UTF-8 form, and the decimal form of a number.
use Prim.Native.Nat.{ℕ, zero, suc, ◌+◌, ◌/◌, ◌%◌}
use Prim.Native.Char.{Char, code}
use Prim.Native.String.{String}
use Prim.Native.String
use mathlib.Core.List.{List, [], ◌∷◌, ◌++◌}
use rs1541fs.Prelude.Tests.{ltb, if◌then◌else◌}

infixr 65 ◌<+>◌
-- Rust's `format!` of two parts.
abbrev pub ◌<+>◌ : String → String → String
s <+> t = String.◌++◌ s t

-- The UTF-8 form of one code point.
abbrev utf8 : ℕ → List ℕ
utf8 c =
    if ltb c 0x80
    then c ∷ []
    else if ltb c 0x800
    then (0xC0 + c / 64) ∷ (0x80 + c % 64) ∷ []
    else if ltb c 0x10000
    then (0xE0 + c / 4096) ∷ (0x80 + c / 64 % 64) ∷ (0x80 + c % 64) ∷ []
    else (0xF0 + c / 262144) ∷ (0x80 + c / 4096 % 64) ∷ (0x80 + c / 64 % 64) ∷ (0x80 + c % 64) ∷ []

-- `as_bytes`, `into_bytes`.
abbrev pub bytes : String → List ℕ
bytes String.[] = []
bytes (String.◌∷◌ c s) = utf8 (code c) ++ bytes s

abbrev pub digit : ℕ → Char
digit zero = "0"
digit (suc zero) = "1"
digit (suc (suc zero)) = "2"
digit (suc (suc (suc zero))) = "3"
digit (suc (suc (suc (suc zero)))) = "4"
digit (suc (suc (suc (suc (suc zero))))) = "5"
digit (suc (suc (suc (suc (suc (suc zero)))))) = "6"
digit (suc (suc (suc (suc (suc (suc (suc zero))))))) = "7"
digit (suc (suc (suc (suc (suc (suc (suc (suc zero)))))))) = "8"
digit _ = "9"

unfoldable pub decimal : ℕ → ℕ → String → String
decimal zero n rest = rest
decimal (suc fuel) n rest =
    let shown = String.◌∷◌ (digit (n % 10)) rest in
    let more = decimal fuel (n / 10) shown in if ltb n 10 then shown else more

-- `to_string` of an unsigned number. A number of w bits has at most w digits, and 64 are enough
-- for every integer type of the program.
unfoldable pub to_string : ℕ → String
unfolding decimal
to_string n = decimal 64 n ""
