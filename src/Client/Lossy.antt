-- ===== src/Client/Lossy.antt =====
-- `String::from_utf8_lossy` of the standard library, on bytes: what is no character becomes U+FFFD.
use rs1541fs.Prelude.{ℕ, zero, suc, ◌&&◌, List, [], ◌∷◌, ◌++◌, ltb, leb, if◌then◌else◌}

abbrev pub replacement : List ℕ
replacement = 0xEF ∷ 0xBF ∷ 0xBD ∷ []

-- Between characters, or in one: the bytes so far, the range of the next byte, and the number of
-- bytes after it.
pub data Utf8State : Type 0 where
  between : Utf8State
  within : (seen : List ℕ) → (low high left : ℕ) → Utf8State

-- The output and the state after the first byte of a character.
abbrev pub first_byte : ℕ → List ℕ × Utf8State
first_byte b =
    if ltb b 0x80
    then (b ∷ [], between)
    else if ltb b 0xC2
    then (replacement, between)
    else if ltb b 0xE0
    then ([], within (b ∷ []) 0x80 0xBF 0)
    else if ltb b 0xE1
    then ([], within (b ∷ []) 0xA0 0xBF 1)
    else if ltb b 0xED
    then ([], within (b ∷ []) 0x80 0xBF 1)
    else if ltb b 0xEE
    then ([], within (b ∷ []) 0x80 0x9F 1)
    else if ltb b 0xF0
    then ([], within (b ∷ []) 0x80 0xBF 1)
    else if ltb b 0xF1
    then ([], within (b ∷ []) 0x90 0xBF 2)
    else if ltb b 0xF4
    then ([], within (b ∷ []) 0x80 0xBF 2)
    else if ltb b 0xF5
    then ([], within (b ∷ []) 0x80 0x8F 2)
    else (replacement, between)

abbrev continued : List ℕ → ℕ → ℕ → List ℕ × Utf8State
continued seen b zero = (seen ++ b ∷ [], between)
continued seen b (suc left) = ([], within (seen ++ b ∷ []) 0x80 0xBF left)

abbrev restarted : List ℕ × Utf8State → List ℕ × Utf8State
restarted (output, state) = (replacement ++ output, state)

abbrev pub next_byte : Utf8State → ℕ → List ℕ × Utf8State
next_byte between b = first_byte b
next_byte (within seen low high left) b =
    if leb low b && leb b high then continued seen b left else restarted (first_byte b)

unfoldable pub decode : Utf8State → List ℕ → List ℕ
decode between [] = []
decode (within _ _ _ _) [] = replacement
decode state (b ∷ bytes) = let (output, state') = next_byte state b in output ++ decode state' bytes

-- The bytes of the text that `String::from_utf8_lossy` gives.
unfoldable pub from_utf8_lossy : List ℕ → List ℕ
unfolding decode
from_utf8_lossy bytes = decode between bytes
