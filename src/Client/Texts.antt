-- ===== src/Client/Texts.antt =====
-- What the standard library makes of texts: `trim`, `parse` of an integer, the first part of a split,
-- and the names in a path.
use Prim.Native.Char.{code}
use rs1541fs.Prelude.{
  ℕ, ◌+◌, ◌-◌, ◌*◌, ◌^◌, String, ◌<+>◌, Bool, true, false, ◌&&◌, ◌||◌, Option, none, some, leb,
  ◌==◌, nat_eq, string_eq, if◌then◌else◌,
}

-- `char::is_whitespace`
is_whitespace : ℕ → Bool
is_whitespace c =
    (leb 0x09 c && leb c 0x0D)
    || (c == 0x20)
    || (c == 0x85)
    || (c == 0xA0)
    || (c == 0x1680)
    || (leb 0x2000 c && leb c 0x200A)
    || (c == 0x2028)
    || (c == 0x2029)
    || (c == 0x202F)
    || (c == 0x205F)
    || (c == 0x3000)

unfoldable pub trim_start : String → String
unfolding is_whitespace
trim_start String.[] = ""
trim_start (String.◌∷◌ c s) =
    let rest = trim_start s in if is_whitespace (code c) then rest else String.◌∷◌ c s

abbrev is_empty : String → Bool
is_empty String.[] = true
is_empty (String.◌∷◌ c s) = false

unfoldable pub trim_end : String → String
unfolding is_whitespace
trim_end String.[] = ""
trim_end (String.◌∷◌ c s) =
    let rest = trim_end s in
    if is_whitespace (code c) && is_empty rest then "" else String.◌∷◌ c rest

unfoldable pub trim : String → String
unfolding trim_start trim_end
trim s = trim_end (trim_start s)

-- The value of decimal digits, behind those that are read.
unfoldable pub digits : ℕ → String → Option ℕ
digits n String.[] = some n
digits n (String.◌∷◌ c s) =
    let rest = digits (n * 10 + (code c - 48)) s in
    if leb 48 (code c) && leb (code c) 57 then rest else none

abbrev pub some_digits : String → Option ℕ
some_digits String.[] = none
some_digits (String.◌∷◌ c s) = digits 0 (String.◌∷◌ c s)

abbrev pub up_to : ℕ → Option ℕ → Option ℕ
up_to most none = none
up_to most (some n) = if leb n most then some n else none

-- `parse::<u32>`
unfoldable pub parse_u32 : String → Option ℕ
unfolding digits
parse_u32 String.[] = none
parse_u32 (String.◌∷◌ c s) =
    up_to (2 ^ 32 - 1) (if code c == 43 then some_digits s else digits 0 (String.◌∷◌ c s))

-- An `i32`, by its sign and its size.
pub data Integer : Type 0 where
  plus minus : ℕ → Integer

abbrev signed : (ℕ → Integer) → Option ℕ → Option Integer
signed sign none = none
signed sign (some n) = some (sign n)

-- `parse::<i32>`
unfoldable pub parse_i32 : String → Option Integer
unfolding digits
parse_i32 String.[] = none
parse_i32 (String.◌∷◌ c s) =
    if code c == 45
    then signed minus (up_to (2 ^ 31) (some_digits s))
    else signed plus
        (up_to (2 ^ 31 - 1) (if code c == 43 then some_digits s else digits 0 (String.◌∷◌ c s)))

-- `split(c).next()`
unfoldable pub before : ℕ → String → String
before stop String.[] = ""
before stop (String.◌∷◌ c s) =
    let rest = before stop s in if code c == stop then "" else String.◌∷◌ c rest

-- The last component of a path, where `last` is the one before and `part` what is read of this one.
-- Empty components and `.` do not count.
abbrev component : Option String → String → Option String
component last part = if (part == "") || (part == ".") then last else some part

unfoldable pub last_component : Option String → String → String → Option String
last_component last part String.[] = component last part
last_component last part (String.◌∷◌ c s) =
    let next = last_component (component last part) "" s in
    let more = last_component last (part <+> String.◌∷◌ c "") s in
    if code c == 47 then next else more

abbrev not_parent : Option String → Option String
not_parent none = none
not_parent (some name) = if name == ".." then none else some name

-- `Path::file_name`
unfoldable pub file_name : String → Option String
unfolding last_component
file_name path = not_parent (last_component none "" path)

ends_in_slash : String → Bool
ends_in_slash String.[] = false
ends_in_slash (String.◌∷◌ c s) =
    let rest = ends_in_slash s in if is_empty s then code c == 47 else rest

-- `Path::join` with a name
unfoldable pub join : String → String → String
unfolding ends_in_slash
join directory name =
    if is_empty directory || ends_in_slash directory
    then directory <+> name
    else directory <+> "/" <+> name
