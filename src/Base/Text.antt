-- ===== src/Base/Text.antt =====
-- Go's `strings` functions that the program calls, over native texts. A text is read as its code
-- points: Go reads UTF-8 bytes, and on valid UTF-8 the functions below agree with its own.
pub mod Laws
pub mod Splits
pub mod Equality
use Prim.Native.Nat.{ℕ, ◌+◌, ◌-◌}
use Prim.Native.Char.{Char, code}
use Prim.Native.String.{String, [], ◌∷◌, ◌++◌, char_at}
use mathlib.Core.Bool.{Bool, true, false, ◌&&◌, ◌||◌}
use mathlib.Core.List
use mathlib.Core.List.{List}
use text.Mathlib.Text.{◌==◌}
use openshift_online_rosa_e.Base.Tests.{leb, eqb, if◌then◌else◌}

-- A character in front of the first of the parts.
abbrev pub glue : Char → List String → List String
glue c List.[] = List.◌∷◌ (c ∷ []) List.[]
glue c (List.◌∷◌ part parts) = List.◌∷◌ (c ∷ part) parts

-- The bytes of a code point in UTF-8
abbrev bytes : ℕ → ℕ
bytes n = if leb 0x10000 n then 4 else if leb 0x800 n then 3 else if leb 0x80 n then 2 else 1

-- `len(s)`
unfoldable pub byte_length : String → ℕ
byte_length [] = 0
byte_length (c ∷ s) = bytes (code c) + byte_length s

-- `strings.HasPrefix(s, p)`
unfoldable pub has_prefix : String → String → Bool
has_prefix s [] = true
has_prefix [] (d ∷ p) = false
has_prefix (c ∷ s) (d ∷ p) = eqb (code c) (code d) && has_prefix s p

-- `strings.Contains(s, t)`
unfoldable pub contains : String → String → Bool
unfolding has_prefix
contains [] t = has_prefix [] t
contains (c ∷ s) t = has_prefix (c ∷ s) t || contains s t

-- `strings.HasSuffix(s, t)`: some rest of `s` is `t`.
unfoldable pub has_suffix : String → String → Bool
has_suffix [] t = [] == t
has_suffix (c ∷ s) t = ((c ∷ s) == t) || has_suffix s t

-- `strings.TrimSuffix(s, t)`: the text up to a rest that is `t`, and all of it if there is none.
unfoldable pub trim_suffix : String → String → String
trim_suffix [] t = []
trim_suffix (c ∷ s) t = let rest = trim_suffix s t in if (c ∷ s) == t then [] else c ∷ rest

-- The code points of `unicode.IsSpace`.
abbrev is_space : ℕ → Bool
is_space n =
    (leb 9 n && leb n 13)
    || eqb n 32
    || eqb n 0x85
    || eqb n 0xA0
    || eqb n 0x1680
    || (leb 0x2000 n && leb n 0x200A)
    || eqb n 0x2028
    || eqb n 0x2029
    || eqb n 0x202F
    || eqb n 0x205F
    || eqb n 0x3000

-- `strings.TrimLeft` and `strings.TrimRight`, by a test on code points.
unfoldable pub trim_left : (ℕ → Bool) → String → String
trim_left p [] = []
trim_left p (c ∷ s) = let rest = trim_left p s in if p (code c) then rest else c ∷ s

unfoldable pub trim_right : (ℕ → Bool) → String → String
trim_right p [] = []
trim_right p (c ∷ s) =
    let rest = trim_right p s in if p (code c) && (rest == []) then [] else c ∷ rest

-- `strings.TrimSpace(s)`
unfoldable pub trim_space : String → String
unfolding trim_left trim_right
trim_space s = trim_right is_space (trim_left is_space s)

-- `strings.TrimRight(s, "/")`
unfoldable pub trim_slashes : String → String
unfolding trim_right
trim_slashes s = trim_right (λ n. eqb n b'/') s

-- The lower case of a letter. Beside A to Z only two code points (the dotted capital I and the
-- Kelvin sign) have a lower case in ASCII. The others are left alone: the program compares
-- lower-cased texts with ASCII texts only.
abbrev lower : Char → Char
lower c =
    if leb b'A' (code c) && leb (code c) b'Z'
    then char_at "abcdefghijklmnopqrstuvwxyz" (code c - b'A')
    else if eqb (code c) 0x130
    then "i"
    else if eqb (code c) 0x212A
    then "k"
    else c

-- `strings.ToLower(s)`
unfoldable pub to_lower : String → String
to_lower [] = []
to_lower (c ∷ s) = lower c ∷ to_lower s

-- `strings.EqualFold(s, t)` for a `t` in lower case whose letters have no fold outside ASCII.
unfoldable pub equal_fold : String → String → Bool
unfolding to_lower
equal_fold s t = to_lower s == t

-- `strings.Split(s, ",")`: the text before the first comma, and the parts behind it.
unfoldable pub split_commas : String → List String
split_commas [] = List.◌∷◌ [] List.[]
split_commas (c ∷ s) =
    let rest = split_commas s in if eqb (code c) b',' then List.◌∷◌ [] rest else glue c rest

-- `strings.Join(parts, sep)`
unfoldable pub join : List String → String → String
join List.[] sep = []
join (List.◌∷◌ part List.[]) sep = part
join (List.◌∷◌ part (List.◌∷◌ next rest)) sep = part ++ (sep ++ join (List.◌∷◌ next rest) sep)
