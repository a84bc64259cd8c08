-- ===== src/Base/Query.antt =====
-- Go's `url.QueryEscape`, over the bytes of a text's code points in UTF-8.
use Prim.Native.Nat.{ℕ, ◌+◌, ◌/◌, ◌%◌}
use Prim.Native.Char.{Char, code}
use Prim.Native.String.{String, [], ◌∷◌, ◌++◌, char_at}
use mathlib.Core.Bool.{Bool, ◌&&◌, ◌||◌}
use mathlib.Core.List.{List}
use openshift_online_rosa_e.Base.Tests.{leb, eqb, if◌then◌else◌}

-- The bytes of a code point in UTF-8
abbrev utf8 : ℕ → List ℕ
utf8 n =
    if leb 0x10000 n
    then List.◌∷◌ (0xF0 + n / 0x40000) (
        List.◌∷◌ (0x80 + n / 0x1000 % 64)
          (List.◌∷◌ (0x80 + n / 64 % 64) (List.◌∷◌ (0x80 + n % 64) List.[])))
    else if leb 0x800 n
    then List.◌∷◌ (0xE0 + n / 0x1000)
        (List.◌∷◌ (0x80 + n / 64 % 64) (List.◌∷◌ (0x80 + n % 64) List.[]))
    else if leb 0x80 n
    then List.◌∷◌ (0xC0 + n / 64) (List.◌∷◌ (0x80 + n % 64) List.[])
    else List.◌∷◌ n List.[]

-- The bytes that stand for themselves: letters, digits and `-_.~`
abbrev is_unreserved : ℕ → Bool
is_unreserved n =
    (leb b'a' n && leb n b'z')
    || (leb b'A' n && leb n b'Z')
    || (leb b'0' n && leb n b'9')
    || eqb n b'-'
    || eqb n b'_'
    || eqb n b'.'
    || eqb n b'~'

abbrev hex_digit : ℕ → Char
hex_digit n = char_at "0123456789ABCDEF" n

abbrev escape_bytes : List ℕ → String → String
escape_bytes List.[] s = s
escape_bytes (List.◌∷◌ b bs) s =
    "%" ++ (hex_digit (b / 16) ∷ (hex_digit (b % 16) ∷ escape_bytes bs s))

-- `url.QueryEscape(s)`
unfoldable pub query_escape : String → String
query_escape [] = []
query_escape (c ∷ s) =
    let rest = query_escape s in
    if is_unreserved (code c)
    then c ∷ rest
    else if eqb (code c) 32
    then "+" ++ rest
    else escape_bytes (utf8 (code c)) rest
