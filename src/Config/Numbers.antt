-- ===== src/Config/Numbers.antt =====
-- Go's `strconv.Atoi` on 64-bit integers.
use Prim.Native.Nat.{ℕ, zero, suc, ◌+◌, ◌*◌, ◌-◌, ◌^◌}
use Prim.Native.Char.{Char, code}
use Prim.Native.String.{String, [], ◌∷◌}
use mathlib.Core.Bool.{Bool, ◌&&◌}
use mathlib.Core.Option.{Option, none, some}
use openshift_online_rosa_e.Base.{leb, ltb, eqb, if◌then◌else◌}

-- An `int`: `negsuc n` is minus (n + 1).
pub data ℤ : Type 0 where
  pos negsuc : ℕ → ℤ

abbrev negated : ℕ → ℤ
negated zero = pos zero
negated (suc n) = negsuc n

abbrev is_digit : Char → Bool
is_digit c = leb b'0' (code c) && leb (code c) b'9'

-- The digits behind what was read
unfoldable pub digits : ℕ → String → Option ℕ
digits n [] = some n
digits n (c ∷ s) =
    let rest = digits (10 * n + (code c - b'0')) s in if is_digit c then rest else none

abbrev bounded : ℕ → (ℕ → ℤ) → Option ℕ → Option ℤ
bounded limit sign none = none
bounded limit sign (some n) = if ltb limit n then none else some (sign n)

abbrev number : ℕ → (ℕ → ℤ) → String → Option ℤ
number limit sign [] = none
number limit sign (c ∷ s) = bounded limit sign (digits 0 (c ∷ s))

abbrev signed : Char → String → Option ℤ
signed c s =
    if eqb (code c) b'-'
    then number (2 ^ 63) negated s
    else if eqb (code c) b'+'
    then number (2 ^ 63 - 1) pos s
    else number (2 ^ 63 - 1) pos (c ∷ s)

unfoldable pub atoi : String → Option ℤ
unfolding digits
atoi [] = none
atoi (c ∷ s) = signed c s
