-- ===== src/Registry/Lsn.antt =====
-- internal/registry/registry.go: ParseLSN, with strings.Cut and strconv.ParseUint of the standard
-- library in base 16 and 32 bits. A string is its bytes; `none` stands for any error.
pub mod Parse
use Prim.Native.Nat.{bit_or}
use pgpilot.Base.{
  ℕ, ◌+◌, ◌-◌, ◌*◌, ◌%◌, ◌^◌, ◌&&◌, List, [], ◌∷◌, Option, none, some, if◌then◌else◌, leb, ltb,
  nat_beq,
}

abbrev with_head : ℕ → Option (List ℕ × List ℕ) → Option (List ℕ × List ℕ)
with_head c none = none
with_head c (some (a, b)) = some (c ∷ a, b)

-- The parts before and after the first separator.
unfoldable pub cut : ℕ → List ℕ → Option (List ℕ × List ℕ)
cut sep [] = none
cut sep (c ∷ cs) = if nat_beq c sep then some ([], cs) else with_head c (cut sep cs)

unfoldable pub hex_digit : ℕ → Option ℕ
hex_digit c =
    if leb b'0' c && leb c b'9'
    then some (c - b'0')
    else if leb b'a' c && leb c b'f'
    then some (c - b'a' + 10)
    else if leb b'A' c && leb c b'F'
    then some (c - b'A' + 10)
    else none

infixl 5 ◌>>=◌
abbrev pub ◌>>=◌ : {A B : Type 0} → Option A → (A → Option B) → Option B
none >>= f = none
some a >>= f = f a

-- The digits read so far give `n`; a value of more than 32 bits is a range error.
unfoldable pub parse_digits : ℕ → List ℕ → Option ℕ
parse_digits n [] = some n
parse_digits n (c ∷ cs) = hex_digit c >>= λ d.
    let rest = parse_digits (n * 16 + d) cs in if ltb (n * 16 + d) (2 ^ 32) then rest else none

unfoldable pub parse_uint32 : List ℕ → Option ℕ
parse_uint32 [] = none
parse_uint32 (c ∷ cs) = parse_digits 0 (c ∷ cs)

-- `high<<32 | low` on uint64
unfoldable pub parse_lsn : List ℕ → Option ℕ
parse_lsn s = do
  (hi, lo) ← cut b'/' s
  high ← parse_uint32 hi
  low ← parse_uint32 lo
  some (bit_or (high * 2 ^ 32 % 2 ^ 64) low)
