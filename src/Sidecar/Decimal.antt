-- ===== src/Sidecar/Decimal.antt =====
-- What sidecar/pricing.go takes from Go's standard library on text: `TrimSpace`, `Split` at a dot,
-- `TrimRight` of zeros, and the decimal text of a `big.Int` with `SetString` in base 10. A text is
-- its bytes; of the space characters those of ASCII are trimmed.
use substreams_data_service.Common.{
  ℕ, suc, ◌+◌, ◌-◌, ◌/◌, ◌%◌, List, [], ◌∷◌, Option, none, some, Bool, true, false, ◌||◌, ◌&&◌,
  Bytes, map, leb, ◌==◌, if◌then◌else◌,
}
use substreams_data_service.Common.Int.{ℤ, pos, negsuc, sub_ℕ}
use substreams_data_service.Common.Digits.{digits, value}

abbrev pub zero_digit : ℕ
zero_digit = b'0'

unfoldable pub is_space : ℕ → Bool
is_space c = c == 32 || (leb 9 c && leb c 13)

unfoldable pub trim_left : Bytes → Bytes
trim_left [] = []
trim_left (c ∷ s) = let rest = trim_left s in if is_space c then rest else c ∷ s

-- Drops the longest end of bytes that pass the test.
unfoldable pub trim_end : (ℕ → Bool) → Bytes → Bytes
trim_end drops [] = []
trim_end drops (c ∷ s) = elim (trim_end drops s) [
  | [] ↦ if drops c then [] else c ∷ []
  | d ∷ rest ↦ c ∷ d ∷ rest
]

unfoldable pub trim_space : Bytes → Bytes
unfolding trim_left trim_end is_space
trim_space s = trim_end is_space (trim_left s)

-- `strings.TrimRight(s, "0")`
unfoldable pub trim_zeros : Bytes → Bytes
unfolding trim_end
trim_zeros = trim_end (λ c. c == zero_digit)

unfoldable pub onto_first : ℕ → List Bytes → List Bytes
onto_first c [] = (c ∷ []) ∷ []
onto_first c (part ∷ parts) = (c ∷ part) ∷ parts

-- `strings.Split(s, ".")`: always one part or more.
unfoldable pub split_dot : Bytes → List Bytes
unfolding onto_first
split_dot [] = [] ∷ []
split_dot (c ∷ s) = let parts = split_dot s in if c == b'.' then [] ∷ parts else onto_first c parts

unfoldable pub digit_of : ℕ → Option ℕ
digit_of c = if leb b'0' c && leb c b'9' then some (c - b'0') else none

unfoldable pub prepend : Option ℕ → Option (List ℕ) → Option (List ℕ)
prepend (some d) (some ds) = some (d ∷ ds)
prepend _ _ = none

unfoldable pub digits_of : Bytes → Option (List ℕ)
unfolding digit_of prepend
digits_of [] = some []
digits_of (c ∷ s) = prepend (digit_of c) (digits_of s)

-- One digit or more.
unfoldable pub unsigned_of : Bytes → Option ℕ
unfolding digits_of
unsigned_of [] = none
unsigned_of (c ∷ s) = elim (digits_of (c ∷ s)) [ none ↦ none | some ds ↦ some (value 10 ds) ]

unfoldable pub signed : Bool → Option ℕ → Option ℤ
signed _ none = none
signed true (some n) = some (sub_ℕ 0 n)
signed false (some n) = some (pos n)

-- `SetString(s, 10)`: an optional sign and digits.
unfoldable pub set_string : Bytes → Option ℤ
unfolding unsigned_of signed
set_string [] = none
set_string (c ∷ s) =
    if c == b'-'
    then signed true (unsigned_of s)
    else if c == b'+'
    then signed false (unsigned_of s)
    else signed false (unsigned_of (c ∷ s))

unfoldable pub text_of_ℕ : ℕ → Bytes
text_of_ℕ n = if n == 0 then zero_digit ∷ [] else map (λ d. b'0' + d) (digits 10 n)

-- `x.String()`
unfoldable pub text_of : ℤ → Bytes
unfolding text_of_ℕ
text_of (pos n) = text_of_ℕ n
text_of (negsuc n) = b'-' ∷ text_of_ℕ (suc n)

-- `Div` and `Mod` of a `big.Int` by a positive number: the remainder is never negative.
unfoldable pub div_floor : ℤ → ℕ → ℤ
div_floor (pos n) d = pos (n / d)
div_floor (negsuc n) d = negsuc (n / d)

unfoldable pub mod_floor : ℤ → ℕ → ℕ
mod_floor (pos n) d = n % d
mod_floor (negsuc n) d = d - 1 - n % d
