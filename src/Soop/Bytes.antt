-- ===== src/Soop/Bytes.antt =====
-- The text functions of Go that worker/internal/connector/soop.go calls, on lists of bytes.
use rogi_collector.Prelude.{
  ℕ, zero, suc, ◌+◌, ◌-◌, ◌*◌, ◌/◌, ◌%◌, Bool, ◌&&◌, Option, none, some, List, [], ◌∷◌, ◌++◌, leb,
  nat_eq, if◌then◌else◌, ℤ, pos, negsuc,
}

abbrev pub Bytes : Type 0
Bytes = List ℕ

abbrev pub is_digit : ℕ → Bool
is_digit c = leb b'0' c && leb c b'9'

-- The value of a text of digits, after those read so far.
unfoldable pub digits_value : ℕ → Bytes → Option ℕ
digits_value n [] = some n
digits_value n (c ∷ cs) =
    let rest = digits_value (n * 10 + (c - b'0')) cs in if is_digit c then rest else none

abbrev pub nonempty_digits : Bytes → Option ℕ
nonempty_digits [] = none
nonempty_digits (c ∷ cs) = digits_value 0 (c ∷ cs)

abbrev pub negated : Option ℕ → Option ℤ
negated none = none
negated (some zero) = some (pos 0)
negated (some (suc n)) = some (negsuc n)

abbrev pub positive : Option ℕ → Option ℤ
positive none = none
positive (some n) = some (pos n)

-- strconv.Atoi, on texts that are too short to overflow
unfoldable pub atoi : Bytes → Option ℤ
unfolding digits_value
atoi [] = none
atoi (c ∷ cs) =
    if nat_eq c b'-'
    then negated (nonempty_digits cs)
    else if nat_eq c b'+'
    then positive (nonempty_digits cs)
    else positive (nonempty_digits (c ∷ cs))

-- fmt's %0wd of a number: at least `w` digits, and as many more as the fuel and the number have.
unfoldable pub padded : ℕ → ℕ → ℕ → Bytes
padded (suc w) fuel n = padded w fuel (n / 10) ++ (b'0' + n % 10) ∷ []
padded zero zero n = []
padded zero (suc fuel) n =
    let more = padded zero fuel (n / 10) ++ (b'0' + n % 10) ∷ [] in if nat_eq n 0 then [] else more
