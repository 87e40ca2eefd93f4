-- ===== src/Soop/Texts.antt =====
-- Fields and texts of packets (worker/internal/connector/soop.go), as bytes.
use Prim.Native.Char.{code}
use Prim.Native.String.{String}
use rogi_collector.Prelude.{
  ℕ, zero, suc, ◌+◌, ◌/◌, ◌%◌, ◌^◌, Bool, true, false, ◌&&◌, ◌||◌, not, Option, none, some, List,
  [], ◌∷◌, ◌++◌, length, leb, ltb, nat_eq, if◌then◌else◌, ℤ, pos, negsuc,
}
use rogi_collector.Soop.Bytes.{Bytes, is_digit, nonempty_digits, negated, positive}

-- A character's UTF-8.
unfoldable pub utf8 : ℕ → Bytes
utf8 c =
    if ltb c 0x80
    then c ∷ []
    else if ltb c 0x800
    then (0xc0 + c / 64) ∷ (0x80 + c % 64) ∷ []
    else if ltb c 0x10000
    then (0xe0 + c / 4096) ∷ (0x80 + c / 64 % 64) ∷ (0x80 + c % 64) ∷ []
    else (0xf0 + c / 262144) ∷ (0x80 + c / 4096 % 64) ∷ (0x80 + c / 64 % 64) ∷ (0x80 + c % 64) ∷ []

-- A literal's bytes.
unfoldable pub bytes : String → Bytes
unfolding utf8
bytes String.[] = []
bytes (String.◌∷◌ c s) = utf8 (code c) ++ bytes s

unfoldable pub bytes_eq : Bytes → Bytes → Bool
bytes_eq [] [] = true
bytes_eq (x ∷ xs) (y ∷ ys) = nat_eq x y && bytes_eq xs ys
bytes_eq _ _ = false

abbrev pub is_empty : Bytes → Bool
is_empty [] = true
is_empty (c ∷ cs) = false

-- fieldAt, at an index that is not negative
unfoldable pub field_at : ℕ → List Bytes → Bytes
field_at n [] = []
field_at zero (f ∷ fs) = f
field_at (suc n) (f ∷ fs) = field_at n fs

-- strings.ReplaceAll(s, "\r", "")
unfoldable pub without_returns : Bytes → Bytes
without_returns [] = []
without_returns (c ∷ cs) = let rest = without_returns cs in if nat_eq c 13 then rest else c ∷ rest

-- The rest of a match of soopUserIDSuffix, `\(\d+\)$`, after its parenthesis and, where `some_digit`
-- says so, a digit.
unfoldable pub closes : Bool → Bytes → Bool
closes some_digit [] = false
closes some_digit (c ∷ cs) =
    let more = closes true cs in
    if is_digit c then more else some_digit && (nat_eq c b')' && is_empty cs)

-- soopUserIDSuffix.ReplaceAllString(s, "")
unfoldable pub strip_suffix : Bytes → Bytes
unfolding closes
strip_suffix [] = []
strip_suffix (c ∷ cs) =
    let rest = strip_suffix cs in if nat_eq c b'(' && closes false cs then [] else c ∷ rest

abbrev pub in_class : ℕ → Bool
in_class c =
    (leb b'A' c && leb c b'Z')
    || ((leb b'a' c && leb c b'z') || (is_digit c || (nat_eq c b'_' || nat_eq c b'-')))

unfoldable pub all_bytes : (ℕ → Bool) → Bytes → Bool
all_bytes p [] = true
all_bytes p (c ∷ cs) = p c && all_bytes p cs

-- soopOGQID
unfoldable pub matches_ogq_id : Bytes → Bool
unfolding all_bytes
matches_ogq_id s = (not (is_empty s) && leb (length s) 80) && all_bytes in_class s

-- soopOGQNumber
unfoldable pub matches_ogq_number : Bytes → Bool
unfolding all_bytes
matches_ogq_number [] = false
matches_ogq_number (c ∷ cs) =
    (leb b'1' c && leb c b'9') && (leb (length cs) 5 && all_bytes is_digit cs)

-- strconv.ParseInt(s, 10, 64); `none` is an error, of syntax or range.
abbrev pub in_int64 : Option ℤ → Option ℤ
in_int64 none = none
in_int64 (some (pos n)) = if ltb n (2 ^ 63) then some (pos n) else none
in_int64 (some (negsuc n)) = if ltb n (2 ^ 63) then some (negsuc n) else none

unfoldable pub parse_int : Bytes → Option ℤ
parse_int [] = none
parse_int (c ∷ cs) = in_int64 (
    if nat_eq c b'-'
    then negated (nonempty_digits cs)
    else if nat_eq c b'+'
    then positive (nonempty_digits cs)
    else positive (nonempty_digits (c ∷ cs)))

-- nonEmptyFields, given strings.TrimSpace
unfoldable pub non_empty_fields : (Bytes → Bytes) → List Bytes → List Bytes
non_empty_fields trim [] = []
non_empty_fields trim (f ∷ fs) =
    let rest = non_empty_fields trim fs in if is_empty (trim f) then rest else trim f ∷ rest

-- strings.Join(fields, " ")
unfoldable pub spaced : List Bytes → Bytes
spaced [] = []
spaced (f ∷ []) = f
spaced (f ∷ g ∷ fs) = f ++ (b' ' ∷ spaced (g ∷ fs))
