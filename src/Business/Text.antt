-- ===== src/Business/Text.antt =====
-- std::to_string and std::stoi as server/business/BusinessServer.cpp uses them.
use Prim.Native.Char.{code}
use Prim.Native.String.{String, ◌++◌}
use qinyunserver.Base.{
  ℕ, zero, suc, ◌+◌, ◌-◌, ◌*◌, ◌/◌, ◌%◌, ◌^◌, ◌≡◌, refl, Bool, Option, none, some, ltb, leb, ◌==◌,
  if◌then◌else◌, ◌&&◌, ◌||◌,
}
use qinyunserver.Base.Int.{ℤ, pos, negsuc, sub_ℕ}

digit : ℕ → String
digit zero = "0"
digit (suc zero) = "1"
digit (suc (suc zero)) = "2"
digit (suc (suc (suc zero))) = "3"
digit (suc (suc (suc (suc zero)))) = "4"
digit (suc (suc (suc (suc (suc zero))))) = "5"
digit (suc (suc (suc (suc (suc (suc zero)))))) = "6"
digit (suc (suc (suc (suc (suc (suc (suc zero))))))) = "7"
digit (suc (suc (suc (suc (suc (suc (suc (suc zero)))))))) = "8"
digit _ = "9"

-- The digits of a number of at most as many as the fuel has.
digits_of : ℕ → ℕ → String
unfolding digit
digits_of zero n = ""
digits_of (suc fuel) n =
    let front = digits_of fuel (n / 10) in if ltb n 10 then digit n else front ++ digit (n % 10)

-- An int or an uint32_t has at most ten digits.
unfoldable pub to_string : ℕ → String
unfolding digits_of
to_string n = digits_of 10 n

unfoldable pub int_to_string : ℤ → String
unfolding to_string
int_to_string (pos n) = to_string n
int_to_string (negsuc n) = "-" ++ to_string (suc n)

is_digit : ℕ → Bool
is_digit c = leb b'0' c && leb c b'9'

-- The number in front of a text, behind what was read before.
read_digits : ℕ → String → ℕ
unfolding is_digit
read_digits acc String.[] = acc
read_digits acc (String.◌∷◌ c s) =
    let rest = read_digits (acc * 10 + (code c - b'0')) s in if is_digit (code c) then rest else acc

-- A number wants a digit.
read_number : String → Option ℕ
unfolding read_digits is_digit
read_number String.[] = none
read_number (String.◌∷◌ c s) =
    if is_digit (code c) then some (read_digits 0 (String.◌∷◌ c s)) else none

in_range : Bool → Option ℕ → Option ℤ
in_range minus none = none
in_range minus (some n) =
    if minus
    then (if leb n (2 ^ 31) then some (sub_ℕ 0 n) else none)
    else if ltb n (2 ^ 31)
    then some (pos n)
    else none

is_space : ℕ → Bool
is_space c = c == 32 || (leb 9 c && leb c 13)

-- std::stoi: blanks, a sign, digits; std::invalid_argument and std::out_of_range are `none`.
unfoldable pub stoi : String → Option ℤ
unfolding read_number in_range is_space
stoi String.[] = none
stoi (String.◌∷◌ c s) =
    let rest = stoi s in
    if is_space (code c)
    then rest
    else if code c == b'-'
    then in_range Bool.true (read_number s)
    else if code c == b'+'
    then in_range Bool.false (read_number s)
    else in_range Bool.false (read_number (String.◌∷◌ c s))

-- A number of 64 bits; one behind a minus is taken from 2 ^ 64.
in_u64 : Bool → Option ℕ → Option ℕ
in_u64 minus none = none
in_u64 minus (some n) =
    if ltb n (2 ^ 64) then some (if minus then (2 ^ 64 - n) % 2 ^ 64 else n) else none

-- std::stoul
unfoldable pub stoul : String → Option ℕ
unfolding read_number in_u64 is_space
stoul String.[] = none
stoul (String.◌∷◌ c s) =
    let rest = stoul s in
    if is_space (code c)
    then rest
    else if code c == b'-'
    then in_u64 Bool.true (read_number s)
    else if code c == b'+'
    then in_u64 Bool.false (read_number s)
    else in_u64 Bool.false (read_number (String.◌∷◌ c s))

to_string_test : int_to_string (negsuc 403) ≡ "-404"
unfolding int_to_string
to_string_test = refl

stoi_test : stoi " -404x" ≡ some (negsuc 403)
unfolding stoi
stoi_test = refl
