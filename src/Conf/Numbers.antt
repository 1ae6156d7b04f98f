-- ===== src/Conf/Numbers.antt =====
-- Numbers of a C `int`: bounds of the declared types (check_num()), the bytes that are stored,
-- and atoi().
use rattle.Base.{
  ℕ, zero, suc, ◌+◌, ◌-◌, ◌*◌, ◌%◌, ◌^◌, Bool, true, false, ◌&&◌, ◌||◌, [], ◌∷◌, Status, fail, ok,
  ◌==◌, leb, ltb, if◌then◌else◌,
}
use rattle.Args.Words.{Str}

-- `negsuc n` is -(n + 1).
pub data ℤ : Type 0 where
  pos negsuc : ℕ → ℤ

-- enum RATTCONFDT; any other value takes the default branch of each switch.
pub data DataType : Type 0 where
  str num8 num16 num32 other : DataType

-- `(unsigned int) num`
abbrev pub to_unsigned : ℤ → ℕ
to_unsigned (pos n) = n % 2 ^ 32
to_unsigned (negsuc n) = 2 ^ 32 - 1 - n

abbrev pub is_negative : ℤ → Bool
is_negative (pos n) = false
is_negative (negsuc n) = true

-- Whether num > max, and whether num < -(below + 1).
abbrev pub exceeds : ℤ → ℕ → Bool
exceeds (pos n) max = ltb max n
exceeds (negsuc n) max = false

abbrev pub falls_below : ℤ → ℕ → Bool
falls_below (pos n) below = false
falls_below (negsuc n) below = ltb below n

abbrev pub bounded : Bool → Status
bounded true = fail
bounded false = ok

unfoldable pub check_num : DataType → ℤ → Bool → Status
check_num num8 num unsign =
    if unsign
    then bounded (ltb 255 (to_unsigned num) || is_negative num)
    else bounded (exceeds num 127 || falls_below num 127)
check_num num16 num unsign =
    if unsign
    then bounded (ltb 65535 (to_unsigned num) || is_negative num)
    else bounded (exceeds num 32767 || falls_below num 32767)
check_num num32 num unsign =
    if unsign
    then bounded (is_negative num)
    else bounded (exceeds num 2147483647 || falls_below num 2147483647)
check_num str num unsign = ok
check_num other num unsign = fail

abbrev pub is_number : DataType → Bool
is_number num8 = true
is_number num16 = true
is_number num32 = true
is_number str = false
is_number other = false

-- The bits of a number's type.
abbrev pub width : DataType → ℕ
width num8 = 8
width num16 = 16
width num32 = 32
width str = 64
width other = 0

-- The bytes that memcpy() takes: the lowest, of a little-endian `int`.
unfoldable pub low_bits : DataType → ℤ → ℕ
low_bits type num = to_unsigned num % 2 ^ width type

-- What a reader of the stored bytes sees through an unsigned and a signed type.
abbrev pub read_unsigned : ℕ → ℤ
read_unsigned bits = pos bits

abbrev pub read_signed : DataType → ℕ → ℤ
read_signed type bits =
    if ltb bits (2 ^ (width type - 1)) then pos bits else negsuc (2 ^ width type - 1 - bits)

abbrev pub isspace : ℕ → Bool
isspace c = c == 32 || (leb 9 c && leb c 13)

abbrev pub isdigit : ℕ → Bool
isdigit c = leb 48 c && leb c 57

unfoldable pub digits_from : ℕ → Str → ℕ
digits_from value [] = value
digits_from value (c ∷ s) =
    let rest = digits_from (value * 10 + (c - 48)) s in if isdigit c then rest else value

abbrev pub negated : ℕ → ℤ
negated zero = pos 0
negated (suc n) = negsuc n

unfoldable pub signed_digits : Str → ℤ
signed_digits [] = pos 0
signed_digits (c ∷ s) =
    if c == 45
    then negated (digits_from 0 s)
    else if c == 43
    then pos (digits_from 0 s)
    else pos (digits_from 0 (c ∷ s))

-- A value beyond `int` is undefined in C and is not cut here.
unfoldable pub atoi : Str → ℤ
atoi [] = pos 0
atoi (c ∷ s) = let rest = atoi s in if isspace c then rest else signed_digits (c ∷ s)
