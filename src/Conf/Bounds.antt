-- ===== src/Conf/Bounds.antt =====
-- check_num() against what storing a number keeps of it (conf.c).
use rattle.Base.{ℕ, ◌^◌, ◌<◌, ◌≡◌, ◌↔◌, Bool, true, false, ok, if◌then◌else◌, arith}
use rattle.Conf.Numbers.{
  ℤ, pos, negsuc, DataType, str, num8, num16, num32, other, is_number, check_num, low_bits,
  read_unsigned, read_signed,
}

-- A value of a 32 bit `int`.
abbrev pub IsInt : ℤ → Type 0
IsInt (pos n) = n < 2 ^ 31
IsInt (negsuc n) = n < 2 ^ 31

-- What is read back, by the sign of the declaration.
abbrev pub read_back : DataType → Bool → ℤ → ℤ
read_back type unsign num =
    if unsign then read_unsigned (low_bits type num) else read_signed type (low_bits type num)

abbrev magnitude : ℤ → ℕ
magnitude (pos n) = n
magnitude (negsuc n) = n

abbrev sign : ℤ → ℕ
sign (pos n) = 0
sign (negsuc n) = 1

-- For an `int`, check_num() accepts a number for a numeric type exactly if what is stored of it,
-- read back through that type with the sign of the declaration, is the number.
pub check_num-ok_iff :
    (type : DataType) (unsign : Bool) (num : ℤ)
    → is_number type ≡ true
    → IsInt num
    → (check_num type num unsign ≡ ok) ↔ (read_back type unsign num ≡ num)
unfolding check_num low_bits
check_num-ok_iff num8 true (pos n) t h = ground arith
check_num-ok_iff num8 true (negsuc n) t h = ground arith
check_num-ok_iff num8 false (pos n) t h = ground arith
check_num-ok_iff num8 false (negsuc n) t h = ground arith
check_num-ok_iff num16 true (pos n) t h = ground arith
check_num-ok_iff num16 true (negsuc n) t h = ground arith
check_num-ok_iff num16 false (pos n) t h = ground arith
check_num-ok_iff num16 false (negsuc n) t h = ground arith
check_num-ok_iff num32 true (pos n) t h = ground arith
check_num-ok_iff num32 true (negsuc n) t h = ground arith
check_num-ok_iff num32 false (pos n) t h = ground arith
check_num-ok_iff num32 false (negsuc n) t h = ground arith
check_num-ok_iff str unsign num t h = absurd (cc)
check_num-ok_iff other unsign num t h = absurd (cc)
