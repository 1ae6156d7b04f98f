-- ===== src/Conf/Values.antt =====
-- Setting and unsetting a value or an element of a value list (conf.c).
use rattle.Base.{
  ℕ, zero, suc, ◌+◌, ◌*◌, ◌/◌, ◌%◌, Bool, List, [], ◌∷◌, ◌++◌, Option, none, some, Status, fail, ok,
  ◌==◌, if◌then◌else◌, get_or, set,
}
use rattle.Table.State.{Table, has_flag}
use rattle.Table.Walk.{foreach}
use rattle.Table.Update.{Alloc, get_tail_next, create, destroy}
use rattle.Args.Words.{Str}
use rattle.Conf.Numbers.{
  ℤ, DataType, str, num8, num16, num32, other, check_num, is_number, low_bits,
}

-- A `char *`, or the bytes of a number.
pub data Value : Type 0 where
  text : Option Str → Value
  number : ℕ → Value

-- What `value` of a declaration points to: one value, or the table of a list.
pub data Storage : Type 0 where
  single : Value → Storage
  many : Table Value → Storage

-- What `src` points to.
pub data Source : Type 0 where
  of_str : Str → Source
  of_num : ℤ → Source

-- RATTCONFFLLST, RATTCONFFLREQ, RATTCONFFLUNS
abbrev pub fl_list : ℕ
fl_list = 1

abbrev pub fl_required : ℕ
fl_required = 2

abbrev pub fl_unsigned : ℕ
fl_unsigned = 4

-- A zeroed value.
abbrev pub blank_value : DataType → Value
blank_value str = text none
blank_value num8 = number 0
blank_value num16 = number 0
blank_value num32 = number 0
blank_value other = number 0

-- What the allocator answers to one set_value(): for the table of a list, and for strdup().
pub record Grant : Type 0 where
  pub slot : Alloc Value
  pub copied : Bool

abbrev pub checked : DataType → Source → ℕ → Status
checked type (of_num num) flags =
    if is_number type then check_num type num (has_flag flags fl_unsigned) else ok
checked type (of_str s) flags = ok

-- The number in the first bytes of a string, the lowest byte first; behind its end are zeros.
abbrev pub number_in : ℕ → Str → ℕ
number_in zero s = 0
number_in (suc n) [] = 0
number_in (suc n) (c ∷ s) = c % 256 + 256 * number_in n s

-- The string in some bytes of a number, the lowest byte first, up to the first byte that is zero.
abbrev pub text_in : ℕ → ℕ → Str
text_in zero num = []
text_in (suc n) num =
    let rest = text_in n (num / 256) in if num % 256 == 0 then [] else num % 256 ∷ rest

-- The switch that stores the value: it copies what it finds at `src`, for a string up to its end
-- and for a number as many bytes as the type has. No caller passes a number for a string or a
-- string for a number; an `int` read as a string is taken to be followed by a zero.
unfoldable pub store : DataType → Source → Bool → Value → Status × Value
store str (of_str s) copied old = if copied then (ok, text (some s)) else (fail, text none)
store str (of_num n) copied old =
    if copied then (ok, text (some (text_in 4 (low_bits num32 n)))) else (fail, text none)
store num8 (of_num n) copied old = (ok, number (low_bits num8 n))
store num8 (of_str s) copied old = (ok, number (number_in 1 s))
store num16 (of_num n) copied old = (ok, number (low_bits num16 n))
store num16 (of_str s) copied old = (ok, number (number_in 2 s))
store num32 (of_num n) copied old = (ok, number (low_bits num32 n))
store num32 (of_str s) copied old = (ok, number (number_in 4 s))
store other src copied old = (fail, old)

-- The part behind ratt_table_get_tail_next(), whose result is the last argument.
abbrev pub store_at :
    DataType → Source → Bool → Status × Option ℕ × Table Value → Status × Table Value
store_at type src copied (fail, p, t) = (fail, t)
store_at type src copied (ok, none, t) = (fail, t)
store_at type src copied (ok, some p, t) =
    let (s, v) = store type src copied (get_or t.head p (blank_value type)) in
    (s, record t { head = set t.head p v })

-- A list is set through its table and a single value in place, as the flags say.
unfoldable pub set_storage : Storage → Source → DataType → ℕ → Grant → Status × Storage
set_storage (single v) src type flags g =
    let (s, v') = store type src g.copied v in
    if has_flag flags fl_list then (fail, single v) else (s, single v')
set_storage (many t) src type flags g =
    let (s, t') = store_at type src g.copied (get_tail_next (blank_value type) t g.slot) in
    if has_flag flags fl_list then (s, many t') else (fail, many t)

unfoldable pub set_value :
    Option Storage → Option Source → DataType → ℕ → Grant → Status × Option Storage
set_value none src type flags g = (fail, none)
set_value (some dst) none type flags g = (fail, some dst)
set_value (some dst) (some src) type flags g =
    let (s, dst') = set_storage dst src type flags g in
    elim (checked type src flags) [ ok ↦ (s, some dst') | fail ↦ (fail, some dst) ]

-- The strings that are freed come last.
unfoldable pub unset_value : Value → DataType → Status × Value × List Str
unset_value (text (some c)) str = (ok, text none, c ∷ [])
unset_value (text none) str = (ok, text none, [])
unset_value (number n) str = (ok, number n, [])
unset_value v num8 = (ok, v, [])
unset_value v num16 = (ok, v, [])
unset_value v num32 = (ok, v, [])
unset_value v other = (fail, v, [])

-- The values in the given slots are unset, in order; these strings are freed.
unfoldable pub unset_all : Table Value → DataType → List ℕ → List Str
unset_all t type [] = []
unset_all t type (p ∷ ps) =
    let (s, v, freed) = unset_value (get_or t.head p (blank_value type)) type in
    freed ++ unset_all t type ps

unfoldable pub list_destroy : Table Value → DataType → Status × Table Value × List Str
list_destroy t type =
    let (s, t') = destroy (blank_value type) t in (s, t', unset_all t type (foreach t))

-- CONF_LSTTABSIZ
abbrev pub list_table_size : ℕ
list_table_size = 2

-- sizeof() of an element.
unfoldable pub element_size : DataType → Option ℕ
element_size str = some 8
element_size num8 = some 1
element_size num16 = some 2
element_size num32 = some 4
element_size other = none

unfoldable pub list_create : Table Value → ℕ → DataType → Alloc Value → Status × Table Value
list_create t cnt type a =
    let cnt' = if cnt == 0 then list_table_size else cnt in
    elim (element_size type) [
      | none ↦ (fail, t)
      | some size ↦ create (blank_value type) t cnt' size 0 a
    ]
