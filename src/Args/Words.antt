-- ===== src/Args/Words.antt =====
-- Strings as bytes without the trailing zero, the tests of ctype.h and string.h in the C locale,
-- and how parse_args() tells the words of the command line apart.
use rattle.Base.{ℕ, Bool, true, false, ◌&&◌, ◌||◌, List, [], ◌∷◌, ◌==◌, leb, if◌then◌else◌}

abbrev pub Str : Type 0
Str = List ℕ

-- strcmp(a, b) == 0
abbrev pub str_eq : Str → Str → Bool
str_eq [] [] = true
str_eq [] (y ∷ ys) = false
str_eq (x ∷ xs) [] = false
str_eq (x ∷ xs) (y ∷ ys) = x == y && str_eq xs ys

abbrev pub isupper : ℕ → Bool
isupper c = leb 65 c && leb c 90

abbrev pub islower : ℕ → Bool
islower c = leb 97 c && leb c 122

abbrev pub isalpha : ℕ → Bool
isalpha c = isupper c || islower c

abbrev pub isalnum : ℕ → Bool
isalnum c = isalpha c || (leb 48 c && leb c 57)

-- The character '-'.
abbrev pub dash : ℕ
dash = 45

-- s[0]: a string that is empty has its end there.
abbrev pub first_byte : Str → ℕ
first_byte [] = 0
first_byte (c ∷ s) = c

-- ARGSSECMAIN: '0'.
abbrev pub sec_main : ℕ
sec_main = 48

pub data Word : Type 0 where
  start_of_section : ℕ → Word
  found_option : ℕ → Word
  end_of_parsing : Word
  invalid_option : ℕ → Word
  not_option : Word

unfoldable pub letter_word : ℕ → Word
letter_word c =
    if isupper c
    then start_of_section c
    else if isalpha c
    then found_option c
    else if c == dash
    then end_of_parsing
    else invalid_option c

-- The tests of parse_args() on one word, in their order.
unfoldable pub word_of : Str → Word
word_of [] = not_option
word_of (d ∷ []) = not_option
word_of (d ∷ c ∷ []) = if d == dash then letter_word c else not_option
word_of (d ∷ c ∷ x ∷ s) = not_option
