-- ===== src/Args/Grammar.antt =====
-- Command lines as they are meant: groups of options behind a section's letter, printed for
-- parse_args().
use rattle.Base.{
  ℕ, ◌+◌, ◌≡◌, refl, Bool, true, false, not, ◌&&◌, List, [], ◌∷◌, Option, none, some, ok, ◌==◌,
  arith, ◌∙◌,
}
use rattle.Args.Words.{
  Str, word_of, letter_word, isupper, islower, isalnum, first_byte, dash, sec_main,
  start_of_section, found_option,
}
use rattle.Args.Sections.{Sections, Memory, insert_args}
use rattle.Args.Parse.{parse_from, parse_args}

-- An option that is used, with its argument if it has one.
pub record Use : Type 0 where
  pub letter : ℕ
  pub argument : Option Str

pub record Group : Type 0 where
  pub section : ℕ
  pub title : Option Str
  pub uses : List Use

abbrev pub optional : Option Str → List Str → List Str
optional none rest = rest
optional (some s) rest = s ∷ rest

-- The words of a use, in front of the words that follow.
unfoldable pub print_uses : List Use → List Str → List Str
print_uses [] rest = rest
print_uses (u ∷ us) rest = (dash ∷ u.letter ∷ []) ∷ optional u.argument (print_uses us rest)

unfoldable pub print_groups : List Group → List Str
print_groups [] = []
print_groups (g ∷ gs) =
    (dash ∷ g.section ∷ []) ∷ optional g.title (print_uses g.uses (print_groups gs))

-- An option is a lower case letter, an argument does not start with a dash.
abbrev plain_argument : Option Str → Bool
plain_argument none = true
plain_argument (some s) = not (first_byte s == dash)

abbrev pub plain_uses : List Use → Bool
plain_uses [] = true
plain_uses (u ∷ us) = islower u.letter && (plain_argument u.argument && plain_uses us)

-- A section is an upper case letter, a name starts with a letter or a digit.
abbrev plain_title : Option Str → Bool
plain_title none = true
plain_title (some s) = isalnum (first_byte s)

abbrev pub plain_groups : List Group → Bool
plain_groups [] = true
plain_groups (g ∷ gs) =
    isupper g.section && (plain_title g.title && (plain_uses g.uses && plain_groups gs))

abbrev words_of : Option Str → ℕ
words_of none = 1
words_of (some s) = 2

-- The insertions of some uses, from place `i` of argv on: the next place, and the tables.
unfoldable pub insert_uses : (ℕ → Memory) → ℕ → ℕ → Option Str → Sections → List Use → ℕ × Sections
insert_uses mem i sec name tables [] = (i, tables)
insert_uses mem i sec name tables (u ∷ us) =
    insert_uses mem (i + words_of u.argument) sec name
      (insert_args tables sec name u.letter u.argument (mem i)).1 us

unfoldable pub insert_groups : (ℕ → Memory) → ℕ → Sections → List Group → Sections
insert_groups mem i tables [] = tables
insert_groups mem i tables (g ∷ gs) =
    let (j, done) = insert_uses mem (i + words_of g.title) g.section g.title tables g.uses in
    insert_groups mem j done gs

-- What follows a word is nothing, or starts with a dash.
abbrev dashed : List Str → Bool
dashed [] = true
dashed (w ∷ ws) = first_byte w == dash

word_of-option : (c : ℕ) → islower c ≡ true → word_of (dash ∷ c ∷ []) ≡ found_option c
unfolding word_of letter_word
word_of-option c low = ground arith

word_of-section : (c : ℕ) → isupper c ≡ true → word_of (dash ∷ c ∷ []) ≡ start_of_section c
unfolding word_of letter_word
word_of-section c up = ground arith

not_dash : (c : ℕ) → (c == dash) ≡ true → isalnum c ≡ false
not_dash c d = ground arith

module _ (mem : ℕ → Memory) (i sec : ℕ) (name : Option Str) (tables : Sections) (c : ℕ) where
  parse_from-option :
      (rest : List Str)
      → islower c ≡ true
      → dashed rest ≡ true
      → parse_from mem i sec name tables ((dash ∷ c ∷ []) ∷ rest)
        ≡ parse_from mem (i + 1) sec name (insert_args tables sec name c none (mem i)).1 rest
  unfolding parse_from
  parse_from-option [] low d = simp (word_of-option c low, parse_from)
  parse_from-option (w ∷ ws) low d = simp (word_of-option c low, d, parse_from)

  parse_from-argument :
      (s : Str) (rest : List Str)
      → islower c ≡ true
      → (first_byte s == dash) ≡ false
      → parse_from mem i sec name tables ((dash ∷ c ∷ []) ∷ s ∷ rest)
        ≡ parse_from mem (i + 2) sec name (insert_args tables sec name c (some s) (mem i)).1 rest
  unfolding parse_from
  parse_from-argument s rest low d = simp (word_of-option c low, d, parse_from)

  parse_from-title :
      (s : Str) (rest : List Str)
      → isupper c ≡ true
      → isalnum (first_byte s) ≡ true
      → parse_from mem i sec name tables ((dash ∷ c ∷ []) ∷ s ∷ rest)
        ≡ parse_from mem (i + 2) c (some s) tables rest
  unfolding parse_from
  parse_from-title s rest up t = simp (word_of-section c up, t, parse_from)

  parse_from-section :
      (rest : List Str)
      → isupper c ≡ true
      → dashed rest ≡ true
      → parse_from mem i sec name tables ((dash ∷ c ∷ []) ∷ rest)
        ≡ parse_from mem (i + 1) c none tables rest
  unfolding parse_from
  parse_from-section [] up d = simp (word_of-section c up, parse_from)
  parse_from-section (w ∷ ws) up d =
      simp (word_of-section c up, not_dash (first_byte w) d, parse_from)

dashed-print_uses :
    (us : List Use) (rest : List Str) → dashed rest ≡ true → dashed (print_uses us rest) ≡ true
unfolding print_uses
dashed-print_uses [] rest d = d
dashed-print_uses (u ∷ us) rest d = refl

dashed-print_groups : (gs : List Group) → dashed (print_groups gs) ≡ true
unfolding print_groups
dashed-print_groups [] = refl
dashed-print_groups (g ∷ gs) = refl

both : (a b : Bool) → (a && b) ≡ true → (a ≡ true) × (b ≡ true)
both true b h = (refl, h)
both false b h = absurd (cc)

module _ (mem : ℕ → Memory) where
  parse_from-use :
      (i sec : ℕ) (name : Option Str) (tables : Sections) (c : ℕ) (arg : Option Str)
      (rest : List Str)
      → islower c ≡ true
      → plain_argument arg ≡ true
      → dashed rest ≡ true
      → parse_from mem i sec name tables ((dash ∷ c ∷ []) ∷ optional arg rest)
        ≡ parse_from mem
            (i + words_of arg)
            sec
            name
            (insert_args tables sec name c arg (mem i)).1
            rest
  parse_from-use i sec name tables c none rest low p d =
      parse_from-option mem i sec name tables c rest low d
  parse_from-use i sec name tables c (some s) rest low p d =
      parse_from-argument mem i sec name tables c s rest low (ground arith)

  parse_from-head :
      (i sec : ℕ) (name : Option Str) (tables : Sections) (c : ℕ) (title : Option Str)
      (rest : List Str)
      → isupper c ≡ true
      → plain_title title ≡ true
      → dashed rest ≡ true
      → parse_from mem i sec name tables ((dash ∷ c ∷ []) ∷ optional title rest)
        ≡ parse_from mem (i + words_of title) c title tables rest
  parse_from-head i sec name tables c none rest up p d =
      parse_from-section mem i sec name tables c rest up d
  parse_from-head i sec name tables c (some s) rest up p d =
      parse_from-title mem i sec name tables c s rest up p

  parse_from-print_uses :
      (us : List Use) (i sec : ℕ) (name : Option Str) (tables : Sections) (rest : List Str)
      → plain_uses us ≡ true
      → dashed rest ≡ true
      → let (j, done) = insert_uses mem i sec name tables us in
        parse_from mem i sec name tables (print_uses us rest) ≡ parse_from mem j sec name done rest
  unfolding print_uses insert_uses
  parse_from-print_uses [] i sec name tables rest p d = refl
  parse_from-print_uses (u ∷ us) i sec name tables rest p d =
      let (low, p') = both (islower u.letter) (plain_argument u.argument && plain_uses us) p in
      let (arg, more) = both (plain_argument u.argument) (plain_uses us) p' in
      parse_from-use i sec name tables u.letter u.argument (print_uses us rest) low arg
        (dashed-print_uses us rest d)
      ∙ parse_from-print_uses us (i + words_of u.argument) sec name _ rest more d

  parse_from-print_groups :
      (gs : List Group) (i sec : ℕ) (name : Option Str) (tables : Sections)
      → plain_groups gs ≡ true
      → parse_from mem i sec name tables (print_groups gs) ≡ (ok, insert_groups mem i tables gs)
  unfolding print_groups insert_groups parse_from
  parse_from-print_groups [] i sec name tables p = refl
  parse_from-print_groups (g ∷ gs) i sec name tables p =
      let (up, p') =
        both (isupper g.section) (plain_title g.title && (plain_uses g.uses && plain_groups gs))
          p in
      let (title, p'') = both (plain_title g.title) (plain_uses g.uses && plain_groups gs) p' in
      let (uses, more) = both (plain_uses g.uses) (plain_groups gs) p'' in
      parse_from-head i sec name tables g.section g.title (print_uses g.uses (print_groups gs)) up
        title (dashed-print_uses g.uses (print_groups gs) (dashed-print_groups gs))
      ∙ parse_from-print_uses g.uses (i + words_of g.title) g.section g.title tables
          (print_groups gs) uses (dashed-print_groups gs)
      ∙ parse_from-print_groups gs _ g.section g.title _ more

  -- A line of options of the main section and of groups of options, with letters, names and
  -- arguments that the grammar admits, is parsed without error, and what the parser does to the
  -- tables is the insertion of these options, in order, each into its section under its name.
  pub parse_args-print_groups :
      (program : Str) (us : List Use) (gs : List Group) (tables : Sections)
      → plain_uses us ≡ true
      → plain_groups gs ≡ true
      → let (j, done) = insert_uses mem 1 sec_main none tables us in
        parse_args mem tables (program ∷ print_uses us (print_groups gs))
        ≡ (ok, insert_groups mem j done gs)
  unfolding parse_args
  parse_args-print_groups program us gs tables p q =
      parse_from-print_uses us 1 sec_main none tables (print_groups gs) p (dashed-print_groups gs)
      ∙ parse_from-print_groups gs _ sec_main none _ q
