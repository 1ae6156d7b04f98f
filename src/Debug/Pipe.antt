-- ===== src/Debug/Pipe.antt =====
-- The pipe to the debugger process and the fork (modules/debug/debug.c). The descriptors that a
-- process has open are the list of their numbers.
use rattle.Base.{
  ℕ, zero, suc, Bool, true, List, [], ◌∷◌, Option, none, some, Status, fail, ok, ◌==◌,
  if◌then◌else◌, get_or, set,
}
use rattle.Conf.Numbers.{ℤ, pos, negsuc, is_negative}

-- l_pipe_fd with the word of memory before it, l_process_is_child, l_process_id_of_child, and
-- the descriptors that the process has open.
pub record Pipe : Type 0 where
  pub words : List ℤ
  pub is_child : Bool
  pub child : ℤ
  pub files : List ℕ

-- l_pipe_fd[0] and l_pipe_fd[1] in the list of words.
abbrev pub read_end : ℕ
read_end = 1

abbrev pub write_end : ℕ
write_end = 2

abbrev pub minus_one : ℤ
minus_one = negsuc 0

abbrev pub word : Pipe → ℕ → ℤ
word d i = get_or d.words i minus_one

abbrev pub without : ℕ → List ℕ → List ℕ
without n [] = []
without n (f ∷ fs) = if f == n then without n fs else f ∷ without n fs

-- close(): a number that is no open descriptor changes nothing.
abbrev pub close : ℤ → List ℕ → List ℕ
close (pos n) files = without n files
close (negsuc n) files = files

-- A word is closed and set to -1.
abbrev pub close_word : ℕ → Pipe → Pipe
close_word i d = record d { words = set d.words i minus_one; files = close (word d i) d.files }

-- The body of the loop, at the word that `fd` points to.
unfoldable pub destroy_word : ℕ → Pipe → Pipe
destroy_word i d = if is_negative (word d i) then d else close_word i d

-- `fd` points to the given word when the loop tests it; the test fails at the word before
-- l_pipe_fd only.
unfoldable pub destroy_from : ℕ → Pipe → Pipe
destroy_from zero d = d
destroy_from (suc i) d = destroy_from i (destroy_word i d)

unfoldable pub destroy_pipe : Pipe → Pipe
destroy_pipe d = destroy_from write_end d

-- The argument is what pipe() answers: the two descriptors, unless it fails.
unfoldable pub create_pipe : Option (ℕ × ℕ) → Pipe → Status × Pipe
create_pipe none d = (fail, d)
create_pipe (some (r, w)) d = (
  ok,
  record d {
    words = set (set d.words read_end (pos r)) write_end (pos w);
    files = r ∷ w ∷ d.files;
  },
)

-- The first argument is what fork() answers; both processes begin with the state of the one that
-- forks.
unfoldable pub fork_process : ℤ → Pipe → Status × Pipe
fork_process (negsuc n) d = (fail, d)
fork_process (pos zero) d = (ok, record (close_word write_end d) { is_child = true })
fork_process (pos (suc n)) d = (ok, record (close_word read_end d) { child = pos (suc n) })

unfoldable pub debug_write : Pipe → Status
debug_write d = if d.is_child then fail else ok
