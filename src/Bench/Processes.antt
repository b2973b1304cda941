-- ===== src/Bench/Processes.antt =====
-- main of bench/cpp/autotest.cpp: the two pipes, and the processes at their ends.
use dbgbus.Base.{ℕ, true, false, ◌==◌}
use dbgbus.Outcome.{aborted, ok, Run, ◌>>=◌, pure}
use dbgbus.System.{System, Answer, ends, ask, must, pipe, fork, kill, dup, close}

-- The parent, with its child and its ends of the pipes; and the child, which runs the bench.
pub data Role : Type 0 where
  parent : ℕ → ℕ → ℕ → Role
  child : Role

abbrev both_ends : Answer → Run System (ℕ × ℕ)
both_ends (ends r w) s = (ok (r, w), s)
both_ends _ s = (aborted, s)

-- The child reads the first pipe and writes the second one, as its standard streams.
unfoldable pub become_child : ℕ × ℕ → ℕ × ℕ → Run System Role
become_child (stdin_r, stdin_w) (stdout_r, stdout_w) = do
  _ ← ask (close stdin_w)
  _ ← ask (close stdout_r)
  _ ← ask (close 0)
  _ ← must (dup stdin_r)
  _ ← ask (close 1)
  _ ← must (dup stdout_w)
  pure child

unfoldable pub stay_parent : ℕ → ℕ × ℕ → ℕ × ℕ → Run System Role
stay_parent pid (stdin_r, stdin_w) (stdout_r, stdout_w) = do
  _ ← ask (close stdin_r)
  _ ← ask (close stdout_w)
  pure (parent pid stdin_w stdout_r)

-- main up to the tests, or the bench.
unfoldable pub divide : Run System Role
unfolding become_child stay_parent
divide = do
  a ← ask pipe
  childs_stdin ← both_ends a
  b ← ask pipe
  childs_stdout ← both_ends b
  pid ← must fork
  elim (pid == 0) [
    | true ↦ become_child childs_stdin childs_stdout
    | false ↦ stay_parent pid childs_stdin childs_stdout
  ]

-- The parent behind the tests, whose status is `err`.
unfoldable pub finish_tests : ℕ → ℕ → Run System ℕ
finish_tests pid err = do _ ← ask (kill pid 15); pure err
