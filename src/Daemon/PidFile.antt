-- ===== src/Daemon/PidFile.antt =====
-- internal/daemon/pidfile.go: the file that keeps a second daemon from starting. The files are known by
-- their numbers, as a path may get a new file while a process holds the old one open.
use mole_port.Base.{Option, String, if◌then◌else◌, itoa, none, some, ℕ, ◌+◌, ◌<>◌, ◌==◌}
use mole_port.Core.Errors.{Error, other, wrap}

-- How the system calls on an open file fail
pub record FileCalls : Type 0 where
  pub open_file : Option Error
  pub truncate : Option Error
  pub write_pid : Option Error
  pub remove : Option Error
  pub unlock : Option Error
  pub close_file : Option Error

-- The machine: the file at the path of the PID file, the process that holds the lock of each file, what the
-- files contain, and the numbers that are not given yet
pub record Machine : Type 0 where
  pub at_path : Option ℕ
  pub holder : ℕ → Option ℕ
  pub contents : ℕ → String
  pub next_file : ℕ

-- PIDFile, with the number of the process it belongs to; `file` is none for nil
pub record PidFile : Type 0 where
  pub process : ℕ
  pub file : Option ℕ

-- NewPIDFile
unfoldable pub new_pid_file : ℕ → PidFile
new_pid_file process = record { process = process; file = none }

-- os.OpenFile with O_CREATE: the file at the path, or a new one
unfoldable pub open_pid : Machine → ℕ × Machine
open_pid w = elim w.at_path [
  | some i ↦ (i, w)
  | none ↦ (
    w.next_file,
    record w {
      at_path = some w.next_file;
      contents = λ j. if w.next_file == j then "" else w.contents j;
      next_file = w.next_file + 1;
    },
  )
]

abbrev pub set_holder : ℕ → Option ℕ → Machine → Machine
set_holder i o w = record w { holder = λ j. if i == j then o else w.holder j }

abbrev pub set_contents : ℕ → String → Machine → Machine
set_contents i text w = record w { contents = λ j. if i == j then text else w.contents j }

-- The steps of Acquire that have the lock; a close gives it back.
unfoldable pub fill_locked : FileCalls → ℕ → PidFile → Machine → Option Error × PidFile × Machine
unfolding itoa
fill_locked calls i p w = elim calls.truncate [
  | some e ↦ (some (wrap "truncate pid file" e), p, set_holder i none (set_contents i "" w))
  | none ↦ elim calls.write_pid [
    | some e ↦ (some (wrap "write pid" e), p, set_holder i none (set_contents i "" w))
    | none ↦ (none, record p { file = some i }, set_contents i (itoa p.process <> "\n") w)
  ]
]

-- The test of the lock
unfoldable pub lock_opened : FileCalls → ℕ → PidFile → Machine → Option Error × PidFile × Machine
unfolding fill_locked
lock_opened calls i p w = elim (w.holder i) [
  | some other_process ↦ (
    some (wrap "daemon already running (lock failed)" (other "resource temporarily unavailable")),
    p,
    w,
  )
  | none ↦ fill_locked calls i p (set_holder i (some p.process) w)
]

-- Acquire
unfoldable pub acquire : FileCalls → PidFile → Machine → Option Error × PidFile × Machine
unfolding lock_opened open_pid
acquire calls p w = elim calls.open_file [
  | some e ↦ (some (wrap "open pid file" e), p, w)
  | none ↦ let (i, w') = open_pid w in lock_opened calls i p w'
]

-- errors.Join of three: the first of them stands for the list
abbrev pub join_errors : Option Error → Option Error → Option Error → Option Error
join_errors (some e) b c = some e
join_errors none (some e) c = some e
join_errors none none c = c

-- Release of a file that is held: the close gives the lock back where the unlock fails.
unfoldable pub release_file : FileCalls → ℕ → PidFile → Machine → Option Error × PidFile × Machine
release_file calls i p w = (
  join_errors calls.remove calls.unlock calls.close_file,
  record p { file = none },
  set_holder i none (elim calls.remove [ some e ↦ w | none ↦ record w { at_path = none } ]),
)

-- Release
unfoldable pub release : FileCalls → PidFile → Machine → Option Error × PidFile × Machine
unfolding release_file
release calls p w = elim p.file [ none ↦ (none, p, w) | some i ↦ release_file calls i p w ]
