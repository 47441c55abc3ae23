-- ===== src/Server/Daemon.antt =====
-- server/src/receiver/src/daemon/daemon.cpp: a process that goes into the background and leaves its
-- number in a file, and the signal that stops it. main.cpp calls neither, its calls are comments.
pub mod PidFile
use bbd.Prelude.{
  ℕ, zero, suc, ◌+◌, ◌-◌, ◌%◌, ◌^◌, Bool, true, false, ◌&&◌, Option, none, some, List, [], ◌∷◌,
  ◌++◌, ltb, ◌==◌, if◌then◌else◌,
}
use bbd.Text.{codes, ℤ, pos, negsuc, signed, stol, word_to_int}

abbrev same_text : List ℕ → List ℕ → Bool
same_text [] [] = true
same_text [] (_ ∷ _) = false
same_text (_ ∷ _) [] = false
same_text (c ∷ s) (d ∷ t) = (c == d) && same_text s t

-- The files by their absolute paths, the newest first.
unfoldable pub read_file : List (List ℕ × List ℕ) → List ℕ → Option (List ℕ)
read_file [] path = none
read_file ((name, text) ∷ files) path =
    let rest = read_file files path in if same_text name path then some text else rest

-- A path from a working directory, which is spelled without a slash at its end: the root is empty.
abbrev pub resolve : (cwd path : List ℕ) → List ℕ
resolve cwd [] = cwd
resolve cwd (c ∷ path) = if c == b'/' then c ∷ path else cwd ++ (b'/' ∷ c ∷ path)

-- A process, with the number of the handler of SIGUSR1, and the files that it sees.
pub record Process : Type 0 where
  pub cwd : List ℕ
  pub umask : ℕ
  pub sigusr1 : Option ℕ
  pub files : List (List ℕ × List ℕ)

-- What fork returns: less than 0, the child's number, or 0.
pub data Fork : Type 0 where
  failed parent child : Fork

pub data Outcome : Type 0 where
  exited : (status : ℕ) → Outcome
  returned : Process → Outcome

-- The output stream; where the file is not opened the number goes nowhere.
abbrev pub write_pid : (opened : Bool) → List ℕ → ℤ → Process → Process
write_pid false pid_file pgid p = p
write_pid true pid_file pgid p = record p {
  files = (resolve p.cwd pid_file, signed pgid ++ codes "\n") ∷ p.files;
}

-- EXIT_FAILURE is 1 and EXIT_SUCCESS is 0; `pgid` is what setsid returns.
unfoldable pub daemonize :
    Fork → (pgid : ℤ) → (opened : Bool) → (pid_file : List ℕ) → (handler : ℕ) → Process → Outcome
daemonize failed pgid opened pid_file handler p = exited 1
daemonize parent pgid opened pid_file handler p = exited 0
daemonize child pgid opened pid_file handler p =
    returned
      (write_pid opened pid_file pgid (record p { cwd = []; umask = 0; sigusr1 = some handler }))

-- The conversion of a long to pid_t, an int of 32 bits.
abbrev pub to_pid : ℤ → ℤ
to_pid (pos n) = word_to_int (n % 2 ^ 32)
to_pid (negsuc n) = word_to_int (2 ^ 32 - 1 - n % 2 ^ 32)

-- The process that kill is called for, or an exception of stol, which nobody catches.
pub data Stop : Type 0 where
  killed : ℤ → Stop
  uncaught : Stop

abbrev kill : Option ℤ → Stop
kill none = uncaught
kill (some n) = killed (to_pid n)

-- The text of the stream is empty where the file is not there.
abbrev contents : Option (List ℕ) → List ℕ
contents none = []
contents (some text) = text

unfoldable pub send_stop_signal : (pid_file : List ℕ) → Process → Stop
unfolding read_file
send_stop_signal pid_file p = kill (stol (contents (read_file p.files (resolve p.cwd pid_file))))
