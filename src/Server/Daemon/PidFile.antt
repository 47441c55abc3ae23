-- ===== src/Server/Daemon/PidFile.antt =====
-- daemon.cpp: the number in the file is that of the process which is stopped.
use bbd.Prelude.{ℕ, true, ◌≡◌, refl, ap, some, none, List, [], ◌∷◌, arith, ==_self}
use bbd.Text.{codes, ℤ, pos, negsuc, stol}
use bbd.Text.Signed.{IsInt, stol-signed}
use bbd.Server.Daemon.{
  same_text, read_file, resolve, Process, child, returned, daemonize, to_pid, killed, uncaught,
  send_stop_signal,
}

same_text_refl : (s : List ℕ) → same_text s s ≡ true
same_text_refl [] = refl
same_text_refl (c ∷ s) = rw (==_self c) (same_text_refl s)

to_pid-IsInt : (n : ℤ) → IsInt n → to_pid n ≡ n
to_pid-IsInt (pos n) h = ground arith
to_pid-IsInt (negsuc n) h = ground arith

-- The child of daemonize returns with its handler of SIGUSR1 set, and send_stop_signal, called
-- afterwards with the same file, sends the signal to the number that setsid gave. Conditions: the
-- file can be written, the number fits an int, and the path means the same file from the directory
-- of the second call as from the root.
pub daemonize-send_stop_signal :
    (p : Process) (pgid : ℤ) (pid_file cwd : List ℕ) (handler : ℕ)
    → IsInt pgid
    → resolve cwd pid_file ≡ resolve [] pid_file
    → (d : Process) × (daemonize child pgid true pid_file handler p ≡ returned d)
      × (d.sigusr1 ≡ some handler)
      × (send_stop_signal pid_file (record d { cwd = cwd }) ≡ killed pgid)
unfolding daemonize send_stop_signal read_file
daemonize-send_stop_signal p pgid pid_file cwd handler h path = (
  _,
  refl,
  refl,
  rw (path, same_text_refl (resolve [] pid_file), stol-signed pgid (codes "\n") refl h)
      (ap killed (to_pid-IsInt pgid h)),
)

-- No file.
pub send_stop_signal-missing :
    (p : Process) (pid_file : List ℕ)
    → read_file p.files (resolve p.cwd pid_file) ≡ none
    → send_stop_signal pid_file p ≡ uncaught
unfolding send_stop_signal stol
send_stop_signal-missing p pid_file h = rw h refl
