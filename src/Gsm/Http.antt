-- ===== src/Gsm/Http.antt =====
-- GSMSHIELD/SIM900.cpp and inetGSM.cpp: the project's own HTTP request over the GSM module.
pub mod Content
pub mod Request
use Prim.Native.String.{String}
use bbd.Prelude.{
  ℕ, zero, suc, ◌+◌, ◌-◌, ◌%◌, ◌^◌, Bool, true, false, Option, none, some, List, [], ◌∷◌, ltb, ◌==◌,
  length, if◌then◌else◌,
}
use bbd.Text.{codes, decimal, scan_digits, skip_spaces}
use bbd.Gsm.State.{
  RxResult, rx_not_finished, rx_finished, rx_finished_str_recv, rx_finished_str_not_recv,
  rx_tmout_err, Output, sent_line, sent_text, sent_number, Gsm,
}
use bbd.Gsm.Receive.{wait_resp_for}
use bbd.Gsm.Command.{put}

-- An access outside a buffer, a loop that goes on after these reads, or the buffer of the content
-- and the reads that are left.
pub data Rest : Type 0 where
  fault waiting : Rest
  content : (cont : List ℕ) → (reads : List ℕ) → Rest

-- The bytes behind the first that is this character; each is what one call of `gsm.read()` gives,
-- which waits for it, for ever where no more comes.
unfoldable pub skip_to : ℕ → List ℕ → Option (List ℕ)
skip_to c [] = none
skip_to c (b ∷ reads) = let rest = skip_to c reads in if b == c then some reads else rest

abbrev pub prepend : ℕ → Rest → Rest
prepend b fault = fault
prepend b waiting = waiting
prepend b (content cont reads) = content (b ∷ cont) reads

-- The loop up to the line break, into the part of the buffer that is left.
unfoldable pub fill_line : List ℕ → List ℕ → Rest
fill_line [] cont = waiting
fill_line (b ∷ reads) [] = if b == b'\n' then content [] reads else fault
fill_line (b ∷ reads) (x ∷ cont) =
    let rest = prepend b (fill_line reads cont) in
    if b == b'\n' then content (x ∷ cont) reads else rest

-- atoi, for a number that is converted to an unsigned int of 16 bits; `none` where no other
-- character than a digit ends it inside the buffer.
abbrev pub ended : ℕ × List ℕ → Option (ℕ × List ℕ)
ended (n, []) = none
ended (n, c ∷ rest) = some (n, c ∷ rest)

abbrev pub unsigned : (is_negative : Bool) → Option (ℕ × List ℕ) → Option ℕ
unsigned is_negative none = none
unsigned is_negative (some (n, _)) =
    some (if is_negative then (65536 - n % 65536) % 65536 else n % 65536)

abbrev pub behind_sign : List ℕ → Option ℕ
behind_sign [] = none
behind_sign (c ∷ text) =
    if c == b'-'
    then unsigned true (ended (scan_digits 0 text))
    else if c == b'+'
    then unsigned false (ended (scan_digits 0 text))
    else unsigned false (ended (scan_digits 0 (c ∷ text)))

unfoldable pub atoi : List ℕ → Option ℕ
atoi text = behind_sign (skip_spaces text)

-- The loop that reads the content.
unfoldable pub fill_content : ℕ → List ℕ → List ℕ → Rest
fill_content zero reads cont = content cont reads
fill_content (suc n) [] cont = waiting
fill_content (suc n) (b ∷ reads) [] = fault
fill_content (suc n) (b ∷ reads) (x ∷ cont) = prepend b (fill_content n reads cont)

abbrev pub with_number : (cont reads : List ℕ) → Option ℕ → Rest
with_number cont reads none = fault
with_number cont reads (some cont_len) = fill_content cont_len reads cont

abbrev pub with_length : Rest → Rest
with_length fault = fault
with_length waiting = waiting
with_length (content cont reads) = with_number cont reads (atoi cont)

abbrev pub behind_colon : List ℕ → Option (List ℕ) → Rest
behind_colon cont none = waiting
behind_colon cont (some reads) = with_length (fill_line reads cont)

abbrev pub behind_plus : List ℕ → Option (List ℕ) → Rest
behind_plus cont none = waiting
behind_plus cont (some reads) = behind_colon cont (skip_to b':' reads)

-- The buffer has 50 bytes; what the function returns is always 0.
unfoldable pub get_rest_content : (reads cont : List ℕ) → Rest
unfolding skip_to fill_line atoi fill_content
get_rest_content reads cont = behind_plus cont (skip_to b'+' reads)

-- A wait that goes on, an access outside a buffer, or the number returned with the state and the
-- buffer `rsp`.
pub data Ending : Type 0 where
  fault waiting : Ending
  returned : (number : ℕ) → Gsm → (rsp : List ℕ) → Ending

-- The answer "OK" is awaited; without it the function returns `number`.
unfoldable pub expect_ok : (start_tmout number : ℕ) → (rsp : List ℕ) → (Gsm → Ending) → Gsm → Ending
expect_ok start_tmout number rsp next g = elim (wait_resp_for start_tmout 50 (codes "OK") g) [
  | none ↦ waiting
  | some (g', r) ↦ elim r [
    | rx_finished_str_recv ↦ next g'
    | rx_not_finished ↦ returned number g' rsp
    | rx_finished ↦ returned number g' rsp
    | rx_finished_str_not_recv ↦ returned number g' rsp
    | rx_tmout_err ↦ returned number g' rsp
  ]
]

abbrev pub terminate : Gsm → Rest → Ending
terminate g fault = fault
terminate g waiting = waiting
terminate g (content rsp reads) =
    expect_ok 20000 5 rsp (λ g'. returned 0 g' rsp) (put (sent_line "AT+HTTPTERM") g)

abbrev pub fetch_content : List ℕ → List ℕ → Gsm → Ending
fetch_content reads rsp g = terminate g (get_rest_content reads rsp)

abbrev pub act : List ℕ → List ℕ → Gsm → Ending
act reads rsp g =
    expect_ok 5000 3 rsp (fetch_content reads rsp) (put (sent_line "AT+HTTPACTION=0") g)

-- The texts of the second command; it ends with the character 26.
abbrev pub url_sent : String → ℕ → String → Gsm → Gsm
url_sent server port path g = put (sent_text "\u{1a}") (
    put (sent_text "\"") (
      put (sent_text path) (
        put (sent_number port) (
          put (sent_text ":") (
            put (sent_text server)
              (put (sent_text "AT+HTTPPARA=\"URL\",\"http://") (put (sent_text "GET ") g)))))))

-- `s_port` has 5 characters, for the digits of the port and the 0 behind them.
abbrev pub set_url : String → ℕ → String → List ℕ → List ℕ → Gsm → Ending
set_url server port path reads rsp g =
    if ltb 5 (length (decimal port) + 1)
    then fault
    else expect_ok 20000 2 rsp (act reads rsp) (url_sent server port path g)

-- InetGSM::httpGET; `reads` is what the calls of `gsm.read()` give.
unfoldable pub http_get :
    String → (port : ℕ) → (path : String) → (reads rsp : List ℕ) → Gsm → Ending
unfolding expect_ok get_rest_content
http_get server port path reads rsp g =
    expect_ok 5000 1 rsp (set_url server port path reads rsp) (put (sent_line "AT+HTTPINIT") g)
