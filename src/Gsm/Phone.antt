-- ===== src/Gsm/Phone.antt =====
-- GSMSHIELD/SIM900.cpp: the numbers of the module and of its card, calls that come in, and the
-- power of the module. `stream` is what the text finder gets.
use bbd.Prelude.{
  ℕ, ◌+◌, Bool, true, false, Option, none, some, List, [], ◌∷◌, ltb, ◌==◌, ◌-◌, length,
  if◌then◌else◌, ◌>>=◌,
}
use bbd.Text.{codes}
use bbd.Gsm.State.{
  Gsm, comm_buf_size, GsmStatus, sent_line, delayed, power_pin, error, idle, ready, attached,
  tcpserverwait, tcpconnectedserver, tcpconnectedclient,
}
use bbd.Gsm.Receive.{c_string, is_string_received, wait_resp_for}
use bbd.Gsm.Command.{put}
use bbd.Gsm.TextFinder.{get_string}
use bbd.Gsm.Gprs.{str_recv, is_idle}
use bbd.Gsm.Modem.{answer_number}

abbrev with_text : List ℕ → Gsm × ℕ → Option (Gsm × (ℕ × List ℕ))
with_text text (g, n) = some (g, (n, text))

-- The number that is returned and the buffer of the IMEI, which has 16 bytes.
unfoldable pub get_imei : (stream : List ℕ) → Gsm → Option (Gsm × (ℕ × List ℕ))
get_imei stream g =
    answer_number (put (sent_line "AT+GSN") g)
    >>= with_text (get_string (codes "\r\n") (codes "\r\n") 16 stream).1

abbrev is_ready : GsmStatus → Bool
is_ready ready = true
is_ready error = false
is_ready idle = false
is_ready attached = false
is_ready tcpserverwait = false
is_ready tcpconnectedserver = false
is_ready tcpconnectedclient = false

-- The buffer `cci` has 21 bytes and is left alone where the module is not ready.
unfoldable pub get_cci : (stream cci : List ℕ) → Gsm → Option (Gsm × (ℕ × List ℕ))
get_cci stream cci g = elim (is_ready g.status) [
  | false ↦ some (g, (2, cci))
  | true ↦
      answer_number (put (sent_line "AT+QCCID") g)
      >>= with_text (get_string (codes "AT+QCCID\r\r\r\n") (codes "\r\n") 21 stream).1
]

-- The result of readCall with the buffer `number`. The test of the answer is turned round: it takes
-- a number and hangs up where no call is reported.
unfoldable pub read_call :
    (stream number : List ℕ) → (nlength : ℕ) → Gsm → Option (Gsm × (Bool × List ℕ))
read_call stream number nlength g = elim (is_idle g.status) [
  | true ↦ some (g, (false, number))
  | false ↦ wait_resp_for 5000 50 (codes "+CLIP: \"") g >>= λ end. some (
      if str_recv end.1 then (end.0, (false, number)) else (
        put (delayed 1000) (put (sent_line "ATH") end.0),
        (true, (get_string [] (codes "\"") nlength stream).1),
      ))
]

-- strchr of a comma: what stands behind it.
unfoldable pub behind_comma : List ℕ → Option (List ℕ)
behind_comma [] = none
behind_comma (c ∷ text) = let rest = behind_comma text in if c == b',' then some text else rest

abbrev first_is_four : List ℕ → Bool
first_is_four [] = false
first_is_four (c ∷ text) = c == b'4'

-- An access outside the buffer, or the number that is returned.
pub data ForceOn : Type 0 where
  fault : ForceOn
  returned : (number : ℕ) → Gsm → ForceOn

abbrev pub by_state : ℕ → Gsm → List ℕ → ForceOn
by_state ret_val g text =
    if first_is_four text
    then returned 2
        (put (delayed 10000) (put (power_pin false) (put (delayed 1200) (put (power_pin true) g))))
    else returned ret_val g

-- A zero is written two characters behind the place behind the comma, and where there is no comma to
-- the address 3. In the buffer it and that for the second comma stand behind the state or in place
-- of a comma, and the next RxInit empties the buffer.
abbrev pub with_state : ℕ → Gsm → (buffer : List ℕ) → Option (List ℕ) → ForceOn
with_state ret_val g buffer none = fault
with_state ret_val g buffer (some text) =
    if ltb comm_buf_size (length buffer - length text + 2) then fault else by_state ret_val g text

-- The module is switched on where the state is 4.
unfoldable pub force_on : Gsm → Option ForceOn
unfolding behind_comma
force_on g = do
  end ← wait_resp_for 5000 100 (codes "OK") (put (sent_line "AT+CREG?") g)
  let buffer = c_string end.0.comm_buf
  some (
      with_state (if is_string_received (codes "OK") end.0 then 1 else 0) end.0 buffer
        (behind_comma buffer))
