-- ===== src/Gsm/Network.antt =====
-- GSMSHIELD/SIM900.cpp: the wait for the registration, and the data of the cell. `reads` is what
-- each call of `_cell.read()` gives, -1 where no byte is there.
use Prim.Native.String.{String}
use bbd.Prelude.{
  ℕ, zero, suc, Bool, true, false, ◌||◌, Option, none, some, List, [], ◌∷◌, ◌==◌, if◌then◌else◌,
  ◌>>=◌,
}
use bbd.Text.{codes, ℤ, pos, negsuc}
use bbd.Gsm.State.{Gsm, sent_line, delayed, ready}
use bbd.Gsm.Receive.{wait_resp_for}
use bbd.Gsm.Command.{put}
use bbd.Gsm.Gprs.{str_recv, is_idle}
use bbd.Gsm.Modem.{set_pin, str_not_recv}

abbrev is_code : ℤ → Bool
is_code (pos n) = n == 1 || n == 5
is_code (negsuc n) = false

abbrev text_mode : Gsm → Gsm
text_mode g = put (delayed 200) (
    put (sent_line "AT+CLIP=1")
      (put (delayed 200) (put (sent_line "AT+CMGF=1") (record g { status = ready }))))

-- The `while` loop, which reads where the string has not come; whether the function returns 1 in it,
-- and the reads that are left. `none` is a loop that goes on after these reads.
unfoldable pub await_code : List ℤ → Gsm → Option (Gsm × (Bool × List ℤ))
await_code [] g = do
  end ← wait_resp_for 5000 50 (codes "+CGREG: 0,") g
  if str_recv end.1 then some (end.0, (false, [])) else none
await_code (conn_code ∷ reads) g = do
  end ← wait_resp_for 5000 50 (codes "+CGREG: 0,") g
  let more = await_code reads end.0
  if str_recv end.1
      then some (end.0, (false, conn_code ∷ reads))
      else if is_code conn_code
      then some (text_mode end.0, (true, reads))
      else more

-- The `for` loop, with `rounds` left.
unfoldable pub register : (rounds : ℕ) → List ℤ → Gsm → Option (Gsm × ℕ)
unfolding await_code
register zero reads g = some (g, 0)
register (suc rounds) reads g = do
  end ← await_code reads (put (sent_line "AT+CGREG?") g)
  let again = register rounds end.1.1 end.0
  if end.1.0 then some (end.0, 1) else again

-- `pin` is none for a null pointer.
unfoldable pub config_and_wait : (pin : Option String) → (reads : List ℤ) → Gsm → Option (Gsm × ℕ)
unfolding register
config_and_wait none reads g = register 10 reads g
config_and_wait (some pin) reads g = do sent ← set_pin pin g; register 10 reads sent.0

-- mcc, mnc, lac and cellid.
pub record CellData : Type 0 where
  pub mcc : ℤ
  pub mnc : ℤ
  pub lac : ℤ
  pub cellid : ℤ

-- The first two reads go to mcc.
abbrev cell_data : List ℤ → Option CellData
cell_data (_ ∷ a ∷ b ∷ c ∷ d ∷ _) = some (record { mcc = a; mnc = b; lac = c; cellid = d })
cell_data (_ ∷ _ ∷ _ ∷ _ ∷ []) = none
cell_data (_ ∷ _ ∷ _ ∷ []) = none
cell_data (_ ∷ _ ∷ []) = none
cell_data (_ ∷ []) = none
cell_data [] = none

abbrev stop_cell_data : CellData → Gsm → Option (Gsm × Option CellData)
stop_cell_data data_read g = do
  end ← wait_resp_for 5000 50 (codes "+OK") g
  last ← wait_resp_for 5000 50 (codes "+OK") (put (sent_line "AT+QENG=1,0") end.0)
  some (last.0, some data_read)

-- `none` in the result where the function returns 0.
unfoldable pub read_cell_data : (reads : List ℤ) → Gsm → Option (Gsm × Option CellData)
read_cell_data reads g = elim (is_idle g.status) [
  | true ↦ some (g, none)
  | false ↦
      wait_resp_for 5000 50 (codes "+QENG")
        (put (sent_line "AT+QENG?") (put (sent_line "AT+QENG=1,0") g))
      >>= λ end. elim (str_not_recv end.1) [
        | false ↦ some (end.0, none)
        | true ↦ cell_data reads >>= λ data_read. stop_cell_data data_read end.0
      ]
]
