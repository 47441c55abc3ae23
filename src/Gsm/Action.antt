-- ===== src/Gsm/Action.antt =====
-- GSMSHIELD/SIM900.cpp: the readers of the module's report of an action and of an HTTP status line.
-- `reads` is what the calls of `gsm.read()` give, which wait for every byte.
pub mod Endless
pub mod Code
use bbd.Prelude.{
  ℕ, zero, suc, ◌+◌, ◌-◌, Bool, true, false, not, ◌&&◌, ◌||◌, Option, none, some, List, [], ◌∷◌,
  ◌++◌, ltb, ◌==◌, length, take, drop, if◌then◌else◌, ◌>>=◌,
}
use bbd.Text.{codes, ℤ, pos, negsuc, stol}
use bbd.Gsm.Receive.{begins, c_string}
use bbd.Gsm.Http.{skip_to}

-- The search for OK: `i` stays 0, so the loop fetches up to the line break, the comparison of no
-- character succeeds, and what was fetched is lost.
unfoldable pub search_ok : (temp : ℕ) → List ℕ → Option (List ℕ)
search_ok temp [] = if temp == b'\n' then some [] else none
search_ok temp (b ∷ reads) =
    let more = search_ok b reads in if temp == b'\n' then some (b ∷ reads) else more

-- One string of the search for +HTTPACTION, with the last character and the reads that are left.
pub record Fetched : Type 0 where
  pub temp : ℕ
  pub result : List ℕ
  pub reads : List ℕ

abbrev pub first : ℕ → Option Fetched → Option Fetched
first b none = none
first b (some f) = some (record f { result = b ∷ f.result })

unfoldable pub fetch_string : (room temp : ℕ) → List ℕ → Option Fetched
fetch_string zero temp reads = some (record { temp = temp; result = []; reads = reads })
fetch_string (suc room) temp [] =
    if temp == b'\n' then some (record { temp = temp; result = []; reads = [] }) else none
fetch_string (suc room) temp (b ∷ reads) =
    let more = first b (fetch_string room b reads) in
    if temp == b'\n' then some (record { temp = temp; result = []; reads = b ∷ reads }) else more

abbrev pub is_action : List ℕ → Bool
is_action result = not (ltb (length result) 12) && begins (codes "+HTTPACTION:") result

-- The loop of the search, for so many rounds; `none` where they are not enough.
unfoldable pub search_action : (rounds temp : ℕ) → List ℕ → Option Fetched
unfolding fetch_string
search_action zero temp reads = none
search_action (suc rounds) temp reads = do
  f ← fetch_string 100 temp reads
  let again = search_action rounds f.temp f.reads
  if is_action f.result then some f else again

-- The loop over the commas looks at the first character only; the number of commas is what counts.
unfoldable pub find_commas : (rounds commas : ℕ) → List ℕ → Option ℕ
find_commas rounds (suc (suc commas)) result = some (suc (suc commas))
find_commas zero commas result = none
find_commas (suc rounds) commas [] = some commas
find_commas (suc rounds) commas (c ∷ result) =
    let next = find_commas rounds (suc commas) (c ∷ result) in
    let again = find_commas rounds commas (c ∷ result) in if c == b',' then next else again

-- The first character is read before the loops. The numbers are parameters by value, so the result
-- is the 0 that is returned.
abbrev pub from_first : (rounds : ℕ) → List ℕ → Option ℕ
from_first rounds [] = none
from_first rounds (temp ∷ reads) = do
  behind ← search_ok temp reads
  f ← search_action rounds b'\n' behind
  find_commas rounds 0 f.result >>= λ commas. some 0

unfoldable pub read_httpaction : (rounds : ℕ) → (reads : List ℕ) → Option ℕ
unfolding search_ok search_action find_commas
read_httpaction rounds reads = from_first rounds reads

-- A char is signed: from 128 on it is not above 0, and is dropped.
abbrev pub is_stored : ℕ → Bool
is_stored b = ltb 0 b && ltb b 128

abbrev pub stored_first : ℕ → Option (List ℕ × List ℕ) → Option (List ℕ × List ℕ)
stored_first b none = none
stored_first b (some (text, reads)) = some (b ∷ text, reads)

-- The loop of httpRspCode: the line, with room for so many characters, and the reads behind it.
unfoldable pub read_line : (room : ℕ) → List ℕ → Option (List ℕ × List ℕ)
read_line room [] = none
read_line zero (b ∷ reads) = some ([], reads)
read_line (suc room) (b ∷ reads) =
    let kept = stored_first b (read_line room reads) in
    let dropped = read_line (suc room) reads in
    if b == b'\n' then some ([], reads) else if is_stored b then kept else dropped

-- The loop over the line breaks of the headers.
unfoldable pub skip_lines : (lines : ℕ) → List ℕ → Option (List ℕ)
unfolding skip_to
skip_lines zero reads = some reads
skip_lines (suc lines) reads = skip_to b'\n' reads >>= λ rest. skip_lines lines rest

-- sscanf leaves `code` as it is where no number stands.
abbrev pub scanned : (code : ℤ) → Option ℤ → ℤ
scanned code none = code
scanned code (some n) = n

-- The three characters from the ninth on; `stale` is what the buffer of 100 has before.
abbrev pub char_code : (stale text : List ℕ) → List ℕ
char_code stale text = take 3 (drop 9 (text ++ drop (length text) stale))

abbrev pub with_code : (stale : List ℕ) → (code : ℤ) → List ℕ × List ℕ → Option (ℤ × List ℕ)
with_code stale code (text, reads) = skip_lines 5 reads >>= λ rest.
    some (scanned code (stol (c_string (char_code stale text))), rest)

-- The number that is returned and the reads that are left. `code` is the variable before it is set.
unfoldable pub http_rsp_code :
    (stale : List ℕ) → (code : ℤ) → (reads : List ℕ) → Option (ℤ × List ℕ)
unfolding read_line skip_lines
http_rsp_code stale code reads = read_line 100 reads >>= with_code stale code
