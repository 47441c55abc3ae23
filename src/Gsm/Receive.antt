-- ===== src/Gsm/Receive.antt =====
-- GSMSHIELD/GSM.cpp: the state machine that receives, and the wait for its end.
pub mod Bounds
use bbd.Prelude.{
  ℕ, ◌+◌, ◌-◌, ◌%◌, Bool, true, false, not, ◌&&◌, Option, none, some, List, [], ◌∷◌, ◌++◌, ltb, leb,
  ◌==◌, length, if◌then◌else◌, ◌>>=◌,
}
use bbd.Gsm.State.{
  RxState, rx_not_started, rx_already_started, RxResult, rx_not_finished, rx_finished,
  rx_finished_str_recv, rx_finished_str_not_recv, rx_tmout_err, Poll, Exchange, Gsm, comm_buf_size,
}

-- The difference of two readings of millis(), an unsigned long of 32 bits.
unfoldable pub elapsed : (now since : ℕ) → ℕ
elapsed now since = (now + 4294967296 - since) % 4294967296

unfoldable pub rx_init : ℕ → ℕ → ℕ → Gsm → Gsm
rx_init now start_comm_tmout max_interchar_tmout g = record g {
  rx_state = rx_not_started;
  start_reception_tmout = start_comm_tmout;
  interchar_tmout = max_interchar_tmout;
  prev_time = now;
  comm_buf = [];
}

-- The loop over the bytes that are there; those that find the buffer full are dropped.
unfoldable pub read_all : List ℕ → List ℕ → List ℕ
read_all comm_buf [] = comm_buf
read_all comm_buf (b ∷ bs) =
    read_all (if ltb (length comm_buf) comm_buf_size then comm_buf ++ b ∷ [] else comm_buf) bs

-- The part for RX_NOT_STARTED.
unfoldable pub await_start : Poll → Gsm → Gsm × RxResult
unfolding elapsed
await_start p g = elim g.rx_state [
  | rx_already_started ↦ (g, rx_not_finished)
  | rx_not_started ↦
      if p.seen
      then (record g { prev_time = p.now_wait; rx_state = rx_already_started }, rx_not_finished)
      else (
        g,
        if leb g.start_reception_tmout (elapsed p.now_wait g.prev_time)
            then rx_tmout_err
            else rx_not_finished,
      )
]

abbrev pub is_empty : List ℕ → Bool
is_empty [] = true
is_empty (_ ∷ _) = false

abbrev pub stored : Poll → Gsm → Gsm
stored p g = record g {
  prev_time = if is_empty p.arrived then g.prev_time else p.now_data;
  comm_buf = read_all g.comm_buf p.arrived;
}

-- The part for RX_ALREADY_STARTED.
unfoldable pub receive : Poll → Gsm × RxResult → Gsm × RxResult
unfolding elapsed read_all
receive p (g, r) = elim g.rx_state [
  | rx_not_started ↦ (g, r)
  | rx_already_started ↦ (
    stored p g,
    if leb g.interchar_tmout (elapsed p.now_end (stored p g).prev_time) then rx_finished else r,
  )
]

unfoldable pub is_rx_finished : Poll → Gsm → Gsm × RxResult
unfolding await_start receive
is_rx_finished p g = receive p (await_start p g)

-- The `do` loop ends with the first result that is not RX_NOT_FINISHED; `none` is a loop that goes
-- on after these polls.
unfoldable pub wait_loop : List Poll → Gsm → Option (Gsm × RxResult)
unfolding is_rx_finished
wait_loop [] g = none
wait_loop (p ∷ ps) g =
    let (g', r) = is_rx_finished p g in
    elim r [
      | rx_not_finished ↦ wait_loop ps g'
      | rx_finished ↦ some (g', rx_finished)
      | rx_finished_str_recv ↦ some (g', rx_finished_str_recv)
      | rx_finished_str_not_recv ↦ some (g', rx_finished_str_not_recv)
      | rx_tmout_err ↦ some (g', rx_tmout_err)
    ]

unfoldable pub wait_exchange : ℕ → ℕ → Gsm → List Exchange → Option (Gsm × RxResult)
unfolding wait_loop rx_init
wait_exchange start_comm_tmout max_interchar_tmout g [] = none
wait_exchange start_comm_tmout max_interchar_tmout g (ex ∷ exs) =
    wait_loop ex.polls
      (rx_init ex.now_init start_comm_tmout max_interchar_tmout (record g { line = exs }))

-- WaitResp without an expected string.
unfoldable pub wait_resp : ℕ → ℕ → Gsm → Option (Gsm × RxResult)
unfolding wait_exchange
wait_resp start_comm_tmout max_interchar_tmout g =
    wait_exchange start_comm_tmout max_interchar_tmout g g.line

-- A C string ends before its first 0x00.
abbrev pub c_string : List ℕ → List ℕ
c_string [] = []
c_string (b ∷ bs) = if b == 0 then [] else b ∷ c_string bs

-- strstr, as a test.
abbrev pub begins : List ℕ → List ℕ → Bool
begins [] text = true
begins (x ∷ xs) [] = false
begins (x ∷ xs) (y ∷ ys) = x == y && begins xs ys

unfoldable pub occurs : List ℕ → List ℕ → Bool
occurs pattern [] = begins pattern []
occurs pattern (b ∷ bs) = if begins pattern (b ∷ bs) then true else occurs pattern bs

unfoldable pub is_string_received : List ℕ → Gsm → Bool
unfolding occurs
is_string_received compare_string g =
    not (length g.comm_buf == 0) && occurs compare_string (c_string g.comm_buf)

-- WaitResp with an expected string.
unfoldable pub wait_resp_for : ℕ → ℕ → List ℕ → Gsm → Option (Gsm × RxResult)
unfolding wait_resp is_string_received
wait_resp_for start_comm_tmout max_interchar_tmout expected g = do
  end ← wait_resp start_comm_tmout max_interchar_tmout g
  some (elim end.1 [
    | rx_finished ↦
        if is_string_received expected end.0
        then (end.0, rx_finished_str_recv)
        else (end.0, rx_finished_str_not_recv)
    | rx_not_finished ↦ (end.0, rx_tmout_err)
    | rx_finished_str_recv ↦ (end.0, rx_tmout_err)
    | rx_finished_str_not_recv ↦ (end.0, rx_tmout_err)
    | rx_tmout_err ↦ (end.0, rx_tmout_err)
  ])
