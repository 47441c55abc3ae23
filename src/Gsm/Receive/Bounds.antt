-- ===== src/Gsm/Receive/Bounds.antt =====
-- GSM.cpp: the length of the communication buffer, and the end of a wait for a silent module.
use bbd.Prelude.{
  ℕ, false, All, ap, ◌∙◌, ◌≤◌, ◌≡◌, refl, some, List, [], ◌∷◌, ◌++◌, ltb, leb, length,
  length-append, arith, if◌then◌else◌,
}
use bbd.Gsm.State.{rx_not_started, RxResult, rx_not_finished, rx_tmout_err, Poll, Exchange, Gsm}
use bbd.Gsm.Receive.{
  elapsed, rx_init, read_all, await_start, receive, is_rx_finished, wait_loop, wait_exchange,
  wait_resp,
}

length-read_all :
    (comm_buf bs : List ℕ) → length comm_buf ≤ 200 → length (read_all comm_buf bs) ≤ 200
unfolding read_all
length-read_all comm_buf [] h = h
length-read_all comm_buf (b ∷ bs) h =
    length-read_all (if ltb (length comm_buf) 200 then comm_buf ++ b ∷ [] else comm_buf) bs
      (ground (arith, length-append comm_buf (b ∷ [])))

await_start-comm_buf : (p : Poll) (g : Gsm) → (await_start p g).0.comm_buf ≡ g.comm_buf
unfolding await_start
await_start-comm_buf p g = ground arith

length-receive :
    (p : Poll) (g : Gsm) (r : RxResult)
    → length g.comm_buf ≤ 200
    → length (receive p (g, r)).0.comm_buf ≤ 200
unfolding receive
length-receive p g r h = ground (arith, length-read_all g.comm_buf p.arrived h)

length-is_rx_finished :
    (p : Poll) (g : Gsm) → length g.comm_buf ≤ 200 → length (is_rx_finished p g).0.comm_buf ≤ 200
unfolding is_rx_finished
length-is_rx_finished p g h =
    length-receive p (await_start p g).0 (await_start p g).1 (rw (await_start-comm_buf p g) h)

length-wait_loop :
    (ps : List Poll) (g g' : Gsm) (r : RxResult)
    → length g.comm_buf ≤ 200
    → wait_loop ps g ≡ some (g', r)
    → length g'.comm_buf ≤ 200
unfolding wait_loop
length-wait_loop [] g g' r h e = cc
length-wait_loop (p ∷ ps) g g' r h e =
    ground (arith, length-is_rx_finished p g h, length-wait_loop ps (is_rx_finished p g).0 g' r)

-- When a reception ends, the communication buffer holds at most 200 bytes, however many came,
-- whatever it held before and whatever the timeouts are.
pub length-wait_resp :
    (start_comm_tmout max_interchar_tmout : ℕ) (g g' : Gsm) (r : RxResult)
    → wait_resp start_comm_tmout max_interchar_tmout g ≡ some (g', r)
    → length g'.comm_buf ≤ 200
unfolding wait_resp wait_exchange rx_init
length-wait_resp start_comm_tmout max_interchar_tmout g g' r e = received g.line e
  where
    received :
        (exs : List Exchange)
        → wait_exchange start_comm_tmout max_interchar_tmout g exs ≡ some (g', r)
        → length g'.comm_buf ≤ 200
    received [] e = cc
    received (ex ∷ exs) e = length-wait_loop ex.polls _ g' r (omega arith) e

is_rx_finished-silent :
    (p : Poll) (g : Gsm)
    → g.rx_state ≡ rx_not_started
    → p.seen ≡ false
    → is_rx_finished p g ≡ (
      g,
      if leb g.start_reception_tmout (elapsed p.now_wait g.prev_time)
          then rx_tmout_err
          else rx_not_finished,
    )
unfolding is_rx_finished await_start receive
is_rx_finished-silent p g start silent = ground arith

wait_loop-silent :
    (ps : List Poll) (p : Poll) (g : Gsm)
    → g.rx_state ≡ rx_not_started
    → All (λ q. q.seen ≡ false) ps
    → p.seen ≡ false
    → g.start_reception_tmout ≤ elapsed p.now_wait g.prev_time
    → wait_loop (ps ++ p ∷ []) g ≡ some (g, rx_tmout_err)
unfolding wait_loop
wait_loop-silent [] p g start silent last late =
    ground (arith, is_rx_finished-silent p g start last)
wait_loop-silent (q ∷ ps) p g start silent last late = ground (
  arith,
  is_rx_finished-silent q g start silent.0,
  wait_loop-silent ps p g start silent.1 last late,
)

-- The wait for a module that sends nothing ends with RX_TMOUT_ERR, with the reception as it was
-- set up, once a reading of the clock is the timeout for the start or more after the setup.
pub wait_resp-silent :
    (start_comm_tmout max_interchar_tmout now : ℕ) (ps : List Poll) (p : Poll) (exs : List Exchange)
    (g : Gsm)
    → g.line ≡ (record { now_init = now; polls = ps ++ p ∷ [] }) ∷ exs
    → All (λ q. q.seen ≡ false) ps
    → p.seen ≡ false
    → start_comm_tmout ≤ elapsed p.now_wait now
    → wait_resp start_comm_tmout max_interchar_tmout g
      ≡ some
          (rx_init now start_comm_tmout max_interchar_tmout (record g { line = exs }), rx_tmout_err)
unfolding wait_resp wait_exchange rx_init
wait_resp-silent start_comm_tmout max_interchar_tmout now ps p exs g e silent last late =
    ap (wait_exchange start_comm_tmout max_interchar_tmout g) e
    ∙ wait_loop-silent ps p _ refl silent last late
