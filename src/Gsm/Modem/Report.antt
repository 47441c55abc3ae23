-- ===== src/Gsm/Modem/Report.antt =====
-- SIM900.cpp, CheckRegistration: the report of the module, byte by byte, and what becomes of it.
use bbd.Prelude.{
  ℕ, ◌≤◌, ◌<◌, ◌≡◌, refl, ap, ◌∙◌, Bool, true, false, ◌||◌, some, List, [], ◌∷◌, ◌++◌, ◌==◌, arith,
  leb, le→leb, if◌then◌else◌, Bool-cases, inl, inr,
}
use bbd.Text.{codes}
use bbd.Gsm.State.{
  Gsm, Poll, Exchange, rx_not_finished, rx_finished, rx_already_started, sent_line, cls_free,
  cls_atcmd, cls_data,
}
use bbd.Gsm.Command.{put}
use bbd.Gsm.Setup.{set_comm_line_status}
use bbd.Gsm.Receive.{
  elapsed, rx_init, read_all, await_start, receive, is_rx_finished, wait_loop, wait_exchange,
  wait_resp, is_string_received, occurs,
}
use bbd.Gsm.Modem.{
  ModuleStatus, reg_not_registered, reg_registered, reg_comm_line_busy, is_registered_received,
  check_registration,
}

-- The module's report of the state `d`, a digit.
abbrev pub report : ℕ → List ℕ
report d = codes "\r\n+CREG: 0," ++ d ∷ codes "\r\n\r\nOK\r\n"

-- 1 is the home network, 5 roaming.
abbrev pub is_registered : ℕ → Bool
is_registered d = d == b'1' || d == b'5'

is_registered_received-report :
    (g : Gsm) (d : ℕ) → is_registered_received (record g { comm_buf = report d }) ≡ is_registered d
unfolding is_string_received occurs
is_registered_received-report g d = ground arith

still : {n : ℕ} → n < 50 → leb 50 n ≡ false
still h = ground arith

-- The poll that finds the report, and a later one that finds nothing.
abbrev pub reporting : (now_wait now_data now_end d : ℕ) → Poll
reporting now_wait now_data now_end d = record {
  seen = true;
  now_wait = now_wait;
  now_data = now_data;
  now_end = now_end;
  arrived = report d;
}

abbrev pub pausing : (seen : Bool) → (now_wait now_data now_end : ℕ) → Poll
pausing seen now_wait now_data now_end = record {
  seen = seen;
  now_wait = now_wait;
  now_data = now_data;
  now_end = now_end;
  arrived = [];
}

-- The loop over two polls, the second of which ends it.
two_polls :
    (p q : Poll) (g g' end : Gsm)
    → is_rx_finished p g ≡ (g', rx_not_finished)
    → is_rx_finished q g' ≡ (end, rx_finished)
    → wait_loop (p ∷ q ∷ []) g ≡ some (end, rx_finished)
unfolding wait_loop
two_polls p q g g' end e e' = ground (arith, e, e')

-- The state behind the report, with the line set free. `t_data` is the time of the report.
abbrev pub heard : Gsm → (t_data : ℕ) → (rest : List Exchange) → (d : ℕ) → Gsm
heard g t_data rest d = record g {
  rx_state = rx_already_started;
  start_reception_tmout = 5000;
  interchar_tmout = 50;
  prev_time = t_data;
  comm_buf = report d;
  comm_line_status = cls_free;
  output = sent_line "AT+CREG?" ∷ g.output;
  line = rest;
}

module _ (g : Gsm) (now t_wait t_data t_end u_wait u_data u_end : ℕ) (seen : Bool)
    (rest : List Exchange) (d : ℕ)
    (line : g.line
      ≡ (record {
        now_init = now;
        polls = reporting t_wait t_data t_end d ∷ pausing seen u_wait u_data u_end ∷ [];
      })
        ∷ rest)
    (goes_on : elapsed t_end t_data < 50) (over : 50 ≤ elapsed u_end t_data) where
  abbrev asking : Gsm
  asking = put (sent_line "AT+CREG?") (set_comm_line_status cls_atcmd g)

  -- The buffer after the first of the polls, and after the second.
  abbrev received : Gsm
  received = record (heard g t_data rest d) { comm_line_status = cls_atcmd }

  first_poll :
      is_rx_finished
        (reporting t_wait t_data t_end d)
        (rx_init now 5000 50 (record asking { line = rest }))
      ≡ (received, rx_not_finished)
  unfolding is_rx_finished await_start receive rx_init read_all
  first_poll = ap (λ b. (received, if b then rx_finished else rx_not_finished)) (still goes_on)

  second_poll : is_rx_finished (pausing seen u_wait u_data u_end) received ≡ (received, rx_finished)
  unfolding is_rx_finished await_start receive read_all
  second_poll = ap (λ b. (received, if b then rx_finished else rx_not_finished)) (le→leb 50 _ over)

  wait_resp-report : wait_resp 5000 50 asking ≡ some (received, rx_finished)
  unfolding wait_resp wait_exchange
  wait_resp-report =
      ap (wait_exchange 5000 50 asking) line
      ∙ two_polls (reporting t_wait t_data t_end d) (pausing seen u_wait u_data u_end)
          (rx_init now 5000 50 (record asking { line = rest })) received received first_poll
          second_poll

  free_line :
      (status : ModuleStatus)
      → status.initialized ≡ true
      → check_registration status (record g { comm_line_status = cls_free })
        ≡ some (record {
          module_status = record status { registered = is_registered d };
          gsm = heard g t_data rest d;
          ret_val = if is_registered d then reg_registered else reg_not_registered;
        })
  unfolding check_registration is_string_received
  free_line status once = elim (Bool-cases (is_registered d)) [
    | inl e ↦
        rw (wait_resp-report, is_registered_received-report (heard g t_data rest d) d, e, once) refl
    | inr e ↦ rw (wait_resp-report, is_registered_received-report (heard g t_data rest d) d, e) refl
  ]

  -- CheckRegistration on a module that is past its first registration. Where the line is free and
  -- the module reports the state `d`, it has sent AT+CREG?, the result is REG_REGISTERED for 1
  -- and 5 and REG_NOT_REGISTERED for every other, the flag of the registration is set to the same,
  -- and the line is free again. Where the line is in use, it sends nothing, changes nothing, and
  -- returns REG_COMM_LINE_BUSY. Conditions: the first look at the line finds the whole report,
  -- and the second, 50 ms or more after it, finds nothing more.
  pub check_registration-report :
      (status : ModuleStatus)
      → status.initialized ≡ true
      → (check_registration status (record g { comm_line_status = cls_free })
          ≡ some (record {
            module_status = record status { registered = is_registered d };
            gsm = heard g t_data rest d;
            ret_val = if is_registered d then reg_registered else reg_not_registered;
          }))
        × (check_registration status (record g { comm_line_status = cls_atcmd })
            ≡ some (record {
              module_status = status;
              gsm = record g { comm_line_status = cls_atcmd };
              ret_val = reg_comm_line_busy;
            }))
        × (check_registration status (record g { comm_line_status = cls_data })
            ≡ some (record {
              module_status = status;
              gsm = record g { comm_line_status = cls_data };
              ret_val = reg_comm_line_busy;
            }))
  unfolding check_registration
  check_registration-report status once = (free_line status once, refl, refl)
