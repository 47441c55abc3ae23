-- ===== src/Gsm/Modem/Registration.antt =====
-- SIM900.cpp, CheckRegistration: what its result says of the flags and of the line.
use bbd.Prelude.{
  ◌≡◌, ◌≢◌, refl, Bool, true, false, Bool-cases, inl, inr, Option, Option-cases, none, some, ◌>>=◌,
}
use mathlib.Core.Path.{subst}
use bbd.Gsm.State.{
  Gsm, RxResult, rx_not_finished, rx_finished, rx_finished_str_recv, rx_finished_str_not_recv,
  rx_tmout_err, CommLineStatus, cls_free, cls_atcmd, cls_data,
}
use bbd.Gsm.Setup.{set_comm_line_status, init_param_1}
use bbd.Gsm.Modem.{
  ModuleStatus, Checked, RegistrationRetVal, reg_not_registered, reg_registered, reg_no_response,
  reg_comm_line_busy, registered_now, is_registered_received, answered, on_answer, on_line,
  check_registration,
}

-- What the result says.
abbrev pub Told : ModuleStatus → Gsm → Checked → RegistrationRetVal → Type 0
Told status g c reg_comm_line_busy =
    (c.module_status ≡ status) × (c.gsm ≡ g) × (g.comm_line_status ≢ cls_free)
Told status g c reg_no_response = (c.module_status ≡ status) × (c.gsm.comm_line_status ≡ cls_free)
Told status g c reg_not_registered =
    (c.module_status ≡ record status { registered = false }) × (c.gsm.comm_line_status ≡ cls_free)
Told status g c reg_registered =
    (c.module_status ≡ record { initialized = true; registered = true })
    × (c.gsm.comm_line_status ≡ cls_free)

abbrev ToldIf : ModuleStatus → Gsm → Option Checked → Type 0
ToldIf status g none = Unit
ToldIf status g (some c) = Told status g c c.ret_val

ToldIf-registered_now :
    (status : ModuleStatus) (g g' : Gsm) → ToldIf status g (registered_now status g')
ToldIf-registered_now status g g' = elim (Bool-cases status.initialized) [
  | inl e ↦ rw e (refl, refl)
  | inr e ↦ elim (Option-cases (init_param_1 (set_comm_line_status cls_free g'))) [
    | inl h ↦ rw (e, h) tt
    | inr (end, h) ↦ rw (e, h) (refl, refl)
  ]
]

module _ (status : ModuleStatus) (g : Gsm) where
  ToldIf-answered : (b : Bool) (g' : Gsm) → ToldIf status g (answered b status g')
  ToldIf-answered true g' = ToldIf-registered_now status g g'
  ToldIf-answered false g' = (refl, refl)

  ToldIf-on_answer : (end : Gsm × RxResult) → ToldIf status g (on_answer status end)
  ToldIf-on_answer (g', rx_finished) = ToldIf-answered (is_registered_received g') g'
  ToldIf-on_answer (g', rx_not_finished) = (refl, refl)
  ToldIf-on_answer (g', rx_finished_str_recv) = (refl, refl)
  ToldIf-on_answer (g', rx_finished_str_not_recv) = (refl, refl)
  ToldIf-on_answer (g', rx_tmout_err) = (refl, refl)

  ToldIf-waited :
      (waited : Option (Gsm × RxResult)) → ToldIf status g (waited >>= λ end. on_answer status end)
  ToldIf-waited none = tt
  ToldIf-waited (some end) = ToldIf-on_answer end

  ToldIf-on_line :
      (line : CommLineStatus) → g.comm_line_status ≡ line → ToldIf status g (on_line line status g)
  ToldIf-on_line cls_free e = ToldIf-waited _
  ToldIf-on_line cls_atcmd e = (refl, refl, λ q. cc (q, e))
  ToldIf-on_line cls_data e = (refl, refl, λ q. cc (q, e))

  -- What the result of CheckRegistration says, whatever the module does: with REG_COMM_LINE_BUSY
  -- nothing has changed and the line was not free; with every other the line is free; with
  -- REG_NO_RESPONSE the two flags are as before, with REG_NOT_REGISTERED the flag of the
  -- registration is off and the other as before, and with REG_REGISTERED both are on.
  pub check_registration-Told :
      (c : Checked) → check_registration status g ≡ some c → Told status g c c.ret_val
  unfolding check_registration
  check_registration-Told c e = subst (ToldIf status g) e (ToldIf-on_line g.comm_line_status refl)
