-- ===== src/Gsm/State.antt =====
-- GSMSHIELD/GSM.h: the fields of the class GSM, and what stands outside the program.
use Prim.Native.String.{String}
use bbd.Prelude.{ℕ, Bool, List}

pub data RxState : Type 0 where
  rx_not_started rx_already_started : RxState

-- The results of a reception.
pub data RxResult : Type 0 where
  rx_not_finished rx_finished rx_finished_str_recv rx_finished_str_not_recv rx_tmout_err : RxResult

pub data AtResp : Type 0 where
  at_resp_err_no_resp at_resp_err_dif_resp at_resp_ok : AtResp

pub data CommLineStatus : Type 0 where
  cls_free cls_atcmd cls_data : CommLineStatus

pub data GsmStatus : Type 0 where
  error idle ready attached tcpserverwait tcpconnectedserver tcpconnectedclient : GsmStatus

-- What one call of IsRxFinished finds: whether the first `available()` sees a byte, the three
-- readings of the clock, and the bytes that are there when they are read.
pub record Poll : Type 0 where
  pub seen : Bool
  pub now_wait : ℕ
  pub now_data : ℕ
  pub now_end : ℕ
  pub arrived : List ℕ

-- What the module does from one RxInit on.
pub record Exchange : Type 0 where
  pub now_init : ℕ
  pub polls : List Poll

-- What the program does to the module, to its pin and to the clock.
pub data Output : Type 0 where
  sent_line sent_text : String → Output
  sent_number : ℕ → Output
  delayed : ℕ → Output
  baud : ℕ → Output
  power_pin : (high : Bool) → Output

-- `comm_buf` has the `comm_buf_len` bytes before the 0x00; RxInit sets the pointer and the length
-- back together. `line` is what the module will do, and the newest output stands first.
pub record Gsm : Type 0 where
  pub rx_state : RxState
  pub start_reception_tmout : ℕ
  pub interchar_tmout : ℕ
  pub prev_time : ℕ
  pub comm_buf : List ℕ
  pub comm_line_status : CommLineStatus
  pub status : GsmStatus
  pub output : List Output
  pub line : List Exchange

abbrev pub comm_buf_size : ℕ
comm_buf_size = 200
