-- ===== src/Server/Logged/Responses/Sizes.antt =====
-- main.cpp: the responses in the log are those that were sent.
use Prim.Native.String.{String}
use bbd.Prelude.{
  ℕ, zero, suc, ◌+◌, ◌*◌, ◌≡◌, refl, Bool, Bool-cases, inl, inr, Option, Option-cases, none, some,
  List, [], ◌∷◌, ◌++◌, length, >>=-eq-some, arith,
}
use bbd.Bytes.{Allocator, Endian, read, u16, overwrite, write_at}
use bbd.Schedule.{Schedule}
use bbd.Database.{Database}
use bbd.Server.SocketData.{
  send_rsp_msg, prep_to_send_16, craft_device_valves_rsp, craft_active_schedules_rsp,
  sizeof_schedule,
}
use bbd.Server.Db.{Fetched}
use bbd.Server.Main.{
  Env, Reply, silent, replied, fault, deliver, send_reply, reply_valves, reply_schedules,
  reply_check, need_update,
}
use bbd.Server.Logged.{Logged, set_schedules_sent_logged, deactivation_requests_done_logged}
use bbd.Server.Logged.Responses.{logged_sizes, quiet-append, quiet-set_schedules_sent, quiet-done}
use bbd.Server.Logged.Loop.{
  Outside, failed_log, check_len, sent_step, done_step, after_active_logged,
}

length-read : (n : ℕ) (buf msg : List ℕ) → read n buf ≡ some msg → length msg ≡ n
length-read zero buf msg h = ground (arith, h)
length-read (suc n) [] msg h = cc
length-read (suc n) (x ∷ buf) msg h =
    let (rest, e, e') = >>=-eq-some (read n buf) (λ rest. some (x ∷ rest)) h in
    cc (e', length-read n buf rest e)

-- What a message has in front of the response is its size.
abbrev pub with_size : ℕ → ℕ
with_size len = u16 (2 + len)

length-send_rsp_msg :
    (e : Endian) (mem : Allocator) (reply msg : List ℕ) (len : ℕ)
    → send_rsp_msg e mem reply len ≡ some msg
    → length msg ≡ with_size len
unfolding send_rsp_msg
length-send_rsp_msg e mem reply msg len h =
    let total = with_size len in
    let (first, _, h) = >>=-eq-some (overwrite (prep_to_send_16 e len) (mem.malloc total)) _ h in
    let (body, _, h) = >>=-eq-some (read len reply) _ h in
    let (whole, _, h) = >>=-eq-some (write_at 2 body first) _ h in length-read total whole msg h

-- The client has got a message of this size, or none.
abbrev pub SizedReply : ℕ → Reply → Type 0
SizedReply len silent = Unit
SizedReply len fault = Unit
SizedReply len (replied msg) = length msg ≡ with_size len

SizedReply-deliver :
    (e : Endian) (mem : Allocator) (delivered : Bool) (reply : List ℕ) (len : ℕ)
    → SizedReply len (deliver delivered (send_rsp_msg e mem reply len))
SizedReply-deliver e mem delivered reply len = elim (Option-cases (send_rsp_msg e mem reply len)) [
  | inl h ↦ rw h tt
  | inr (msg, h) ↦ elim (Bool-cases delivered) [
    | inl up ↦ rw (h, up) (length-send_rsp_msg e mem reply msg len h)
    | inr down ↦ rw (h, down) tt
  ]
]

SizedReply-send_reply :
    (env : Env) (rsp : Option (List ℕ)) (len : ℕ) → SizedReply len (send_reply env rsp len)
SizedReply-send_reply env none len = tt
SizedReply-send_reply env (some rsp) len =
    SizedReply-deliver env.endian env.allocator env.send_ok rsp len

pub SizedReply-reply_valves :
    (env : Env) (ids : List ℕ) → SizedReply (u16 (2 * length ids)) (reply_valves env (some ids))
unfolding reply_valves
SizedReply-reply_valves env ids =
    SizedReply-send_reply env (craft_device_valves_rsp env.endian env.allocator ids)
      (u16 (2 * length ids))

pub SizedReply-reply_schedules :
    (env : Env) (sches : List Schedule)
    → SizedReply (u16 (sizeof_schedule * length sches)) (reply_schedules env sches)
SizedReply-reply_schedules env sches =
    SizedReply-send_reply env (craft_active_schedules_rsp env.endian env.allocator sches)
      (u16 (sizeof_schedule * length sches))

module _ (out : Outside) (device : ℕ) where
  quiet-failed_log : (call : String) (n : ℕ) → logged_sizes (failed_log out device call n) ≡ []
  quiet-failed_log call zero = refl
  quiet-failed_log call (suc n) = refl

  -- A call of the database with the log of its failure.
  quiet-call :
      (r : Logged (Database × ℕ)) (call : String)
      → logged_sizes r.1 ≡ []
      → logged_sizes (r.1 ++ failed_log out device call r.0.1) ≡ []
  quiet-call r call h = quiet-append r.1 _ h (quiet-failed_log call r.0.1)

  pub quiet-sent_step :
      (db : Database) (sches : List Schedule) → logged_sizes (sent_step out device db sches).1 ≡ []
  quiet-sent_step db sches =
      quiet-call
        (set_schedules_sent_logged out.env.px out.env.sent_up out.env.now out.sent_what db sches)
        "db call set_schedules_sent"
        (quiet-set_schedules_sent out.env.px out.env.sent_up out.env.now out.sent_what db sches)

  quiet-done_step : (db : Database) → logged_sizes (done_step out device db).1 ≡ []
  quiet-done_step db =
      quiet-call
        (deactivation_requests_done_logged out.env.px out.env.done_up out.env.now out.done_what db)
        "db call deactivation_requests_done"
        (quiet-done out.env.px out.env.done_up out.env.now out.done_what db)

  pub quiet-after_active :
      (db : Database) (sches : List Schedule)
      → logged_sizes (after_active_logged out device db sches).1 ≡ []
  quiet-after_active db sches =
      quiet-append (sent_step out device db sches).1
        (done_step out device (sent_step out device db sches).0).1 (quiet-sent_step db sches)
        (quiet-done_step (sent_step out device db sches).0)

  pub SizedReply-reply_check :
      (f : Fetched) → SizedReply (check_len out device f) (reply_check out.env f)
  SizedReply-reply_check f = elim (Bool-cases (need_update f.sents)) [
    | inl e ↦ rw e (SizedReply-reply_schedules out.env f.sches)
    | inr e ↦ rw e (SizedReply-send_reply out.env (some []) 0)
  ]
