-- ===== src/Gsm/Http/Request.antt =====
-- inetGSM.cpp, httpGET: the request as a whole.
use Prim.Native.String.{String}
use bbd.Prelude.{
  ℕ, ◌≤◌, ◌<◌, ◌≡◌, refl, ap, ◌∙◌, false, some, List, ◌++◌, any, any-append, arith, length,
  length-append, drop, append_assoc, ◌==◌,
}
use bbd.Text.{codes, decimal, scan_digits, skip_spaces}
use bbd.Text.Decimal.{length-decimal, length-decimal_least, length-decimal_port, any-decimal}
use bbd.Gsm.State.{Gsm, rx_finished_str_recv, sent_line}
use bbd.Gsm.Receive.{wait_resp_for}
use bbd.Gsm.Command.{put}
use bbd.Gsm.Http.{
  content, atoi, fill_content, get_rest_content, Ending, fault, returned, expect_ok, terminate,
  fetch_content, act, set_url, url_sent, http_get,
}
use bbd.Gsm.Http.Content.{get_rest_content-line, answer, get_rest_content-answer}

-- The module answers to what was sent.
abbrev pub AnswersOk : ℕ → Gsm → Gsm → Type 0
AnswersOk start_tmout g g' =
    wait_resp_for start_tmout 50 (codes "OK") g ≡ some (g', rx_finished_str_recv)

expect_ok-received :
    (start_tmout number : ℕ) (rsp : List ℕ) (next : Gsm → Ending) (g g' : Gsm)
    → AnswersOk start_tmout g g'
    → expect_ok start_tmout number rsp next g ≡ next g'
unfolding expect_ok
expect_ok-received start_tmout number rsp next g g' h = rw (h, expect_ok) refl

-- What the module tells of the action: the method, the status and the number of the bytes.
abbrev action_line : (status data_len : ℕ) → List ℕ
action_line status data_len =
    codes "0," ++ (decimal status ++ (codes "," ++ (decimal data_len ++ codes "\r")))

abbrev pub action : (status data_len : ℕ) → List ℕ → List ℕ
action status data_len rest =
    codes "\r\n+HTTPACTION:" ++ (action_line status data_len ++ (codes "\n" ++ rest))

action_line-no_break :
    (status data_len : ℕ) → any (λ b. b == b'\n') (action_line status data_len) ≡ false
action_line-no_break status data_len =
    rw
      (
        any-append (λ b. b == b'\n') (decimal status)
            (codes "," ++ (decimal data_len ++ codes "\r")),
        any-decimal b'\n' status refl,
        any-append (λ b. b == b'\n') (decimal data_len) (codes "\r"),
        any-decimal b'\n' data_len refl,
      )
      refl

length-action_line :
    (status data_len : ℕ)
    → status < 100000
    → data_len < 100000
    → length (action_line status data_len) ≤ 14
length-action_line status data_len h h' = omega (
  arith,
  length-append (decimal status) (codes "," ++ (decimal data_len ++ codes "\r")),
  length-append (decimal data_len) (codes "\r"),
  length-decimal status,
  length-decimal data_len,
)

-- The line of the action is taken for the number of the bytes, which is the method's, 0.
get_rest_content-action :
    (status data_len : ℕ) (rest rsp : List ℕ)
    → length rsp ≡ 50
    → status < 100000
    → data_len < 100000
    → get_rest_content (action status data_len rest) rsp
      ≡ content
          (action_line status data_len ++ drop (length (action_line status data_len)) rsp)
          rest
unfolding atoi skip_spaces scan_digits fill_content
get_rest_content-action status data_len rest rsp fifty h h' =
    get_rest_content-line (codes "\r\n") (codes "HTTPACTION") (action_line status data_len) rest rsp
      refl refl (action_line-no_break status data_len)
      (omega (arith, length-action_line status data_len))

module _ (server : String) (port : ℕ) (path : String) (rsp : List ℕ) (g g₁ : Gsm)
    (initialised : AnswersOk 5000 (put (sent_line "AT+HTTPINIT") g) g₁) where
  -- The bug: a port of five digits does not fit in s_port, which has 5 characters with the 0 at
  -- the end: once the module has answered OK to the first command, httpGET writes past it for
  -- every port from 10000 on.
  pub http_get-long_port :
      (reads : List ℕ) → 10000 ≤ port → http_get server port path reads rsp g ≡ fault
  unfolding http_get
  http_get-long_port reads long =
      expect_ok-received 5000 1 rsp (set_url server port path reads rsp)
        (put (sent_line "AT+HTTPINIT") g) g₁ initialised
      ∙ ground (arith, length-decimal_least port)

  module _ (g₂ g₃ : Gsm) (short : port < 10000)
      (addressed : AnswersOk 20000 (url_sent server port path g₁) g₂)
      (acted : AnswersOk 5000 (put (sent_line "AT+HTTPACTION=0") g₂) g₃) where
    http_get-fetch_content :
        (reads : List ℕ)
        → http_get server port path reads rsp g ≡ terminate g₃ (get_rest_content reads rsp)
    unfolding http_get
    http_get-fetch_content reads =
        expect_ok-received 5000 1 rsp (set_url server port path reads rsp)
          (put (sent_line "AT+HTTPINIT") g) g₁ initialised
        ∙ small
        ∙ expect_ok-received 20000 2 rsp (act reads rsp) (url_sent server port path g₁) g₂ addressed
        ∙ expect_ok-received 5000 3 rsp (fetch_content reads rsp)
            (put (sent_line "AT+HTTPACTION=0") g₂) g₃ acted
      where
        small :
            set_url server port path reads rsp g₁
            ≡ expect_ok 20000 2 rsp (act reads rsp) (url_sent server port path g₁)
        small = ground (arith, length-decimal_port port)

    module _ (g₄ : Gsm) (ended : AnswersOk 20000 (put (sent_line "AT+HTTPTERM") g₃) g₄)
        (fifty : length rsp ≡ 50) where
      -- Where the module answers OK to the four commands of httpGET, and then sends anything up to
      -- a plus sign and a colon, the length of a content on a line and the content of at most 50
      -- bytes, the call returns 0 with the content at the front of the buffer. The port is below
      -- 10000 and the buffer has 50 bytes.
      pub http_get-answer :
          (pre mid body rest : List ℕ)
          → any (λ b. b == b'+') pre ≡ false
          → any (λ b. b == b':') mid ≡ false
          → length body ≤ 50
          → (end : List ℕ) × (http_get server port path (answer pre mid body rest) rsp g
              ≡ returned 0 g₄ (body ++ end))
      http_get-answer pre mid body rest no_plus no_colon fits =
          let (end, e) =
            get_rest_content-answer pre mid body rest rsp no_plus no_colon fifty fits in
          (
            end,
            http_get-fetch_content (answer pre mid body rest)
                ∙ ap (terminate g₃) e
                ∙ expect_ok-received 20000 5 (body ++ end) (λ g'. returned 0 g' (body ++ end))
                    (put (sent_line "AT+HTTPTERM") g₃) g₄ ended,
          )

      -- The bug: httpGET never asks for the content. Where the module answers OK to the four
      -- commands and then reports the action, with a status and a length below 100000, the call
      -- returns 0 with the line of that report in the buffer, whatever the status is. The port is
      -- below 10000 and the buffer has 50 bytes.
      pub http_get-action :
          (status data_len : ℕ) (rest : List ℕ)
          → status < 100000
          → data_len < 100000
          → (end : List ℕ) × (http_get server port path (action status data_len rest) rsp g
              ≡ returned 0 g₄ (
                  codes "0,"
                  ++ (decimal status ++ (codes "," ++ (decimal data_len ++ (codes "\r" ++ end))))))
      http_get-action status data_len rest h h' =
          let end = drop (length (action_line status data_len)) rsp in
          let got = action_line status data_len ++ end in
          (
            end,
            http_get-fetch_content (action status data_len rest)
                ∙ ap (terminate g₃) (get_rest_content-action status data_len rest rsp fifty h h')
                ∙ expect_ok-received 20000 5 got (λ g'. returned 0 g' got)
                    (put (sent_line "AT+HTTPTERM") g₃) g₄ ended
                ∙ ap (returned 0 g₄) (simp append_assoc),
          )
