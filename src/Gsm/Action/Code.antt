-- ===== src/Gsm/Action/Code.antt =====
-- SIM900.cpp, httpRspCode: the code of a status line.
use bbd.Prelude.{
  ℕ, zero, suc, ◌+◌, ◌*◌, ◌≤◌, ◌<◌, ◌≡◌, ◌≢◌, refl, ap, ◌∙◌, ◌>>=◌, ◌==◌, any, false, some, List,
  [], ◌∷◌, ◌++◌, All, length, arith,
}
use mathlib.Core.Path.{subst}
use bbd.Gsm.Http.Content.{skip_to-append}
use bbd.Text.{codes, ℤ, pos, stol, skip_spaces, scan_digits}
use bbd.Gsm.Receive.{c_string}
use bbd.Gsm.Action.{read_line, skip_lines, http_rsp_code}

-- A character of the line that is kept.
abbrev pub IsPlain : ℕ → Type 0
IsPlain b = (0 < b) × (b < 128) × (b ≢ 10)

read_line-line :
    (room : ℕ) (text rest : List ℕ)
    → All IsPlain text
    → length text ≤ room
    → read_line room (text ++ b'\n' ∷ rest) ≡ some (text, rest)
unfolding read_line
read_line-line zero [] rest h few = refl
read_line-line (suc room) [] rest h few = refl
read_line-line zero (b ∷ text) rest h few = absurd (omega (arith, few))
read_line-line (suc room) (b ∷ text) rest h few =
    ground (arith, h.0.0, h.0.1, h.0.2, read_line-line room text rest h.1 (omega (arith, few)))

stol-three :
    (a b c : ℕ)
    → a < 10
    → b < 10
    → c < 10
    → stol (c_string ((b'0' + a) ∷ (b'0' + b) ∷ (b'0' + c) ∷ []))
      ≡ some (pos (a * 100 + b * 10 + c))
unfolding stol skip_spaces scan_digits
stol-three a b c ha hb hc = ground (arith, ha, hb, hc)

-- From the space on.
printed : (b : ℕ) → 31 < b → b < 128 → IsPlain b
printed b low high = (omega arith, high, λ e. omega (arith, e))

-- The line with this code.
abbrev pub status_line : (a b c : ℕ) → (reason : List ℕ) → List ℕ
status_line a b c reason = codes "HTTP/1.1 " ++ (b'0' + a) ∷ (b'0' + b) ∷ (b'0' + c) ∷ reason

-- Lines of headers, and what stands behind them.
abbrev pub with_lines : List (List ℕ) → (left : List ℕ) → List ℕ
with_lines [] left = left
with_lines (text ∷ lines) left = text ++ b'\n' ∷ with_lines lines left

abbrev pub IsLine : List ℕ → Type 0
IsLine text = any (λ b. b == b'\n') text ≡ false

skip_lines-with_lines :
    (lines : List (List ℕ)) (left : List ℕ)
    → All IsLine lines
    → skip_lines (length lines) (with_lines lines left) ≡ some left
unfolding skip_lines
skip_lines-with_lines [] left h = refl
skip_lines-with_lines (text ∷ lines) left h =
    ap (λ o. o >>= λ rest. skip_lines (length lines) rest)
      (skip_to-append b'\n' text (with_lines lines left) h.0)
    ∙ skip_lines-with_lines lines left h.1

module _ (a b c : ℕ) (ha : a < 10) (hb : b < 10) (hc : c < 10) where
  status_line-IsPlain :
      (reason : List ℕ) → All IsPlain reason → All IsPlain (status_line a b c reason)
  status_line-IsPlain reason h = (
    printed _ (omega arith) (omega arith),
    (
      printed _ (omega arith) (omega arith),
      (
        printed _ (omega arith) (omega arith),
        (
          printed _ (omega arith) (omega arith),
          (
            printed _ (omega arith) (omega arith),
            (
              printed _ (omega arith) (omega arith),
              (
                printed _ (omega arith) (omega arith),
                (
                  printed _ (omega arith) (omega arith),
                  (
                    printed _ (omega arith) (omega arith),
                    (
                      printed _ (omega arith) (omega (arith, ha)),
                      (
                        printed _ (omega arith) (omega (arith, hb)),
                        (printed _ (omega arith) (omega (arith, hc)), h),
                      ),
                    ),
                  ),
                ),
              ),
            ),
          ),
        ),
      ),
    ),
  )

  -- The code of a status line of at most 100 characters is read back from its three digits, whatever
  -- the buffer has before, and the five lines behind it are passed over.
  pub http_rsp_code-status_line :
      (stale : List ℕ) (code : ℤ) (reason headers left : List ℕ)
      → All IsPlain reason
      → length reason ≤ 88
      → skip_lines 5 headers ≡ some left
      → http_rsp_code stale code (status_line a b c reason ++ b'\n' ∷ headers)
        ≡ some (pos (a * 100 + b * 10 + c), left)
  unfolding http_rsp_code
  http_rsp_code-status_line stale code reason headers left plain few skipped =
      rw
        (
          read_line-line 100 (status_line a b c reason) headers (status_line-IsPlain reason plain)
              (omega (arith, few)),
          skipped,
          stol-three a b c ha hb hc,
        )
        refl

  -- httpRspCode reads the code of a response back from the three digits of its status line, which
  -- begins with HTTP/1.1 and has at most 100 characters, all of them from 1 to 127, whatever the buffer and the variable have before, passes over the five
  -- lines of headers behind it, whatever these have, and leaves what stands behind them.
  pub http_rsp_code-response :
      (stale : List ℕ) (code : ℤ) (reason : List ℕ) (lines : List (List ℕ)) (left : List ℕ)
      → All IsPlain reason
      → length reason ≤ 88
      → All IsLine lines
      → length lines ≡ 5
      → http_rsp_code stale code (status_line a b c reason ++ b'\n' ∷ with_lines lines left)
        ≡ some (pos (a * 100 + b * 10 + c), left)
  http_rsp_code-response stale code reason lines left plain few are_lines five =
      http_rsp_code-status_line stale code reason (with_lines lines left) left plain few (
        subst (λ n. skip_lines n (with_lines lines left) ≡ some left) five
          (skip_lines-with_lines lines left are_lines))
