-- ===== src/Gsm/Action/Endless.antt =====
-- SIM900.cpp, read_httpaction: it does not end.
use bbd.Prelude.{ℕ, zero, suc, ◌≡◌, refl, Option-cases, none, List, [], ◌∷◌, inl, inr}
use bbd.Gsm.Action.{search_ok, fetch_string, search_action, read_httpaction}

-- The line break stays the last character, and nothing is read.
search_action-none : (rounds : ℕ) (reads : List ℕ) → search_action rounds b'\n' reads ≡ none
unfolding search_action fetch_string
search_action-none zero reads = refl
search_action-none (suc rounds) [] = search_action-none rounds []
search_action-none (suc rounds) (b ∷ reads) = search_action-none rounds (b ∷ reads)

-- The bug: the function does not end, whatever the module sends. The first search ends at a line
-- break, which stays the last character, so the second reads nothing any more.
pub read_httpaction-none : (rounds : ℕ) (reads : List ℕ) → read_httpaction rounds reads ≡ none
unfolding read_httpaction
read_httpaction-none rounds [] = refl
read_httpaction-none rounds (temp ∷ reads) = elim (Option-cases (search_ok temp reads)) [
  | inl e ↦ rw e refl
  | inr (behind, e) ↦ rw (e, search_action-none rounds behind) refl
]
