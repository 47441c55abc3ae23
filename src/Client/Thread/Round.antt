-- ===== src/Client/Thread/Round.antt =====
-- schedule_manager.c: a round of the thread that no other thread interrupts is one pass.
use bbd.Prelude.{
  ℕ, suc, ◌+◌, ◌&&◌, ◌||◌, not, leb, ltb, Bool, true, false, some, List, [], ◌∷◌, ◌++◌, length,
  length-append, append_assoc, arith, ◌≡◌, refl, ap, if◌then◌else◌, Bool-cases, inl, inr,
  append-nil,
}
use mathlib.Core.Path.{subst}
use bbd.Client.State.{ValveState, valve_open, valve_closed, ScheduleStatus, Client}
use bbd.Client.ValveManager.{vm_set_valve_state}
use bbd.Client.ScheduleManager.{opens, closes, activate, deactivate, scan, pass}
use bbd.Client.Thread.{
  Pc, clock, condition, test_open, open_start, open_stop, opening, test_close, close_start,
  close_stop, closing, outside, World, entry, write_entry, thread_step,
}

-- The thread alone, for some number of steps.
pub data Runs : World → World → Type 0 where
  stop : {w : World} → Runs w w
  step : {w u : World} → Runs (thread_step w) u → Runs w u

Runs-trans : {w u v : World} → Runs w u → Runs u v → Runs w v
Runs-trans stop s = s
Runs-trans (step r) s = step (Runs-trans r s)

abbrev pub alone : Client → List ScheduleStatus → Pc → World
alone c ss p = record { client = record c { ss = ss }; pc = p; setter = outside }

entry-length :
    (pre : List ScheduleStatus) (s : ScheduleStatus) (post : List ScheduleStatus)
    → entry (pre ++ s ∷ post) (length pre) ≡ some s
unfolding entry
entry-length [] s post = refl
entry-length (x ∷ pre) s post = entry-length pre s post

write_entry-length :
    (pre : List ScheduleStatus) (s t : ScheduleStatus) (post : List ScheduleStatus)
    → write_entry (pre ++ s ∷ post) (length pre) t ≡ pre ++ t ∷ post
unfolding write_entry
write_entry-length [] s t post = refl
write_entry-length (x ∷ pre) s t post = ap (◌∷◌ x) (write_entry-length pre s t post)

-- The valve manager does not look at the schedules.
vm_set_valve_state-ss :
    (c : Client) (ss out : List ScheduleStatus) (id : ℕ) (st : ValveState)
    → ◌≡◌ {A = Client}
        (record (vm_set_valve_state (record c { ss = ss }) id st).0 { ss = out })
        (record (vm_set_valve_state c id st).0 { ss = out })
unfolding vm_set_valve_state
vm_set_valve_state-ss c ss out id st = ground arith

one_step : {w u : World} → thread_step w ≡ u → Runs w u
one_step {w} e = step (subst (Runs (thread_step w)) e stop)

-- The three reads of the first test, and of the second.
module _ (at : Pc → World) (p0 p1 p2 yes no : Pc) where
  all_three :
      (a b d : Bool)
      → thread_step (at p0) ≡ at (if a then p1 else no)
      → thread_step (at p1) ≡ at (if b then p2 else no)
      → thread_step (at p2) ≡ at (if d then yes else no)
      → Runs (at p0) (at (if a && (b && d) then yes else no))
  all_three false b d e f g = one_step e
  all_three true false d e f g = Runs-trans (one_step e) (one_step f)
  all_three true true d e f g = Runs-trans (one_step e) (Runs-trans (one_step f) (one_step g))

  one_of_two :
      (a b d : Bool)
      → thread_step (at p0) ≡ at (if a then p1 else no)
      → thread_step (at p1) ≡ at (if b then yes else p2)
      → thread_step (at p2) ≡ at (if d then yes else no)
      → Runs (at p0) (at (if a && (b || d) then yes else no))
  one_of_two false b d e f g = one_step e
  one_of_two true true d e f g = Runs-trans (one_step e) (one_step f)
  one_of_two true false d e f g = Runs-trans (one_step e) (Runs-trans (one_step f) (one_step g))

module _ (m : ℕ) (c : Client) (pre : List ScheduleStatus) (s : ScheduleStatus)
    (post : List ScheduleStatus) where
  abbrev row : List ScheduleStatus
  row = pre ++ s ∷ post

  Runs-condition :
      Runs (alone c row (condition m (length pre))) (alone c row (test_open m (length pre)))
  unfolding thread_step
  Runs-condition = one_step (ground (arith, length-append pre (s ∷ post)))

  put_back :
      (active : Bool) {p : Pc}
      → let st = if active then valve_open else valve_closed in
        let out = pre ++ record s { is_active = active } ∷ post in
        ◌≡◌ {A = World}
          (record {
            client = record (vm_set_valve_state (record c { ss = row }) s.valve_id st).0 {
              ss = out;
            };
            pc = p;
            setter = outside;
          })
          (alone (vm_set_valve_state c s.valve_id st).0 out p)
  put_back active {p} =
      ap (λ (x : Client). record { client = x; pc = p; setter = outside })
        (vm_set_valve_state-ss c row _ s.valve_id (if active then valve_open else valve_closed))

  Runs-opens :
      Runs
        (alone c row (test_open m (length pre)))
        (alone c row (if opens m s then opening m (length pre) else test_close m (length pre)))
  unfolding thread_step opens
  Runs-opens =
      all_three (alone c row) (test_open m (length pre)) (open_start m (length pre))
        (open_stop m (length pre)) (opening m (length pre)) (test_close m (length pre))
        (not s.is_active) (leb s.start m) (leb m s.stop) (rw (entry-length pre s post) refl)
        (rw (entry-length pre s post) refl) (rw (entry-length pre s post) refl)

  Runs-closes :
      Runs
        (alone c row (test_close m (length pre)))
        (alone c row (if closes m s then closing m (length pre) else condition m (length pre + 1)))
  unfolding thread_step closes
  Runs-closes =
      one_of_two (alone c row) (test_close m (length pre)) (close_start m (length pre))
        (close_stop m (length pre)) (closing m (length pre)) (condition m (length pre + 1))
        s.is_active (ltb m s.start) (ltb s.stop m) (rw (entry-length pre s post) refl)
        (rw (entry-length pre s post) refl) (rw (entry-length pre s post) refl)

  -- Where the first test, or the second, leads.
  abbrev OpensTo : Bool → Type 0
  OpensTo b =
      Runs (alone c row (test_open m (length pre)))
        (alone c row (if b then opening m (length pre) else test_close m (length pre)))

  abbrev ClosesTo : Bool → Type 0
  ClosesTo b =
      Runs (alone c row (test_close m (length pre)))
        (alone c row (if b then closing m (length pre) else condition m (length pre + 1)))

  Runs-test_open : Runs (alone c row (test_open m (length pre))) (
      alone (activate m (c, s)).0 (pre ++ (activate m (c, s)).1 ∷ post) (test_close m (length pre)))
  unfolding thread_step activate
  Runs-test_open = elim (Bool-cases (opens m s)) [
    | inl h ↦ rw h (
        Runs-trans (subst OpensTo h Runs-opens) (
          one_step (
            rw
              (
                entry-length pre s post,
                write_entry-length pre s (record s { is_active = true }) post,
              )
              (put_back true {p = test_close m (length pre)}))))
    | inr h ↦ rw h (subst OpensTo h Runs-opens)
  ]

  Runs-test_close : Runs (alone c row (test_close m (length pre))) (
      alone
        (deactivate m (c, s)).0
        (pre ++ (deactivate m (c, s)).1 ∷ post)
        (condition m (length pre + 1)))
  unfolding thread_step deactivate
  Runs-test_close = elim (Bool-cases (closes m s)) [
    | inl h ↦ rw h (
        Runs-trans (subst ClosesTo h Runs-closes) (
          one_step (
            rw
              (
                entry-length pre s post,
                write_entry-length pre s (record s { is_active = false }) post,
              )
              (put_back false {p = condition m (length pre + 1)}))))
    | inr h ↦ rw h (subst ClosesTo h Runs-closes)
  ]

pub length-scan :
    (m : ℕ) (c : Client) (ss : List ScheduleStatus) → length (scan m c ss).1 ≡ length ss
unfolding scan
length-scan m c [] = refl
length-scan m c (s ∷ ss) = ap suc (length-scan m (deactivate m (activate m (c, s))).0 ss)

-- The rounds of the `for` loop for the entries `ss`, between `pre` and `post`.
pub Runs-scan :
    (m : ℕ) (c : Client) (pre ss post : List ScheduleStatus)
    → Runs (alone c (pre ++ (ss ++ post)) (condition m (length pre))) (
        alone
          (scan m c ss).0
          (pre ++ ((scan m c ss).1 ++ post))
          (condition m (length pre + length ss)))
unfolding scan
Runs-scan m c pre [] post = let e : length pre + 0 ≡ length pre = omega arith in rw e stop
Runs-scan m c pre (s ∷ ss) post =
    let (c1, s1) = activate m (c, s) in
    let (c2, s2) = deactivate m (c1, s1) in
    Runs-trans (Runs-condition m c pre s (ss ++ post)) (
      Runs-trans (Runs-test_open m c pre s (ss ++ post)) (
        Runs-trans (Runs-test_close m c1 pre s1 (ss ++ post))
          (next_entry c2 s2 (Runs-scan m c2 (pre ++ s2 ∷ []) ss post))))
  where
    next_entry :
        (d : Client) (t : ScheduleStatus)
        → Runs (alone d ((pre ++ t ∷ []) ++ (ss ++ post)) (condition m (length (pre ++ t ∷ [])))) (
            alone
              (scan m d ss).0
              ((pre ++ t ∷ []) ++ ((scan m d ss).1 ++ post))
              (condition m (length (pre ++ t ∷ []) + length ss)))
        → Runs (alone d (pre ++ t ∷ (ss ++ post)) (condition m (length pre + 1))) (
            alone
              (scan m d ss).0
              (pre ++ t ∷ ((scan m d ss).1 ++ post))
              (condition m (length pre + suc (length ss))))
    next_entry d t =
        let e : length pre + suc (length ss) ≡ length pre + 1 + length ss = omega arith in
        rw
          (
            e,
            append_assoc pre (t ∷ []) (ss ++ post),
            append_assoc pre (t ∷ []) ((scan m d ss).1 ++ post),
            length-append pre (t ∷ []),
          )
          (λ r. r)

Runs-over :
    (m : ℕ) (d : Client) (ss : List ScheduleStatus)
    → Runs (alone d ss (condition m (length ss))) (alone d ss clock)
unfolding thread_step
Runs-over m d ss = one_step (ground arith)

-- For any minute and any state of the device, the steps of the scheduler thread, one after the
-- other with no other thread in between, lead from the loop's first condition to the state that
-- one pass gives, with the thread back before the reading of the clock.
pub Runs-pass :
    (m : ℕ) (c : Client)
    → Runs
        (record { client = c; pc = condition m 0; setter = outside })
        (record { client = pass m c; pc = clock; setter = outside })
unfolding pass
Runs-pass m c =
    Runs-trans (whole (Runs-scan m c [] c.ss [])) (Runs-over m (scan m c c.ss).0 (scan m c c.ss).1)
  where
    whole :
        Runs
          (alone c (c.ss ++ []) (condition m 0))
          (alone (scan m c c.ss).0 ((scan m c c.ss).1 ++ []) (condition m (0 + length c.ss)))
        → Runs
            (alone c c.ss (condition m 0))
            (alone (scan m c c.ss).0 (scan m c c.ss).1 (condition m (length (scan m c c.ss).1)))
    whole =
        let e : length (scan m c c.ss).1 ≡ 0 + length c.ss = omega (arith, length-scan m c c.ss) in
        rw (e, append-nil c.ss, append-nil (scan m c c.ss).1) (λ r. r)
