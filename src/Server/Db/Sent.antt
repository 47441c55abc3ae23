-- ===== src/Server/Db/Sent.antt =====
-- db.cpp, set_schedules_sent: the commit stands inside the loop, so the transaction ends with the
-- first schedule that is marked.
use bbd.Prelude.{ℕ, ◌≡◌, refl, true, List, [], ◌∷◌, any, inl, inr, Bool-cases, if◌then◌else◌}
use bbd.Schedule.{Schedule}
use bbd.Database.{Database, is_unsent, rcv_set_schedule_sent}
use bbd.Database.Updates.{rcv_set_schedule_sent-none, rcv_set_schedule_sent-some}
use bbd.Server.Db.{Pqxx, PqxxLaws, active, committed, mark_sent, set_schedules_sent}

-- 0 if there is nothing after the first that is marked.
abbrev pub leftover : List Schedule → ℕ
leftover [] = 0
leftover (_ ∷ _) = 1

-- The first schedule that is not marked yet is marked, and no other.
abbrev pub mark_first : ℕ → Database → List Schedule → Database × ℕ
mark_first now db [] = (db, 0)
mark_first now db (s ∷ sches) =
    if any (is_unsent s.schedule_id) db.schedules
    then ((rcv_set_schedule_sent now db s.schedule_id).0, leftover sches)
    else mark_first now db sches

module _ (px : Pqxx) (laws : PqxxLaws px) where
  mark_sent-committed :
      (now : ℕ) (db : Database) (sches : List Schedule)
      → mark_sent px now (record { status = committed; working = db; stored = db }) sches
        ≡ (db, leftover sches)
  unfolding mark_sent
  mark_sent-committed now db [] = refl
  mark_sent-committed now db (s ∷ sches) = rw (laws.accepts_committed)

  mark_sent-mark_first :
      (now : ℕ) (db : Database) (sches : List Schedule)
      → mark_sent px now (record { status = active; working = db; stored = db }) sches
        ≡ mark_first now db sches
  unfolding mark_sent
  mark_sent-mark_first now db [] = refl
  mark_sent-mark_first now db (s ∷ sches) =
      elim (Bool-cases (any (is_unsent s.schedule_id) db.schedules)) [
        | inl new ↦
            rw (laws.accepts_active, new, rcv_set_schedule_sent-some now db s.schedule_id new)
              (mark_sent-committed now (rcv_set_schedule_sent now db s.schedule_id).0 sches)
        | inr old ↦
            rw (laws.accepts_active, old, rcv_set_schedule_sent-none now db s.schedule_id old)
              (mark_sent-mark_first now db sches)
      ]

  -- The bug: of the schedules of a response the call marks the first that was not marked and no
  -- other, and fails if there are more behind it, since the commit stands inside the loop.
  -- Conditions: the connection is made, and a transaction runs statements exactly until it is
  -- committed.
  pub set_schedules_sent-mark_first :
      (now : ℕ) (db : Database) (sches : List Schedule)
      → set_schedules_sent px true now db sches ≡ mark_first now db sches
  unfolding set_schedules_sent
  set_schedules_sent-mark_first now db sches = mark_sent-mark_first now db sches
