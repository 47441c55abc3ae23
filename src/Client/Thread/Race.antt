-- ===== src/Client/Thread/Race.antt =====
-- schedule_manager.c: new schedules in the middle of a round of the thread.
use bbd.Schedule.{Schedule}
use bbd.Client.State.{Client}
use bbd.Client.Thread.{Pc, Setter, World}

abbrev placed : Client → Pc → Setter → World
placed c p l = record { client = c; pc = p; setter = l }
