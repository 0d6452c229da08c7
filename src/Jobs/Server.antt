-- ===== src/Jobs/Server.antt =====
-- The queue between its producers and any number of workers, as a sequence of events. A worker holds a
-- delivery from when it reads it until it is done with it; between the two, other workers read, finish
-- or reclaim, and a crash loses what all of them hold.
use team_flow.Prelude.{ℕ, zero, suc, ◌+◌, String, Option, none, some, List, [], ◌∷◌, ◌++◌}
use team_flow.Exec.{Result, ok, err}
use team_flow.Jobs.Redis.{Redis}
use team_flow.Jobs.Job.{Delivery, Sealing}
use team_flow.Jobs.Queue.{Bench, Numbers, Queue, enqueue_in, read, recover_stale, promote_due}
use team_flow.Jobs.Worker.{WorkerOptions, Handler, handle}

pub data Event : Type 0 where
  enqueues : (delay : ℕ) → (job_type : String) → (payload : Result (Option String)) → Event
  reads : (consumer : String) → Event
  reclaims : Event
  promotes : Event
  handles : (k : ℕ) → Event
  passes : (span : ℕ) → Event
  crashes : Event

pub record System (r : Redis) : Type 0 where
  pub bench : Bench r
  pub held : List Delivery

-- The k-th of the deliveries that are held, and the others.
abbrev pub pick : ℕ → List Delivery → Option Delivery
pick k [] = none
pick zero (d ∷ ds) = some d
pick (suc k) (d ∷ ds) = pick k ds

abbrev pub drop_held : ℕ → List Delivery → List Delivery
drop_held k [] = []
drop_held zero (d ∷ ds) = ds
drop_held (suc k) (d ∷ ds) = d ∷ drop_held k ds

module _ (r : Redis) where
  abbrev pub hold : Result (List Delivery) × Bench r → List Delivery → System r
  hold (ok ds, b) held = record { bench = b; held = ds ++ held }
  hold (err e, b) held = record { bench = b; held = held }

  module _ (c : Sealing) (m : Numbers) (q : Queue) (opts : WorkerOptions) (quote : String → List ℕ)
      (handlers : String → Option Handler) where
    abbrev pub handle_picked : Option Delivery → Bench r → Bench r
    handle_picked none b = b
    handle_picked (some d) b = (handle r c m q opts quote handlers d b).1

    unfoldable pub serve_event : Event → System r → System r
    unfolding handle
    serve_event (enqueues delay job_type payload) s = record s {
      bench = (enqueue_in r c m q delay job_type payload s.bench).1;
    }
    serve_event (reads consumer) s = hold (read r c m q consumer 1 s.bench) s.held
    serve_event reclaims s =
        hold (recover_stale r c m q "reclaimer" opts.stale_after 50 s.bench) s.held
    serve_event promotes s = record s { bench = (promote_due r c m q 100 s.bench).1 }
    serve_event (handles k) s = record {
      bench = handle_picked (pick k s.held) s.bench;
      held = drop_held k s.held;
    }
    serve_event (passes span) s = record s {
      bench = record s.bench { clock = s.bench.clock + span };
    }
    serve_event crashes s = record s { held = [] }

    unfoldable pub serve_events : List Event → System r → System r
    unfolding serve_event
    serve_events [] s = s
    serve_events (e ∷ es) s = serve_events es (serve_event e s)
