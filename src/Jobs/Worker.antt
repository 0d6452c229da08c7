-- ===== src/Jobs/Worker.antt =====
-- internal/jobs/worker.go. A handler is a function of the run and the job; what it does besides its
-- answer is no part of the queue. Logs are left out.
use Prim.Native.Char.{code}
use team_flow.Prelude.{
  ℕ, suc, ◌==◌, String, Bool, ◌||◌, Option, none, some, List, [], ◌∷◌, leb, str_eq, if◌then◌else◌,
  ◌++◌,
}
use team_flow.Exec.{Result, ok, err, ◌>>=◌, ◌>>◌, pure, inspect, for_each}
use team_flow.Jobs.Redis.{Redis}
use team_flow.Jobs.Job.{Job, Delivery, JobError, plain, permanent_error, is_permanent, Sealing}
use team_flow.Jobs.Queue.{
  Step, Numbers, Queue, draw, read, recover_stale, promote_due, ack, fail_job,
}

-- The bytes of a text in ASCII.
unfoldable pub ascii : String → List ℕ
ascii String.[] = []
ascii (String.◌∷◌ c s) = code c ∷ ascii s

pub record WorkerOptions : Type 0 where
  pub concurrency : ℕ
  pub block_timeout : ℕ
  pub stale_after : ℕ
  pub shutdown_timeout : ℕ
  pub promote_interval : ℕ
  pub consumer_name : String
  pub has_metrics : Bool

abbrev pub default : ℕ → ℕ → ℕ
default value d = if value == 0 then d else value

-- `NewWorker`, with the name that `defaultConsumerName` makes up.
unfoldable pub new_worker : String → WorkerOptions → WorkerOptions
new_worker host opts = record {
  concurrency = default opts.concurrency 1;
  block_timeout = default opts.block_timeout 2000000000;
  stale_after = default opts.stale_after 300000000000;
  shutdown_timeout = default opts.shutdown_timeout 15000000000;
  promote_interval = default opts.promote_interval 5000000000;
  consumer_name = if str_eq opts.consumer_name "" then host else opts.consumer_name;
  has_metrics = opts.has_metrics;
}

abbrev pub Handler : Type 0
Handler = ℕ → Job → Option JobError

-- `Register`: the last handler of a type replaces the others.
unfoldable pub register_handler :
    String → Handler → (String → Option Handler) → String → Option Handler
register_handler job_type h handlers t = if str_eq t job_type then some h else handlers t

module _ (r : Redis) where
  -- `observe`
  unfoldable pub observe : WorkerOptions → String → String → Step r (Unit {0})
  observe opts job_type result b = (
    ok tt,
    if opts.has_metrics then record b { observed = (job_type, result) ∷ b.observed } else b,
  )

  -- `if err := …; err != nil { log }`
  unfoldable pub logged : {A : Type 0} → Step r A → Step r (Unit {0})
  logged m b = (ok tt, (m b).1)

  abbrev pub complete : ℕ → Step r (Unit {0})
  complete id b = (ok tt, record b { completed = id ∷ b.completed })

  module _ (c : Sealing) (m : Numbers) (q : Queue) (opts : WorkerOptions) (quote : String → List ℕ)
      (handlers : String → Option Handler) where
    abbrev pub acknowledged : Delivery → Result (Unit {0}) → Step r (Unit {0})
    acknowledged d (ok x) = observe opts d.job.type "completed"
    acknowledged d (err e) = pure tt

    -- What follows the handler's answer.
    abbrev pub finish : Delivery → Option JobError → Step r (Unit {0})
    finish d (some e) =
        observe opts d.job.type (
          if is_permanent e || leb d.job.max_attempts (suc d.job.attempts)
          then "dead_lettered"
          else "failed")
        >> logged (fail_job r c m q d e)
    finish d none = complete d.job.id >> inspect (ack r c m q d) (λ x. acknowledged d x)

    abbrev pub dispatch : Delivery → Option Handler → Step r (Unit {0})
    dispatch d none =
        observe opts d.job.type "unhandled"
        >> logged (
            fail_job r c m q d
              (permanent_error (plain (ascii "no handler for " ++ quote d.job.type))))
    dispatch d (some h) = draw r >>= λ run. finish d (h run d.job)

    -- `handle`
    unfoldable pub handle : Delivery → Step r (Unit {0})
    unfolding observe logged fail_job ack ◌>>=◌ inspect ascii
    handle d =
        if str_eq d.job.type ""
        then observe opts "unreadable" "dead_lettered"
          >> logged
              (fail_job r c m q d (permanent_error (plain (ascii "job payload is unreadable"))))
        else dispatch d (handlers d.job.type)

    -- One round of `consume`; after an error that ends the loop the worker only stops earlier.
    unfoldable pub consume_round : String → Step r (Unit {0})
    unfolding read handle for_each ◌>>=◌
    consume_round consumer = read r c m q consumer 1 >>= λ ds. for_each handle ds

    -- What `maintain` does at a tick.
    unfoldable pub maintain_round : Step r (Unit {0})
    unfolding promote_due recover_stale handle logged for_each ◌>>=◌
    maintain_round = do
      logged (promote_due r c m q 100)
      ds ← recover_stale r c m q "reclaimer" opts.stale_after 50
      for_each handle ds
