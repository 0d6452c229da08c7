-- ===== src/Jobs/Queue.antt =====
-- internal/jobs/jobs.go: the Queue. A call is one round trip that takes one entry of a schedule: `none`
-- where it succeeds, and where the connection is lost, how many commands of it were carried out. The
-- clock counts nanoseconds. A limit, a number of attempts or a duration of the source that is not
-- positive is 0 here, since the code looks no further.
use team_flow.Prelude.{
  ℕ, zero, suc, ◌+◌, ◌-◌, ◌*◌, ◌/◌, ◌^◌, ◌==◌, String, Bool, not, ◌||◌, Option, none, some, List,
  [], ◌∷◌, map, length, ltb, leb, str_eq, if◌then◌else◌,
}
use team_flow.Httpx.Errors.{driver, wrap}
use team_flow.Exec.{Exec, Result, ok, err, ◌>>=◌, ◌>>◌, pure, require, lift, or_fail}
use team_flow.Database.Rows.{first_rows}
use team_flow.Jobs.Redis.{Redis, Entry, Command, xadd, xadd_dead, zadd, zrem, xack, xdel}
use team_flow.Jobs.Job.{
  Job, Delivery, JobError, error_text, is_permanent, truncate, Sealing, Opened, opened, unreadable,
}

-- `Options`, and what `NewQueue` makes of them.
pub record Options : Type 0 where
  pub encryption_key : String
  pub max_attempts : ℕ
  pub retry_base_delay : ℕ
  pub retry_max_delay : ℕ

pub record Queue : Type 0 where
  pub max_attempts : ℕ
  pub base_delay : ℕ
  pub max_delay : ℕ

unfoldable pub new_queue : Bool → Options → Result Queue
new_queue has_client opts =
    let base = if opts.retry_base_delay == 0 then 30000000000 else opts.retry_base_delay in
    if not has_client
    then err driver
    else if str_eq opts.encryption_key ""
    then err driver
    else ok (record {
      max_attempts = if ltb opts.max_attempts 1 then 1 else opts.max_attempts;
      base_delay = base;
      max_delay = if ltb opts.retry_max_delay base then base else opts.retry_max_delay;
    })

-- Of package math and crypto/rand: the nearest float64 of a whole number, the value of a conversion to
-- int64 that is out of range (0 where it is not positive), and a random number below a bound, if any.
pub record Numbers : Type 0 where
  pub to_float : ℕ → ℕ
  pub out_of_range : ℕ
  pub random_below : ℕ → ℕ → Option ℕ

abbrev pub capped_shift : ℕ → ℕ
capped_shift attempt =
    let n = if ltb attempt 1 then 1 else attempt in if ltb (n - 1) 32 then n - 1 else 32

abbrev pub to_duration : Numbers → ℕ → ℕ
to_duration m x = if ltb x (2 ^ 63) then x else m.out_of_range

abbrev pub with_jitter : ℕ → Option ℕ → ℕ
with_jitter delay none = delay
with_jitter delay (some j) = delay + j

abbrev pub capped : Numbers → ℕ → ℕ → ℕ
capped m max_delay raw =
    let delay = to_duration m raw in if ltb max_delay delay || delay == 0 then max_delay else delay

abbrev pub jittered : Numbers → ℕ → ℕ → ℕ
jittered m seed delay =
    if delay / 2 == 0 then delay else with_jitter delay (m.random_below seed (delay / 2))

-- `backoff`
unfoldable pub backoff : Numbers → Queue → ℕ → ℕ → ℕ
backoff m q seed attempt =
    jittered m seed (capped m q.max_delay (m.to_float q.base_delay * 2 ^ capped_shift attempt))

-- What the queue and the worker run in. `completed` has the identifiers of the jobs whose handler
-- succeeded, `observed` the job types and results that were counted.
pub record Bench (r : Redis) : Type 0 where
  pub redis : r.State
  pub clock : ℕ
  pub next_id : ℕ
  pub faults : List (Option ℕ)
  pub completed : List ℕ
  pub observed : List (String × String)

abbrev pub dead_stream_max_len : ℕ
dead_stream_max_len = 10000

abbrev pub next_call : List (Option ℕ) → Option ℕ
next_call [] = none
next_call (f ∷ fs) = f

abbrev pub later_calls : List (Option ℕ) → List (Option ℕ)
later_calls [] = []
later_calls (f ∷ fs) = fs

-- A delivery for each entry; one that cannot be opened has an empty job with the error.
abbrev pub job_of : Opened → Job
job_of (opened j) = j
job_of (unreadable text) = record {
  id = 0;
  type = "";
  payload = none;
  attempts = 0;
  max_attempts = 0;
  enqueued_at = 0;
  last_error = text;
}

abbrev pub delivery : Sealing → Entry → Delivery
delivery c m = record { id = m.id; job = job_of (c.open_job m.payload) }

abbrev pub promotions : List String → List Command
promotions [] = []
promotions (p ∷ ps) = xadd p ∷ zrem p ∷ promotions ps

module _ (r : Redis) where
  abbrev pub Step : Type 0 → Type 0
  Step A = Exec (Bench r) A

  unfoldable pub apply_all : List Command → r.State → r.State
  apply_all [] s = s
  apply_all (k ∷ ks) s = apply_all ks (r.apply k s)

  abbrev pub sent_all : List Command → Option ℕ → Step (Unit {0})
  sent_all ks none b = (ok tt, record b { redis = apply_all ks b.redis })
  sent_all ks (some k) b = (err driver, record b { redis = apply_all (first_rows k ks) b.redis })

  -- `pipe.Exec`
  unfoldable pub pipeline : List Command → Step (Unit {0})
  pipeline ks b = sent_all ks (next_call b.faults) (record b { faults = later_calls b.faults })

  abbrev pub answered : {A : Type 0} → (r.State → A × r.State) → Option ℕ → Step A
  answered f none b = (ok (f b.redis).0, record b { redis = (f b.redis).1 })
  answered f (some zero) b = (err driver, b)
  answered f (some (suc k)) b = (err driver, record b { redis = (f b.redis).1 })

  -- A single command, whose answer may be lost.
  unfoldable pub call : {A : Type 0} → (r.State → A × r.State) → Step A
  call f b = answered f (next_call b.faults) (record b { faults = later_calls b.faults })

  abbrev pub time : Step ℕ
  time b = (ok b.clock, b)

  abbrev pub draw : Step ℕ
  draw b = (ok b.next_id, record b { next_id = suc b.next_id })

  module _ (c : Sealing) (m : Numbers) (q : Queue) where
    abbrev pub new_job : ℕ → String → Option String → ℕ → Job
    new_job id job_type payload at = record {
      id = id;
      type = job_type;
      payload = payload;
      attempts = 0;
      max_attempts = q.max_attempts;
      enqueued_at = at;
      last_error = [];
    }

    abbrev pub placement : ℕ → ℕ → String → List Command
    placement delay due sealed = if delay == 0 then xadd sealed ∷ [] else zadd due sealed ∷ []

    -- The last part of `enqueue`: a job without delay goes to the stream.
    unfoldable pub place : ℕ → String → Step (Unit {0})
    unfolding pipeline ◌>>=◌ or_fail
    place delay sealed =
        time >>= λ at. or_fail wrap (pipeline (placement delay ((at + delay) / 1000000) sealed))

    -- `enqueue`; the payload is the JSON that the caller's value has, if any.
    unfoldable pub enqueue_in : ℕ → String → Result (Option String) → Step Job
    unfolding place ◌>>=◌ or_fail
    enqueue_in delay job_type payload = do
      require (not (str_eq job_type "")) driver
      id ← draw
      at ← time
      raw ← or_fail wrap (lift payload)
      nonce ← draw
      sealed ← lift (c.seal nonce (new_job id job_type raw at))
      place delay sealed
      pure (new_job id job_type raw at)

    -- `Read` and `RecoverStale`
    unfoldable pub read : String → ℕ → Step (List Delivery)
    unfolding call ◌>>=◌
    read consumer count =
        call (λ s. r.xreadgroup consumer count s) >>= λ ms. pure (map (λ e. delivery c e) ms)

    unfoldable pub recover_stale : String → ℕ → ℕ → Step (List Delivery)
    unfolding call ◌>>=◌
    recover_stale consumer min_idle count = time >>= λ at.
        call (λ s. r.xautoclaim consumer at min_idle count s) >>= λ ms.
        pure (map (λ e. delivery c e) ms)

    -- `Ack`
    unfoldable pub ack : Delivery → Step (Unit {0})
    unfolding pipeline or_fail
    ack d = or_fail wrap (pipeline (xack d.id ∷ xdel d.id ∷ []))

    abbrev pub failed_job : Delivery → JobError → Job
    failed_job d cause = record d.job {
      attempts = suc d.job.attempts;
      last_error = truncate (error_text cause) 500;
    }

    abbrev pub is_last : Job → JobError → Bool
    is_last job cause =
        is_permanent cause || (job.max_attempts == 0 || leb job.max_attempts job.attempts)

    -- The commands of the pipeline of `Fail`.
    abbrev pub failure : Delivery → JobError → ℕ → String → List Command
    failure d cause due sealed =
        (if is_last (failed_job d cause) cause
          then xadd_dead dead_stream_max_len sealed
          else zadd due sealed)
        ∷ xack d.id
        ∷ xdel d.id
        ∷ []

    -- The last part of `Fail`.
    unfoldable pub record_failure : Delivery → JobError → String → Step (Unit {0})
    unfolding pipeline ◌>>=◌ or_fail backoff
    record_failure d cause sealed = do
      at ← time
      seed ← draw
      let due = (at + backoff m q seed (failed_job d cause).attempts) / 1000000
      or_fail wrap (pipeline (failure d cause due sealed))

    -- `Fail`
    unfoldable pub fail_job : Delivery → JobError → Step (Unit {0})
    unfolding record_failure ◌>>=◌
    fail_job d cause = do
      nonce ← draw
      sealed ← lift (c.seal nonce (failed_job d cause))
      record_failure d cause sealed

    -- `PromoteDue`
    unfoldable pub promote_due : ℕ → Step ℕ
    unfolding pipeline call ◌>>=◌ or_fail
    promote_due limit = do
      at ← time
      due ←
          or_fail wrap
            (call (λ s. (r.zrangebyscore (at / 1000000) (if limit == 0 then 100 else limit) s, s)))
      if length due == 0
          then pure 0
          else (or_fail wrap (pipeline (promotions due)) >>= λ x. pure (length due))
