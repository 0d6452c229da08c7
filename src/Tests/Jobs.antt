-- ===== src/Tests/Jobs.antt =====
-- The theorems on jobs, at a Redis that is a function of what was sent to it.
use Prim.Native.Char.{code}
use team_flow.Prelude.{
  ℕ, zero, suc, ◌≡◌, ◌≤◌, ◌<◌, ◌*◌, refl, ap, sym, arith, String, true, false, not, Option, none,
  some, List, [], ◌∷◌, ◌==◌, leb, str_eq, map, select, inl, if◌then◌else◌,
}
use team_flow.Httpx.Errors.{driver}
use team_flow.Database.Rows.{first_rows}
use team_flow.Exec.{Result, ok, err}
use team_flow.Jobs.Redis.{
  Redis, View, Entry, Listed, Command, xadd, xadd_dead, zadd, zrem, xack, xdel, effect, Documented,
}
use team_flow.Jobs.Job.{Job, plain, Sealing, opened, Opens}
use team_flow.Jobs.Queue.{Bench, Numbers, Queue, enqueue_in, fail_job, backoff}
use team_flow.Jobs.Worker.{WorkerOptions, Handler}
use team_flow.Jobs.Server.{
  Event, System, reads, handles, promotes, passes, crashes, reclaims, serve_events,
}
use team_flow.Jobs.Views.{Tracked}
use team_flow.Jobs.Lossless.{serve_events-lossless}
use team_flow.Jobs.Failure.{Recorded, fail_job-Recorded}
use team_flow.Jobs.Backoff.{backoff-bounds}

-- The view, and the retries with their due times.
record Store : Type 0 where
  shown : View
  retries : List (ℕ × String)

abbrev retries_after : Command → List (ℕ × String) → List (ℕ × String)
retries_after (xadd p) rs = rs
retries_after (xadd_dead max p) rs = rs
retries_after (zadd due p) rs = (due, p) ∷ rs
retries_after (zrem p) rs = select (λ x. not (str_eq x.1 p)) rs
retries_after (xack i) rs = rs
retries_after (xdel i) rs = rs

abbrev listed_entry : ℕ → Option String → List Entry → List Entry
listed_entry k none rest = rest
listed_entry k (some p) rest = record { id = k; payload = p } ∷ rest

-- The entries below a number.
abbrev listing : ℕ → View → List Entry
listing zero v = []
listing (suc k) v = listed_entry k (v.entries k) (listing k v)

abbrev store : Redis
store = record {
  State = Store;
  view = λ s. s.shown;
  apply = λ k s. record { shown = effect k s.shown; retries = retries_after k s.retries };
  xreadgroup = λ name n s. (first_rows n (listing s.shown.next s.shown), s);
  xautoclaim = λ name at idle n s. (first_rows n (listing s.shown.next s.shown), s);
  zrangebyscore = λ max n s. map (λ x. x.1) (first_rows n (select (λ x. leb x.0 max) s.retries));
}

listed_entry-Listed :
    (k : ℕ) (o : Option String) (ms : List Entry) (v : View)
    → v.entries k ≡ o
    → Listed v ms
    → Listed v (listed_entry k o ms)
listed_entry-Listed k none ms v e h = h
listed_entry-Listed k (some p) ms v e h = (e, h)

listing-Listed : (k : ℕ) (v : View) → Listed v (listing k v)
listing-Listed zero v = tt
listing-Listed (suc k) v =
    listed_entry-Listed k (v.entries k) (listing k v) v refl (listing-Listed k v)

first_rows-Listed : (n : ℕ) (ms : List Entry) (v : View) → Listed v ms → Listed v (first_rows n ms)
unfolding first_rows
first_rows-Listed n [] v h = tt
first_rows-Listed zero (x ∷ ms) v h = tt
first_rows-Listed (suc n) (x ∷ ms) v (h, hs) = (h, first_rows-Listed n ms v hs)

documented : Documented store
documented = record {
  applied = λ k s. refl;
  read_view = λ name n s. refl;
  read_entries = λ name n s.
      first_rows-Listed n (listing s.shown.next s.shown) s.shown
        (listing-Listed s.shown.next s.shown);
  claim_view = λ name at idle n s. refl;
  claim_entries = λ name at idle n s.
      first_rows-Listed n (listing s.shown.next s.shown) s.shown
        (listing-Listed s.shown.next s.shown);
}

-- A text that says a number, and then the rest.
abbrev unary : ℕ → String → String
unary zero rest = String.◌∷◌ "b" rest
unary (suc n) rest = String.◌∷◌ "a" (unary n rest)

abbrev one_more : ℕ × String → ℕ × String
one_more (n, rest) = (suc n, rest)

abbrev number : String → ℕ × String
number String.[] = (0, "")
number (String.◌∷◌ c s) = let more = number s in if code c == 97 then one_more more else (0, s)

number-unary : (n : ℕ) (rest : String) → number (unary n rest) ≡ (n, rest)
number-unary zero rest = refl
number-unary (suc n) rest = ap one_more (number-unary n rest)

-- A sealing that takes jobs without payload and keeps no error text.
abbrev sealed_job : Option String → Job → Result String
sealed_job none j =
    ok (unary j.id (unary j.attempts (unary j.max_attempts (unary j.enqueued_at j.type))))
sealed_job (some p) j = err driver

abbrev job_with : ℕ × String → ℕ → ℕ → ℕ → Job
job_with (enqueued_at, t) max attempts id = record {
  id = id;
  type = t;
  payload = none;
  attempts = attempts;
  max_attempts = max;
  enqueued_at = enqueued_at;
  last_error = [];
}

abbrev with_max : ℕ × String → ℕ → ℕ → Job
with_max (max, rest) attempts id = job_with (number rest) max attempts id

abbrev with_attempts : ℕ × String → ℕ → Job
with_attempts (attempts, rest) id = with_max (number rest) attempts id

abbrev with_id : ℕ × String → Job
with_id (id, rest) = with_attempts (number rest) id

abbrev sealing : Sealing
sealing = record {
  seal = λ nonce j. sealed_job j.payload j;
  open_job = λ s. opened (with_id (number s));
  json_text = λ text. [];
}

sealed-opens :
    (o : Option String) (j : Job) (s : String)
    → j.payload ≡ o
    → sealed_job o j ≡ ok s
    → opened (with_id (number s)) ≡ opened (record j { last_error = [] })
sealed-opens none j s e h =
    let text = unary j.id (unary j.attempts (unary j.max_attempts (unary j.enqueued_at j.type))) in
    let same : text ≡ s = cc h in
    rw
      (
        sym same,
        number-unary j.id,
        number-unary j.attempts,
        number-unary j.max_attempts,
        number-unary j.enqueued_at,
        e,
      )
      refl
sealed-opens (some p) j s e h = absurd (cc h)

opens : Opens sealing
opens nonce j s h = sealed-opens j.payload j s refl h

-- The largest number below a bound.
abbrev below : ℕ → Option ℕ
below zero = none
below (suc b) = some b

below-lt : (bound j : ℕ) → below bound ≡ some j → j < bound
below-lt zero j h = absurd (cc h)
below-lt (suc b) j h = ground arith

abbrev numbers : Numbers
numbers = record { to_float = λ n. n; out_of_range = 0; random_below = λ seed bound. below bound }

abbrev queue : Queue
queue = record { max_attempts = 3; base_delay = 1000000; max_delay = 60000000 }

abbrev opts : WorkerOptions
opts = record {
  concurrency = 1;
  block_timeout = 1;
  stale_after = 1;
  shutdown_timeout = 1;
  promote_interval = 1;
  consumer_name = "w";
  has_metrics = true;
}

-- The first attempt of a job fails.
abbrev handlers : String → Option Handler
handlers t = some (λ run j. if j.attempts == 0 then some (plain []) else none)

abbrev bench : Bench store
bench = record {
  redis = record {
    shown = record {
      next = 0;
      entries = λ i. none;
      scheduled = λ p. false;
      letters = [];
      kept = 0;
      slack = λ n. 0;
    };
    retries = [];
  };
  clock = 5;
  next_id = 7;
  faults = [];
  completed = [];
  observed = [];
}

abbrev mail : Job
mail = record {
  id = 7;
  type = "mail";
  payload = none;
  attempts = 0;
  max_attempts = 3;
  enqueued_at = 5;
  last_error = [];
}

abbrev events : List Event
events =
    reads "w-0"
    ∷ handles 0
    ∷ passes 2000000
    ∷ promotes
    ∷ reads "w-1"
    ∷ crashes
    ∷ reclaims
    ∷ handles 0
    ∷ []

abbrev after_events : System store
after_events =
    serve_events store sealing numbers queue opts (λ s. []) handlers events
      (record {
        bench = (enqueue_in store sealing numbers queue 0 "mail" (ok none) bench).1;
        held = [];
      })

serve_events-lossless_example :
    Tracked sealing 7 after_events.bench.completed after_events.bench.redis.shown
unfolding enqueue_in
serve_events-lossless_example =
    serve_events-lossless store documented sealing opens numbers queue [] opts (λ s. []) handlers 0
      "mail" (ok none) bench mail events (λ id p h. absurd (cc h)) tt refl

fail_job-Recorded_example :
    Recorded sealing
      (record { id = 0; job = mail })
      (plain [])
      (fail_job store sealing numbers queue
        (record { id = 0; job = mail })
        (plain [])
        bench).1.redis.shown
unfolding fail_job
fail_job-Recorded_example =
    fail_job-Recorded store documented sealing opens numbers queue (record { id = 0; job = mail })
      (plain []) bench refl

backoff-bounds_example :
    (4000000 ≤ backoff numbers queue 1 3) × (2 * backoff numbers queue 1 3 ≤ 12000000)
backoff-bounds_example =
    backoff-bounds numbers queue 1 2 (λ k h. refl) (omega arith) (omega arith) (omega arith)
      (inl refl) (λ seed bound j h. below-lt bound j h)
