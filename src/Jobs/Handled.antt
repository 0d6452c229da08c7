-- ===== src/Jobs/Handled.antt =====
-- internal/jobs: the operations of the queue and of the worker keep a job where it can be found.
use team_flow.Prelude.{
  ℕ, ◌≡◌, ◌+◌, ◌/◌, refl, ap, sym, ◌∙◌, ◌==◌, ==_refl, str_eq_refl, String, Bool, true, false,
  Option, none, some, List, [], ◌∷◌, any, length, not, if◌then◌else◌, str_eq,
}
use team_flow.Httpx.Errors.{wrap, driver}
use team_flow.Exec.{Result, ok, err, ◌>>=◌, lift, or_fail, inspect}
use team_flow.Jobs.Redis.{
  Redis, View, xadd, xadd_dead, zadd, zrem, xack, xdel, effect, Documented, without,
}
use team_flow.Jobs.Job.{Delivery, JobError, Sealing, Opens, permanent_error, plain}
use team_flow.Jobs.Queue.{
  Bench, Step, Numbers, Queue, promotions, ack, fail_job, record_failure, failed_job, is_last,
  failure, backoff, promote_due, new_job, place, enqueue_in, job_of,
}
use team_flow.Jobs.Worker.{
  WorkerOptions, Handler, observe, logged, acknowledged, finish, dispatch, handle, ascii,
}
use team_flow.Jobs.Views.{
  Holds, Away, waits, buried, finished, Honest, new_letter, acknowledged-Tracked, xadd_dead-Tracked,
  zadd-Tracked, xadd-Tracked, zrem-Tracked, xadd_entry, done-Tracked,
}
use team_flow.Jobs.Kept.{
  KeptIn, effect-KeptIn, Safe, Kept, Keeps, pipeline-Kept, call-Keeps, Keeps-pipeline, Keeps-time,
  Keeps-draw, Keeps-pure, Keeps-bind, Keeps-lift, Keeps-or_fail, Keeps-if, Keeps-require,
}

module _ (c : Sealing) (n : ℕ) (ds : List Delivery) (done : List ℕ) where
  -- An acknowledgement is safe where the job of the entry is away.
  pub acknowledge-Safe :
      (i : ℕ) (v : View)
      → KeptIn c n ds done v
      → ((p : String) → v.entries i ≡ some p → Holds c n p → Away c n done v)
      → Safe c n ds done (xack i ∷ xdel i ∷ []) v
  acknowledge-Safe i v k spare =
      let t = acknowledged-Tracked c n done i v spare k.tracked in
      let k₁ = effect-KeptIn c n ds done (xack i) v k t.0 in
      (k, (k₁, effect-KeptIn c n ds done (xdel i) (without i v) k₁ t.1))

  -- So is the record of a failure, where the new payload holds the job that the entry held.
  pub failure-Safe :
      (last : Bool) (due i : ℕ) (s : String) (v : View)
      → KeptIn c n ds done v
      → ((p : String) → v.entries i ≡ some p → Holds c n p → Holds c n s)
      → Safe c n ds done ((if last then xadd_dead 10000 s else zadd due s) ∷ xack i ∷ xdel i ∷ []) v
  failure-Safe true due i s v k same = (
    k,
    acknowledge-Safe i (effect (xadd_dead 10000 s) v)
        (effect-KeptIn c n ds done (xadd_dead 10000 s) v k
          (xadd_dead-Tracked c n done s v k.tracked))
        (λ p e h. buried s (same p e h) (new_letter c n done s v)),
  )
  failure-Safe false due i s v k same = (
    k,
    acknowledge-Safe i (effect (zadd due s) v)
        (effect-KeptIn c n ds done (zadd due s) v k (zadd-Tracked c n done due s v k.tracked))
        (λ p e h. waits s (same p e h) (rw (str_eq_refl s) refl)),
  )

  -- What is only added is safe.
  pub addition-Safe :
      (at_once : Bool) (due : ℕ) (s : String) (v : View)
      → KeptIn c n ds done v
      → Safe c n ds done (if at_once then xadd s ∷ [] else zadd due s ∷ []) v
  addition-Safe true due s v k =
      (k, effect-KeptIn c n ds done (xadd s) v k (xadd-Tracked c n done s v k.valid k.tracked))
  addition-Safe false due s v k =
      (k, effect-KeptIn c n ds done (zadd due s) v k (zadd-Tracked c n done due s v k.tracked))

  -- A promotion adds the payload to the stream before it takes it off the schedule.
  pub promotions-Safe :
      (ps : List String) (v : View) → KeptIn c n ds done v → Safe c n ds done (promotions ps) v
  promotions-Safe [] v k = k
  promotions-Safe (p ∷ ps) v k =
      let k₁ =
        effect-KeptIn c n ds done (xadd p) v k (xadd-Tracked c n done p v k.valid k.tracked) in
      let w = effect (xadd p) v in
      let k₂ =
        effect-KeptIn c n ds done (zrem p) w k₁
          (zrem-Tracked c n done p w v.next (xadd_entry p v) k₁.tracked) in
      (k, (k₁, promotions-Safe ps (effect (zrem p) w) k₂))

-- An honest delivery has the job that its entry holds.
pub held_job :
    (c : Sealing) (n : ℕ) (v : View) (d : Delivery) (p : String)
    → Honest c v d
    → v.entries d.id ≡ some p
    → Holds c n p
    → d.job.id ≡ n
held_job c n v d p h e (j, o, same) =
    ap (λ (x : Delivery). x.job.id) (sym (h.true_to p e)) ∙ ap (λ x. (job_of x).id) o ∙ same

module _ (r : Redis) (doc : Documented r) (c : Sealing) (m : Numbers) (q : Queue) (n : ℕ)
    (ds : List Delivery) where
  pub promote_due-Keeps : (limit : ℕ) → Keeps r c n ds (promote_due r c m q limit)
  unfolding promote_due
  promote_due-Keeps limit = Keeps-bind r doc c n ds _ _ (Keeps-time r doc c n ds) λ at.
      Keeps-bind r doc c n ds _ _
        (Keeps-or_fail r doc c n ds wrap _ (call-Keeps r doc c n ds _ λ s. refl))
        λ due. Keeps-if r doc c n ds (length due == 0) _ _ (Keeps-pure r doc c n ds 0) (
          Keeps-bind r doc c n ds _ _
            (Keeps-or_fail r doc c n ds wrap _ (
              Keeps-pipeline r doc c n ds (promotions due)
                λ b k. promotions-Safe c n ds b.completed due (r.view b.redis) k))
            λ x. Keeps-pure r doc c n ds (length due))

  place-Keeps : (delay : ℕ) (s : String) → Keeps r c n ds (place r c m q delay s)
  unfolding place
  place-Keeps delay s = Keeps-bind r doc c n ds _ _ (Keeps-time r doc c n ds) λ at.
      Keeps-or_fail r doc c n ds wrap _ (
        Keeps-pipeline r doc c n ds _
          λ b k. addition-Safe c n ds b.completed (delay == 0) _ s (r.view b.redis) k)

  pub enqueue_in-Keeps :
      (delay : ℕ) (t : String) (p : Result (Option String))
      → Keeps r c n ds (enqueue_in r c m q delay t p)
  unfolding enqueue_in
  enqueue_in-Keeps delay t p =
      Keeps-bind r doc c n ds _ _ (Keeps-require r doc c n ds (not (str_eq t "")) driver) λ x.
        Keeps-bind r doc c n ds _ _ (Keeps-draw r doc c n ds) λ id.
          Keeps-bind r doc c n ds _ _ (Keeps-time r doc c n ds) λ at.
            Keeps-bind r doc c n ds _ _
              (Keeps-or_fail r doc c n ds wrap (lift p) (record { at = λ b k. k }))
              λ raw. Keeps-bind r doc c n ds _ _ (Keeps-draw r doc c n ds) λ nonce.
                Keeps-lift r doc c n ds (c.seal nonce (new_job r c m q id t raw at)) _ λ s sealed.
                  Keeps-bind r doc c n ds _ _ (place-Keeps delay s)
                    λ y. Keeps-pure r doc c n ds (new_job r c m q id t raw at)

-- A worker handles the first of the deliveries that are held.
module _ (r : Redis) (doc : Documented r) (c : Sealing) (opens : Opens c) (m : Numbers) (q : Queue)
    (n : ℕ) (d : Delivery) (ds : List Delivery) where
  abbrev K : {A : Type 0} → Step r A → Type 0
  K = Keeps r c n (d ∷ ds)

  -- What is sealed of the failed job has its identifier.
  resealed :
      (nonce : ℕ) (e : JobError) (s : String) (b : Bench r) (p : String)
      → c.seal nonce (failed_job r c m q d e) ≡ ok s
      → Kept r c n (d ∷ ds) b
      → (r.view b.redis).entries d.id ≡ some p
      → Holds c n p
      → Holds c n s
  resealed nonce e s b p sealed k at h = (
    record (failed_job r c m q d e) {
      last_error = c.json_text (failed_job r c m q d e).last_error;
    },
    opens nonce (failed_job r c m q d e) s sealed,
    held_job c n (r.view b.redis) d p k.honest.0 at h,
  )

  record_failure-Keeps :
      (nonce : ℕ) (e : JobError) (s : String)
      → c.seal nonce (failed_job r c m q d e) ≡ ok s
      → K (record_failure r c m q d e s)
  unfolding record_failure
  record_failure-Keeps nonce e s sealed =
      Keeps-bind r doc c n (d ∷ ds) _ _ (Keeps-time r doc c n (d ∷ ds)) λ at.
        Keeps-bind r doc c n (d ∷ ds) _ _ (Keeps-draw r doc c n (d ∷ ds)) λ seed.
          let due = (at + backoff m q seed (failed_job r c m q d e).attempts) / 1000000 in
          Keeps-or_fail r doc c n (d ∷ ds) wrap _ (
            Keeps-pipeline r doc c n (d ∷ ds) (failure r c m q d e due s) λ b k.
              failure-Safe c n (d ∷ ds) b.completed (is_last r c m q (failed_job r c m q d e) e) due
                d.id s (r.view b.redis) k (λ p. resealed nonce e s b p sealed k))

  fail_job-Keeps : (e : JobError) → K (fail_job r c m q d e)
  unfolding fail_job
  fail_job-Keeps e =
      Keeps-bind r doc c n (d ∷ ds) _ _ (Keeps-draw r doc c n (d ∷ ds))
        λ nonce. Keeps-lift r doc c n (d ∷ ds) _ _ λ s sealed. record_failure-Keeps nonce e s sealed

  -- An acknowledgement after the handler succeeded.
  ack-Kept :
      (b : Bench r)
      → Kept r c n (d ∷ ds) b
      → (d.job.id ≡ n → Away c n b.completed (r.view b.redis))
      → Kept r c n (d ∷ ds) (ack r c m q d b).1
  unfolding ack or_fail
  ack-Kept b k x = pipeline-Kept r doc c n (d ∷ ds) (xack d.id ∷ xdel d.id ∷ []) b (
      acknowledge-Safe c n (d ∷ ds) b.completed d.id (r.view b.redis) k
        λ p e h. x (held_job c n (r.view b.redis) d p k.honest.0 e h))

  module _ (opts : WorkerOptions) (quote : String → List ℕ)
      (handlers : String → Option Handler) where
    observed-Kept :
        (x : Bool) (t result : String) (b : Bench r)
        → Kept r c n (d ∷ ds) b
        → Kept r c n (d ∷ ds) (if x then record b { observed = (t, result) ∷ b.observed } else b)
    observed-Kept true t result b k = k
    observed-Kept false t result b k = k

    observe-Keeps : (t result : String) → K (observe r opts t result)
    unfolding observe
    observe-Keeps t result = record { at = λ b k. observed-Kept opts.has_metrics t result b k }

    logged-Keeps : {A : Type 0} (x : Step r A) → K x → K (logged r x)
    unfolding logged
    logged-Keeps x h = record { at = h.at }

    acknowledged-Keeps : (x : Result (Unit {0})) → K (acknowledged r c m q opts quote handlers d x)
    acknowledged-Keeps (ok y) = observe-Keeps d.job.type "completed"
    acknowledged-Keeps (err e) = Keeps-pure r doc c n (d ∷ ds) tt

    completed-Kept :
        (b : Bench r)
        → Kept r c n (d ∷ ds) b
        → Kept r c n (d ∷ ds) (record b { completed = d.job.id ∷ b.completed })
    completed-Kept b k = record {
      valid = k.valid;
      honest = k.honest;
      tracked = done-Tracked c n b.completed d.job.id _ k.tracked;
    }

    finish-Keeps : (x : Option JobError) → K (finish r c m q opts quote handlers d x)
    unfolding inspect ◌>>=◌ any
    finish-Keeps (some e) =
        Keeps-bind r doc c n (d ∷ ds) _ _ (observe-Keeps d.job.type _)
          λ x. logged-Keeps _ (fail_job-Keeps e)
    finish-Keeps none = record {
      at = λ b k.
          let b' = record b { completed = d.job.id ∷ b.completed } in
          (acknowledged-Keeps (ack r c m q d b').0).at (ack r c m q d b').1
            (ack-Kept b' (completed-Kept b k) λ e. finished (rw (e, ==_refl n) refl));
    }

    dispatch-Keeps : (x : Option Handler) → K (dispatch r c m q opts quote handlers d x)
    dispatch-Keeps none =
        Keeps-bind r doc c n (d ∷ ds) _ _ (observe-Keeps d.job.type _)
          λ x. logged-Keeps _ (fail_job-Keeps _)
    dispatch-Keeps (some h) =
        Keeps-bind r doc c n (d ∷ ds) _ _ (Keeps-draw r doc c n (d ∷ ds))
          λ run. finish-Keeps (h run d.job)

    pub handle-Keeps : K (handle r c m q opts quote handlers d)
    unfolding handle
    handle-Keeps =
        Keeps-if r doc c n (d ∷ ds) (str_eq d.job.type "") _ _
          (Keeps-bind r doc c n (d ∷ ds) _ _ (observe-Keeps "unreadable" _) λ x.
            logged-Keeps _
              (fail_job-Keeps (permanent_error (plain (ascii "job payload is unreadable")))))
          (dispatch-Keeps (handlers d.job.type))
