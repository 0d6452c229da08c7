-- ===== src/Jobs/Failure.antt =====
-- internal/jobs/jobs.go: what Fail records.
use team_flow.Prelude.{
  ℕ, suc, ◌≡◌, ◌≤◌, subst, sym, arith, ◌+◌, ◌/◌, refl, ap, ◌∙◌, ◌==◌, ==_refl, ◌||◌, leb,
  str_eq_refl, String, Bool, true, false, Option, none, some, [], ◌∷◌, if◌then◌else◌,
}
use team_flow.Httpx.Errors.{wrap}
use team_flow.Database.Rows.{first_rows}
use team_flow.Exec.{ok, ◌>>=◌, or_fail, on_err}
use team_flow.Jobs.Redis.{
  letter, Redis, View, Documented, effect, xadd_dead, zadd, xack, xdel, without,
}
use team_flow.Jobs.Job.{
  Delivery, JobError, Sealing, Opens, opened, error_text, is_permanent, truncate,
}
use team_flow.Jobs.Queue.{
  Bench, Numbers, Queue, sent_all, apply_all, pipeline, next_call, failed_job, is_last, failure,
  record_failure, fail_job, backoff,
}
use team_flow.Jobs.Lossless.{follow}

-- The payload is the latest dead letter and in the stream, or in the schedule of retries.
abbrev pub Written : Bool → String → View → Type 0
Written true p v = (letter 0 v.letters ≡ some p) × (1 ≤ v.kept)
Written false p v = v.scheduled p ≡ true

-- The entry is gone. A payload was written that opens as the job with one more attempt and the text of
-- the error, cut to 500 bytes: to the dead letters, where the error is permanent or no attempt is left,
-- and to the schedule of retries otherwise.
pub record Recorded (c : Sealing) (d : Delivery) (cause : JobError) (v : View) : Type 0 where
  pub payload : String
  pub opens_as :
      c.open_job payload
      ≡ opened (record d.job {
        attempts = suc d.job.attempts;
        last_error = c.json_text (first_rows 500 (error_text cause));
      })
  pub gone : v.entries d.id ≡ none
  pub written :
      Written
        (is_permanent cause
          || (d.job.max_attempts == 0 || leb d.job.max_attempts (suc d.job.attempts)))
        payload
        v

module _ (r : Redis) (doc : Documented r) (c : Sealing) (opens : Opens c) (m : Numbers) (q : Queue)
    (d : Delivery) (cause : JobError) where
  -- The effect of the whole pipeline.
  all_sent :
      (last : Bool) (due : ℕ) (s : String) (x : r.State)
      → r.view (
          apply_all r
            ((if last then xadd_dead 10000 s else zadd due s) ∷ xack d.id ∷ xdel d.id ∷ [])
            x)
        ≡ without d.id
            (without d.id (effect (if last then xadd_dead 10000 s else zadd due s) (r.view x)))
  unfolding apply_all
  all_sent last due s x =
      doc.applied (xdel d.id) _
      ∙ ap (without d.id) (doc.applied (xack d.id) _ ∙ ap (without d.id) (doc.applied _ x))

  placed :
      (last : Bool) (due : ℕ) (s : String) (v : View)
      → let w =
          without d.id (without d.id (effect (if last then xadd_dead 10000 s else zadd due s) v)) in
        (w.entries d.id ≡ none) × Written last s w
  placed true due s v = (rw (==_refl d.id) refl, (refl, ground arith))
  placed false due s v = (rw (==_refl d.id) refl, rw (str_eq_refl s) refl)

  sent-Recorded :
      (due : ℕ) (s : String) (nonce : ℕ) (f : Option ℕ) (b : Bench r)
      → c.seal nonce (failed_job r c m q d cause) ≡ ok s
      → on_err wrap (sent_all r (failure r c m q d cause due s) f b).0 ≡ ok tt
      → Recorded c d cause (r.view (sent_all r (failure r c m q d cause due s) f b).1.redis)
  unfolding truncate
  sent-Recorded due s nonce none b sealed e =
      let last = is_last r c m q (failed_job r c m q d cause) cause in
      let p = placed last due s (r.view b.redis) in
      record {
        payload = s;
        opens_as = opens nonce (failed_job r c m q d cause) s sealed;
        gone = ap (λ (w : View). w.entries d.id) (all_sent last due s b.redis) ∙ p.0;
        written = subst (λ (w : View). Written last s w) (sym (all_sent last due s b.redis)) p.1;
      }
  sent-Recorded due s nonce (some k) b sealed e = absurd (cc e)

  -- Where Fail succeeds, the entry is gone, and a payload was written that opens as the job with one
  -- more attempt and the text of the error, cut to 500 bytes: as the latest dead letter, in its stream,
  -- where the error is permanent or no attempt is left, to the schedule of retries otherwise.
  pub fail_job-Recorded :
      (b : Bench r)
      → (fail_job r c m q d cause b).0 ≡ ok tt
      → Recorded c d cause (r.view (fail_job r c m q d cause b).1.redis)
  unfolding fail_job record_failure pipeline or_fail ◌>>=◌
  fail_job-Recorded b h =
      let b₁ = record b { next_id = suc b.next_id } in
      follow (c.seal b.next_id (failed_job r c m q d cause)) _ b₁ tt
        (λ (x : Bench r). Recorded c d cause (r.view x.redis)) h
        λ s sealed e.
          sent-Recorded ((b.clock + backoff m q (suc b.next_id) (suc d.job.attempts)) / 1000000) s
            b.next_id (next_call b.faults) _ sealed e
