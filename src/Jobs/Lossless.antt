-- ===== src/Jobs/Lossless.antt =====
-- internal/jobs: a job that was enqueued is not lost.
use team_flow.Prelude.{
  ℕ, ◌≡◌, ◌+◌, ◌/◌, refl, ap, sym, subst, ◌==◌, str_eq_refl, String, Bool, true, false, not, suc,
  if◌then◌else◌, Option, none, some, List, [], ◌∷◌, str_eq,
}
use team_flow.Httpx.Errors.{Error, wrap, driver}
use team_flow.Exec.{Result, ok, err, ◌>>=◌, or_fail, require, on_err, continue}
use team_flow.Jobs.Redis.{Redis, Documented, xadd, zadd}
use team_flow.Jobs.Job.{Job, Delivery, Sealing, Opens}
use team_flow.Jobs.Queue.{
  Bench, Numbers, Queue, sent_all, apply_all, pipeline, next_call, later_calls, new_job, placement,
  place, enqueue_in,
}
use team_flow.Jobs.Worker.{WorkerOptions, Handler}
use team_flow.Jobs.Server.{Event, serve_events}
use team_flow.Jobs.Views.{Holds, Tracked, awaits, away, waits, Valid, effect-Steady, xadd_entry}
use team_flow.Jobs.Kept.{KeptIn, AllHonest, Kept, Steady-AllHonest}
use team_flow.Jobs.Served.{serve_events-Good}

-- What follows an action, where the whole succeeds.
pub follow :
    {W A B : Type 0} (x : Result A) (f : A → W → Result B × W) (b : W) (y : B) (Q : W → Type 0)
    → (continue x f b).0 ≡ ok y
    → ((a : A) → x ≡ ok a → (f a b).0 ≡ ok y → Q (f a b).1)
    → Q (continue x f b).1
follow (ok a) f b y Q h k = k a refl h
follow (err e) f b y Q h k = absurd (cc h)

after_require :
    {W B : Type 0} (x : Bool) (e : Error) (f : Unit {0} → W → Result B × W) (b : W) (y : B)
    (Q : W → Type 0)
    → (continue (require x e b).0 f (require x e b).1).0 ≡ ok y
    → ((f tt b).0 ≡ ok y → Q (f tt b).1)
    → Q (continue (require x e b).0 f (require x e b).1).1
after_require true e f b y Q h k = k h
after_require false e f b y Q h k = absurd (cc h)

the_same : {A : Type 0} (a b : A) → ok a ≡ ok b → a ≡ b
the_same a b h = cc h

module _ (r : Redis) (doc : Documented r) (c : Sealing) (opens : Opens c) (m : Numbers) (q : Queue)
    (ds : List Delivery) where
  started :
      (n delay due : ℕ) (at_once : Bool) (s : String) (done : List ℕ) (x : r.State)
      → Holds c n s
      → Valid (r.view x)
      → AllHonest c (r.view x) ds
      → KeptIn c n ds done
          (r.view (apply_all r (if at_once then xadd s ∷ [] else zadd due s ∷ []) x))
  unfolding apply_all
  started n delay due true s done x h good honest =
      subst (KeptIn c n ds done) (sym (doc.applied (xadd s) x)) (record {
        valid = (effect-Steady (xadd s) (r.view x)).numbered good;
        honest = Steady-AllHonest c _ _ ds (effect-Steady (xadd s) (r.view x)) honest;
        tracked = awaits (r.view x).next s h (xadd_entry s (r.view x));
      })
  started n delay due false s done x h good honest =
      subst (KeptIn c n ds done) (sym (doc.applied (zadd due s) x)) (record {
        valid = good;
        honest = Steady-AllHonest c _ _ ds (effect-Steady (zadd due s) (r.view x)) honest;
        tracked = away (waits s h (rw (str_eq_refl s) refl));
      })

  sent-starts :
      (n delay due : ℕ) (s : String) (f : Option ℕ) (b : Bench r)
      → Holds c n s
      → Valid (r.view b.redis)
      → AllHonest c (r.view b.redis) ds
      → on_err wrap (sent_all r (placement r c m q delay due s) f b).0 ≡ ok tt
      → Kept r c n ds (sent_all r (placement r c m q delay due s) f b).1
  sent-starts n delay due s none b h good honest e =
      started n delay due (delay == 0) s b.completed b.redis h good honest
  sent-starts n delay due s (some k) b h good honest e = absurd (cc e)

  -- An enqueue that succeeds stores the job.
  enqueue_in-starts :
      (delay : ℕ) (t : String) (p : Result (Option String)) (b : Bench r) (j : Job)
      → Valid (r.view b.redis)
      → AllHonest c (r.view b.redis) ds
      → (enqueue_in r c m q delay t p b).0 ≡ ok j
      → Kept r c j.id ds (enqueue_in r c m q delay t p b).1
  unfolding enqueue_in place pipeline or_fail ◌>>=◌
  enqueue_in-starts delay t p b j good honest h =
      after_require (not (str_eq t "")) driver _ b j (Kept r c j.id ds) h λ h₁.
        let b₁ = record b { next_id = suc b.next_id } in
        let b₂ = record b { next_id = suc (suc b.next_id) } in
        follow (on_err wrap p) _ b₁ j (Kept r c j.id ds) h₁ λ raw e₁ h₂.
          let job = new_job r c m q b.next_id t raw b.clock in
          follow (c.seal (suc b.next_id) job) _ b₂ j (Kept r c j.id ds) h₂ λ s sealed h₃.
            follow (place r c m q delay s b₂).0 _ (place r c m q delay s b₂).1 j (Kept r c j.id ds)
              h₃
              λ u e₃ h₄.
                sent-starts j.id delay ((b.clock + delay) / 1000000) s (next_call b.faults)
                  (record b₂ { faults = later_calls b.faults })
                  (
                    record job { last_error = c.json_text job.last_error },
                    opens (suc b.next_id) job s sealed,
                    ap (λ (x : Job). x.id) (the_same job j h₄),
                  )
                  good honest e₃

  -- A job whose enqueue succeeded is in the stream and not acknowledged, or waits for a retry, or is a
  -- dead letter, which is still in its stream unless at least 10,000 letters were added after it, or its
  -- handler succeeded, after whatever the workers do with the jobs that they hold, wherever calls and
  -- pipelines are cut short and workers crash, where what is sealed can be opened.
  pub serve_events-lossless :
      (opts : WorkerOptions) (quote : String → List ℕ) (handlers : String → Option Handler)
      (delay : ℕ) (t : String) (p : Result (Option String)) (b : Bench r) (j : Job)
      (es : List Event)
      → Valid (r.view b.redis)
      → AllHonest c (r.view b.redis) ds
      → (enqueue_in r c m q delay t p b).0 ≡ ok j
      → let s =
          serve_events r c m q opts quote handlers es
            (record { bench = (enqueue_in r c m q delay t p b).1; held = ds }) in
        Tracked c j.id s.bench.completed (r.view s.bench.redis)
  serve_events-lossless opts quote handlers delay t p b j es good honest h =
      (serve_events-Good r doc c opens m q opts quote handlers j.id es
        (record { bench = (enqueue_in r c m q delay t p b).1; held = ds })
        (enqueue_in-starts delay t p b j good honest h)).tracked
