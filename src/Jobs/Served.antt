-- ===== src/Jobs/Served.antt =====
-- internal/jobs: no job is lost, whatever workers, faults and crashes do.
use team_flow.Prelude.{
  ℕ, zero, suc, ◌≡◌, refl, sym, subst, String, Option, none, some, List, [], ◌∷◌, map, ◌++◌,
}
use team_flow.Exec.{◌>>=◌, pure, continue}
use team_flow.Jobs.Redis.{Redis, View, Entry, Listed, Documented}
use team_flow.Jobs.Job.{Delivery, Sealing, Opens}
use team_flow.Jobs.Queue.{
  Bench, Numbers, Queue, call, answered, next_call, later_calls, delivery, read, recover_stale,
}
use team_flow.Jobs.Worker.{WorkerOptions, Handler}
use team_flow.Jobs.Server.{
  Event, enqueues, reads, reclaims, promotes, handles, passes, crashes, System, pick, drop_held,
  hold, handle_picked, serve_event, serve_events,
}
use team_flow.Jobs.Views.{Honest}
use team_flow.Jobs.Kept.{KeptIn, AllHonest, Kept, Listed-AllHonest}
use team_flow.Jobs.Handled.{promote_due-Keeps, enqueue_in-Keeps, handle-Keeps}

append-AllHonest :
    (c : Sealing) (v : View) (xs ys : List Delivery)
    → AllHonest c v xs
    → AllHonest c v ys
    → AllHonest c v (xs ++ ys)
append-AllHonest c v [] ys hx hy = hy
append-AllHonest c v (x ∷ xs) ys (h, hx) hy = (h, append-AllHonest c v xs ys hx hy)

pick-Honest :
    (c : Sealing) (v : View) (k : ℕ) (ds : List Delivery) (d : Delivery)
    → AllHonest c v ds
    → pick k ds ≡ some d
    → Honest c v d
pick-Honest c v k [] d h e = absurd (cc e)
pick-Honest c v zero (x ∷ ds) d (h, hs) e = subst (Honest c v) (cc e) h
pick-Honest c v (suc k) (x ∷ ds) d (h, hs) e = pick-Honest c v k ds d hs e

drop_held-AllHonest :
    (c : Sealing) (v : View) (k : ℕ) (ds : List Delivery)
    → AllHonest c v ds
    → AllHonest c v (drop_held k ds)
drop_held-AllHonest c v k [] h = tt
drop_held-AllHonest c v zero (x ∷ ds) (h, hs) = hs
drop_held-AllHonest c v (suc k) (x ∷ ds) (h, hs) = (h, drop_held-AllHonest c v k ds hs)

module _ (r : Redis) (doc : Documented r) (c : Sealing) (opens : Opens c) (m : Numbers) (q : Queue)
    (opts : WorkerOptions) (quote : String → List ℕ) (handlers : String → Option Handler)
    (n : ℕ) where
  abbrev Good : System r → Type 0
  Good s = Kept r c n s.held s.bench

  -- A read of entries hands out honest deliveries.
  held-Good :
      (f : r.State → List Entry × r.State)
      → ((s : r.State) → r.view (f s).1 ≡ r.view s)
      → ((s : r.State) → Listed (r.view s) (f s).0)
      → (x : Option ℕ) (b : Bench r) (ds : List Delivery) → Kept r c n ds b
      → Good (
          hold r
            (continue
              (answered r f x b).0
              (λ ms. pure (map (λ e. delivery c e) ms))
              (answered r f x b).1)
            ds)
  held-Good f same listed none b ds k =
      subst (KeptIn c n (map (λ e. delivery c e) (f b.redis).0 ++ ds) b.completed)
        (sym (same b.redis))
        (record {
          valid = k.valid;
          honest =
              append-AllHonest c (r.view b.redis) _ ds
                (Listed-AllHonest c (r.view b.redis) (f b.redis).0 k.valid (listed b.redis))
                k.honest;
          tracked = k.tracked;
        })
  held-Good f same listed (some zero) b ds k = k
  held-Good f same listed (some (suc x)) b ds k =
      subst (KeptIn c n ds b.completed) (sym (same b.redis)) k

  handled-Good :
      (k : ℕ) (x : Option Delivery) (s : System r)
      → pick k s.held ≡ x
      → Good s
      → Kept r c n (drop_held k s.held) (handle_picked r c m q opts quote handlers x s.bench)
  handled-Good k none s e h = record {
    valid = h.valid;
    honest = drop_held-AllHonest c (r.view s.bench.redis) k s.held h.honest;
    tracked = h.tracked;
  }
  handled-Good k (some d) s e h =
      let all =
        (handle-Keeps r doc c opens m q n d (drop_held k s.held) opts quote handlers).at s.bench
          (record {
            valid = h.valid;
            honest = (
              pick-Honest c (r.view s.bench.redis) k s.held d h.honest e,
              drop_held-AllHonest c (r.view s.bench.redis) k s.held h.honest,
            );
            tracked = h.tracked;
          }) in
      record { valid = all.valid; honest = all.honest.1; tracked = all.tracked }

  serve_event-Good :
      (e : Event) (s : System r) → Good s → Good (serve_event r c m q opts quote handlers e s)
  unfolding serve_event read recover_stale call ◌>>=◌
  serve_event-Good (enqueues delay t p) s h =
      (enqueue_in-Keeps r doc c m q n s.held delay t p).at s.bench h
  serve_event-Good (reads consumer) s h =
      held-Good (λ s. r.xreadgroup consumer 1 s) (doc.read_view consumer 1)
        (doc.read_entries consumer 1) (next_call s.bench.faults)
        (record s.bench { faults = later_calls s.bench.faults }) s.held h
  serve_event-Good reclaims s h =
      held-Good (λ x. r.xautoclaim "reclaimer" s.bench.clock opts.stale_after 50 x)
        (doc.claim_view "reclaimer" s.bench.clock opts.stale_after 50)
        (doc.claim_entries "reclaimer" s.bench.clock opts.stale_after 50) (next_call s.bench.faults)
        (record s.bench { faults = later_calls s.bench.faults }) s.held h
  serve_event-Good promotes s h = (promote_due-Keeps r doc c m q n s.held 100).at s.bench h
  serve_event-Good (handles k) s h = handled-Good k (pick k s.held) s refl h
  serve_event-Good (passes span) s h = h
  serve_event-Good crashes s h = record { valid = h.valid; honest = tt; tracked = h.tracked }

  pub serve_events-Good :
      (es : List Event) (s : System r)
      → Good s
      → Good (serve_events r c m q opts quote handlers es s)
  unfolding serve_events
  serve_events-Good [] s h = h
  serve_events-Good (e ∷ es) s h =
      serve_events-Good es (serve_event r c m q opts quote handlers e s) (serve_event-Good e s h)
