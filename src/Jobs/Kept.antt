-- ===== src/Jobs/Kept.antt =====
-- internal/jobs/jobs.go: calls and pipelines, whole or cut short, keep a job where it can be found.
use team_flow.Prelude.{
  ℕ, zero, suc, ◌≡◌, refl, ap, sym, subst, String, Bool, true, false, Option, none, some, List, [],
  ◌∷◌, map, if◌then◌else◌,
}
use team_flow.Httpx.Errors.{Error}
use team_flow.Database.Rows.{first_rows}
use team_flow.Exec.{Result, ok, err, ◌>>=◌, pure, lift, or_fail, continue, require}
use team_flow.Jobs.Redis.{Redis, View, Entry, Listed, Command, effect, Documented}
use team_flow.Jobs.Job.{Delivery, Sealing}
use team_flow.Jobs.Queue.{
  Bench, Step, apply_all, sent_all, pipeline, answered, call, time, draw, next_call, later_calls,
  delivery,
}
use team_flow.Jobs.Views.{Tracked, Honest, Valid, Steady, effect-Steady, Steady-Honest}

abbrev pub AllHonest : Sealing → View → List Delivery → Type 0
AllHonest c v [] = Unit
AllHonest c v (d ∷ ds) = Honest c v d × AllHonest c v ds

-- The job can be found, and the deliveries that workers hold are what their entries have.
pub record KeptIn (c : Sealing) (n : ℕ) (ds : List Delivery) (done : List ℕ) (v : View)
    : Type 0 where
  pub valid : Valid v
  pub honest : AllHonest c v ds
  pub tracked : Tracked c n done v

pub Steady-AllHonest :
    (c : Sealing) (v w : View) (ds : List Delivery)
    → Steady v w
    → AllHonest c v ds
    → AllHonest c w ds
Steady-AllHonest c v w [] s h = tt
Steady-AllHonest c v w (d ∷ ds) s (h, hs) =
    (Steady-Honest c v w d s h, Steady-AllHonest c v w ds s hs)

-- Entries of the view make honest deliveries.
pub Listed-AllHonest :
    (c : Sealing) (v : View) (ms : List Entry)
    → Valid v
    → Listed v ms
    → AllHonest c v (map (λ m. delivery c m) ms)
Listed-AllHonest c v [] good h = tt
Listed-AllHonest c v (m ∷ ms) good (e, h) = (honest, Listed-AllHonest c v ms good h)
  where
    same : (p : String) → v.entries m.id ≡ some p → m.payload ≡ p
    same p e' = cc

    honest : Honest c v (delivery c m)
    honest = record {
      given = good m.id m.payload e;
      true_to = λ p e'. ap (λ q. delivery c (record { id = m.id; payload = q })) (sym (same p e'));
    }

module _ (c : Sealing) (n : ℕ) (ds : List Delivery) (done : List ℕ) where
  pub effect-KeptIn :
      (k : Command) (v : View)
      → KeptIn c n ds done v
      → Tracked c n done (effect k v)
      → KeptIn c n ds done (effect k v)
  effect-KeptIn k v h t = record {
    valid = (effect-Steady k v).numbered h.valid;
    honest = Steady-AllHonest c v (effect k v) ds (effect-Steady k v) h.honest;
    tracked = t;
  }

  -- The job can be found wherever the pipeline is cut short.
  abbrev pub Safe : List Command → View → Type 0
  Safe [] v = KeptIn c n ds done v
  Safe (k ∷ ks) v = KeptIn c n ds done v × Safe ks (effect k v)

abbrev pub Kept : (r : Redis) → Sealing → ℕ → List Delivery → Bench r → Type 0
Kept r c n ds b = KeptIn c n ds b.completed (r.view b.redis)

pub record Keeps (r : Redis) (c : Sealing) (n : ℕ) (ds : List Delivery) {A : Type 0} (m : Step r A)
    : Type 0 where
  pub at : (b : Bench r) → Kept r c n ds b → Kept r c n ds (m b).1

module _ (r : Redis) (doc : Documented r) (c : Sealing) (n : ℕ) (ds : List Delivery) where
  abbrev P : Bench r → Type 0
  P = Kept r c n ds

  abbrev K : {A : Type 0} → Step r A → Type 0
  K = Keeps r c n ds

  -- All of a safe pipeline, or a part of it.
  all_applied :
      (done : List ℕ) (ks : List Command) (s : r.State)
      → Safe c n ds done ks (r.view s)
      → KeptIn c n ds done (r.view (apply_all r ks s))
  unfolding apply_all
  all_applied done [] s h = h
  all_applied done (k ∷ ks) s (h, hs) =
      all_applied done ks (r.apply k s) (subst (Safe c n ds done ks) (sym (doc.applied k s)) hs)

  part_applied :
      (done : List ℕ) (k : ℕ) (ks : List Command) (s : r.State)
      → Safe c n ds done ks (r.view s)
      → KeptIn c n ds done (r.view (apply_all r (first_rows k ks) s))
  unfolding apply_all first_rows
  part_applied done zero [] s h = h
  part_applied done zero (k' ∷ ks) s (h, hs) = h
  part_applied done (suc k) [] s h = h
  part_applied done (suc k) (k' ∷ ks) s (h, hs) =
      part_applied done k ks (r.apply k' s)
        (subst (Safe c n ds done ks) (sym (doc.applied k' s)) hs)

  sent_all-Kept :
      (ks : List Command) (f : Option ℕ) (b : Bench r)
      → Safe c n ds b.completed ks (r.view b.redis)
      → P (sent_all r ks f b).1
  sent_all-Kept ks none b h = all_applied b.completed ks b.redis h
  sent_all-Kept ks (some k) b h = part_applied b.completed k ks b.redis h

  pub pipeline-Kept :
      (ks : List Command) (b : Bench r)
      → Safe c n ds b.completed ks (r.view b.redis)
      → P (pipeline r ks b).1
  unfolding pipeline
  pipeline-Kept ks b h =
      sent_all-Kept ks (next_call b.faults) (record b { faults = later_calls b.faults }) h

  pub Keeps-pipeline :
      (ks : List Command)
      → ((b : Bench r) → P b → Safe c n ds b.completed ks (r.view b.redis))
      → K (pipeline r ks)
  Keeps-pipeline ks h = record { at = λ b k. pipeline-Kept ks b (h b k) }

  -- A read leaves the view as it was.
  answered-Kept :
      {A : Type 0} (f : r.State → A × r.State) (x : Option ℕ)
      → ((s : r.State) → r.view (f s).1 ≡ r.view s)
      → (b : Bench r) → P b
      → P (answered r f x b).1
  answered-Kept f none still b h = subst (KeptIn c n ds b.completed) (sym (still b.redis)) h
  answered-Kept f (some zero) still b h = h
  answered-Kept f (some (suc k)) still b h =
      subst (KeptIn c n ds b.completed) (sym (still b.redis)) h

  pub call-Keeps :
      {A : Type 0} (f : r.State → A × r.State)
      → ((s : r.State) → r.view (f s).1 ≡ r.view s)
      → K (call r f)
  unfolding call
  call-Keeps f still = record {
    at = λ b h.
        answered-Kept f (next_call b.faults) still (record b { faults = later_calls b.faults }) h;
  }

  pub Keeps-or_fail : {A : Type 0} (f : Error → Error) (x : Step r A) → K x → K (or_fail f x)
  unfolding or_fail
  Keeps-or_fail f x h = record { at = h.at }

  pub Keeps-require : (x : Bool) (e : Error) → K (require x e)
  Keeps-require true e = record { at = λ b k. k }
  Keeps-require false e = record { at = λ b k. k }

  pub Keeps-if : {A : Type 0} (x : Bool) (f g : Step r A) → K f → K g → K (if x then f else g)
  Keeps-if true f g hf hg = hf
  Keeps-if false f g hf hg = hg

  module _ {A B : Type 0} where
    continue-Kept :
        (x : Result A) (f : A → Step r B) (b : Bench r)
        → ((a : A) → x ≡ ok a → P (f a b).1)
        → P b
        → P (continue x f b).1
    continue-Kept (ok a) f b h k = h a refl
    continue-Kept (err e) f b h k = k

    pub Keeps-bind : (m : Step r A) (f : A → Step r B) → K m → ((a : A) → K (f a)) → K (m >>= f)
    unfolding ◌>>=◌
    Keeps-bind m f hm hf = record {
      at =
          λ b h. continue-Kept (m b).0 f (m b).1 (λ a e. (hf a).at (m b).1 (hm.at b h)) (hm.at b h);
    }

    pub Keeps-lift :
        (x : Result A) (f : A → Step r B) → ((a : A) → x ≡ ok a → K (f a)) → K (lift x >>= f)
    unfolding ◌>>=◌
    Keeps-lift x f hf = record { at = λ b h. continue-Kept x f b (λ a e. (hf a e).at b h) h }

  -- What leaves Redis and the record of completed jobs alone.
  pub Keeps-time : K (time r)
  Keeps-time = record { at = λ b k. k }

  pub Keeps-draw : K (draw r)
  Keeps-draw = record { at = λ b k. k }

  pub Keeps-pure : {A : Type 0} (a : A) → K (pure a)
  Keeps-pure a = record { at = λ b k. k }
