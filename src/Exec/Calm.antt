-- ===== src/Exec/Calm.antt =====
-- Runs in which no round trip fails, statement by statement.
use team_flow.Prelude.{ℕ, suc, ◌≡◌, refl, []}
use team_flow.Httpx.Errors.{Error}
use team_flow.Database.Tables.{Db}
use team_flow.Exec.Monad.{Result, ok, err, or_fail, ◌>>=◌}
use team_flow.Exec.Statements.{
  World, Action, Query, statement, transaction, with_tenant_tx, rollback_on_error, round_trip, run,
}

abbrev pub calm : Db → ℕ → ℕ → World
calm d next clock = record {
  db = d;
  next_id = next;
  clock = clock;
  faults = [];
  sent = [];
  queued = [];
}

module _ {A B : Type 0} where
  pub bind-to :
      (m : Action A) (f : A → Action B) {w : World} {a : A} {v : World} {r : Result B × World}
      → m w ≡ (ok a, v)
      → f a v ≡ r
      → (m >>= f) w ≡ r
  unfolding ◌>>=◌
  bind-to m f h k = rw h k

  pub bind-err :
      (m : Action A) (f : A → Action B) {w : World} {e : Error} {v : World}
      → m w ≡ (err e, v)
      → (m >>= f) w ≡ (err e, v)
  unfolding ◌>>=◌
  bind-err m f h = rw h refl

module _ {A : Type 0} where
  pub or_fail-to :
      (g : Error → Error) (m : Action A) {w : World} {a : A} {v : World}
      → m w ≡ (ok a, v)
      → or_fail g m w ≡ (ok a, v)
  unfolding or_fail
  or_fail-to g m h = rw h refl

  pub statement-calm :
      (q : Query A) {d : Db} {next clock : ℕ} {a : A} {d' : Db}
      → q next clock d ≡ ok (a, d')
      → statement q (calm d next clock) ≡ (ok a, calm d' (suc next) clock)
  unfolding statement round_trip run ◌>>=◌
  statement-calm q h = rw h refl

  module _ (org_id : ℕ) (m : Action A) {d d' : Db} {next next' clock clock' : ℕ} where
    pub calm_commit :
        {a : A}
        → m (calm d next clock) ≡ (ok a, calm d' next' clock')
        → with_tenant_tx org_id m (calm d next clock) ≡ (ok a, calm d' next' clock')
    unfolding with_tenant_tx transaction rollback_on_error round_trip or_fail ◌>>=◌
    calm_commit h = rw h refl

    pub calm_rollback :
        {e : Error}
        → m (calm d next clock) ≡ (err e, calm d' next' clock')
        → with_tenant_tx org_id m (calm d next clock) ≡ (err e, calm d next' clock')
    unfolding with_tenant_tx transaction rollback_on_error round_trip or_fail ◌>>=◌
    calm_rollback h = rw h refl
