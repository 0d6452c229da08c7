-- ===== src/Exec/Statements.antt =====
-- The world that actions run in, single statements, and transactions.
use team_flow.Prelude.{ℕ, suc, String, Bool, false, List, [], ◌∷◌, if◌then◌else◌}
use team_flow.Httpx.Errors.{driver, wrap}
use team_flow.Database.Tables.{Db}
use team_flow.Exec.Monad.{Result, ok, err, Exec, or_fail, ◌>>=◌, ◌>>◌, pure}

-- internal/mailer/mailer.go: a message with its link and the identifiers in its metadata; subject and
-- text are for people.
pub record Message : Type 0 where
  pub to : String
  pub link : String
  pub invitation_id : ℕ
  pub organization_id : ℕ
  pub expires_at : ℕ

-- internal/invitations/job.go: the payload of an invitation email job.
pub record EmailJob : Type 0 where
  pub invitation_id : ℕ
  pub token : String

-- `sent` and `queued` are what mail transport and job queue have taken, the latest first.
pub record World : Type 0 where
  pub db : Db
  pub next_id : ℕ
  pub clock : ℕ
  pub faults : List Bool
  pub sent : List Message
  pub queued : List EmailJob

abbrev pub Action : Type 0 → Type 0
Action A = Exec World A

-- A statement reads the clock and may take the next identifier for a row that it inserts.
abbrev pub Query : Type 0 → Type 0
Query A = ℕ → ℕ → Db → Result (A × Db)

abbrev pub next_fault : List Bool → Bool
next_fault [] = false
next_fault (f ∷ fs) = f

abbrev pub later_faults : List Bool → List Bool
later_faults [] = []
later_faults (f ∷ fs) = fs

-- One round trip to the server that fails or does nothing.
unfoldable pub round_trip : Action (Unit {0})
round_trip w =
    (if next_fault w.faults then err driver else ok tt, record w { faults = later_faults w.faults })

abbrev pub settle : {A : Type 0} → Result (A × Db) → Action A
settle (ok (a, d)) w = (ok a, record w { db = d })
settle (err e) w = (err e, w)

-- A statement that the server refuses changes no row.
unfoldable pub run : {A : Type 0} → Query A → Action A
run q w = settle (q w.next_id w.clock w.db) (record w { next_id = suc w.next_id })

unfoldable pub statement : {A : Type 0} → Query A → Action A
unfolding round_trip run ◌>>=◌
statement q = round_trip >>= λ _. run q

-- `time.Now()`
unfoldable pub now : Action ℕ
now w = (ok w.clock, w)

-- `uuid.New()`
unfoldable pub new_id : Action ℕ
new_id w = (ok w.next_id, record w { next_id = suc w.next_id })

abbrev pub restore : {A : Type 0} → Db → Result A × World → Result A × World
restore d (ok a, w) = (ok a, w)
restore d (err e, w) = (err e, record w { db = d })

-- `defer tx.Rollback(ctx)`: on every path but a commit the rows are as before.
unfoldable pub rollback_on_error : {A : Type 0} → Action A → Action A
rollback_on_error m w = restore w.db (m w)

-- `pool.Begin`, the body, `tx.Commit`.
unfoldable pub transaction : {A : Type 0} → Action A → Action A
unfolding rollback_on_error round_trip ◌>>=◌ or_fail
transaction body =
    rollback_on_error do or_fail wrap round_trip; a ← body; or_fail wrap round_trip; pure a

-- `WithTenantTx`: the first statement sets the organization for the row policies.
unfoldable pub with_tenant_tx : {A : Type 0} → ℕ → Action A → Action A
unfolding transaction
with_tenant_tx org_id body = transaction do or_fail wrap round_trip; body

-- `mailer.Send`: one round trip to the transport.
unfoldable pub send : Message → Action (Unit {0})
unfolding round_trip ◌>>=◌
send msg = round_trip >>= λ _. λ w. (ok tt, record w { sent = msg ∷ w.sent })

-- `queue.Enqueue`: one round trip to Redis.
unfoldable pub enqueue : EmailJob → Action (Unit {0})
unfolding round_trip ◌>>=◌
enqueue job = round_trip >>= λ _. λ w. (ok tt, record w { queued = job ∷ w.queued })
