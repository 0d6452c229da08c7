-- ===== src/Exec/Rules.antt =====
-- What holds of every action that is built from statements and transactions.
use team_flow.Prelude.{
  ℕ, ◌≡◌, refl, ap, ◌∙◌, Bool, true, false, ◌⊎◌, inl, inr, arith, Bool-cases, suc,
}
use team_flow.Httpx.Errors.{Error, wrap}
use team_flow.Database.Tables.{Db}
use team_flow.Exec.Monad.{
  Result, ok, err, continue, on_err, or_fail, ◌>>=◌, ◌>>◌, pure, fail, require,
}
use team_flow.Exec.Statements.{
  World, Action, Query, restore, settle, next_fault, later_faults, round_trip, statement, now,
  transaction, with_tenant_tx, rollback_on_error,
}

-- The action succeeds with `a`, and leaves the world `w'`.
abbrev pub Returns : {A : Type 0} → Action A → World → A → World → Type 0
Returns m w a w' = m w ≡ (ok a, w')

-- An action that fails leaves the rows as they were.
abbrev pub Atomic : {A : Type 0} → Action A → Type 0
Atomic m = (w : World) (e : Error) → (m w).0 ≡ err e → (m w).1.db ≡ w.db

-- An action that leaves the rows as they were, whatever happens.
abbrev pub Reads : {A : Type 0} → Action A → Type 0
Reads m = (w : World) → (m w).1.db ≡ w.db

-- Worlds that differ at most in the faults to come.
pub record Same (v w : World) : Type 0 where
  pub same_db : v.db ≡ w.db
  pub same_clock : v.clock ≡ w.clock
  pub same_next_id : v.next_id ≡ w.next_id

module _ {A B : Type 0} where
  continue-ok :
      (r : Result A) (f : A → Action B) (w : World) (b : B) (w' : World)
      → continue r f w ≡ (ok b, w')
      → (a : A) × (r ≡ ok a) × (f a w ≡ (ok b, w'))
  continue-ok (ok a) f w b w' h = (a, refl, h)
  continue-ok (err e) f w b w' h = absurd (cc (ap (λ (p : Result B × World). p.0) h))

  pub bind-Returns :
      (m : Action A) (f : A → Action B) (w : World) (b : B) (w' : World)
      → Returns (m >>= f) w b w'
      → (a : A) × (v : World) × Returns m w a v × Returns (f a) v b w'
  unfolding ◌>>=◌
  bind-Returns m f w b w' h =
      let (a, e, k) = continue-ok (m w).0 f (m w).1 b w' h in
      (a, (m w).1, ap (λ (r : Result A). (r, (m w).1)) e, k)

  continue-err :
      (r : Result A) (f : A → Action B) (w : World) (e : Error)
      → (continue r f w).0 ≡ err e
      → (r ≡ err e) × (continue r f w ≡ (err e, w)) ⊎ ((a : A) × (r ≡ ok a) × ((f a w).0 ≡ err e))
  continue-err (ok a) f w e h = inr (a, refl, h)
  continue-err (err e') f w e h = inl (ground arith, ground arith)

  continue-Reads :
      (r : Result A) (f : A → Action B) (w : World)
      → ((a : A) → Reads (f a))
      → (continue r f w).1.db ≡ w.db
  continue-Reads (ok a) f w h = h a w
  continue-Reads (err e) f w h = refl

  pub bind-Reads :
      (m : Action A) (f : A → Action B) → Reads m → ((a : A) → Reads (f a)) → Reads (m >>= f)
  unfolding ◌>>=◌
  bind-Reads m f hm hf w = continue-Reads (m w).0 f (m w).1 hf ∙ hm w

  continue-Atomic :
      (r : Result A) (f : A → Action B) (w : World) (e : Error)
      → ((a : A) → Atomic (f a))
      → (continue r f w).0 ≡ err e
      → (continue r f w).1.db ≡ w.db
  continue-Atomic (ok a) f w e h k = h a w e k
  continue-Atomic (err e') f w e h k = refl

  -- What only reads may stand before what is atomic.
  pub bind-Atomic :
      (m : Action A) (f : A → Action B) → Reads m → ((a : A) → Atomic (f a)) → Atomic (m >>= f)
  unfolding ◌>>=◌
  bind-Atomic m f hm hf w e h = continue-Atomic (m w).0 f (m w).1 e hf h ∙ hm w

module _ {A : Type 0} where
  on_err-ok : (f : Error → Error) (r : Result A) (a : A) → on_err f r ≡ ok a → r ≡ ok a
  on_err-ok f (ok b) a h = h
  on_err-ok f (err e) a h = cc

  on_err-err :
      (f : Error → Error) (r : Result A) (e : Error)
      → on_err f r ≡ err e
      → (e' : Error) × (r ≡ err e')
  on_err-err f (ok b) e h = cc
  on_err-err f (err e') e h = (e', refl)

  pub or_fail-Returns :
      (f : Error → Error) (m : Action A) (w : World) (a : A) (w' : World)
      → Returns (or_fail f m) w a w'
      → Returns m w a w'
  unfolding or_fail
  or_fail-Returns f m w a w' h = ground (arith, on_err-ok f (m w).0 a)

  pub or_fail-Reads : (f : Error → Error) (m : Action A) → Reads m → Reads (or_fail f m)
  unfolding or_fail
  or_fail-Reads f m h w = h w

  pub or_fail-Atomic : (f : Error → Error) (m : Action A) → Atomic m → Atomic (or_fail f m)
  unfolding or_fail
  or_fail-Atomic f m h w e k = let (e', q) = on_err-err f (m w).0 e k in h w e' q

  settle-Returns :
      (r : Result (A × Db)) (w : World) (a : A) (w' : World)
      → Returns (settle r) w a w'
      → (r ≡ ok (a, w'.db)) × (w'.clock ≡ w.clock) × (w'.next_id ≡ w.next_id)
  settle-Returns (ok (b, d)) w a w' h = ground arith
  settle-Returns (err e) w a w' h = ground arith

  -- A statement that succeeds did what its query says, at the time that the clock shows.
  pub statement-Returns :
      (q : Query A) (w : World) (a : A) (w' : World)
      → Returns (statement q) w a w'
      → (q w.next_id w.clock w.db ≡ ok (a, w'.db))
        × (w'.clock ≡ w.clock)
        × (w'.next_id ≡ suc w.next_id)
  unfolding statement
  statement-Returns q w a w' h = elim (Bool-cases (next_fault w.faults)) [
    | inl f ↦ absurd (ground arith)
    | inr f ↦
        settle-Returns (q w.next_id w.clock w.db)
          (record w { next_id = suc w.next_id; faults = later_faults w.faults }) a w' (ground arith)
  ]

  restore_db :
      (d : Db) (r : Result A) (w : World) (e : Error)
      → (restore d (r, w)).0 ≡ err e
      → (restore d (r, w)).1.db ≡ d
  restore_db d (ok a) w e h = cc
  restore_db d (err e') w e h = refl

  pub rollback_on_error-Atomic : (m : Action A) → Atomic (rollback_on_error m)
  unfolding rollback_on_error
  rollback_on_error-Atomic m w e h = restore_db w.db (m w).0 (m w).1 e h

  pub transaction-Atomic : (m : Action A) → Atomic (transaction m)
  unfolding transaction
  transaction-Atomic m = rollback_on_error-Atomic _

  pub with_tenant_tx-Atomic : (org_id : ℕ) (m : Action A) → Atomic (with_tenant_tx org_id m)
  unfolding with_tenant_tx
  with_tenant_tx-Atomic org_id m = transaction-Atomic (or_fail wrap round_trip >> m)

  restore-Returns :
      (d : Db) (r : Result A) (w : World) (a : A) (w' : World)
      → restore d (r, w) ≡ (ok a, w')
      → (r ≡ ok a) × (w ≡ w')
  restore-Returns d (ok b) w a w' h = ground arith
  restore-Returns d (err e) w a w' h = ground arith

pub round_trip-Same : (w : World) (a : Unit {0}) (v : World) → Returns round_trip w a v → Same v w
unfolding round_trip
round_trip-Same w a v h = record {
  same_db = ground arith;
  same_clock = ground arith;
  same_next_id = ground arith;
}

pub Same-trans : {u v w : World} → Same u v → Same v w → Same u w
Same-trans h k = record {
  same_db = h.same_db ∙ k.same_db;
  same_clock = h.same_clock ∙ k.same_clock;
  same_next_id = h.same_next_id ∙ k.same_next_id;
}

module _ {A : Type 0} where
  -- A transaction that commits ran its body from the same rows, and kept what the body left.
  pub transaction-Returns :
      (m : Action A) (w : World) (a : A) (w' : World)
      → Returns (transaction m) w a w'
      → (v u : World) × Returns m v a u × Same v w × Same w' u
  unfolding transaction rollback_on_error
  transaction-Returns m w a w' h =
      let body = λ (x : Unit {0}). m >>= λ (b : A). or_fail wrap round_trip >> pure b in
      let all = or_fail wrap round_trip >>= body in
      let (e, same) = restore-Returns w.db (all w).0 (all w).1 a w' h in
      let r : Returns all w a w' = ground arith in
      let (x, v, hv, k) = bind-Returns (or_fail wrap round_trip) body w a w' r in
      let (b, u, hu, k') = bind-Returns m (λ b. or_fail wrap round_trip >> pure b) v a w' k in
      let (y, z, hz, k'') = bind-Returns (or_fail wrap round_trip) (λ _. pure b) u a w' k' in
      let sz : Same z u = round_trip-Same u y z (or_fail-Returns wrap round_trip u y z hz) in
      (
        v,
        u,
        ground arith,
        round_trip-Same w x v (or_fail-Returns wrap round_trip w x v hv),
        record { same_db = ground arith; same_clock = ground arith; same_next_id = ground arith },
      )

  pub with_tenant_tx-Returns :
      (org_id : ℕ) (m : Action A) (w : World) (a : A) (w' : World)
      → Returns (with_tenant_tx org_id m) w a w'
      → (v u : World) × Returns m v a u × Same v w × Same w' u
  unfolding with_tenant_tx
  with_tenant_tx-Returns org_id m w a w' h =
      let (v, u, r, sv, su) = transaction-Returns (or_fail wrap round_trip >> m) w a w' h in
      let (x, z, hz, k) = bind-Returns (or_fail wrap round_trip) (λ _. m) v a u r in
      (
        z,
        u,
        k,
        Same-trans (round_trip-Same v x z (or_fail-Returns wrap round_trip v x z hz)) sv,
        su,
      )

pub require-Returns :
    (b : Bool) (e : Error) (w : World) (x : Unit {0}) (v : World)
    → Returns (require b e) w x v
    → (b ≡ true) × (v ≡ w)
require-Returns true e w x v h = (refl, ground arith)
require-Returns false e w x v h = absurd (cc (ap (λ (p : Result (Unit {0}) × World). p.0) h))

pub pure-Returns :
    {A : Type 0} (b : A) (w : World) (a : A) (v : World)
    → Returns (pure b) w a v
    → (a ≡ b) × (v ≡ w)
pure-Returns b w a v h = ground arith

pub fail-Returns :
    {A : Type 0} (e : Error) (w : World) (a : A) (v : World) → ¬ Returns (fail e) w a v
fail-Returns {A} e w a v h = cc (ap (λ (p : Result A × World). p.0) h)

-- What follows without a statement keeps it so.
pub map-Atomic :
    {A B : Type 0} (m : Action A) (g : A → B) → Atomic m → Atomic (m >>= λ a. pure (g a))
unfolding ◌>>=◌
map-Atomic {A} {B} m g h w e k = go (m w).0 (m w).1 refl k
  where
    go :
        (r : Result A) (v : World)
        → (m w).0 ≡ r
        → (continue r (λ a. pure (g a)) v).0 ≡ err e
        → (continue r (λ a. pure (g a)) (m w).1).1.db ≡ w.db
    go (ok a) v p q = absurd (cc q)
    go (err x) v p q = h w x p

-- `time.Now()` reads the clock.
pub now-Returns : (w : World) (t : ℕ) (v : World) → Returns now w t v → (t ≡ w.clock) × (v ≡ w)
unfolding now
now-Returns w t v h = ground arith
