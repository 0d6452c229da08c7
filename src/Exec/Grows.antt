-- ===== src/Exec/Grows.antt =====
-- Identifiers are only used up: no action gives one back.
use team_flow.Prelude.{
  ℕ, suc, ◌≤◌, ◌≡◌, List, [], ◌∷◌, Bool, true, false, refl, sym, ap, subst, arith, if◌then◌else◌,
}
use team_flow.Httpx.Errors.{Error}
use team_flow.Database.Tables.{Db}
use team_flow.Exec.Monad.{
  Result, ok, err, continue, or_fail, ◌>>=◌, pure, fail, lift, require, for_each, inspect,
}
use team_flow.Exec.Statements.{
  World, Action, Query, settle, restore, round_trip, run, statement, transaction, with_tenant_tx,
  rollback_on_error, now, new_id,
}
use team_flow.Exec.Rules.{Returns, Atomic}

pub record Grows {A : Type 0} (m : Action A) : Type 0 where
  pub at : (w : World) → w.next_id ≤ (m w).1.next_id

module _ {A : Type 0} where
  pub Grows-pure : (a : A) → Grows (pure a)
  Grows-pure a = record { at = λ w. omega arith }

  pub Grows-fail : (e : Error) → Grows (fail {A = A} e)
  Grows-fail e = record { at = λ w. omega arith }

  pub Grows-lift : (r : Result A) → Grows (lift r)
  Grows-lift r = record { at = λ w. omega arith }

  pub Grows-or_fail : (f : Error → Error) (m : Action A) → Grows m → Grows (or_fail f m)
  unfolding or_fail
  Grows-or_fail f m g = record { at = g.at }

  settle-next : (r : Result (A × Db)) (w : World) → w.next_id ≤ (settle r w).1.next_id
  settle-next (ok (a, d)) w = omega arith
  settle-next (err e) w = omega arith

  pub Grows-run : (q : Query A) → Grows (run q)
  unfolding run
  Grows-run q = record {
    at = λ w.
        omega
          (arith, settle-next (q w.next_id w.clock w.db) (record w { next_id = suc w.next_id }));
  }

pub Grows-require : (b : Bool) (e : Error) → Grows (require b e)
Grows-require true e = record { at = λ w. omega arith }
Grows-require false e = record { at = λ w. omega arith }

pub Grows-round_trip : Grows round_trip
unfolding round_trip
Grows-round_trip = record { at = λ w. omega arith }

pub Grows-now : Grows now
unfolding now
Grows-now = record { at = λ w. omega arith }

pub Grows-new_id : Grows new_id
unfolding new_id
Grows-new_id = record { at = λ w. omega arith }

module _ {A B : Type 0} where
  continue-next :
      (r : Result A) (f : A → Action B) (w : World)
      → ((a : A) → Grows (f a))
      → w.next_id ≤ (continue r f w).1.next_id
  continue-next (ok a) f w h = (h a).at w
  continue-next (err e) f w h = omega arith

  pub Grows-bind :
      (m : Action A) (f : A → Action B) → Grows m → ((a : A) → Grows (f a)) → Grows (m >>= f)
  unfolding ◌>>=◌
  Grows-bind m f g h = record { at = λ w. omega (arith, g.at w, continue-next (m w).0 f (m w).1 h) }

module _ {A B : Type 0} where
  pub Grows-inspect :
      (m : Action A) (k : Result A → Action B)
      → Grows m
      → ((r : Result A) → Grows (k r))
      → Grows (inspect m k)
  unfolding inspect
  Grows-inspect m k g h = record { at = λ w. omega (arith, g.at w, (h (m w).0).at (m w).1) }

module _ {A : Type 0} where
  pub Grows-if : (b : Bool) (m n : Action A) → Grows m → Grows n → Grows (if b then m else n)
  Grows-if true m n g h = g
  Grows-if false m n g h = h

  pub Grows-statement : (q : Query A) → Grows (statement q)
  unfolding statement
  Grows-statement q = Grows-bind round_trip (λ _. run q) Grows-round_trip (λ _. Grows-run q)

  restore-next : (d : Db) (r : Result A) (w : World) → (restore d (r, w)).1.next_id ≡ w.next_id
  restore-next d (ok a) w = omega arith
  restore-next d (err e) w = omega arith

  pub Grows-rollback : (m : Action A) → Grows m → Grows (rollback_on_error m)
  unfolding rollback_on_error
  Grows-rollback m g = record { at = λ w. omega (arith, g.at w, restore-next w.db (m w).0 (m w).1) }

  pub Grows-transaction : (m : Action A) → Grows m → Grows (transaction m)
  unfolding transaction
  Grows-transaction m g =
      search (Grows-rollback, Grows-bind, Grows-or_fail, Grows-round_trip, Grows-pure) depth 9

  pub Grows-with_tenant_tx : (org_id : ℕ) (m : Action A) → Grows m → Grows (with_tenant_tx org_id m)
  unfolding with_tenant_tx
  Grows-with_tenant_tx org_id m g =
      search (Grows-transaction, Grows-bind, Grows-or_fail, Grows-round_trip) depth 9

  pub Grows-for_each :
      (f : A → Action (Unit {0})) (xs : List A) → ((a : A) → Grows (f a)) → Grows (for_each f xs)
  unfolding for_each
  Grows-for_each f [] g = Grows-pure tt
  Grows-for_each f (x ∷ xs) g =
      Grows-bind (f x) (λ _. for_each f xs) (g x) (λ _. Grows-for_each f xs g)

pub ruleset grows_rules = (
  Grows-pure, Grows-fail, Grows-or_fail, Grows-lift, Grows-require, Grows-now, Grows-new_id,
  Grows-bind, Grows-if, Grows-statement, Grows-transaction, Grows-with_tenant_tx, Grows-for_each,
  Grows-inspect, Grows-round_trip,
)

pub Returns-next :
    {A : Type 0} (m : Action A) (w : World) (a : A) (w' : World)
    → Grows m
    → Returns m w a w'
    → w.next_id ≤ w'.next_id
Returns-next {A} m w a w' g h = rw (ap (λ (p : Result A × World). p.1) h) at (g.at w)

-- What holds before an atomic action, and after it where it succeeds, holds after it.
pub atomic_induction :
    {A : Type 0} (P : Db → Type 0) (m : Action A) (w : World)
    → Atomic m
    → P w.db
    → ((a : A) → Returns m w a (m w).1 → P (m w).1.db)
    → P (m w).1.db
atomic_induction {A} P m w atomic h k = go (m w).0 refl
  where
    go : (r : Result A) → (m w).0 ≡ r → P (m w).1.db
    go (ok a) e = k a (ap (λ r. (r, (m w).1)) e)
    go (err x) e = subst P (sym (atomic w x e)) h
