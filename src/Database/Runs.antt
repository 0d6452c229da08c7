-- ===== src/Database/Runs.antt =====
-- The rules by which a run that succeeds is followed statement by statement. Each takes the run of
-- `m >>= f`, and hands on what `m` did and the run of the rest; `d` is the state of the rows.
use team_flow.Prelude.{
  ℕ, suc, ◌≤◌, ◌≡◌, ◌∙◌, subst, Option, none, some, Bool, true, false, arith, refl, inl, inr,
  Bool-cases, if◌then◌else◌,
}
use team_flow.Httpx.Errors.{Error, driver}
use team_flow.Database.Tables.{Db}
use team_flow.Database.Rows.{one}
use team_flow.Exec.{
  World, Action, Query, Result, ok, err, statement, or_fail, require, with_tenant_tx, ◌>>=◌,
  inspect, round_trip, run, settle, next_fault, later_faults,
}
use team_flow.Exec.Rules.{
  Returns, Same, statement-Returns, or_fail-Returns, bind-Returns, require-Returns,
  with_tenant_tx-Returns,
}

module _ {A : Type 0} where
  pub one-ok : (o : Option A) (d d' : Db) (a : A) → one o d ≡ ok (a, d') → (o ≡ some a) × (d' ≡ d)
  unfolding one
  one-ok none d d' a h = ground arith
  one-ok (some b) d d' a h = ground arith

  one-keeps : (o : Option A) (d d' : Db) (a : A) → one o d ≡ ok (a, d') → d' ≡ d
  one-keeps o d d' a h = (one-ok o d d' a h).1

  -- The last action of a block may stand under `or_fail` or not: `g` is the identity there.
  pub statement_lem :
      (q : Query A) {d : Db} (w : World) {a : A} {v : World}
      → w.db ≡ d
      → Returns (statement q) w a v
      → (q w.next_id w.clock d ≡ ok (a, v.db)) × (v.clock ≡ w.clock) × (v.next_id ≡ suc w.next_id)
  statement_lem q {d} w {a} {v} at h =
      let (e, c, n) = statement-Returns q w a v h in (rw at at e, c, n)

module _ {A B C : Type 0} where
  pub after :
      (m : Action A) (f : A → Action B) (w : World) {b : B} {w' : World}
      → Returns (m >>= f) w b w'
      → ((a : A) (v : World) → Returns m w a v → Returns (f a) v b w' → C)
      → C
  after m f w {b} {w'} h k = let (a, v, r, s) = bind-Returns m f w b w' h in k a v r s

  -- A statement that changes rows.
  pub after_write :
      (q : Query A) (f : A → Action B) {d : Db} (w : World) {b : B} {w' : World}
      → w.db ≡ d
      → Returns (statement q >>= f) w b w'
      → ((a : A) (v : World)
          → q w.next_id w.clock d ≡ ok (a, v.db)
          → v.clock ≡ w.clock
          → v.next_id ≡ suc w.next_id
          → Returns (f a) v b w'
          → C)
      → C
  after_write q f w at h k =
      after (statement q) f w h λ a v r s. let (e, c, n) = statement_lem q w at r in k a v e c n s

  pub after_write_or_fail :
      (g : Error → Error) (q : Query A) (f : A → Action B) {d : Db} (w : World) {b : B} {w' : World}
      → w.db ≡ d
      → Returns (or_fail g (statement q) >>= f) w b w'
      → ((a : A) (v : World)
          → q w.next_id w.clock d ≡ ok (a, v.db)
          → v.clock ≡ w.clock
          → v.next_id ≡ suc w.next_id
          → Returns (f a) v b w'
          → C)
      → C
  after_write_or_fail g q f w at h k = after (or_fail g (statement q)) f w h λ a v r s.
      let (e, c, n) = statement_lem q w at (or_fail-Returns g (statement q) w a v r) in
      k a v e c n s

  -- A query for one row.
  pub after_read :
      (pick : Db → Option A) (f : A → Action B) {d : Db} (w : World) {b : B} {w' : World}
      → w.db ≡ d
      → Returns (statement (λ next now d. one (pick d) d) >>= f) w b w'
      → ((a : A) (v : World)
          → v.db ≡ d
          → w.next_id ≤ v.next_id
          → pick d ≡ some a
          → Returns (f a) v b w'
          → C)
      → C
  after_read pick f {d} w at h k =
      after_write (λ next now d. one (pick d) d) f w at h
        λ a v e c n s. let (p, q) = one-ok (pick d) d v.db a e in k a v q (omega arith) p s

  pub after_read_or_fail :
      (g : Error → Error) (pick : Db → Option A) (f : A → Action B) {d : Db} (w : World) {b : B}
      {w' : World}
      → w.db ≡ d
      → Returns (or_fail g (statement (λ next now d. one (pick d) d)) >>= f) w b w'
      → ((a : A) (v : World)
          → v.db ≡ d
          → w.next_id ≤ v.next_id
          → pick d ≡ some a
          → Returns (f a) v b w'
          → C)
      → C
  after_read_or_fail g pick f {d} w at h k =
      after_write_or_fail g (λ next now d. one (pick d) d) f w at h
        λ a v e c n s. let (p, q) = one-ok (pick d) d v.db a e in k a v q (omega arith) p s

  -- A query for a computed answer.
  pub after_answer :
      (g : Db → A) (f : A → Action B) {d : Db} (w : World) {b : B} {w' : World}
      → w.db ≡ d
      → Returns (statement (λ next now d. ok (g d, d)) >>= f) w b w'
      → ((a : A) (v : World)
          → v.db ≡ d
          → w.next_id ≤ v.next_id
          → a ≡ g d
          → Returns (f a) v b w'
          → C)
      → C
  after_answer g f w at h k =
      after_write (λ next now d. ok (g d, d)) f w at h
        λ a v e c n s. k a v (ground arith) (omega arith) (ground arith) s

  -- A transaction whose body ran from the same rows.
  pub after_tx :
      (org_id : ℕ) (m : Action A) (f : A → Action B) {d : Db} (w : World) {b : B} {w' : World}
      → w.db ≡ d
      → Returns (with_tenant_tx org_id m >>= f) w b w'
      → ((a : A) (v u x : World)
          → v.db ≡ d
          → w.next_id ≤ v.next_id
          → Returns m v a u
          → Same x u
          → Returns (f a) x b w'
          → C)
      → C
  after_tx org_id m f w at h k = after (with_tenant_tx org_id m) f w h λ a x r s.
      let (v, u, r', sv, su) = with_tenant_tx-Returns org_id m w a x r in
      k a v u x (sv.same_db ∙ at) (omega (arith, sv)) r' su s

  pub after_tx_or_fail :
      (g : Error → Error) (org_id : ℕ) (m : Action A) (f : A → Action B) {d : Db} (w : World)
      {b : B} {w' : World}
      → w.db ≡ d
      → Returns (or_fail g (with_tenant_tx org_id m) >>= f) w b w'
      → ((a : A) (v u x : World)
          → v.db ≡ d
          → w.next_id ≤ v.next_id
          → Returns m v a u
          → Same x u
          → Returns (f a) x b w'
          → C)
      → C
  after_tx_or_fail g org_id m f w at h k =
      after (or_fail g (with_tenant_tx org_id m)) f w h λ a x r s.
        let (v, u, r', sv, su) =
          with_tenant_tx-Returns org_id m w a x
            (or_fail-Returns g (with_tenant_tx org_id m) w a x r) in
        k a v u x (sv.same_db ∙ at) (omega (arith, sv)) r' su s

module _ {B C : Type 0} where
  pub after_if :
      (c : Bool) (m n : Action B) {w : World} {b : B} {w' : World}
      → Returns (if c then m else n) w b w'
      → (c ≡ true → Returns m w b w' → C)
      → (c ≡ false → Returns n w b w' → C)
      → C
  after_if true m n h k l = k refl h
  after_if false m n h k l = l refl h

  pub after_require :
      (c : Bool) (e : Error) (f : Unit {0} → Action B) (w : World) {b : B} {w' : World}
      → Returns (require c e >>= f) w b w'
      → (c ≡ true → Returns (f tt) w b w' → C)
      → C
  after_require c e f w {b} {w'} h k = after (require c e) f w h λ x v r s.
      let (p, q) = require-Returns c e w x v r in k p (subst (λ z. Returns (f tt) z b w') q s)

module _ {A B C : Type 0} where
  -- A statement whose error is looked at: it succeeded, or it left the rows as they were.
  pub after_inspect :
      (q : Query A) (k : Result A → Action B) {d : Db} (w : World) {b : B} {w' : World}
      → w.db ≡ d
      → Returns (inspect (statement q) k) w b w'
      → ((a : A) (v : World)
          → q w.next_id w.clock d ≡ ok (a, v.db)
          → v.clock ≡ w.clock
          → v.next_id ≡ suc w.next_id
          → Returns (k (ok a)) v b w'
          → C)
      → ((e : Error) (v : World)
          → v.db ≡ d
          → v.clock ≡ w.clock
          → w.next_id ≤ v.next_id
          → Returns (k (err e)) v b w'
          → C)
      → C
  unfolding inspect statement round_trip run ◌>>=◌
  after_inspect q k {d} w {b} {w'} at h good bad = elim (Bool-cases (next_fault w.faults)) [
    | inl f ↦
        bad driver (record w { faults = later_faults w.faults }) at refl (omega arith) (rw f at h)
    | inr f ↦ settled (q w.next_id w.clock w.db) (rw (← at) refl) (rw f at h)
  ]
    where
      settled :
          (r : Result (A × Db))
          → q w.next_id w.clock d ≡ r
          → (let x =
                settle r (record w { next_id = suc w.next_id; faults = later_faults w.faults }) in
              Returns (k x.0) x.1 b w')
          → C
      settled (ok (a, d')) e r =
          good a (record w { db = d'; next_id = suc w.next_id; faults = later_faults w.faults }) e
            refl refl r
      settled (err x) e r =
          bad x (record w { next_id = suc w.next_id; faults = later_faults w.faults }) at refl
            (omega arith) r
