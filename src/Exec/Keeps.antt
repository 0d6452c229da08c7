-- ===== src/Exec/Keeps.antt =====
-- What an action keeps whether it succeeds or fails, at every point where it can stop.
use team_flow.Prelude.{
  ℕ, suc, ◌≤◌, ◌≡◌, refl, subst, sym, ap, List, [], ◌∷◌, Bool, true, false, inl, inr, arith,
  Bool-cases, if◌then◌else◌,
}
use team_flow.Httpx.Errors.{Error, wrap}
use team_flow.Database.Tables.{Db}
use team_flow.Exec.Monad.{
  Result, ok, err, continue, or_fail, ◌>>=◌, ◌>>◌, pure, fail, lift, require, for_each, inspect,
}
use team_flow.Exec.Statements.{
  World, Action, Query, settle, next_fault, later_faults, round_trip, run, statement, transaction,
  with_tenant_tx, now, new_id, send, enqueue, Message, EmailJob,
}
use team_flow.Exec.Rules.{
  Returns, Reads, transaction-Atomic, transaction-Returns, bind-Returns, or_fail-Returns,
  round_trip-Same,
}
use team_flow.Exec.Grows.{
  Grows, Grows-transaction, Grows-bind, Grows-or_fail, Grows-round_trip, atomic_induction,
}

-- `P next d` is kept: `next` is the first identifier not used, `d` the rows.
pub record Keeps (P : ℕ → Db → Type 0) {A : Type 0} (m : Action A) : Type 0 where
  pub at : (w : World) → P w.next_id w.db → P (m w).1.next_id (m w).1.db

module _ (P : ℕ → Db → Type 0) where
  module _ {A B : Type 0} where
    -- The rest of a block keeps what its first action has left.
    pub bind-at :
        (m : Action A) (f : A → Action B) (w : World)
        → P (m w).1.next_id (m w).1.db
        → ((a : A) → Keeps P (f a))
        → P ((m >>= f) w).1.next_id ((m >>= f) w).1.db
    unfolding ◌>>=◌
    bind-at m f w h k = go (m w).0 (m w).1 h
      where
        go :
            (r : Result A) (v : World)
            → P v.next_id v.db
            → P (continue r f v).1.next_id (continue r f v).1.db
        go (ok a) v p = (k a).at v p
        go (err e) v p = p

    pub Keeps-bind :
        (m : Action A) (f : A → Action B)
        → Keeps P m
        → ((a : A) → Keeps P (f a))
        → Keeps P (m >>= f)
    Keeps-bind m f h k = record { at = λ w p. bind-at m f w (h.at w p) k }

  module _ {A : Type 0} where
    pub Keeps-pure : (a : A) → Keeps P (pure a)
    Keeps-pure a = record { at = λ w p. p }

    pub Keeps-or_fail : (f : Error → Error) (m : Action A) → Keeps P m → Keeps P (or_fail f m)
    unfolding or_fail
    Keeps-or_fail f m h = record { at = h.at }

    pub Keeps-Reads :
        (m : Action A)
        → ((n n' : ℕ) (d : Db) → P n d → n ≤ n' → P n' d)
        → Reads m
        → Grows m
        → Keeps P m
    Keeps-Reads m mono reads grows = record {
      at = λ w p. subst (P (m w).1.next_id) (sym (reads w)) (mono _ _ w.db p (grows.at w));
    }

    -- A transaction keeps what the runs of its body that succeed keep.
    pub Keeps-transaction :
        (m : Action A)
        → ((n n' : ℕ) (d : Db) → P n d → n ≤ n' → P n' d)
        → Grows m
        → ((w : World) (a : A) (u : World) → P w.next_id w.db → Returns m w a u → P u.next_id u.db)
        → Keeps P (transaction m)
    Keeps-transaction m mono grows h = record {
      at = λ w p.
          atomic_induction (P (transaction m w).1.next_id) (transaction m) w (transaction-Atomic m)
            (mono _ _ w.db p ((Grows-transaction m grows).at w))
            λ a r.
              let (v, u, k, sv, su) = transaction-Returns m w a _ r in
              rw (su.same_db, su.same_next_id) (h v a u (rw (sv.same_db, sv.same_next_id) p) k);
    }

  module _ {A B : Type 0} where
    pub Keeps-inspect :
        (m : Action A) (k : Result A → Action B)
        → Keeps P m
        → ((r : Result A) → Keeps P (k r))
        → Keeps P (inspect m k)
    unfolding inspect
    Keeps-inspect m k h g = record { at = λ w p. (g (m w).0).at (m w).1 (h.at w p) }

  module _ {A : Type 0} where
    pub Keeps-fail : (e : Error) → Keeps P (fail {A = A} e)
    Keeps-fail e = record { at = λ w p. p }

    pub Keeps-lift : (r : Result A) → Keeps P (lift r)
    Keeps-lift r = record { at = λ w p. p }

    pub Keeps-if :
        (b : Bool) (m n : Action A) → Keeps P m → Keeps P n → Keeps P (if b then m else n)
    Keeps-if true m n h k = h
    Keeps-if false m n h k = k

    pub Keeps-for_each :
        (f : A → Action (Unit {0})) (xs : List A)
        → ((a : A) → Keeps P (f a))
        → Keeps P (for_each f xs)
    unfolding for_each
    Keeps-for_each f [] h = Keeps-pure tt
    Keeps-for_each f (x ∷ xs) h =
        Keeps-bind (f x) (λ _. for_each f xs) (h x) (λ _. Keeps-for_each f xs h)

  pub Keeps-require : (b : Bool) (e : Error) → Keeps P (require b e)
  Keeps-require true e = record { at = λ w p. p }
  Keeps-require false e = record { at = λ w p. p }

  module _ {A : Type 0} where
    pub Keeps-statement :
        (q : Query A)
        → ((n n' : ℕ) (d : Db) → P n d → n ≤ n' → P n' d)
        → ((next now : ℕ) (d d' : Db) (a : A)
            → P next d
            → q next now d ≡ ok (a, d')
            → P (suc next) d')
        → Keeps P (statement q)
    unfolding statement round_trip run ◌>>=◌
    Keeps-statement q mono h = record {
      at = λ w p. elim (Bool-cases (next_fault w.faults)) [
        | inl f ↦ rw f p
        | inr f ↦ rw f (settled (q w.next_id w.clock w.db) w p refl)
      ];
    }
      where
        settled :
            (r : Result (A × Db)) (w : World)
            → P w.next_id w.db
            → q w.next_id w.clock w.db ≡ r
            → P
                (settle r
                  (record w { faults = later_faults w.faults; next_id = suc w.next_id })).1.next_id
                (settle r
                  (record w { faults = later_faults w.faults; next_id = suc w.next_id })).1.db
        settled (ok (a, d)) w p e = h w.next_id w.clock w.db d a p e
        settled (err e) w p _ = mono _ _ w.db p (omega arith)

  -- The laws for a property that does not depend on how many identifiers are used up.
  module _ (mono : (n n' : ℕ) (d : Db) → P n d → n ≤ n' → P n' d) where
    pub Keeps-now : Keeps P now
    unfolding now
    Keeps-now = record { at = λ w p. p }

    pub Keeps-new_id : Keeps P new_id
    unfolding new_id
    Keeps-new_id = record { at = λ w p. mono _ _ w.db p (omega arith) }

    pub Keeps-round_trip : Keeps P round_trip
    unfolding round_trip
    Keeps-round_trip = record { at = λ w p. p }

    pub Keeps-send : (msg : Message) → Keeps P (send msg)
    unfolding send
    Keeps-send msg = Keeps-bind round_trip _ Keeps-round_trip (λ x. record { at = λ w p. p })

    pub Keeps-enqueue : (job : EmailJob) → Keeps P (enqueue job)
    unfolding enqueue
    Keeps-enqueue job = Keeps-bind round_trip _ Keeps-round_trip (λ x. record { at = λ w p. p })

    module _ {A : Type 0} where
      -- A statement that only reads.
      pub Keeps-read :
          (q : Query A)
          → ((next now : ℕ) (d d' : Db) (a : A) → q next now d ≡ ok (a, d') → d' ≡ d)
          → Keeps P (statement q)
      Keeps-read q h = Keeps-statement q mono λ next now d d' a p e.
          subst (P (suc next)) (sym (h next now d d' a e)) (mono _ _ d p (omega arith))

      -- A transaction that keeps it at every step.
      pub Keeps-tx : (m : Action A) → Grows m → Keeps P m → Keeps P (transaction m)
      Keeps-tx m g h = Keeps-transaction m mono g λ w a u p r.
          subst (λ (x : World). P x.next_id x.db) (ap (λ (z : Result A × World). z.1) r) (h.at w p)

      pub Keeps-tenant_tx :
          (org_id : ℕ) (m : Action A) → Grows m → Keeps P m → Keeps P (with_tenant_tx org_id m)
      unfolding with_tenant_tx
      Keeps-tenant_tx org_id m g h =
          Keeps-tx (or_fail wrap round_trip >> m)
            (Grows-bind (or_fail wrap round_trip) _ (Grows-or_fail wrap round_trip Grows-round_trip)
              (λ x. g))
            (Keeps-bind (or_fail wrap round_trip) _ (Keeps-or_fail wrap round_trip Keeps-round_trip)
              (λ x. h))

      -- A transaction by what the runs of its body that succeed do.
      pub Keeps-tenant_tx_by :
          (org_id : ℕ) (m : Action A)
          → Grows m
          → ((w : World) (a : A) (u : World)
              → P w.next_id w.db
              → Returns m w a u
              → P u.next_id u.db)
          → Keeps P (with_tenant_tx org_id m)
      unfolding with_tenant_tx
      Keeps-tenant_tx_by org_id m g h =
          Keeps-transaction (or_fail wrap round_trip >> m) mono
            (Grows-bind (or_fail wrap round_trip) _ (Grows-or_fail wrap round_trip Grows-round_trip)
              (λ x. g))
            λ w a u p r.
              let (x, v, s, k) = bind-Returns (or_fail wrap round_trip) (λ _. m) w a u r in
              let same = round_trip-Same w x v (or_fail-Returns wrap round_trip w x v s) in
              h v a u (rw (same.same_db, same.same_next_id) p) k
