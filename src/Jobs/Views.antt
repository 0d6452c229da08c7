-- ===== src/Jobs/Views.antt =====
-- Where a job is, in terms of what Redis holds, and how the commands of internal/jobs keep it there.
use team_flow.Prelude.{
  ℕ, suc, ◌≡◌, refl, ap, sym, ◌∙◌, ◌<◌, ◌≤◌, ◌==◌, ==_iff, ==_refl, Bool-cases, inl, inr, ◌⊎◌,
  String, Bool, true, false, none, some, List, ◌∷◌, any, if◌then◌else◌, str_eq, str_eq_iff, arith,
}
use team_flow.Jobs.Redis.{
  letter, View, Command, xadd, xadd_dead, zadd, zrem, xack, xdel, effect, without,
}
use team_flow.Jobs.Job.{Job, Delivery, Sealing, opened}
use team_flow.Jobs.Queue.{delivery}

-- The payload is the job `n`, sealed.
abbrev pub Holds : Sealing → ℕ → String → Type 0
Holds c n p = (j : Job) × (c.open_job p ≡ opened j) × (j.id ≡ n)

-- The payload is a dead letter, which is still in the stream unless at least 10,000 letters were added
-- after it.
abbrev pub Buried : View → String → Type 0
Buried v p = (k : ℕ) × (letter k v.letters ≡ some p) × (k < 10000 → k < v.kept)

-- The job waits for a retry, is a dead letter, or its handler succeeded.
pub data Away (c : Sealing) (n : ℕ) (done : List ℕ) (v : View) : Type 0 where
  waits : (p : String) → Holds c n p → v.scheduled p ≡ true → Away c n done v
  buried : (p : String) → Holds c n p → Buried v p → Away c n done v
  finished : any (λ k. k == n) done ≡ true → Away c n done v

-- Or it is in the stream, not acknowledged.
pub data Tracked (c : Sealing) (n : ℕ) (done : List ℕ) (v : View) : Type 0 where
  awaits : (id : ℕ) → (p : String) → Holds c n p → v.entries id ≡ some p → Tracked c n done v
  away : Away c n done v → Tracked c n done v

-- A delivery is what its entry has, where that is still there.
pub record Honest (c : Sealing) (v : View) (d : Delivery) : Type 0 where
  pub given : d.id < v.next
  pub true_to :
      (p : String) → v.entries d.id ≡ some p → delivery c (record { id = d.id; payload = p }) ≡ d

-- Only numbers that were given have entries.
abbrev pub Valid : View → Type 0
Valid v = (id : ℕ) (p : String) → v.entries id ≡ some p → id < v.next

-- What only gives new numbers to entries.
pub record Steady (v w : View) : Type 0 where
  pub grows : v.next ≤ w.next
  pub no_change :
      (id : ℕ) (p : String) → id < v.next → w.entries id ≡ some p → v.entries id ≡ some p
  pub numbered : Valid v → Valid w

-- An entry that is not the removed one was there before.
without_lem :
    (i : ℕ) (v : View) (id : ℕ) (p : String)
    → (without i v).entries id ≡ some p
    → v.entries id ≡ some p
without_lem i v id p h = elim (Bool-cases (id == i)) [
  | inl e ↦ absurd (cc (ap (λ b. if b then none else v.entries id) (sym e) ∙ h))
  | inr e ↦ ap (λ b. if b then none else v.entries id) (sym e) ∙ h
]

without-Steady : (i : ℕ) (v : View) → Steady v (without i v)
without-Steady i v = record {
  grows = omega arith;
  no_change = λ id p l h. without_lem i v id p h;
  numbered = λ good id p h. good id p (without_lem i v id p h);
}

-- An entry after an addition is the new one or was there before.
added_lem :
    (q : String) (v : View) (id : ℕ) (p : String)
    → (effect (xadd q) v).entries id ≡ some p
    → (id ≡ v.next) × (q ≡ p) ⊎ (v.entries id ≡ some p)
added_lem q v id p h = elim (Bool-cases (id == v.next)) [
  | inl e ↦
      inl ((==_iff id v.next).0 e, cc (ap (λ b. if b then some q else v.entries id) (sym e) ∙ h))
  | inr e ↦ inr (ap (λ b. if b then some q else v.entries id) (sym e) ∙ h)
]

pub effect-Steady : (k : Command) (v : View) → Steady v (effect k v)
effect-Steady (xadd p) v = record {
  grows = omega arith;
  no_change = λ id q l h. elim (added_lem p v id q h) [
    | inl e ↦ absurd (omega (arith, e.0, l))
    | inr e ↦ e
  ];
  numbered = λ good id q h. elim (added_lem p v id q h) [
    | inl e ↦ omega (arith, e.0)
    | inr e ↦ omega (arith, good id q e)
  ];
}
effect-Steady (xadd_dead max p) v = record {
  grows = omega arith;
  no_change = λ id q l h. h;
  numbered = λ good. good;
}
effect-Steady (zadd due p) v = record {
  grows = omega arith;
  no_change = λ id q l h. h;
  numbered = λ good. good;
}
effect-Steady (zrem p) v = record {
  grows = omega arith;
  no_change = λ id q l h. h;
  numbered = λ good. good;
}
effect-Steady (xack i) v = without-Steady i v
effect-Steady (xdel i) v = without-Steady i v

pub Steady-Honest :
    (c : Sealing) (v w : View) (d : Delivery) → Steady v w → Honest c v d → Honest c w d
Steady-Honest c v w d s h = record {
  given = omega (arith, h.given, s.grows);
  true_to = λ p e. h.true_to p (s.no_change d.id p h.given e);
}

pub xadd_entry : (p : String) (v : View) → (effect (xadd p) v).entries v.next ≡ some p
xadd_entry p v = rw (==_refl v.next) refl

module _ (c : Sealing) (n : ℕ) (done : List ℕ) where
  -- What adds to the three places where a job is away.
  Away-grows :
      (v w : View)
      → ((p : String) → v.scheduled p ≡ true → w.scheduled p ≡ true)
      → ((p : String) → Buried v p → Buried w p)
      → Away c n done v
      → Away c n done w
  Away-grows v w s b (waits p h e) = waits p h (s p e)
  Away-grows v w s b (buried p h e) = buried p h (b p e)
  Away-grows v w s b (finished e) = finished e

  or_true : (b : Bool) (x : Bool) → x ≡ true → (if b then true else x) ≡ true
  or_true true x e = refl
  or_true false x e = e

  set_true :
      (p q : String) (f : String → Bool) → f q ≡ true → (if str_eq q p then true else f q) ≡ true
  set_true p q f e = or_true (str_eq q p) (f q) e

  -- The new letter is in the stream, and trims no other that fewer than 10,000 came after.
  pub new_letter : (p : String) (v : View) → Buried (effect (xadd_dead 10000 p) v) p
  new_letter p v = (0, refl, λ h. ground arith)

  later_letter : (p q : String) (v : View) → Buried v q → Buried (effect (xadd_dead 10000 p) v) q
  later_letter p q v (k, e, l) = (suc k, e, λ h. (let here = l (omega (arith, h)) in ground arith))

  pub xadd_dead-Tracked :
      (p : String) (v : View) → Tracked c n done v → Tracked c n done (effect (xadd_dead 10000 p) v)
  xadd_dead-Tracked p v (awaits id q h e) = awaits id q h e
  xadd_dead-Tracked p v (away a) =
      away (Away-grows v (effect (xadd_dead 10000 p) v) (λ q e. e) (λ q e. later_letter p q v e) a)

  pub zadd-Tracked :
      (due : ℕ) (p : String) (v : View)
      → Tracked c n done v
      → Tracked c n done (effect (zadd due p) v)
  zadd-Tracked due p v (awaits id q h e) = awaits id q h e
  zadd-Tracked due p v (away a) =
      away (Away-grows v (effect (zadd due p) v) (λ q e. set_true p q v.scheduled e) (λ q e. e) a)

  -- The new entry takes the place of none.
  still_there :
      (p : String) (v : View) (id : ℕ) (q : String)
      → Valid v
      → v.entries id ≡ some q
      → (effect (xadd p) v).entries id ≡ some q
  still_there p v id q good e = elim (Bool-cases (id == v.next)) [
    | inl s ↦ absurd (omega (arith, good id q e, (==_iff id v.next).0 s))
    | inr s ↦ rw s e
  ]

  pub xadd-Tracked :
      (p : String) (v : View) → Valid v → Tracked c n done v → Tracked c n done (effect (xadd p) v)
  xadd-Tracked p v good (awaits id q h e) = awaits id q h (still_there p v id q good e)
  xadd-Tracked p v good (away a) = away (Away-grows v (effect (xadd p) v) (λ q e. e) (λ q e. e) a)

  -- A retry may be taken off the schedule where its payload is in the stream.
  pub zrem-Tracked :
      (p : String) (v : View) (id : ℕ)
      → v.entries id ≡ some p
      → Tracked c n done v
      → Tracked c n done (effect (zrem p) v)
  zrem-Tracked p v id here (awaits i q h e) = awaits i q h e
  zrem-Tracked p v id here (away (waits q h e)) = elim (Bool-cases (str_eq q p)) [
    | inl s ↦ awaits id q h (here ∙ ap some (sym ((str_eq_iff q p).0 s)))
    | inr s ↦ away (waits q h (rw s e))
  ]
  zrem-Tracked p v id here (away (buried q h e)) = away (buried q h e)
  zrem-Tracked p v id here (away (finished e)) = away (finished e)

  -- An entry may go where the job that it holds is away.
  pub without-Tracked :
      (i : ℕ) (v : View)
      → ((p : String) → v.entries i ≡ some p → Holds c n p → Away c n done v)
      → Tracked c n done v
      → Tracked c n done (without i v)
  without-Tracked i v spare (away a) = away (Away-grows v (without i v) (λ q e. e) (λ q e. e) a)
  without-Tracked i v spare (awaits id p h e) = elim (Bool-cases (id == i)) [
    | inl s ↦ away (
        Away-grows v (without i v) (λ q e. e) (λ q e. e)
          (spare p (ap v.entries (sym ((==_iff id i).0 s)) ∙ e) h))
    | inr s ↦ awaits id p h (rw s e)
  ]

  -- Both steps of an acknowledgement.
  pub acknowledged-Tracked :
      (i : ℕ) (v : View)
      → ((p : String) → v.entries i ≡ some p → Holds c n p → Away c n done v)
      → Tracked c n done v
      → Tracked c n done (without i v) × Tracked c n done (without i (without i v))
  acknowledged-Tracked i v spare t =
      let once = without-Tracked i v spare t in
      (
        once,
        without-Tracked i (without i v)
            (λ p e h. absurd (cc (ap (λ b. if b then none else v.entries i) (sym (==_refl i)) ∙ e)))
            once,
      )

true_either : (b : Bool) → (if b then true else true) ≡ true
true_either true = refl
true_either false = refl

pub done-Tracked :
    (c : Sealing) (n : ℕ) (done : List ℕ) (k : ℕ) (v : View)
    → Tracked c n done v
    → Tracked c n (k ∷ done) v
unfolding any
done-Tracked c n done k v (awaits id p h e) = awaits id p h e
done-Tracked c n done k v (away (waits p h e)) = away (waits p h e)
done-Tracked c n done k v (away (buried p h e)) = away (buried p h e)
done-Tracked c n done k v (away (finished e)) = away (finished (rw e (true_either (k == n))))
