-- ===== src/Jobs/Backoff.antt =====
-- internal/jobs/jobs.go: how long a retry waits.
use team_flow.Prelude.{
  ℕ, zero, suc, Option-cases, ◌≡◌, ap, sym, ◌∙◌, ◌*◌, ◌/◌, ◌^◌, ◌<◌, ◌≤◌, subst, ◌⊎◌, inl, inr,
  some, arith,
}
use team_flow.Jobs.Redis.{least}
use team_flow.Jobs.Queue.{Numbers, Queue, backoff, capped_shift, capped, jittered}

power_pos : (k : ℕ) → 1 ≤ 2 ^ k
power_pos zero = omega arith
power_pos (suc k) = let p = power_pos k in omega arith

product_pos : (a b : ℕ) → 1 ≤ a → 1 ≤ b → 1 ≤ a * b
product_pos zero b ha hb = absurd (omega (arith, ha))
product_pos (suc a) b ha hb = omega (arith, hb)

module _ (m : Numbers) where
  capped_lem :
      (longest raw : ℕ)
      → 1 ≤ raw
      → longest < 2 ^ 63
      → (m.out_of_range ≡ 0) ⊎ (longest ≤ m.out_of_range)
      → capped m longest raw ≡ least raw longest
  capped_lem longest raw some_wait longest_fits wild = elim wild [
    | inl none_positive ↦ ground arith
    | inr long ↦ ground arith
  ]

  jittered_lem :
      (seed delay : ℕ)
      → ((seed bound j : ℕ) → m.random_below seed bound ≡ some j → j < bound)
      → (delay ≤ jittered m seed delay) × (2 * jittered m seed delay ≤ 3 * delay)
  jittered_lem seed delay below = elim (Option-cases (m.random_below seed (delay / 2))) [
    | inl e ↦ ground arith
    | inr (j, e) ↦ (let b = below seed (delay / 2) j e in ground arith)
  ]

-- The exponent of a failure that `n` others came before.
capped_shift_lem : (n : ℕ) → capped_shift (suc n) ≡ least n 32
capped_shift_lem n = ground arith

module _ (m : Numbers) (q : Queue) where
  -- The wait after a failure that `n` others came before is at least the base delay doubled `n` times,
  -- but at most 32 times and at most up to the longest delay, and at most half of that longer, where
  -- whole numbers up to 2^53 are converted to themselves, a conversion that is out of range gives no
  -- positive number or one of at least the longest delay, a random number is below its bound, the base
  -- delay is positive and at most 2^53 and the longest is below 2^63.
  pub backoff-bounds :
      (seed n : ℕ)
      → ((k : ℕ) → k ≤ 2 ^ 53 → m.to_float k ≡ k)
      → 1 ≤ q.base_delay
      → q.base_delay ≤ 2 ^ 53
      → q.max_delay < 2 ^ 63
      → (m.out_of_range ≡ 0) ⊎ (q.max_delay ≤ m.out_of_range)
      → ((seed bound j : ℕ) → m.random_below seed bound ≡ some j → j < bound)
      → let lo = least (q.base_delay * 2 ^ least n 32) q.max_delay in
        (lo ≤ backoff m q seed (suc n)) × (2 * backoff m q seed (suc n) ≤ 3 * lo)
  unfolding backoff
  backoff-bounds seed n exact base small longest wild below =
      let raw = m.to_float q.base_delay * 2 ^ capped_shift (suc n) in
      let same : raw ≡ q.base_delay * 2 ^ least n 32 =
        ap (λ x. x * 2 ^ capped_shift (suc n)) (exact q.base_delay small)
        ∙ ap (λ x. q.base_delay * 2 ^ x) (capped_shift_lem n) in
      let positive : 1 ≤ raw =
        subst (λ z. 1 ≤ z) (sym same)
          (product_pos q.base_delay (2 ^ least n 32) base (power_pos (least n 32))) in
      subst
        (λ z.
          (z ≤ jittered m seed (capped m q.max_delay raw))
          × (2 * jittered m seed (capped m q.max_delay raw) ≤ 3 * z))
        (capped_lem m q.max_delay raw positive longest wild ∙ ap (λ z. least z q.max_delay) same)
        (jittered_lem m seed (capped m q.max_delay raw) below)
