-- ===== src/Jobs/Redis.antt =====
-- What internal/jobs uses of Redis, as an interface: the commands of a pipeline, the reads, and their
-- documented effect on a view of the keys. The view numbers the entries of the stream in the order in
-- which they were added.
use team_flow.Prelude.{
  ℕ, zero, suc, ◌+◌, ltb, length, ◌≡◌, ◌==◌, String, Bool, true, false, Option, none, some, List,
  [], ◌∷◌, if◌then◌else◌, str_eq,
}

-- An entry of the stream, with its only field.
pub record Entry : Type 0 where
  pub id : ℕ
  pub payload : String

-- `entries` has what is in the stream and not acknowledged by the group, `scheduled` the members of
-- the sorted set of retries, `letters` all that was ever added to the dead-letter stream, the latest
-- first, of which the latest `kept` are still in it. Trimming is approximate: `slack` is how many more
-- than asked for it leaves, by the number of letters that were added before.
pub record View : Type 0 where
  pub next : ℕ
  pub entries : ℕ → Option String
  pub scheduled : String → Bool
  pub letters : List String
  pub kept : ℕ
  pub slack : ℕ → ℕ

-- The commands that the pipelines of jobs.go consist of, each with its key; `xadd_dead max p` is
-- `XADD … MAXLEN ~ max`.
pub data Command : Type 0 where
  xadd : String → Command
  xadd_dead : ℕ → String → Command
  zadd : ℕ → String → Command
  zrem : String → Command
  xack : ℕ → Command
  xdel : ℕ → Command

abbrev pub least : ℕ → ℕ → ℕ
least a b = if ltb a b then a else b

-- The letter that as many others were added after.
abbrev pub letter : ℕ → List String → Option String
letter k [] = none
letter zero (p ∷ ps) = some p
letter (suc k) (p ∷ ps) = letter k ps

abbrev pub without : ℕ → View → View
without id v = record v { entries = λ i. if i == id then none else v.entries i }

abbrev pub effect : Command → View → View
effect (xadd p) v = record v {
  next = suc v.next;
  entries = λ i. if i == v.next then some p else v.entries i;
}
effect (xadd_dead max p) v = record v {
  letters = p ∷ v.letters;
  kept = least (suc v.kept) (max + v.slack (length v.letters));
}
effect (zadd due p) v = record v { scheduled = λ q. if str_eq q p then true else v.scheduled q }
effect (zrem p) v = record v { scheduled = λ q. if str_eq q p then false else v.scheduled q }
effect (xack id) v = without id v
effect (xdel id) v = without id v

-- Each entry is one of the view.
abbrev pub Listed : View → List Entry → Type 0
Listed v [] = Unit
Listed v (m ∷ ms) = (v.entries m.id ≡ some m.payload) × Listed v ms

-- `xreadgroup` is `XREADGROUP … COUNT n STREAMS … >`, `xautoclaim` is `XAUTOCLAIM … min-idle 0-0 COUNT n`
-- at a time, `zrangebyscore` is `ZRANGEBYSCORE … -inf max LIMIT 0 n`.
pub record Redis : Type 1 where
  pub State : Type 0
  pub view : State → View
  pub apply : Command → State → State
  pub xreadgroup : String → ℕ → State → List Entry × State
  pub xautoclaim : String → ℕ → ℕ → ℕ → State → List Entry × State
  pub zrangebyscore : ℕ → ℕ → State → List String

-- A command has its effect on the view; a read lists entries of the view and leaves them there.
pub record Documented (r : Redis) : Type 0 where
  pub applied : (k : Command) (s : r.State) → r.view (r.apply k s) ≡ effect k (r.view s)
  pub read_view :
      (name : String) (n : ℕ) (s : r.State) → r.view (r.xreadgroup name n s).1 ≡ r.view s
  pub read_entries :
      (name : String) (n : ℕ) (s : r.State) → Listed (r.view s) (r.xreadgroup name n s).0
  pub claim_view :
      (name : String) (now idle n : ℕ) (s : r.State)
      → r.view (r.xautoclaim name now idle n s).1 ≡ r.view s
  pub claim_entries :
      (name : String) (now idle n : ℕ) (s : r.State)
      → Listed (r.view s) (r.xautoclaim name now idle n s).0
