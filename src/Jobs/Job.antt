-- ===== src/Jobs/Job.antt =====
-- internal/jobs/jobs.go: Job, Delivery, permanent errors, and the sealing of jobs. Error texts are
-- sequences of bytes.
use team_flow.Prelude.{ℕ, ◌≡◌, String, Bool, true, false, Option, none, some, List}
use team_flow.Exec.{Result, ok}
use team_flow.Database.Rows.{first_rows}

-- `type` is empty for an entry that could not be read; the identifier 0 is the empty text.
pub record Job : Type 0 where
  pub id : ℕ
  pub type : String
  pub payload : Option String
  pub attempts : ℕ
  pub max_attempts : ℕ
  pub enqueued_at : ℕ
  pub last_error : List ℕ

pub record Delivery : Type 0 where
  pub id : ℕ
  pub job : Job

-- The errors of handlers: a text, one that wraps another with `%w`, and one that `Permanent` marks.
pub data JobError : Type 0 where
  plain : List ℕ → JobError
  wrapped : List ℕ → JobError → JobError
  permanent_error : JobError → JobError

-- `Error`
unfoldable pub error_text : JobError → List ℕ
error_text (plain text) = text
error_text (wrapped text e) = text
error_text (permanent_error e) = error_text e

-- `Permanent`
unfoldable pub permanent : Option JobError → Option JobError
permanent none = none
permanent (some e) = some (permanent_error e)

-- `IsPermanent`
unfoldable pub is_permanent : JobError → Bool
is_permanent (plain text) = false
is_permanent (wrapped text e) = is_permanent e
is_permanent (permanent_error e) = true

-- `truncate`
unfoldable pub truncate : List ℕ → ℕ → List ℕ
unfolding first_rows
truncate s n = first_rows n s

pub data Opened : Type 0 where
  opened : Job → Opened
  unreadable : List ℕ → Opened

-- `seal` and `open`: AES-GCM over the JSON of a job, in base64. Sealing draws a nonce; opening answers
-- with the text of its error. JSON replaces what is no UTF-8 in the text of the last error.
pub record Sealing : Type 0 where
  pub seal : ℕ → Job → Result String
  pub open_job : String → Opened
  pub json_text : List ℕ → List ℕ

-- What was sealed is opened as it was, but for the error text.
abbrev pub Opens : Sealing → Type 0
Opens c =
    (nonce : ℕ) (j : Job) (s : String)
    → c.seal nonce j ≡ ok s
    → c.open_job s ≡ opened (record j { last_error = c.json_text j.last_error })
