-- ===== src/Httpx/Errors.antt =====
-- internal/httpx/errors.go, and the error values that it wraps. Texts meant for people (the message
-- of an API error, the prefix of a wrapped one) are kept only where code reads them: nowhere here.
use team_flow.Prelude.{ℕ, String, Bool, true, false, Option, none, some, List, []}

-- The package-level errors of httpx.
pub data Sentinel : Type 0 where
  not_found unauthorized forbidden validation conflict unprocessable rate_limited internal :
      Sentinel

-- A Go error chain. `pg` is a `*pgconn.PgError` with its SQLSTATE and constraint, `driver` any other
-- failure of a connection, `wrap` a `fmt.Errorf` with `%w`, `api` an `*APIError` with no cause and
-- `api_of` one that wraps its cause.
pub data Error : Type 0 where
  no_rows : Error
  driver : Error
  pg : String → String → Error
  sentinel : Sentinel → Error
  api : ℕ → String → Error
  api_of : ℕ → String → Error → Error
  invalid : List (String × String) → Error
  wrap : Error → Error

-- `errors.Is(err, pgx.ErrNoRows)`
unfoldable pub is_no_rows : Error → Bool
is_no_rows no_rows = true
is_no_rows (api_of status code cause) = is_no_rows cause
is_no_rows (wrap e) = is_no_rows e
is_no_rows _ = false

-- `errors.As(err, &pgErr)`: the SQLSTATE and the constraint.
unfoldable pub as_pg : Error → Option (String × String)
as_pg (pg code constraint) = some (code, constraint)
as_pg (api_of status code cause) = as_pg cause
as_pg (wrap e) = as_pg e
as_pg _ = none

-- What an `*APIError` shows the client: status, code and field details.
pub record Response : Type 0 where
  pub status : ℕ
  pub code : String
  pub details : List (String × String)

abbrev respond : ℕ → String → Response
respond status code = record { status = status; code = code; details = [] }

-- The `switch` of `FromError`; `internal` falls through to its default.
unfoldable pub from_sentinel : Sentinel → Response
from_sentinel not_found = respond 404 "NOT_FOUND"
from_sentinel unauthorized = respond 401 "UNAUTHORIZED"
from_sentinel forbidden = respond 403 "FORBIDDEN"
from_sentinel validation = respond 400 "VALIDATION_ERROR"
from_sentinel unprocessable = respond 422 "UNPROCESSABLE_ENTITY"
from_sentinel conflict = respond 409 "CONFLICT"
from_sentinel rate_limited = respond 429 "RATE_LIMITED"
from_sentinel internal = respond 500 "INTERNAL_ERROR"

-- `FromError`: the first `*APIError` of the chain, else the sentinel at its end.
unfoldable pub from_error : Error → Response
unfolding from_sentinel
from_error (api status code) = respond status code
from_error (api_of status code cause) = respond status code
from_error (invalid details) = record { status = 400; code = "VALIDATION_ERROR"; details = details }
from_error (wrap e) = from_error e
from_error (sentinel s) = from_sentinel s
from_error no_rows = respond 500 "INTERNAL_ERROR"
from_error driver = respond 500 "INTERNAL_ERROR"
from_error (pg code constraint) = respond 500 "INTERNAL_ERROR"
