-- ===== src/Auth/Outcome.antt =====
-- The limits of backend/app/services/login.py, what its operations read of a request, and what they
-- answer.
use sustentra_platform.Prelude.{ℕ, ◌+◌, ◌-◌, ◌/◌, Option, none, some, ltb, max, if◌then◌else◌}
use sustentra_platform.Text.{Text}
use sustentra_platform.Auth.Database.{Uuid, Time, seconds, minutes, Role}
use sustentra_platform.Auth.Audit.{RequestMeta}

abbrev pub max_failed_logins : ℕ
max_failed_logins = 5

abbrev pub lockout : Time
lockout = minutes 15

abbrev pub otp_ttl : Time
otp_ttl = minutes 10

abbrev pub max_otp_attempts : ℕ
max_otp_attempts = 3

abbrev pub resend_cooldown : Time
resend_cooldown = seconds 60

abbrev pub max_resends : ℕ
max_resends = 3

-- What a request reads from outside: its metadata, the clocks of this module, of sessions.py and of
-- the database, and what `uuid4`, `randbelow`, `token_urlsafe` and the database draw.
pub record Request : Type 0 where
  pub meta : RequestMeta
  pub now : Time
  pub session_now : Time
  pub database_now : Time
  pub new_uuid : Uuid
  pub otp_number : ℕ
  pub new_token : Text
  pub new_session_id : Uuid

pub data Body : Type 0 where
  invalid_credentials invalid_code too_many_attempts too_many_codes please_wait accepted : Body
  challenge_issued : Text → ℕ → Body
  signed_in : Text → Option Text → Role → Body

-- `LoginOutcome`; the only header is Retry-After.
pub record LoginOutcome : Type 0 where
  pub status : ℕ
  pub body : Body
  pub retry_after : Option ℕ
  pub otp_email : Option Text
  pub otp_code : Option Text
  pub session_token : Option Text

-- `LoginOutcome(status, body, headers)`
abbrev pub respond : ℕ → Body → Option ℕ → LoginOutcome
respond status body retry = record {
  status = status;
  body = body;
  retry_after = retry;
  otp_email = none;
  otp_code = none;
  session_token = none;
}

-- `_fail`
abbrev pub fail : Body → LoginOutcome
fail detail = respond 401 detail none

-- `math.ceil(d.total_seconds())`
abbrev pub ceil_seconds : Time → ℕ
ceil_seconds d = (d + 999999) / 1000000

-- `_locked_response`
unfoldable pub locked_response : Time → Time → LoginOutcome
locked_response until now =
    respond 429 too_many_attempts (some (max 1 (ceil_seconds (until - now))))

-- `user["locked_until"] is not None and user["locked_until"] > now`
abbrev pub locked : Option Time → Time → Option Time
locked none now = none
locked (some until) now = if ltb now until then some until else none
