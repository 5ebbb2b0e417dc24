-- ===== src/ClientSession/Errors.antt =====
-- The classification of errors of the session (apps/mobile/src/shared/errors/errorGuards.ts and
-- apps/mobile/src/api/session/sessionErrors.ts). An error is the truth of the properties that are read
-- from it and from its `sessionError`.
use purrivacy_app.Prelude.{Bool, true, false, ◌||◌, Option, none, some}

pub record Flags : Type 0 where
  pub requires_sign_out : Bool
  pub refresh_token_missing : Bool
  pub refresh_token_invalid : Bool
  pub refresh_token_expired : Bool
  pub refresh_token_reuse : Bool
  pub rate_limited : Bool
  pub is_status_429 : Bool
  pub retry_after : Bool
  pub mfa_required : Bool

pub record ApiError : Type 0 where
  pub own : Flags
  pub session_error : Option Flags

abbrev pub no_flags : Flags
no_flags = record {
  requires_sign_out = false;
  refresh_token_missing = false;
  refresh_token_invalid = false;
  refresh_token_expired = false;
  refresh_token_reuse = false;
  rate_limited = false;
  is_status_429 = false;
  retry_after = false;
  mfa_required = false;
}

unfoldable pub flags_or : Option Flags → Flags → Flags
flags_or none other = other
flags_or (some flags) other = flags

unfoldable pub has_refresh_flag : Flags → Bool
has_refresh_flag f =
    f.refresh_token_missing || f.refresh_token_invalid || f.refresh_token_expired
    || f.refresh_token_reuse

-- `isRateLimitError`
unfoldable pub is_rate_limit_error : ApiError → Bool
unfolding flags_or
is_rate_limit_error e =
    let session = flags_or e.session_error no_flags in
    e.own.rate_limited || e.own.is_status_429 || e.own.retry_after || session.rate_limited
    || session.is_status_429

-- `hasRefreshTokenFailure`, which is `isTerminalStoredSessionError`
unfoldable pub is_terminal_error : ApiError → Bool
unfolding flags_or has_refresh_flag
is_terminal_error e =
    e.own.requires_sign_out
    || has_refresh_flag e.own
    || has_refresh_flag (flags_or e.session_error no_flags)

-- `isStoredSessionMfaRequired`
unfoldable pub is_mfa_required : ApiError → Bool
unfolding flags_or
is_mfa_required e = (flags_or e.session_error e.own).mfa_required

-- `markRequiresSignOut`
unfoldable pub mark_requires_sign_out : ApiError → ApiError
mark_requires_sign_out e = record e { own = record e.own { requires_sign_out = true } }

-- `missingStoredSessionError`
unfoldable pub missing_stored_session : ApiError
missing_stored_session = record {
  own = record no_flags { requires_sign_out = true };
  session_error = some record no_flags { refresh_token_missing = true };
}
