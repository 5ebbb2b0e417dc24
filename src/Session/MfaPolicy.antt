-- ===== src/Session/MfaPolicy.antt =====
-- When a refresh needs a new MFA proof
-- (apps/server/src/features/session/application/sessionMfaPolicy.ts). Every stored date is valid.
use purrivacy_app.Prelude.{ℕ, ◌-◌, Bool, false, not, ◌||◌, Option, none, some, leb, if◌then◌else◌}
use purrivacy_app.Session.Types.{Session, Family, untrusted_mfa_max_age_ms, is_set}

-- `isMfaVerificationFresh`. A verification in the future has a negative age there and age 0 here:
-- both are fresh.
unfoldable pub is_mfa_verification_fresh : Family → ℕ → Bool
is_mfa_verification_fresh family now = elim family.mfa_verified_at [
  | none ↦ false
  | some verified_at ↦ leb (now - verified_at) untrusted_mfa_max_age_ms
]

-- `requiresMfaForRefresh`
unfoldable pub requires_mfa_for_refresh : Family → Option Session → ℕ → Bool
unfolding is_mfa_verification_fresh
requires_mfa_for_refresh family active_access_session now =
    if not family.user_has_mfa || family.mfa_trusted
    then false
    else not (is_set active_access_session) || not (is_mfa_verification_fresh family now)
