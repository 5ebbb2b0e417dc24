-- ===== src/Server/Errors.antt =====
-- The server's error classes (apps/server/src/utils/errors.ts), without their messages, and results
-- of code that may throw one of them.
use purrivacy_app.Prelude.{ℕ, ◌≡◌, refl, ◌⊎◌, inl, inr, List}

-- `AuthErrorDetails`: the flags that an error sets
pub data AuthFlag : Type 0 where
  session_header_missing device_header_missing bearer_header_missing : AuthFlag
  bearer_token_invalid session_invalid session_expired access_token_invalid : AuthFlag
  access_token_expired refresh_token_missing refresh_token_invalid : AuthFlag
  refresh_token_expired refresh_token_reuse mfa_required wrong_mfa_code : AuthFlag
  mfa_required_sensitive : AuthFlag

-- `AppError` and its subclasses; `other_error` is an `Error` that is no `AppError`
pub data AppError : Type 0 where
  bad_request not_found conflict mfa_already_enabled mfa_setup_expired : AppError
  mfa_not_enabled mfa_setup_nonce fresh_auth_required key_quota_exceeded : AppError
  rate_limited rate_limit_unavailable transition_error other_error : AppError
  auth_error : List AuthFlag → ℕ → AppError

-- `statusCode`; an error that is no `AppError` is answered with 500
unfoldable pub status_code : AppError → ℕ
status_code bad_request = 400
status_code not_found = 404
status_code conflict = 409
status_code mfa_already_enabled = 409
status_code mfa_setup_expired = 400
status_code mfa_not_enabled = 400
status_code mfa_setup_nonce = 401
status_code fresh_auth_required = 401
status_code key_quota_exceeded = 409
status_code rate_limited = 429
status_code rate_limit_unavailable = 503
status_code transition_error = 500
status_code other_error = 500
status_code (auth_error details status) = status

pub data Result {ℓ} (A : Type ℓ) : Type ℓ where
  ok : A → Result A
  err : AppError → Result A

infixl 5 ◌>>=◌
-- What follows a call that may throw.
abbrev pub ◌>>=◌ {ℓ κ} : {A : Type ℓ} {B : Type κ} → Result A → (A → Result B) → Result B
result >>= rest = elim result [ ok value ↦ rest value | err thrown ↦ err thrown ]

pub Result-cases {ℓ} :
    {A : Type ℓ} (r : Result A) → ((a : A) × (r ≡ ok a)) ⊎ ((e : AppError) × (r ≡ err e))
Result-cases (ok a) = inl (a, refl)
Result-cases (err e) = inr (e, refl)

-- What returns after a call returns after a call that returned.
pub bind_ok {ℓ κ} :
    {A : Type ℓ} {B : Type κ} (r : Result A) (rest : A → Result B) (b : B)
    → (r >>= rest) ≡ ok b
    → (a : A) × (r ≡ ok a) × (rest a ≡ ok b)
bind_ok (ok a) rest b h = (a, refl, h)
bind_ok (err e) rest b h = absurd (cc h)

pub ok_injective {ℓ} : {A : Type ℓ} {a b : A} → ok a ≡ ok b → a ≡ b
ok_injective h = cc h
