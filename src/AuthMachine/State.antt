-- ===== src/AuthMachine/State.antt =====
-- The phases, the state and its two terminal resets
-- (apps/mobile/src/features/auth/state/authStateMachine.ts).
use purrivacy_app.Prelude.{ℕ, String, Bool, true, false, Option, none, if◌then◌else◌}

-- `AuthPhase`
pub data Phase : Type 0 where
  bootstrapping signed_out firebase_authenticated mfa_pending unlocking : Phase
  authenticated locally_locked signing_out deleting : Phase

-- A Firebase `User` or a `UserDecrypted` is an object whose fields the machine never reads: it is
-- known by its identity, which is what `===` compares.
abbrev pub ObjectRef : Type 0
ObjectRef = ℕ

pub record LastSignedInUser : Type 0 where
  pub object : ObjectRef
  pub uid : String
  pub username : Option String

-- `AuthMachineState`; `null` is `none`
pub record State : Type 0 where
  pub phase : Phase
  pub user : Option ObjectRef
  pub fb_user : Option ObjectRef
  pub session_authenticated : Bool
  pub is_local_session_locked : Bool
  pub auth_completed : Bool
  pub is_auth_loading : Bool
  pub is_checking_inactivity : Bool
  pub app_state_is_background : Bool
  pub last_signed_in_user : Option LastSignedInUser
  pub last_used_biometric_sign_in : Bool
  pub pending_password : Option String
  pub user_decrypted : Option ObjectRef
  pub prior_phase : Option Phase
  pub error : Option String

-- `createInitialAuthState`
unfoldable pub initial : State
initial = record {
  phase = bootstrapping;
  user = none;
  fb_user = none;
  session_authenticated = false;
  is_local_session_locked = false;
  auth_completed = false;
  is_auth_loading = false;
  is_checking_inactivity = false;
  app_state_is_background = false;
  last_signed_in_user = none;
  last_used_biometric_sign_in = false;
  pending_password = none;
  user_decrypted = none;
  prior_phase = none;
  error = none;
}

-- `PENDING_PASSWORD_ALLOWED_PHASES.includes`
unfoldable pub pending_password_allowed : Phase → Bool
pending_password_allowed bootstrapping = true
pending_password_allowed signed_out = true
pending_password_allowed firebase_authenticated = true
pending_password_allowed mfa_pending = true
pending_password_allowed unlocking = true
pending_password_allowed _ = false

-- `DECRYPTED_ALLOWED_PHASES.includes`
unfoldable pub decrypted_allowed : Phase → Bool
decrypted_allowed firebase_authenticated = true
decrypted_allowed mfa_pending = true
decrypted_allowed unlocking = true
decrypted_allowed authenticated = true
decrypted_allowed _ = false

-- `toSignedOut`: the Boolean is `options?.keepAuthCompleted`
unfoldable pub to_signed_out : Bool → State → State
to_signed_out keep_auth_completed s = record s {
  phase = signed_out;
  user = none;
  fb_user = none;
  session_authenticated = false;
  is_local_session_locked = false;
  auth_completed = if keep_auth_completed then s.auth_completed else true;
  is_auth_loading = false;
  is_checking_inactivity = false;
  pending_password = none;
  user_decrypted = none;
  prior_phase = none;
  error = none;
}

-- `toLocallyLocked`
unfoldable pub to_locally_locked : State → State
to_locally_locked s = record s {
  phase = locally_locked;
  user = none;
  fb_user = none;
  session_authenticated = false;
  is_local_session_locked = true;
  auth_completed = true;
  is_auth_loading = false;
  is_checking_inactivity = false;
  pending_password = none;
  user_decrypted = none;
  prior_phase = none;
  error = none;
}
