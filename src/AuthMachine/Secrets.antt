-- ===== src/AuthMachine/Secrets.antt =====
-- Where the pending password and the decrypted user data can be, in
-- apps/mobile/src/features/auth/state/authStateMachine.ts.
use purrivacy_app.Prelude.{◌≡◌, refl, ◌≢◌, Bool, true, false, ◌&&◌, none, List, [], ◌∷◌, arith}
use purrivacy_app.AuthMachine.State.{
  State, Phase, locally_locked, signing_out, signed_out, deleting,
}
use purrivacy_app.AuthMachine.Events.{
  Event, bootstrap_completed, lock_completed, sign_out_completed, deletion_completed,
  pending_password_changed, user_decrypted_changed, loading_started, loading_finished,
  checking_inactivity, app_state_changed, last_signed_in_user_changed, biometric_sign_in_marked,
  user_changed, user_cleared, firebase_user_cleared,
}
use purrivacy_app.AuthMachine.Reducer.{auth_reducer, run}

-- Neither the pending password nor decrypted user data is held.
pub record HoldsNoSecret (s : State) : Type 0 where
  pub no_password : s.pending_password ≡ none
  pub no_decrypted : s.user_decrypted ≡ none

-- Nothing that belongs to a signed-in user is held.
pub record IsCleared (s : State) : Type 0 where
  pub secrets : HoldsNoSecret s
  pub no_user : s.user ≡ none
  pub no_fb_user : s.fb_user ≡ none
  pub no_session : s.session_authenticated ≡ false
  pub no_loading : s.is_auth_loading ≡ false
  pub no_prior : s.prior_phase ≡ none

-- The events that complete a flow, with the phase that each leads to.
pub data Completes : Event → Phase → Type 0 where
  lock : Completes lock_completed locally_locked
  sign_out : Completes sign_out_completed signed_out
  deletion : Completes deletion_completed signed_out

-- Completing a lock, a sign-out or a deletion, from any phase but the one it leads to, leaves
-- nothing of the signed-in user behind, and ends in that phase.
pub completion-IsCleared :
    (s : State) {e : Event} {p : Phase}
    → Completes e p
    → s.phase ≢ p
    → IsCleared (auth_reducer s e) × ((auth_reducer s e).phase ≡ p)
unfolding auth_reducer
completion-IsCleared s lock h = ground arith
completion-IsCleared s sign_out h = ground arith
completion-IsCleared s deletion h = ground arith

-- The events that the source lists as flag-level UI state.
abbrev pub is_flag : Event → Bool
is_flag loading_started = true
is_flag loading_finished = true
is_flag (checking_inactivity _) = true
is_flag (app_state_changed _) = true
is_flag (last_signed_in_user_changed _) = true
is_flag (biometric_sign_in_marked _) = true
is_flag (pending_password_changed _) = true
is_flag (user_decrypted_changed _) = true
is_flag (user_changed _) = true
is_flag user_cleared = true
is_flag firebase_user_cleared = true
is_flag _ = false

abbrev pub all_flags : List Event → Bool
all_flags [] = true
all_flags (e ∷ es) = is_flag e && all_flags es

pub flag_keeps_phase :
    (s : State) (e : Event)
    → is_flag e ≡ true
    → ((auth_reducer s e).phase ≡ s.phase) × ((auth_reducer s e).prior_phase ≡ s.prior_phase)
unfolding auth_reducer
flag_keeps_phase s bootstrap_completed h = ground arith
flag_keeps_phase s _ h = ground arith

-- A phase in which neither secret may be committed.
abbrev pub is_closed : Phase → Bool
is_closed locally_locked = true
is_closed signing_out = true
is_closed deleting = true
is_closed _ = false

flag-HoldsNoSecret :
    (s : State) (e : Event)
    → is_flag e ≡ true
    → is_closed s.phase ≡ true
    → HoldsNoSecret s
    → HoldsNoSecret (auth_reducer s e)
unfolding auth_reducer
flag-HoldsNoSecret s bootstrap_completed h c n = ground arith
flag-HoldsNoSecret s _ h c n = ground arith

-- Whatever flag-level events arrive in a locked, signing-out or deleting phase that holds no secret,
-- in any number and any order, they bring no secret back and change neither the phase nor the prior
-- phase.
pub run_flags :
    (es : List Event) (s : State)
    → all_flags es ≡ true
    → is_closed s.phase ≡ true
    → HoldsNoSecret s
    → HoldsNoSecret (run s es)
      × ((run s es).phase ≡ s.phase)
      × ((run s es).prior_phase ≡ s.prior_phase)
unfolding run
run_flags [] s h c n = (n, refl, refl)
run_flags (e ∷ es) s h c n =
    let k = flag_keeps_phase s e (ground arith) in
    let ih =
      run_flags es (auth_reducer s e) (ground arith) (cc (k.0, c))
        (flag-HoldsNoSecret s e (ground arith) c n) in
    (ih.0, cc (k.0, ih.1), cc (k.1, ih.2))
