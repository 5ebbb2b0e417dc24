-- ===== src/AuthMachine/Handlers/Tests.antt =====
-- The tests on the state that the cases of `authReducer` make.
use purrivacy_app.Prelude.{
  Bool, true, false, ◌&&◌, ◌||◌, Option, none, some, ◌==◌, same_text, same_nullable,
}
use purrivacy_app.AuthMachine.State.{
  Phase, bootstrapping, signed_out, firebase_authenticated, mfa_pending, unlocking, authenticated,
  locally_locked, signing_out, deleting, ObjectRef, LastSignedInUser,
}

abbrev pub is_bootstrapping : Phase → Bool
is_bootstrapping bootstrapping = true
is_bootstrapping _ = false

abbrev pub is_signed_out : Phase → Bool
is_signed_out signed_out = true
is_signed_out _ = false

abbrev pub is_firebase_authenticated : Phase → Bool
is_firebase_authenticated firebase_authenticated = true
is_firebase_authenticated _ = false

abbrev pub is_mfa_pending : Phase → Bool
is_mfa_pending mfa_pending = true
is_mfa_pending _ = false

abbrev pub is_unlocking : Phase → Bool
is_unlocking unlocking = true
is_unlocking _ = false

abbrev pub is_authenticated : Phase → Bool
is_authenticated authenticated = true
is_authenticated _ = false

abbrev pub is_locally_locked : Phase → Bool
is_locally_locked locally_locked = true
is_locally_locked _ = false

abbrev pub is_signing_out : Phase → Bool
is_signing_out signing_out = true
is_signing_out _ = false

abbrev pub is_deleting : Phase → Bool
is_deleting deleting = true
is_deleting _ = false

abbrev pub is_none {ℓ} : {A : Type ℓ} → Option A → Bool
is_none none = true
is_none (some _) = false

-- `a ?? b`
abbrev pub or_else {ℓ} : {A : Type ℓ} → Option A → A → A
or_else none b = b
or_else (some a) b = a

-- `a ?? b` where `b` may be `null` too
abbrev pub or_nullable {ℓ} : {A : Type ℓ} → Option A → Option A → Option A
or_nullable none b = b
or_nullable (some a) b = some a

-- `===` between two objects that may be `null`
abbrev pub same_object : Option ObjectRef → Option ObjectRef → Bool
same_object none none = true
same_object (some a) (some b) = a == b
same_object none (some b) = false
same_object (some a) none = false

abbrev pub same_flag : Bool → Bool → Bool
same_flag true b = b
same_flag false true = false
same_flag false false = true

-- The test of LAST_SIGNED_IN_USER_CHANGED: the same object, or the same uid and username. Where one
-- side is `null` and the other is not, the uids `undefined` and a text differ.
pub unchanged_user : Option LastSignedInUser → Option LastSignedInUser → Bool
unchanged_user none none = true
unchanged_user (some a) (some b) =
    a.object == b.object || (same_text a.uid b.uid && same_nullable a.username b.username)
unchanged_user none (some b) = false
unchanged_user (some a) none = false
