-- ===== src/Lib.antt =====
-- PurrivacyApp: the authentication state, the operation center, the one-time-password input, the key
-- requests, the session, the validation of answers and the signed updates of the mobile app, and the
-- sessions, multi-factor authentication, resumable transitions, key records, rate limits and bulk
-- deletions of its server.
--
-- The parts and how they interact. The mobile app keeps one authentication state and changes it only by
-- events that it dispatches to a reducer. The server keeps sessions in document collections: an access
-- token belongs to a refresh-token family, a refresh token is used once and replaced by another of the
-- same family. Creating a session, revoking a family and the cleanup delete documents in pages. A code of
-- the second factor is checked for sensitive requests, and a nonce proves fresh authentication before its
-- set-up; changes that take several writes run as transitions of named steps: enabling and disabling
-- create a session, change the user's state and revoke the old sessions. The encrypted keys of a user are
-- one set with a quota, which the app reads page by page. The app checks the server's answers before it
-- uses them. It installs an update only after it has checked the release's signed manifest, and the file
-- against the manifest. A rate limiter counts requests in a shared store or in memory.
--
-- AuthMachine (apps/mobile/src/features/auth/state/authStateMachine.ts)
--   State: AuthMachineState as the record `State`, the two sets of phases, `toSignedOut` and
--   `toLocallyLocked`. Events: AuthEvent. Handlers: one function for each case of `authReducer`.
--   Reducer: `auth_reducer`, and `run` over a list of events. An object whose fields the machine never
--   reads is a number, its identity. Prior, Secrets, Entry and Locked hold the theorems.
-- RateLimit (apps/server/src/api/rate-limit/memoryRateLimitStore.ts)
--   Memory: `MemoryRateLimitStore` and each of its methods; the JavaScript map is an association list
--   in insertion order, the clock is an argument. Limiter: the decision of `run` and the
--   listener that refunds skipped responses, in apps/server/src/api/rate-limit/createRateLimiter.ts.
--   Config: the limiters that refund, of apps/server/src/api/middleware/rateLimiter.ts. Outage: sequences
--   of requests and responses. Eviction, Bounds, Window, Refinement, Kept and Budget hold the theorems.
-- Server (apps/server/src/utils/errors.ts, apps/server/src/infrastructure/firebase/chunkedWrites.ts)
--   Errors: the error classes by their status codes, and results. Documents: the contract of the document
--   database, Firestore, as a record of operations and laws, which the code relies on and which is an
--   argument of all definitions that use it. DictStore: an association list that meets it. ChunkedWrites:
--   `deleteDocumentsInChunks` and `deletePagedQueryResults`. Text and Append: the operations of JavaScript
--   on texts. Json: its values, as requests and the Realtime Database give them.
--   Batches and PagedDelete hold the theorems.
-- Session (apps/server/src/features/session/application)
--   Types: the documents (apps/server/src/core/types/index.ts). Tokens: sessionTokenUtils.ts. MfaPolicy:
--   sessionMfaPolicy.ts. Records: sessionRecordStore.ts and sessionResponse.ts. Create:
--   createSession.ts. Rotate: rotateRefreshToken.ts. Validate: validateSession.ts. Families:
--   sessionFamilyMutations.ts. Deletion: sessionDeletion.ts and expiredSessionCleanup.ts. A function
--   takes the collections and gives them back with its result or error. SHA-256, random texts and the
--   clock are arguments. Reuse, Rotation, Dead, Revoked, Access, Created, TokenText and Bulk hold the
--   theorems.
-- Mfa (apps/server/src/features/mfa/application)
--   Types: the documents. RecoveryCodes: mfaRecoveryCodes.ts. SetupNonce: mfaSetupNonce.ts. Verify:
--   verifyMfaCode.ts, verifyMfaTotpCode.ts, mfaCodeFormats.ts and mfaErrors.ts. The decryption of the
--   secret and the one-time-password library are arguments. Enable: enableMfa.ts, disableMfa.ts,
--   setupMfa.ts and the step of MfaSessionService.ts that applies enabling. SessionService:
--   `runTransition` of MfaSessionService.ts, on the runner of Transition; the four calls of its steps
--   and the progress store are fields of a record. TransitionStore: mfaTransitionStore.ts, with the
--   encryption of results as an argument. SingleUse, NonceCalls, Nonces, Proof, Compensation, Enabling and
--   StoredProgress hold the theorems.
-- Transition (apps/server/src/core/transitions/transitionRunner.ts)
--   Runner: `executeTransition` over a list of named steps, with a progress store as an argument; an
--   exception is an error value. Resume holds the theorems.
-- UserKeys (apps/server/src/features/user)
--   Payload: domain/EncryptedUserDataValidator.ts. RecordSet and Cursor:
--   infrastructure/userKeys/userKeyRecordSet.ts and userKeyRefs.ts. Repository and Lists:
--   infrastructure/UserKeyRepository.ts; the state is the value that the Realtime Database holds for a
--   user, a transaction is one step on it, and what other requests write in between is an argument.
--   Pages: the pagination. FetchAll: `fetchAllKeyRecords` of apps/mobile/src/api/user/userApi.ts, whose
--   loop makes at most a hundred rounds. History: sequences of requests. The other modules hold the
--   theorems. Times are natural numbers below 2^53, and ids are compared by code points.
-- OperationCenter (apps/mobile/src/app/state/operationCenterState.ts)
--   State: the records, the reducer, pruning and the selectors. Filters and Pruned hold the theorems.
-- TotpInput (apps/mobile/src/features/mfa/domain/totpEdit.ts)
--   Edit: `applyTotpEdit`, on boxes that are empty or hold one character. Boxes holds the theorems.
-- Responses (apps/mobile/src/api/request)
--   Fields, Values, Parsers and Registry: responseSchema.ts, from the checks of single fields to
--   `validateResponse`; Types: the answers' types. Process: the end of processResponse.ts and the endpoint
--   of a page in apps/mobile/src/api/user/userApi.ts. Sent: the bodies that the server's routes send.
--   Known, Session, Records, Pages and Queries hold the theorems.
-- Updates (apps/mobile/src/features/updates/services)
--   Version: updateVersion.ts. Canonical and Manifest: updateManifest.ts and updateSigning.ts. Release and
--   Install: appUpdateService.ts. The requests, the parsers of URLs and dates, the check of a signature
--   under the pinned key, the hash, the device and its installer are arguments. Ordered, Quoted,
--   Injective, Hashed, Trusted, Offered, Installed, Verified, Deleted and FileName hold the theorems.
-- ClientSession (apps/mobile/src/api/session)
--   Errors: the classification of errors in sessionErrors.ts and
--   apps/mobile/src/shared/errors/errorGuards.ts. Tokens: accessTokenStore.ts. Manager: `createSession` of
--   sessionManager.ts with the local session and its refresh; the server's answers and the clock are
--   arguments, and the result lists the requests made. Remote: its `syncRemoteMfaState` and `signOut`, and
--   apps/mobile/src/features/security/services/storedSessionService.ts. Ended, Usable and Synced hold the
--   theorems.
-- Prelude: shared names, Boolean tests, lists and JavaScript's map. The Examples modules apply the
-- theorems at concrete inputs.
--
-- Bounds and fuel. The loop of `deleteDocumentsInChunks` gets one round for each reference, which is
-- enough since a round takes at least one. The loop of `deletePagedQueryResults` has the budget of
-- pages that the source gives it, and the loop of `fetchAllKeyRecords` has the source's hundred
-- rounds. The digits of a number are printed in one round more than the number, which is enough since
-- a round divides it by ten. The loop that hashes a file gets one round more than the file has bytes,
-- which is enough since a round but the last takes at least one. All other loops are structural. Dates
-- are natural numbers of milliseconds.
--
-- Not modelled. The HTTP routes, middleware, configuration, logging, the jobs' schedules, the user
-- interface and device storage are input and output. Cryptography and OpenPGP are third-party code.
-- The app's screens, notes and settings and overlapping refreshes of its session are not modelled. A
-- transaction and a batch are one step each, so contention between transactions is not modelled, nor
-- is the placeholder that the Realtime Database's client passes to a transaction before it has read
-- the value. Numbers in requests and stored values are natural. Notifications are left out.
pub mod AuthMachine
pub mod ClientSession
pub mod Mfa
pub mod OperationCenter
pub mod Prelude
pub mod RateLimit
pub mod Responses
pub mod Server
pub mod Session
pub mod TotpInput
pub mod Transition
pub mod Updates
pub mod UserKeys
