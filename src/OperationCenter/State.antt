-- ===== src/OperationCenter/State.antt =====
-- The state of the operation center and its reducer
-- (apps/mobile/src/app/state/operationCenterState.ts).
use Prim.Native.String.{String}
use purrivacy_app.Prelude.{
  ℕ, Bool, true, false, not, ◌&&◌, ◌||◌, Option, none, some, List, [], ◌∷◌, length, take, leb,
  if◌then◌else◌, same_text,
}

pub data OperationKind : Type 0 where
  file_encrypt file_decrypt text_encrypt text_decrypt : OperationKind
  key_generate key_import key_revoke generic : OperationKind

pub data OperationStatus : Type 0 where
  running succeeded failed : OperationStatus

pub record OperationProgress : Type 0 where
  pub units : ℕ
  pub total : Option ℕ

pub record OperationRecord : Type 0 where
  pub id : String
  pub kind : OperationKind
  pub title : String
  pub detail : Option String
  pub started_at : ℕ
  pub finished_at : Option ℕ
  pub status : OperationStatus
  pub phase : Option String
  pub progress : Option OperationProgress
  pub result : Option String
  pub result_summary : Option String
  pub error : Option String
  pub seen : Bool

-- The operations of `OperationCenterState`, newest first
abbrev pub Operations : Type 0
Operations = List OperationRecord

-- A patch is a function that sets its fields.
pub data OperationCenterAction : Type 0 where
  started : OperationRecord → OperationCenterAction
  updated : String → (OperationRecord → OperationRecord) → OperationCenterAction
  mark_seen : String → OperationCenterAction
  dismiss : String → OperationCenterAction
  clear_finished : OperationCenterAction

abbrev pub max_finished_operations : ℕ
max_finished_operations = 10

abbrev pub is_running : OperationStatus → Bool
is_running running = true
is_running succeeded = false
is_running failed = false

-- `isFinished`
abbrev pub is_finished : OperationRecord → Bool
is_finished op = not (is_running op.status)

-- `some(op => op.id === id)`
unfoldable pub has_id : String → Operations → Bool
has_id id [] = false
has_id id (op ∷ operations) = same_text op.id id || has_id id operations

-- `map(op => op.id === id ? change(op) : op)`
unfoldable pub change_at : String → (OperationRecord → OperationRecord) → Operations → Operations
change_at id change [] = []
change_at id change (op ∷ operations) =
    (if same_text op.id id then change op else op) ∷ change_at id change operations

-- `filter`
unfoldable pub filter_operations : (OperationRecord → Bool) → Operations → Operations
filter_operations test [] = []
filter_operations test (op ∷ operations) =
    let rest = filter_operations test operations in if test op then op ∷ rest else rest

-- `operationCenterReducer`
unfoldable pub operation_center_reducer : Operations → OperationCenterAction → Operations
unfolding has_id change_at filter_operations
operation_center_reducer operations (started record') =
    if has_id record'.id operations then operations else record' ∷ operations
operation_center_reducer operations (updated id patch) = change_at id patch operations
operation_center_reducer operations (mark_seen id) =
    change_at id (λ op. record op { seen = true }) operations
operation_center_reducer operations (dismiss id) =
    filter_operations (λ op. not (same_text op.id id) || not (is_finished op)) operations
operation_center_reducer operations clear_finished =
    filter_operations (λ op. not (is_finished op)) operations

-- `pruneOperations`; `kept` is the finished records that stay
unfoldable pub prune_operations : Operations → Operations
unfolding has_id filter_operations
prune_operations operations =
    let finished = filter_operations is_finished operations in
    let kept = take max_finished_operations finished in
    if leb (length finished) max_finished_operations
    then operations
    else filter_operations (λ op. not (is_finished op) || has_id op.id kept) operations

-- `prunedOperationCenterReducer`
unfoldable pub pruned_operation_center_reducer : Operations → OperationCenterAction → Operations
unfolding prune_operations operation_center_reducer
pruned_operation_center_reducer operations action =
    prune_operations (operation_center_reducer operations action)

-- `===` between kinds
unfoldable pub same_kind : OperationKind → OperationKind → Bool
same_kind file_encrypt file_encrypt = true
same_kind file_decrypt file_decrypt = true
same_kind text_encrypt text_encrypt = true
same_kind text_decrypt text_decrypt = true
same_kind key_generate key_generate = true
same_kind key_import key_import = true
same_kind key_revoke key_revoke = true
same_kind generic generic = true
same_kind _ _ = false

-- `latestByKind`
unfoldable pub latest_by_kind : Operations → OperationKind → Option OperationRecord
unfolding same_kind
latest_by_kind [] kind = none
latest_by_kind (op ∷ operations) kind =
    let rest = latest_by_kind operations kind in if same_kind op.kind kind then some op else rest

-- `countRunning`
unfoldable pub count_running : Operations → ℕ
unfolding filter_operations
count_running operations = length (filter_operations (λ op. is_running op.status) operations)

-- `countUnseenFinished`
unfoldable pub count_unseen_finished : Operations → ℕ
unfolding filter_operations
count_unseen_finished operations =
    length (filter_operations (λ op. is_finished op && not op.seen) operations)
