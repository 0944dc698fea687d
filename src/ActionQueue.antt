-- ===== src/ActionQueue.antt =====
-- packages/mcp/src/store.ts: the operations of `MemoryMosaicStore` and the queue of their client
-- actions. A wallet leases an action with `claimAction`, and ends it with `completeAction` or
-- `failAction`. Random ids and tokens are arguments, as is the clock, which is read once in a call.
pub mod Leases
pub mod Completion
pub mod Invariant
mod Tests
use stellar_mosaic.Prelude.{
  ℕ, zero, suc, ◌+◌, String, Bool, true, false, not, ◌&&◌, ◌||◌, Option, none, some, List, [], ◌∷◌,
  ◌++◌, ltb, if◌then◌else◌, Result, ok, throw, str_eq,
}
use stellar_mosaic.Prelude.Keyed.{find_key, set_key}
use stellar_mosaic.Prelude.Sorting.{sort_by}
use stellar_mosaic.Text.{Text, codes, text_eq}

-- LEASE_TTL_MS
abbrev pub lease_ttl_ms : ℕ
lease_ttl_ms = 90000

pub data OperationStatus : Type 0 where
  waiting_for_client succeeded failed cancelled : OperationStatus

pub data ActionStatus : Type 0 where
  available leased complete failed_action : ActionStatus

pub record Request : Type 0 where
  pub desk_id : String
  pub kind : String
  pub payload : Text

pub record Operation : Type 0 where
  pub id : String
  pub address : String
  pub network : String
  pub request : Request
  pub status : OperationStatus
  pub created_at : ℕ
  pub updated_at : ℕ
  pub error : Option Text
  pub submitted : Bool

pub record Action : Type 0 where
  pub id : String
  pub operation_id : String
  pub request : Request
  pub lease_token : String
  pub lease_expires_at : ℕ
  pub address : String
  pub status : ActionStatus
  pub result : Option Text

pub data EventType : Type 0 where
  created_event cancelled_event succeeded_event failed_event : EventType

-- `details` is the result or the flag that goes with the event.
pub data Details : Type 0 where
  no_details : Details
  result_details : Text → Details
  retryable_details : Bool → Details

pub record OperationEvent : Type 0 where
  pub cursor : ℕ
  pub operation_id : String
  pub event_type : EventType
  pub state : OperationStatus
  pub message : Text
  pub details : Details
  pub created_at : ℕ

pub record Queue : Type 0 where
  pub operations : List Operation
  pub operation_keys : List (Text × String)
  pub actions : List Action
  pub events : List OperationEvent
  pub cursor : ℕ

pub data QueueError : Type 0 where
  operation_not_found : (id : String) → QueueError
  invalid_lease : QueueError

abbrev pub operation_id_of : Operation → String
operation_id_of o = o.id

abbrev pub action_id_of : Action → String
action_id_of a = a.id

abbrev pub find_operation : String → Queue → Option Operation
find_operation id q = find_key operation_id_of id q.operations

abbrev pub set_operation : Operation → Queue → Queue
set_operation o q = record q { operations = set_key operation_id_of o q.operations }

abbrev pub find_action : String → Queue → Option Action
find_action id q = find_key action_id_of id q.actions

abbrev pub set_action : Action → Queue → Queue
set_action a q = record q { actions = set_key action_id_of a q.actions }

abbrev pub add_event : String → EventType → OperationStatus → Text → Details → ℕ → Queue → Queue
add_event operation_id event_type state message details now q = record q {
  events =
      q.events
      ++ record {
        cursor = suc q.cursor;
        operation_id = operation_id;
        event_type = event_type;
        state = state;
        message = message;
        details = details;
        created_at = now;
      }
        ∷ [];
  cursor = suc q.cursor;
}

unfoldable pub find_text : Text → List (Text × String) → Option String
find_text key [] = none
find_text key ((k, id) ∷ ks) =
    let rest = find_text key ks in if text_eq k key then some id else rest

-- `${address}\0${network}\0${idempotencyKey}`
abbrev pub operation_key : String → String → Text → Text
operation_key address network key = codes address ++ (0 ∷ codes network) ++ (0 ∷ key)

abbrev pub owned : String → String → Option Operation → Result QueueError Operation
owned address id none = throw (operation_not_found id)
owned address id (some o) =
    if str_eq o.address address then ok o else throw (operation_not_found id)

unfoldable pub get_operation : String → String → Queue → Result QueueError Operation
get_operation address id q = owned address id (find_operation id q)

abbrev pub queued :
    (id action_id address network : String) → Request → Text → ℕ → Queue → Queue × Operation
queued id action_id address network request key now q =
    let o : Operation = record {
      id = id;
      address = address;
      network = network;
      request = request;
      status = waiting_for_client;
      created_at = now;
      updated_at = now;
      error = none;
      submitted = false;
    } in
    let a : Action = record {
      id = action_id;
      operation_id = id;
      request = request;
      lease_token = "";
      lease_expires_at = 0;
      address = address;
      status = available;
      result = none;
    } in
    (
      add_event id created_event waiting_for_client (codes "Operation queued for wallet action.")
          no_details now
          (set_action a
            (record (set_operation o q) { operation_keys = (key, id) ∷ q.operation_keys })),
      o,
    )

abbrev pub found_or_queued :
    (id action_id address network : String)
    → Request
    → Text
    → ℕ
    → Queue
    → Option String
    → Queue × Result QueueError Operation
found_or_queued id action_id address network request key now q (some found) =
    (q, get_operation address found q)
found_or_queued id action_id address network request key now q none =
    let (q', o) = queued id action_id address network request key now q in (q', ok o)

unfoldable pub create_operation :
    (id action_id address network : String)
    → Request
    → Text
    → ℕ
    → Queue
    → Queue × Result QueueError Operation
create_operation id action_id address network request idempotency_key now q =
    let key = operation_key address network idempotency_key in
    found_or_queued id action_id address network request key now q (find_text key q.operation_keys)

abbrev pub is_settled : OperationStatus → Bool
is_settled succeeded = true
is_settled failed = true
is_settled _ = false

abbrev pub cancel_found :
    ℕ → Queue → Result QueueError Operation → Queue × Result QueueError Operation
cancel_found now q (throw e) = (q, throw e)
cancel_found now q (ok o) =
    let o' = record o { status = cancelled; updated_at = now } in
    if is_settled o.status then (q, ok o) else (
      add_event o.id cancelled_event cancelled (codes "Operation cancelled.") no_details now
          (set_operation o' q),
      ok o',
    )

unfoldable pub cancel_operation : String → String → ℕ → Queue → Queue × Result QueueError Operation
cancel_operation address id now q = cancel_found now q (get_operation address id q)

abbrev waits : OperationStatus → Bool
waits waiting_for_client = true
waits _ = false

abbrev is_owned : String → Option Operation → Bool
is_owned address none = false
is_owned address (some o) = str_eq o.address address

abbrev is_waiting : Option Operation → Bool
is_waiting none = false
is_waiting (some o) = waits o.status

abbrev pub is_free : ActionStatus → ℕ → ℕ → Bool
is_free available expires now = true
is_free leased expires now = ltb expires now
is_free _ expires now = false

-- `actionClaimable`
unfoldable pub action_claimable : ℕ → Action → Option Operation → Bool
action_claimable now a o = is_waiting o && is_free a.status a.lease_expires_at now

abbrev pub claimable_by : String → ℕ → Queue → Action → Bool
claimable_by address now q a =
    str_eq a.address address && action_claimable now a (find_operation a.operation_id q)

unfoldable pub keep_actions : (Action → Bool) → List Action → List Action
keep_actions keep [] = []
keep_actions keep (a ∷ rest) =
    let kept = keep_actions keep rest in if keep a then a ∷ kept else kept

abbrev created_or_zero : Option Operation → ℕ
created_or_zero none = 0
created_or_zero (some o) = o.created_at

abbrev pub is_later : Queue → Action → Action → Bool
is_later q a b =
    ltb (created_or_zero (find_operation b.operation_id q))
      (created_or_zero (find_operation a.operation_id q))

abbrev pub lease : String → ℕ → Action → Action
lease token now a = record a {
  status = leased;
  lease_token = token;
  lease_expires_at = now + lease_ttl_ms;
}

abbrev pub lease_first : String → ℕ → Queue → List Action → Queue × Option Action
lease_first token now q [] = (q, none)
lease_first token now q (a ∷ _) = (set_action (lease token now a) q, some (lease token now a))

unfoldable pub claim_action : (token address : String) → ℕ → Queue → Queue × Option Action
claim_action token address now q =
    lease_first token now q
      (sort_by (is_later q) (keep_actions (claimable_by address now q) q.actions))

abbrev pub holds_lease : String → String → ℕ → Action → Bool
holds_lease address token now a =
    str_eq a.address address && str_eq a.lease_token token && not (ltb a.lease_expires_at now)

abbrev pub with_action :
    Action → Result QueueError Operation → Result QueueError (Operation × Action)
with_action a (throw e) = throw e
with_action a (ok o) = ok (o, a)

abbrev pub leased_found :
    String → String → ℕ → Queue → Option Action → Result QueueError (Operation × Action)
leased_found address token now q none = throw invalid_lease
leased_found address token now q (some a) =
    if holds_lease address token now a
    then with_action a (get_operation address a.operation_id q)
    else throw invalid_lease

unfoldable pub validate_action_lease :
    (address id token : String) → ℕ → Queue → Result QueueError (Operation × Action)
validate_action_lease address id token now q = leased_found address token now q (find_action id q)

abbrev pub beat :
    String → ℕ → Queue → Result QueueError (Operation × Action) → Queue × Result QueueError ℕ
beat address now q (throw e) = (q, throw e)
beat address now q (ok (o, a)) = (
  set_action
      (record a { lease_expires_at = now + lease_ttl_ms; address = address; status = leased }) q,
  ok (now + lease_ttl_ms),
)

unfoldable pub heartbeat_action :
    (address id token : String) → ℕ → Queue → Queue × Result QueueError ℕ
heartbeat_action address id token now q =
    beat address now q (validate_action_lease address id token now q)

abbrev pub complete_leased :
    String
    → Text
    → ℕ
    → Queue
    → Result QueueError (Operation × Action)
    → Queue × Result QueueError Operation
complete_leased address result now q (throw e) = (q, throw e)
complete_leased address result now q (ok (o, a)) =
    let o' = record o { status = succeeded; updated_at = now; submitted = true } in
    let a' = record a { address = address; status = complete; result = some result } in
    (
      add_event o.id succeeded_event succeeded (codes "Operation succeeded.")
          (result_details result) now (set_action a' (set_operation o' q)),
      ok o',
    )

unfoldable pub complete_action :
    (address id token : String) → Text → ℕ → Queue → Queue × Result QueueError Operation
complete_action address id token result now q =
    complete_leased address result now q (validate_action_lease address id token now q)

abbrev pub fail_leased :
    String
    → Text
    → Bool
    → ℕ
    → Queue
    → Result QueueError (Operation × Action)
    → Queue × Result QueueError Operation
fail_leased address error retryable now q (throw e) = (q, throw e)
fail_leased address error retryable now q (ok (o, a)) =
    let status = if retryable then waiting_for_client else failed in
    let o' = record o { status = status; error = some error; updated_at = now } in
    let a' = record a {
      address = address;
      status = if retryable then available else failed_action;
    } in
    (
      add_event o.id failed_event status error (retryable_details retryable) now
          (set_action a' (set_operation o' q)),
      ok o',
    )

unfoldable pub fail_action :
    (address id token : String) → Text → Bool → ℕ → Queue → Queue × Result QueueError Operation
fail_action address id token error retryable now q =
    fail_leased address error retryable now q (validate_action_lease address id token now q)

abbrev is_visible : String → ℕ → Queue → OperationEvent → Bool
is_visible address cursor q e =
    ltb cursor e.cursor && is_owned address (find_operation e.operation_id q)

unfoldable pub keep_events : (OperationEvent → Bool) → List OperationEvent → List OperationEvent
keep_events keep [] = []
keep_events keep (e ∷ es) = let kept = keep_events keep es in if keep e then e ∷ kept else kept

unfoldable pub events_after : String → ℕ → Queue → List OperationEvent
events_after address cursor q = keep_events (is_visible address cursor q) q.events
