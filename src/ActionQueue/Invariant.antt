-- ===== src/ActionQueue/Invariant.antt =====
-- What every queue keeps that the calls of the store make from the empty one.
use stellar_mosaic.Prelude.{
  ℕ, suc, String, ◌≡◌, refl, sym, ap, ◌∙◌, Bool, Option, none, some, List, [], ◌∷◌, ◌++◌, inl, inr,
  Bool-cases, Result, ok, throw,
}
use stellar_mosaic.Prelude.Keyed.{AreDistinct, AreDistinct-set_key, found_distinct}
use stellar_mosaic.Prelude.Sorting.{sort_by}
use stellar_mosaic.Text.{Text}
use stellar_mosaic.ActionQueue.{
  Queue, Action, Operation, OperationEvent, Request, QueueError, operation_id_of, action_id_of,
  set_action, set_operation, create_operation, found_or_queued, operation_key, find_text,
  cancel_operation, cancel_found, is_settled, get_operation, claim_action, lease_first, lease,
  heartbeat_action, beat, complete_action, complete_leased, fail_action, fail_leased,
  validate_action_lease, keep_actions, claimable_by, is_later,
}
use stellar_mosaic.ActionQueue.Leases.{IsIndexed}

abbrev pub empty_queue : Queue
empty_queue = record { operations = []; operation_keys = []; actions = []; events = []; cursor = 0 }

-- The calls that change the queue.
pub data Step (q : Queue) : Queue → Type 0 where
  creates :
      (id action_id address network : String) (request : Request) (key : Text) (now : ℕ)
      → Step q (create_operation id action_id address network request key now q).0
  cancels : (address id : String) (now : ℕ) → Step q (cancel_operation address id now q).0
  claims : (token address : String) (now : ℕ) → Step q (claim_action token address now q).0
  beats : (address id token : String) (now : ℕ) → Step q (heartbeat_action address id token now q).0
  completes :
      (address id token : String) (result : Text) (now : ℕ)
      → Step q (complete_action address id token result now q).0
  fails :
      (address id token : String) (error : Text) (retryable : Bool) (now : ℕ)
      → Step q (fail_action address id token error retryable now q).0

pub data Reaches : Queue → Type 0 where
  start : Reaches empty_queue
  next : {q q' : Queue} → Reaches q → Step q q' → Reaches q'

-- The events are numbered without a gap, up to the cursor.
abbrev pub Numbered : ℕ → List OperationEvent → ℕ → Type 0
Numbered from [] cursor = from ≡ cursor
Numbered from (e ∷ es) cursor = (e.cursor ≡ suc from) × Numbered (suc from) es cursor

pub record IsWellFormed (q : Queue) : Type 0 where
  pub actions_distinct : AreDistinct action_id_of q.actions
  pub operations_distinct : AreDistinct operation_id_of q.operations
  pub numbered : Numbered 0 q.events q.cursor

Numbered-snoc :
    (from cursor : ℕ) (es : List OperationEvent) (e : OperationEvent)
    → Numbered from es cursor
    → e.cursor ≡ suc cursor
    → Numbered from (es ++ e ∷ []) (suc cursor)
Numbered-snoc from cursor [] e h c = (c ∙ ap suc (sym h), ap suc h)
Numbered-snoc from cursor (x ∷ es) e (l, h) c = (l, Numbered-snoc (suc from) cursor es e h c)

set_action-IsWellFormed : (a : Action) (q : Queue) → IsWellFormed q → IsWellFormed (set_action a q)
set_action-IsWellFormed a q w = record {
  actions_distinct = AreDistinct-set_key action_id_of a q.actions w.actions_distinct;
  operations_distinct = w.operations_distinct;
  numbered = w.numbered;
}

set_operation-IsWellFormed :
    (o : Operation) (q : Queue) → IsWellFormed q → IsWellFormed (set_operation o q)
set_operation-IsWellFormed o q w = record {
  actions_distinct = w.actions_distinct;
  operations_distinct = AreDistinct-set_key operation_id_of o q.operations w.operations_distinct;
  numbered = w.numbered;
}

-- An event is added, and the keys of the operations do not matter.
event-IsWellFormed :
    (e : OperationEvent) (keys : List (Text × String)) (q : Queue)
    → e.cursor ≡ suc q.cursor
    → IsWellFormed q
    → IsWellFormed
        (record q { operation_keys = keys; events = q.events ++ e ∷ []; cursor = suc q.cursor })
event-IsWellFormed e keys q c w = record {
  actions_distinct = w.actions_distinct;
  operations_distinct = w.operations_distinct;
  numbered = Numbered-snoc 0 q.cursor q.events e w.numbered c;
}

create-IsWellFormed :
    (id action_id address network : String) (request : Request) (key : Text) (now : ℕ) (q : Queue)
    (o : Option String)
    → IsWellFormed q
    → IsWellFormed (found_or_queued id action_id address network request key now q o).0
create-IsWellFormed id action_id address network request key now q (some found) w = w
create-IsWellFormed id action_id address network request key now q none w =
    event-IsWellFormed _ _ _ refl (set_action-IsWellFormed _ _ (set_operation-IsWellFormed _ q w))

cancel-IsWellFormed :
    (now : ℕ) (q : Queue) (r : Result QueueError Operation)
    → IsWellFormed q
    → IsWellFormed (cancel_found now q r).0
cancel-IsWellFormed now q (throw e) w = w
cancel-IsWellFormed now q (ok o) w = elim (Bool-cases (is_settled o.status)) [
  | inl s ↦ rw s w
  | inr s ↦ rw s (event-IsWellFormed _ q.operation_keys _ refl (set_operation-IsWellFormed _ q w))
]

lease-IsWellFormed :
    (token : String) (now : ℕ) (q : Queue) (list : List Action)
    → IsWellFormed q
    → IsWellFormed (lease_first token now q list).0
lease-IsWellFormed token now q [] w = w
lease-IsWellFormed token now q (a ∷ rest) w = set_action-IsWellFormed (lease token now a) q w

beat-IsWellFormed :
    (address : String) (now : ℕ) (q : Queue) (r : Result QueueError (Operation × Action))
    → IsWellFormed q
    → IsWellFormed (beat address now q r).0
beat-IsWellFormed address now q (throw e) w = w
beat-IsWellFormed address now q (ok (o, a)) w = set_action-IsWellFormed _ q w

complete-IsWellFormed :
    (address : String) (result : Text) (now : ℕ) (q : Queue)
    (r : Result QueueError (Operation × Action))
    → IsWellFormed q
    → IsWellFormed (complete_leased address result now q r).0
complete-IsWellFormed address result now q (throw e) w = w
complete-IsWellFormed address result now q (ok (o, a)) w =
    event-IsWellFormed _ q.operation_keys _ refl
      (set_action-IsWellFormed _ _ (set_operation-IsWellFormed _ q w))

fail-IsWellFormed :
    (address : String) (error : Text) (retryable : Bool) (now : ℕ) (q : Queue)
    (r : Result QueueError (Operation × Action))
    → IsWellFormed q
    → IsWellFormed (fail_leased address error retryable now q r).0
fail-IsWellFormed address error retryable now q (throw e) w = w
fail-IsWellFormed address error retryable now q (ok (o, a)) w =
    event-IsWellFormed _ q.operation_keys _ refl
      (set_action-IsWellFormed _ _ (set_operation-IsWellFormed _ q w))

Step-IsWellFormed : (q q' : Queue) → Step q q' → IsWellFormed q → IsWellFormed q'
unfolding create_operation cancel_operation claim_action heartbeat_action complete_action
    fail_action
Step-IsWellFormed q _ (creates id action_id address network request key now) w =
    create-IsWellFormed id action_id address network request (operation_key address network key) now
      q (find_text (operation_key address network key) q.operation_keys) w
Step-IsWellFormed q _ (cancels address id now) w =
    cancel-IsWellFormed now q (get_operation address id q) w
Step-IsWellFormed q _ (claims token address now) w =
    lease-IsWellFormed token now q
      (sort_by (is_later q) (keep_actions (claimable_by address now q) q.actions)) w
Step-IsWellFormed q _ (beats address id token now) w =
    beat-IsWellFormed address now q (validate_action_lease address id token now q) w
Step-IsWellFormed q _ (completes address id token result now) w =
    complete-IsWellFormed address result now q (validate_action_lease address id token now q) w
Step-IsWellFormed q _ (fails address id token error retryable now) w =
    fail-IsWellFormed address error retryable now q (validate_action_lease address id token now q) w

-- Whatever calls are made from the empty queue, ids of actions and of operations stay distinct and
-- the events are numbered from 1 without a gap.
pub Reaches-IsWellFormed : (q : Queue) → Reaches q → IsWellFormed q
Reaches-IsWellFormed _ start = record {
  actions_distinct = tt;
  operations_distinct = tt;
  numbered = refl;
}
Reaches-IsWellFormed q' (next {q = q} r s) = Step-IsWellFormed q q' s (Reaches-IsWellFormed q r)

-- In such a queue each action is the one found under its id.
pub Reaches-IsIndexed : (q : Queue) → Reaches q → IsIndexed q
Reaches-IsIndexed q r =
    found_distinct action_id_of q.actions (Reaches-IsWellFormed q r).actions_distinct
