-- ===== src/ActionQueue/Tests.antt =====
-- A queue with one action, claimed and completed, and the theorems at it.
use stellar_mosaic.Prelude.{
  String, ◌≡◌, ◌≢◌, refl, some, none, ok, throw, true, false, [], ◌∷◌, ◌⊎◌, arith,
}
use stellar_mosaic.Prelude.Keyed.{find_key, set_key}
use stellar_mosaic.Prelude.Sorting.{sort_by, insert_by}
use stellar_mosaic.ActionQueue.{
  Queue, QueueError, Action, Operation, Request, waiting_for_client, succeeded, available, lease,
  create_operation, claim_action, complete_action, cancel_operation, action_claimable, keep_actions,
  find_operation, validate_action_lease, get_operation, set_action, cancelled,
}
use stellar_mosaic.ActionQueue.Invariant.{
  IsWellFormed, empty_queue, start, next, creates, claims, Reaches-IsWellFormed,
}
use stellar_mosaic.ActionQueue.Leases.{claim_action-exclusive}
use stellar_mosaic.ActionQueue.Completion.{IsHeld, complete_action_lem}

abbrev request : Request
request = record { desk_id = "desk"; kind = "order"; payload = [] }

abbrev operation : Operation
operation = record {
  id = "op";
  address = "me";
  network = "test";
  request = request;
  status = waiting_for_client;
  created_at = 1;
  updated_at = 1;
  error = none;
  submitted = false;
}

abbrev named_action : String → Action
named_action name = record {
  id = name;
  operation_id = "op";
  request = request;
  lease_token = "";
  lease_expires_at = 0;
  address = "me";
  status = available;
  result = none;
}

abbrev action : Action
action = named_action "act"

abbrev queue : Queue
queue = record {
  operations = operation ∷ [];
  operation_keys = [];
  actions = action ∷ [];
  events = [];
  cursor = 0;
}

abbrev leased_queue : Queue
leased_queue = set_action (lease "token" 10 action) queue

-- The same, with a second action.
abbrev two_actions : Queue
two_actions = record leased_queue { actions = lease "token" 10 action ∷ named_action "other" ∷ [] }

queues : Unit {0}
unfolding find_key set_key sort_by insert_by claim_action complete_action cancel_operation
    action_claimable keep_actions validate_action_lease get_operation
queues = tt

claim_action-exclusive_example : ◌≢◌ {A = String} "other" "act"
claim_action-exclusive_example =
    claim_action-exclusive "next" "me" 20 two_actions
      (set_action (lease "next" 20 (named_action "other")) two_actions) (lease "token" 10 action)
      (lease "next" 20 (named_action "other")) (unfold queues in (refl, (refl, tt)))
      (unfold queues in refl) refl (omega arith) (unfold queues in refl)

complete_action_lem_example :
    (((e : QueueError) × (complete_action "me" "act" "token" [] 20 leased_queue
          ≡ (leased_queue, throw e)))
      ⊎ ((q' : Queue) × (o : Operation) × (before : Operation) × (a : Action) × (complete_action
              "me" "act" "token" [] 20 leased_queue
            ≡ (q', ok o))
          × IsHeld "me" "act" "token" 20 leased_queue before a
          × (o ≡ record before { status = succeeded; updated_at = 20; submitted = true })
          × (find_operation o.id q' ≡ some o)))
    × ((o : Operation) (a : Action)
        → IsHeld "me" "act" "token" 20 leased_queue o a
        → (complete_action "me" "act" "token" [] 20 leased_queue).1
          ≡ ok (record o { status = succeeded; updated_at = 20; submitted = true }))
complete_action_lem_example = complete_action_lem "me" "act" "token" 20 leased_queue []

abbrev cancelled_queue : Queue
cancelled_queue = record leased_queue {
  operations = record operation { status = cancelled; updated_at = 15 } ∷ [];
}

cancel_test : (cancel_operation "me" "op" 15 leased_queue).0.operations ≡ cancelled_queue.operations
unfolding queues
cancel_test = refl

abbrev made : Queue
made =
    (claim_action "token" "me" 10
      (create_operation "op" "act" "me" "test" request [] 1 empty_queue).0).0

Reaches-IsWellFormed_example : IsWellFormed made
Reaches-IsWellFormed_example =
    Reaches-IsWellFormed made
      (next (next start (creates "op" "act" "me" "test" request [] 1)) (claims "token" "me" 10))
