-- ===== src/ActionQueue/Completion.antt =====
-- Ending an action under its lease.
use stellar_mosaic.Prelude.{
  throw_ne_ok, ok_inj, ℕ, String, ◌≤◌, arith, str_eq, ◌≡◌, refl, sym, ap, ◌∙◌, true, some, inl, inr,
  ◌⊎◌, Bool-cases, Result, ok, throw, Option-cases,
}
use stellar_mosaic.Prelude.Keyed.{find_key-set_key, str_eq-true, str_eq_refl}
use stellar_mosaic.Text.{Text}
use stellar_mosaic.ActionQueue.{
  Queue, Action, Operation, QueueError, invalid_lease, succeeded, find_action, holds_lease,
  leased_found, with_action, operation_id_of, validate_action_lease, complete_leased,
  complete_action, get_operation, find_operation,
}

module _ (address id token : String) (now : ℕ) (q : Queue) where
  -- The action stands in the queue for this address under this token, its lease has not expired, and
  -- the operation is its own.
  pub record IsHeld (o : Operation) (a : Action) : Type 0 where
    pub stands : find_action id q ≡ some a
    pub same_address : a.address ≡ address
    pub same_token : a.lease_token ≡ token
    pub running : now ≤ a.lease_expires_at
    pub its_operation : get_operation address a.operation_id q ≡ ok o

  lease_kept :
      (x : Action)
      → holds_lease address token now x ≡ true
      → (x.address ≡ address) × (x.lease_token ≡ token) × (now ≤ x.lease_expires_at)
  lease_kept x h = (
    str_eq-true x.address address (ground arith),
    str_eq-true x.lease_token token (ground arith),
    ground arith,
  )

  held_lease : (o : Operation) (a : Action) → IsHeld o a → holds_lease address token now a ≡ true
  held_lease o a h =
      let e = h.same_address in
      let t = h.same_token in
      let r = h.running in
      let f : str_eq a.address address ≡ true = rw e (str_eq_refl address) in
      let g : str_eq a.lease_token token ≡ true = rw t (str_eq_refl token) in ground arith

  validated :
      (r : Result QueueError (Operation × Action))
      → ((e : QueueError) × (r ≡ throw e)) ⊎ ((o : Operation) × (a : Action) × (r ≡ ok (o, a)))
  validated (throw e) = inl (e, refl)
  validated (ok (o, a)) = inr (o, a, refl)

  held_lem :
      (o : Operation) (a x : Action) (r : Result QueueError Operation)
      → get_operation address x.operation_id q ≡ r
      → find_action id q ≡ some x
      → holds_lease address token now x ≡ true
      → with_action x r ≡ ok (o, a)
      → IsHeld o a
  held_lem o a x (throw e) g f h w = absurd (throw_ne_ok w)
  held_lem o a x (ok o') g f h w =
      let pair : ◌≡◌ {A = Operation × Action} (o', x) (o, a) = ok_inj w in
      let is_o : o' ≡ o = ap (λ p. p.0) pair in
      let is_a : x ≡ a = ap (λ p. p.1) pair in
      let kept = lease_kept a (sym (ap (holds_lease address token now) is_a) ∙ h) in
      record {
        stands = f ∙ ap some is_a;
        same_address = kept.0;
        same_token = kept.1;
        running = kept.2;
        its_operation =
            sym (ap (λ (y : Action). get_operation address y.operation_id q) is_a) ∙ g ∙ ap ok is_o;
      }

  found_lem :
      (o : Operation) (a x : Action)
      → find_action id q ≡ some x
      → leased_found address token now q (some x) ≡ ok (o, a)
      → IsHeld o a
  found_lem o a x f e = elim (Bool-cases (holds_lease address token now x)) [
    | inl h ↦ held_lem o a x (get_operation address x.operation_id q) refl f h (sym (rw h refl) ∙ e)
    | inr h ↦ absurd (throw_ne_ok {e = invalid_lease} (sym (rw h refl) ∙ e))
  ]

  validated_lem :
      (o : Operation) (a : Action)
      → validate_action_lease address id token now q ≡ ok (o, a)
      → IsHeld o a
  unfolding validate_action_lease
  validated_lem o a e = elim (Option-cases (find_action id q)) [
    | inl n ↦ absurd (throw_ne_ok (sym (ap (leased_found address token now q) n) ∙ e))
    | inr (x, f) ↦ found_lem o a x f (sym (ap (leased_found address token now q) f) ∙ e)
  ]

  -- The outcomes of completing.
  complete_action_cases :
      (result : Text)
      → ((e : QueueError) × (complete_action address id token result now q ≡ (q, throw e)))
        ⊎ ((q' : Queue) × (o : Operation) × (before : Operation) × (a : Action) × (complete_action
                address id token result now q
              ≡ (q', ok o))
            × IsHeld before a
            × (o ≡ record before { status = succeeded; updated_at = now; submitted = true })
            × (find_operation o.id q' ≡ some o))
  unfolding complete_action
  complete_action_cases result = elim (validated (validate_action_lease address id token now q)) [
    | inl (e, v) ↦ inl (e, ap (complete_leased address result now q) v)
    | inr (o, a, v) ↦ inr (
      _,
      _,
      o,
      a,
      ap (complete_leased address result now q) v,
      validated_lem o a v,
      refl,
      find_key-set_key operation_id_of
          (record o { status = succeeded; updated_at = now; submitted = true }) q.operations,
    )
  ]

  held-validated :
      (o : Operation) (a : Action)
      → IsHeld o a
      → validate_action_lease address id token now q ≡ ok (o, a)
  unfolding validate_action_lease
  held-validated o a h =
      ap (leased_found address token now q) h.stands
      ∙ rw (held_lease o a h) (ap (with_action a) h.its_operation)

  -- Whoever holds the running lease of an action completes its operation, whatever the status of
  -- the operation is: one that has been cancelled since, or has failed, becomes succeeded.
  pub complete_action-IsHeld :
      (o : Operation) (a : Action) (result : Text)
      → IsHeld o a
      → (complete_action address id token result now q).1
        ≡ ok (record o { status = succeeded; updated_at = now; submitted = true })
  unfolding complete_action
  complete_action-IsHeld o a result h =
      ap (λ r. (complete_leased address result now q r).1) (held-validated o a h)

  -- `completeAction` throws and changes nothing, or the action of this id stands for the caller's
  -- address under the caller's token, with a lease that has not expired, and its operation is stored
  -- as succeeded and submitted. And whenever the action and its operation stand so, the call returns
  -- the operation as succeeded and submitted, whatever its status is.
  pub complete_action_lem :
      (result : Text)
      → (((e : QueueError) × (complete_action address id token result now q ≡ (q, throw e)))
          ⊎ ((q' : Queue) × (o : Operation) × (before : Operation) × (a : Action) × (complete_action
                  address id token result now q
                ≡ (q', ok o))
              × IsHeld before a
              × (o ≡ record before { status = succeeded; updated_at = now; submitted = true })
              × (find_operation o.id q' ≡ some o)))
        × ((o : Operation) (a : Action)
            → IsHeld o a
            → (complete_action address id token result now q).1
              ≡ ok (record o { status = succeeded; updated_at = now; submitted = true }))
  complete_action_lem result =
      (complete_action_cases result, λ o a h. complete_action-IsHeld o a result h)
