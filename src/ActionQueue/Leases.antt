-- ===== src/ActionQueue/Leases.antt =====
-- Claiming an action: the lease, and that no one else gets the action while it runs.
use stellar_mosaic.Prelude.{
  none_ne_some, some_inj, true_ne_false, ℕ, ◌≤◌, String, ◌≡◌, ◌≢◌, refl, sym, ap, ◌∙◌, subst, Bool,
  true, false, ◌&&◌, some, List, [], ◌∷◌, inl, inr, Bool-cases, All, arith, str_eq,
}
use stellar_mosaic.Prelude.Keyed.{find_key, set_key, find_key-set_key}
use stellar_mosaic.Prelude.Sorting.{sort_by-All}
use stellar_mosaic.ActionQueue.{
  Queue, Action, leased, action_id_of, find_action, claimable_by, action_claimable, is_free,
  keep_actions, is_later, lease, lease_first, claim_action,
}

-- Each action is the one found under its id.
abbrev pub IsIndexed : Queue → Type 0
IsIndexed q = All (λ a. find_action a.id q ≡ some a) q.actions

blocked : (x y f : Bool) → f ≡ false → (x && (y && f)) ≡ false
blocked false y f h = refl
blocked true false f h = refl
blocked true true f h = h

keep_actions-All :
    (keep : Action → Bool) (P : Action → Type 0) (list : List Action)
    → All P list
    → All (λ a. P a × (keep a ≡ true)) (keep_actions keep list)
unfolding keep_actions
keep_actions-All keep P [] h = tt
keep_actions-All keep P (a ∷ rest) (p, h) = elim (Bool-cases (keep a)) [
  | inl e ↦ rw e ((p, e), keep_actions-All keep P rest h)
  | inr e ↦ rw e (keep_actions-All keep P rest h)
]

module _ (token address : String) (now : ℕ) (q : Queue) where
  -- What the claim of an action rests on, and what it leaves.
  pub record IsClaim (q' : Queue) (b : Action) : Type 0 where
    pub free : Action
    pub stands : find_action free.id q ≡ some free
    pub was_claimable : claimable_by address now q free ≡ true
    pub is_lease : b ≡ lease token now free
    pub found : find_action b.id q' ≡ some b

  lease_first-IsClaim :
      (list : List Action) (q' : Queue) (b : Action)
      → All (λ a. (find_action a.id q ≡ some a) × (claimable_by address now q a ≡ true)) list
      → lease_first token now q list ≡ (q', some b)
      → IsClaim q' b
  lease_first-IsClaim [] q' b h e = absurd (none_ne_some (ap (λ p. p.1) e))
  lease_first-IsClaim (a ∷ rest) q' b ((f, c), h) e =
      let is_b : lease token now a ≡ b = some_inj (ap (λ p. p.1) e) in
      record {
        free = a;
        stands = f;
        was_claimable = c;
        is_lease = sym is_b;
        found =
            subst (λ x. find_action b.id x ≡ some b) (ap (λ p. p.0) e)
              (subst
                (λ x.
                  find_key action_id_of x.id (set_key action_id_of (lease token now a) q.actions)
                  ≡ some x)
                is_b (find_key-set_key action_id_of (lease token now a) q.actions));
      }

  -- In a queue that finds each action under its id, a claim that gives an action gives a lease on one
  -- that was claimable: an action of the address, of a waiting operation, and available or with its
  -- lease run out. The lease is stored.
  pub claim_action-IsClaim :
      (q' : Queue) (b : Action)
      → IsIndexed q
      → claim_action token address now q ≡ (q', some b)
      → IsClaim q' b
  unfolding claim_action
  claim_action-IsClaim q' b i e =
      lease_first-IsClaim _ q' b
        (sort_by-All (is_later q)
          (λ a. (find_action a.id q ≡ some a) × (claimable_by address now q a ≡ true)) _
          (keep_actions-All (claimable_by address now q) (λ a. find_action a.id q ≡ some a)
            q.actions i))
        e

  leased_not_claimable :
      (a : Action)
      → a.status ≡ leased
      → now ≤ a.lease_expires_at
      → claimable_by address now q a ≡ false
  unfolding action_claimable
  leased_not_claimable a s l =
      let busy : is_free a.status a.lease_expires_at now ≡ false =
        ap (λ st. is_free st a.lease_expires_at now) s ∙ ground arith in
      blocked (str_eq a.address address) _ (is_free a.status a.lease_expires_at now) busy

  -- In a queue that finds each action under its id, while a lease runs no claim gives its action,
  -- whoever makes it.
  pub claim_action-exclusive :
      (q' : Queue) (a b : Action)
      → IsIndexed q
      → find_action a.id q ≡ some a
      → a.status ≡ leased
      → now ≤ a.lease_expires_at
      → claim_action token address now q ≡ (q', some b)
      → b.id ≢ a.id
  claim_action-exclusive q' a b i f s l e same =
      let c = claim_action-IsClaim q' b i e in
      let at : c.free.id ≡ a.id = sym (ap (λ (x : Action). x.id) c.is_lease) ∙ same in
      let is_a : c.free ≡ a = some_inj (sym c.stands ∙ ap (λ x. find_action x q) at ∙ f) in
      true_ne_false
        (sym c.was_claimable ∙ ap (claimable_by address now q) is_a ∙ leased_not_claimable a s l)
