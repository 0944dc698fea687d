-- ===== src/BaseShields/Enqueued.antt =====
-- A deposit that is enqueued again.
use stellar_mosaic.Prelude.{
  ℕ, true, false, ◌≡◌, refl, ap, ◌∙◌, ◌++◌, inl, inr, Option, none, some, List, [], ◌∷◌, Bool-cases,
  Result, ok, throw, arith, ok_inj, throw_ne_ok,
}
use stellar_mosaic.Text.{Text, text_eq}
use stellar_mosaic.Text.Comparing.{text_eq_refl}
use stellar_mosaic.BaseShields.{
  Desk, BaseShieldDeposit, BaseShieldJob, StoredShield, ShieldError, Enqueued,
  assert_bridge_matches, shield_key, find_shield, new_shield, kept_or_set, bridge_asserted,
  enqueue_base_shield, change_shield,
}
use stellar_mosaic.BaseShields.Steps.{Run, IsProgress, kept_by_run}

-- Under the key stands a job of this id.
pub record HasShield (key id : Text) (jobs : List StoredShield) : Type 0 where
  pub job : BaseShieldJob
  pub found : find_shield key jobs ≡ some job
  pub same_id : job.id ≡ id

find_shield-append :
    (key : Text) (jobs more : List StoredShield) (job : BaseShieldJob)
    → find_shield key jobs ≡ some job
    → find_shield key (jobs ++ more) ≡ some job
unfolding find_shield
find_shield-append key [] more job f = ground arith
find_shield-append key (s ∷ jobs) more job f = elim (Bool-cases (text_eq s.0 key)) [
  | inl e ↦ ground arith
  | inr e ↦ rw e (find_shield-append key jobs more job (ground arith))
]

find_shield-snoc :
    (key : Text) (jobs : List StoredShield) (job : BaseShieldJob)
    → find_shield key jobs ≡ none
    → find_shield key (jobs ++ (key, job) ∷ []) ≡ some job
unfolding find_shield
find_shield-snoc key [] job f = rw (text_eq_refl key) refl
find_shield-snoc key (s ∷ jobs) job f = elim (Bool-cases (text_eq s.0 key)) [
  | inl e ↦ ground arith
  | inr e ↦ rw e (find_shield-snoc key jobs job (ground arith))
]

changed_front-HasShield :
    (key id : Text) (change : BaseShieldJob → BaseShieldJob) (s : StoredShield)
    (jobs : List StoredShield)
    → IsProgress change
    → HasShield key id (s ∷ jobs)
    → HasShield key id ((s.0, change s.1) ∷ jobs)
unfolding find_shield
changed_front-HasShield key id change s jobs p h = elim (Bool-cases (text_eq s.0 key)) [
  | inl e ↦ record {
    job = change s.1;
    found = rw e refl;
    same_id =
        let f = h.found in
        let same : s.1 ≡ h.job = ground arith in p.id s.1 ∙ (ap (λ j. j.id) same ∙ h.same_id);
  }
  | inr e ↦ record { job = h.job; found = let f = h.found in ground arith; same_id = h.same_id }
]

behind-HasShield :
    (key id : Text) (s : StoredShield) (jobs : List StoredShield)
    → text_eq s.0 key ≡ false
    → HasShield key id (s ∷ jobs)
    → HasShield key id jobs
unfolding find_shield
behind-HasShield key id s jobs e h = record {
  job = h.job;
  found = let f = h.found in ground arith;
  same_id = h.same_id;
}

in_front-HasShield :
    (key id : Text) (s : StoredShield) (jobs : List StoredShield)
    → text_eq s.0 key ≡ false
    → HasShield key id jobs
    → HasShield key id (s ∷ jobs)
unfolding find_shield
in_front-HasShield key id s jobs e h = record {
  job = h.job;
  found = rw e h.found;
  same_id = h.same_id;
}

same_front-HasShield :
    (key id : Text) (s : StoredShield) (jobs others : List StoredShield)
    → text_eq s.0 key ≡ true
    → HasShield key id (s ∷ jobs)
    → HasShield key id (s ∷ others)
unfolding find_shield
same_front-HasShield key id s jobs others e h = record {
  job = h.job;
  found = let f = h.found in ground arith;
  same_id = h.same_id;
}

change_shield-HasShield :
    (key id : Text) (jobs : List StoredShield) (changed : Text)
    (change : BaseShieldJob → BaseShieldJob)
    → IsProgress change
    → HasShield key id jobs
    → HasShield key id (change_shield changed change jobs)
unfolding change_shield
change_shield-HasShield key id [] changed change p h = h
change_shield-HasShield key id (s ∷ jobs) changed change p h =
    elim (Bool-cases (text_eq s.1.id changed)) [
      | inl e ↦ rw e (changed_front-HasShield key id change s jobs p h)
      | inr e ↦ rw e (elim (Bool-cases (text_eq s.0 key)) [
        | inl k ↦ same_front-HasShield key id s jobs (change_shield changed change jobs) k h
        | inr k ↦ in_front-HasShield key id s (change_shield changed change jobs) k (
            change_shield-HasShield key id jobs changed change p
              (behind-HasShield key id s jobs k h))
      ])
    ]

enqueued-HasShield :
    (key : Text) (new job : BaseShieldJob) (jobs : List StoredShield) (found : Option BaseShieldJob)
    → find_shield key jobs ≡ found
    → (kept_or_set key new jobs found).1 ≡ ok job
    → HasShield key job.id (kept_or_set key new jobs found).0
enqueued-HasShield key new job jobs none f h = record {
  job = new;
  found = find_shield-snoc key jobs new f;
  same_id = ap (λ j. j.id) (ok_inj h);
}
enqueued-HasShield key new job jobs (some old) f h = record {
  job = old;
  found = f;
  same_id = ap (λ j. j.id) (ok_inj h);
}

asserted-HasShield :
    (key : Text) (new job : BaseShieldJob) (jobs : List StoredShield)
    (asserted : Result ShieldError (Unit {0}))
    → (bridge_asserted key new jobs asserted).1 ≡ ok job
    → (asserted ≡ ok tt) × HasShield key job.id (bridge_asserted key new jobs asserted).0
asserted-HasShield key new job jobs (throw e) h = absurd (throw_ne_ok h)
asserted-HasShield key new job jobs (ok tt) h =
    (refl, enqueued-HasShield key new job jobs (find_shield key jobs) refl h)

-- The call keeps the jobs and returns a stored one of the id.
pub record IsKept (id : Text) (jobs : List StoredShield) (outcome : Enqueued) : Type 0 where
  pub job : BaseShieldJob
  pub unchanged : outcome ≡ (jobs, ok job)
  pub same_id : job.id ≡ id

bridge_asserted-IsKept :
    (key id : Text) (new : BaseShieldJob) (jobs : List StoredShield)
    (asserted : Result ShieldError (Unit {0}))
    → asserted ≡ ok tt
    → HasShield key id jobs
    → IsKept id jobs (bridge_asserted key new jobs asserted)
bridge_asserted-IsKept key id new jobs asserted a h = record {
  job = h.job;
  unchanged = rw (a, h.found) refl;
  same_id = h.same_id;
}

-- A deposit that was enqueued, with a job as the result, and then, after any calls on the jobs while
-- the desks stay, is enqueued again with any new id and metadata: the jobs are unchanged, and the
-- result is a job with the id of the first one.
pub enqueue_base_shield_again :
    (desks : List Desk) (id desk_id bridge : Text) (deposit_id : ℕ)
    (deposit : Option BaseShieldDeposit) (jobs after : List StoredShield) (job : BaseShieldJob)
    (new_id : Text) (new_deposit : Option BaseShieldDeposit)
    → (enqueue_base_shield desks id desk_id bridge deposit_id deposit jobs).1 ≡ ok job
    → Run desks (enqueue_base_shield desks id desk_id bridge deposit_id deposit jobs).0 after
    → IsKept job.id after
        (enqueue_base_shield desks new_id desk_id bridge deposit_id new_deposit after)
unfolding enqueue_base_shield
enqueue_base_shield_again desks id desk_id bridge n deposit jobs after job new_id new_deposit h
      run =
    let key = shield_key desk_id bridge n in
    let first =
      asserted-HasShield key (new_shield id desk_id bridge n deposit) job jobs
        (assert_bridge_matches desks desk_id bridge) h in
    bridge_asserted-IsKept key job.id (new_shield new_id desk_id bridge n new_deposit) after
      (assert_bridge_matches desks desk_id bridge) first.0
      (kept_by_run desks (HasShield key job.id)
        (λ js i d b m dep has a f. record {
          job = has.job;
          found =
              find_shield-append key js ((shield_key d b m, new_shield i d b m dep) ∷ []) has.job
                has.found;
          same_id = has.same_id;
        })
        (λ js i change p has. change_shield-HasShield key job.id js i change p has)
        (enqueue_base_shield desks id desk_id bridge n deposit jobs).0 after run first.1)
