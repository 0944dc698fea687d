-- ===== src/NoteBook/Merging.antt =====
-- Merging two snapshots of a note, and reading old records.
use stellar_mosaic.Prelude.{
  ℕ, ◌≡◌, refl, ap, Bool, true, false, ◌||◌, Option, none, some, inl, inr, Bool-cases,
  if◌then◌else◌, or_else, max, arith, ltb, ◌==◌, ◌&&◌, ◌⊎◌,
}
use stellar_mosaic.Types.{Note, NoteBody, NoteStatus, active, spent, cancelled, protected}
use stellar_mosaic.NoteBook.{
  RawNote, RawStatus, current, pending, confirmed, stored, normalize_note, is_set, status_of,
  time_of, revision_of, is_newer, is_terminal, spread, merged_status, merge_onto, merge_note,
}

pub status_again :
    (is_cancelled : Bool) (s : RawStatus)
    → let read : NoteStatus = if is_cancelled then cancelled else status_of s in
      (if is_cancelled then cancelled else status_of (current read)) ≡ read
status_again true s = refl
status_again false (current active) = refl
status_again false (current spent) = refl
status_again false (current cancelled) = refl
status_again false pending = refl
status_again false confirmed = refl

-- Reading a record once more, after it has been written back, gives the same note.
pub normalize_note_idempotent :
    (raw : RawNote) → normalize_note (stored (normalize_note raw)) ≡ normalize_note raw
unfolding normalize_note
normalize_note_idempotent raw =
    ap (λ (s : NoteStatus). record (normalize_note raw) { status = s })
      (status_again (is_set raw.body.cancelled_at) raw.raw_status)

merged_terminal :
    (a b : NoteStatus)
    → (is_terminal (merged_status a b a) ≡ (is_terminal a || is_terminal b))
      × (is_terminal (merged_status a b b) ≡ (is_terminal a || is_terminal b))
merged_terminal active active = (refl, refl)
merged_terminal active spent = (refl, refl)
merged_terminal active cancelled = (refl, refl)
merged_terminal spent b = (refl, refl)
merged_terminal cancelled b = (refl, refl)

merged_again :
    (a b : NoteStatus)
    → (merged_status (merged_status a b a) b (merged_status a b a) ≡ merged_status a b a)
      × (merged_status (merged_status a b b) b (merged_status a b b) ≡ merged_status a b b)
merged_again active active = (refl, refl)
merged_again active spent = (refl, refl)
merged_again active cancelled = (refl, refl)
merged_again spent b = (refl, refl)
merged_again cancelled b = (refl, refl)

-- The merge of two snapshots is spent or cancelled when one of them is, is indexed when one of them
-- is, and its revision and its time are the larger ones.
pub merge_note-keeps :
    (a b : Note)
    → (is_terminal (merge_note a b).status ≡ (is_terminal a.status || is_terminal b.status))
      × ((merge_note a b).indexed ≡ (a.indexed || b.indexed))
      × (revision_of (merge_note a b) ≡ max (revision_of a) (revision_of b))
      × (time_of (merge_note a b) ≡ max (time_of a) (time_of b))
unfolding merge_note merge_onto
merge_note-keeps a b =
    let (first, second) = merged_terminal a.status b.status in
    elim (Bool-cases (is_newer b a)) [
      | inl e ↦ rw e (second, refl, refl, refl)
      | inr e ↦ rw e (first, refl, refl, refl)
    ]

or_else_first {ℓ} : {A : Type ℓ} (x y : Option A) → or_else (or_else x y) x ≡ or_else x y
or_else_first none none = refl
or_else_first none (some b) = refl
or_else_first (some a) y = refl

or_else_second {ℓ} : {A : Type ℓ} (x y : Option A) → or_else (or_else x y) y ≡ or_else x y
or_else_second none none = refl
or_else_second none (some b) = refl
or_else_second (some a) y = refl

-- The fields that a merge sets itself.
abbrev stamped : NoteBody → ℕ → ℕ → NoteBody
stamped n revision time = record n {
  recovery_state = some protected;
  revision = some revision;
  updated_at = some time;
}

-- Spreading a note that has been spread already adds nothing.
spread_first :
    (o n : NoteBody) (r t : ℕ)
    → stamped (spread n (stamped (spread o n) r t)) r t ≡ stamped (spread o n) r t
unfolding spread
spread_first o n r t = λ i. record (stamped (spread o n) r t) {
  leaf_index = or_else_first n.leaf_index o.leaf_index i;
  tx_hash = or_else_first n.tx_hash o.tx_hash i;
  cancel = or_else_first n.cancel o.cancel i;
  cancelled_at = or_else_first n.cancelled_at o.cancelled_at i;
  wallet_address = or_else_first n.wallet_address o.wallet_address i;
  recovery_version = or_else_first n.recovery_version o.recovery_version i;
  operation_id = or_else_first n.operation_id o.operation_id i;
  operation_state = or_else_first n.operation_state o.operation_state i;
}

spread_second :
    (o n : NoteBody) (r t : ℕ)
    → stamped (spread o (stamped (spread o n) r t)) r t ≡ stamped (spread o n) r t
unfolding spread
spread_second o n r t = λ i. record (stamped (spread o n) r t) {
  leaf_index = or_else_second n.leaf_index o.leaf_index i;
  tx_hash = or_else_second n.tx_hash o.tx_hash i;
  cancel = or_else_second n.cancel o.cancel i;
  cancelled_at = or_else_second n.cancelled_at o.cancelled_at i;
  wallet_address = or_else_second n.wallet_address o.wallet_address i;
  recovery_version = or_else_second n.recovery_version o.recovery_version i;
  operation_id = or_else_second n.operation_id o.operation_id i;
  operation_state = or_else_second n.operation_state o.operation_state i;
}

max_again : (a b : ℕ) → max (max a b) b ≡ max a b
max_again a b = omega arith

or_again : (a b : Bool) → ((a || b) || b) ≡ (a || b)
or_again true b = refl
or_again false true = refl
or_again false false = refl

not_newer :
    (ra rb ta tb : ℕ) → (ltb (max ra rb) rb || (rb == max ra rb && ltb (max ta tb) tb)) ≡ false
not_newer ra rb ta tb = ground arith

merge_onto-absorbs :
    (a b other newer : Note)
    → ((other ≡ a) × (newer ≡ b)) ⊎ ((other ≡ b) × (newer ≡ a))
    → let m = merge_onto a b other newer in merge_onto m b b m ≡ m
unfolding merge_onto
merge_onto-absorbs a b other newer which =
    let r = max (revision_of a) (revision_of b) in
    let t = max (time_of a) (time_of b) in
    let (first, second) = merged_again a.status b.status in
    elim which [
      | inl (o, n) ↦
          rw (o, n, max_again (revision_of a) (revision_of b), max_again (time_of a) (time_of b))
            (λ i. record {
              body = spread_first a.body b.body r t i;
              status = second i;
              indexed = or_again a.indexed b.indexed i;
            })
      | inr (o, n) ↦
          rw (o, n, max_again (revision_of a) (revision_of b), max_again (time_of a) (time_of b))
            (λ i. record {
              body = spread_second b.body a.body r t i;
              status = first i;
              indexed = or_again a.indexed b.indexed i;
            })
    ]

merge_onto_not_newer : (a b other newer : Note) → is_newer b (merge_onto a b other newer) ≡ false
unfolding merge_onto is_newer
merge_onto_not_newer a b other newer =
    not_newer (revision_of a) (revision_of b) (time_of a) (time_of b)

-- Merging a snapshot that has been merged changes nothing.
pub merge_note-absorbs : (a b : Note) → merge_note (merge_note a b) b ≡ merge_note a b
unfolding merge_note
merge_note-absorbs a b = elim (Bool-cases (is_newer b a)) [
  | inl e ↦ rw (e, merge_onto_not_newer a b a b) (merge_onto-absorbs a b a b (inl (refl, refl)))
  | inr e ↦ rw (e, merge_onto_not_newer a b b a) (merge_onto-absorbs a b b a (inr (refl, refl)))
]
