-- ===== src/Activity/Log.antt =====
-- Recording an event, and polling for the events behind a cursor.
use stellar_mosaic.Prelude.{
  ℕ, suc, ◌≤◌, ◌<◌, ◌≡◌, refl, sym, ap, ◌∙◌, Bool, true, false, none, some, List, [], ◌∷◌, ◌++◌,
  inl, inr, Bool-cases, Option-cases, arith, All,
}
use stellar_mosaic.Prelude.Sorting.{insert_by, sort_by}
use stellar_mosaic.Text.{Text}
use stellar_mosaic.Text.Comparing.{text_eq_refl}
use stellar_mosaic.Activity.{
  ActivityEvent, ActivityQuery, EventLog, key_matches, find_key, existing, record_event,
  normalize_activity_event, filter_events, found_or_appended, is_since, limited, cursor_of,
  has_larger_cursor, list_events, events_since, matches_activity_query, is_activity_time_cursor,
}

find_key-snoc :
    (key : Text) (es : List ActivityEvent) (e : ActivityEvent)
    → find_key key es ≡ none
    → key_matches key e.idempotency_key ≡ true
    → find_key key (es ++ e ∷ []) ≡ some e
unfolding find_key
find_key-snoc key [] e h k = rw k refl
find_key-snoc key (x ∷ es) e h k = elim (Bool-cases (key_matches key x.idempotency_key)) [
  | inl m ↦ absurd (ground (arith))
  | inr m ↦ rw m (find_key-snoc key es e (sym (rw m refl) ∙ h) k)
]

-- The cursors grow from `from` on, and stay below `next`.
abbrev pub Between : ℕ → List ActivityEvent → ℕ → Type 0
Between from [] next = from ≤ next
Between from (e ∷ es) next = (from ≤ cursor_of e) × Between (suc (cursor_of e)) es next

abbrev pub IsOrdered : EventLog → Type 0
IsOrdered log = Between 1 log.events log.next_cursor

Between-snoc :
    (from next : ℕ) (es : List ActivityEvent) (e : ActivityEvent)
    → Between from es next
    → cursor_of e ≡ next
    → Between from (es ++ e ∷ []) (suc next)
Between-snoc from next [] e h c = (omega arith, omega arith)
Between-snoc from next (x ∷ es) e (l, h) c = (l, Between-snoc (suc (cursor_of x)) next es e h c)

Between-from :
    (from from' next : ℕ) (es : List ActivityEvent)
    → from' ≤ from
    → Between from es next
    → Between from' es next
Between-from from from' next [] l h = omega arith
Between-from from from' next (e ∷ es) l (k, h) = (omega arith, h)

Between-filter :
    (keep : ActivityEvent → Bool) (from next : ℕ) (es : List ActivityEvent)
    → Between from es next
    → Between from (filter_events keep es) next
unfolding filter_events
Between-filter keep from next [] h = h
Between-filter keep from next (e ∷ es) (l, h) = elim (Bool-cases (keep e)) [
  | inl k ↦ rw k (l, Between-filter keep (suc (cursor_of e)) next es h)
  | inr k ↦ rw k (
      Between-from (suc (cursor_of e)) from next (filter_events keep es) (omega arith)
        (Between-filter keep (suc (cursor_of e)) next es h))
]

insert_first :
    (from next : ℕ) (e : ActivityEvent) (es : List ActivityEvent)
    → cursor_of e < from
    → Between from es next
    → insert_by has_larger_cursor e es ≡ e ∷ es
unfolding insert_by
insert_first from next e [] l h = refl
insert_first from next e (x ∷ es) l (k, h) =
    let behind : has_larger_cursor e x ≡ false = ground arith in rw behind refl

sort_ordered :
    (from next : ℕ) (es : List ActivityEvent)
    → Between from es next
    → sort_by has_larger_cursor es ≡ es
unfolding sort_by
sort_ordered from next [] h = refl
sort_ordered from next (e ∷ es) (l, h) =
    rw (sort_ordered (suc (cursor_of e)) next es h)
      (insert_first (suc (cursor_of e)) next e es (omega arith) h)

-- The two ways of recording an event.
abbrev stored_event : Text → ℕ → ActivityEvent → ℕ → ActivityEvent
stored_event event_id now e cursor =
    normalize_activity_event event_id now (record e { cursor = some cursor })

module _ (event_id : Text) (now : ℕ) (e : ActivityEvent) (log : EventLog) where
  record_found :
      (found : ActivityEvent)
      → existing e.idempotency_key log.events ≡ some found
      → record_event event_id now e log ≡ (log, found)
  unfolding record_event found_or_appended
  record_found found h = ap (found_or_appended event_id now e log) h

  record_new :
      existing e.idempotency_key log.events ≡ none
      → record_event event_id now e log ≡ (
        record {
          events = log.events ++ stored_event event_id now e log.next_cursor ∷ [];
          next_cursor = suc log.next_cursor;
        },
        stored_event event_id now e log.next_cursor,
      )
  unfolding record_event found_or_appended
  record_new h = ap (found_or_appended event_id now e log) h

  -- Whatever is recorded, the cursors of the log keep growing and stay below the next cursor.
  pub record_event-IsOrdered : IsOrdered log → IsOrdered (record_event event_id now e log).0
  record_event-IsOrdered h = elim (Option-cases (existing e.idempotency_key log.events)) [
    | inl k ↦ rw (record_new k) (
        Between-snoc 1 log.next_cursor log.events (stored_event event_id now e log.next_cursor) h
          (unfold normalize_activity_event in refl))
    | inr (found, k) ↦ rw (record_found found k) h
  ]

existing-snoc :
    (c : ℕ) (key : Text) (es : List ActivityEvent) (e : ActivityEvent)
    → existing (some (c ∷ key)) es ≡ none
    → e.idempotency_key ≡ some (c ∷ key)
    → existing (some (c ∷ key)) (es ++ e ∷ []) ≡ some e
unfolding existing
existing-snoc c key es e h k = find_key-snoc (c ∷ key) es e h (rw k (text_eq_refl (c ∷ key)))

-- An event with a key that is not empty is recorded once: recording an event with the same key
-- again gives the event that was stored and leaves the log as it is.
pub record_event_once :
    (id id' : Text) (now now' : ℕ) (e e' : ActivityEvent) (log : EventLog) (c : ℕ) (key : Text)
    → e.idempotency_key ≡ some (c ∷ key)
    → e'.idempotency_key ≡ some (c ∷ key)
    → record_event id' now' e' (record_event id now e log).0 ≡ record_event id now e log
record_event_once id id' now now' e e' log c key k k' =
    elim (Option-cases (existing e.idempotency_key log.events)) [
      | inl m ↦ rw (record_new id now e log m) (
          record_found id' now' e' _ (stored_event id now e log.next_cursor) (
            ap (λ o. existing o (log.events ++ stored_event id now e log.next_cursor ∷ [])) k'
            ∙ existing-snoc c key log.events (stored_event id now e log.next_cursor)
                (ap (λ o. existing o log.events) (sym k) ∙ m)
                (unfold normalize_activity_event in k)))
      | inr (found, m) ↦
          rw (record_found id now e log found m)
            (record_found id' now' e' log found (ap (λ o. existing o log.events) (k' ∙ sym k) ∙ m))
    ]

filter-append :
    (keep : ActivityEvent → Bool) (xs ys : List ActivityEvent)
    → filter_events keep (xs ++ ys) ≡ filter_events keep xs ++ filter_events keep ys
unfolding filter_events
filter-append keep [] ys = refl
filter-append keep (x ∷ xs) ys = elim (Bool-cases (keep x)) [
  | inl k ↦ rw k (ap (◌∷◌ x) (filter-append keep xs ys))
  | inr k ↦ rw k (filter-append keep xs ys)
]

module _ (last : ℕ) (low : is_activity_time_cursor last ≡ false) (P : ActivityEvent → Bool) where
  old_since :
      (es : List ActivityEvent)
      → All (λ e. cursor_of e ≤ last) es
      → filter_events (is_since last) (filter_events P es) ≡ []
  unfolding filter_events
  old_since [] h = refl
  old_since (e ∷ es) (l, h) = elim (Bool-cases (P e)) [
    | inl k ↦
        let behind : is_since last e ≡ false = rw low (ground arith) in
        rw (k, behind) (old_since es h)
    | inr k ↦ rw k (old_since es h)
  ]

  new_since :
      (es : List ActivityEvent)
      → All (λ e. last < cursor_of e) es
      → filter_events (is_since last) (filter_events P es) ≡ filter_events P es
  unfolding filter_events
  new_since [] h = refl
  new_since (e ∷ es) (l, h) = elim (Bool-cases (P e)) [
    | inl k ↦
        let ahead : is_since last e ≡ true = rw low (ground arith) in
        rw (k, ahead) (ap (◌∷◌ e) (new_since es h))
    | inr k ↦ rw k (new_since es h)
  ]

-- A client that polls an ordered log with the last cursor it has seen and a query without a limit
-- gets exactly the newer events that match the query, in the order of their recording. The cursor
-- is below 10 ^ 12, from where on `since` takes it for a time.
pub events_since-append :
    (last : ℕ) (q : ActivityQuery) (old new : List ActivityEvent) (next : ℕ)
    → is_activity_time_cursor last ≡ false
    → q.limit ≡ none
    → IsOrdered (record { events = old ++ new; next_cursor = next })
    → All (λ e. cursor_of e ≤ last) old
    → All (λ e. last < cursor_of e) new
    → events_since last q (record { events = old ++ new; next_cursor = next })
      ≡ filter_events (λ e. matches_activity_query e q) new
unfolding events_since list_events
events_since-append last q old new next low free h o n =
    let P : ActivityEvent → Bool = λ e. matches_activity_query e q in
    let es = filter_events P (old ++ new) in
    ap (λ o. filter_events (is_since last) (limited o (sort_by has_larger_cursor es))) free
    ∙ rw
        (
          sort_ordered 1 next es (Between-filter P 1 next (old ++ new) h),
          filter-append P old new,
          filter-append (is_since last) (filter_events P old) (filter_events P new),
          old_since last low P old o,
        )
        (new_since last low P new n)
