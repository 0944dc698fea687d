-- ===== src/NoteBook.antt =====
-- packages/sdk/src/notes.ts over the notes of packages/sdk/src/memoryStore.ts: the lifecycle of the
-- wallet's private notes. A stored record may be of an older format, and the store is a `Map` in the
-- order of insertion. An absent field is `none`; the clock is an argument.
pub mod Merging
pub mod Map
pub mod Keeping
pub mod Recovery
pub mod Indexing
mod Tests
use stellar_mosaic.Prelude.{
  ℕ, suc, ◌+◌, String, Bool, true, false, not, ◌&&◌, ◌||◌, Option, none, some, List, [], ◌∷◌, ◌++◌,
  map, ltb, ◌==◌, if◌then◌else◌, str_eq, max, or_else, or_value,
}
use stellar_mosaic.Prelude.Sorting.{sort_by}
use stellar_mosaic.Text.{Text, text_eq, lower_case}
use stellar_mosaic.Types.{
  NoteBody, Note, NoteStatus, active, spent, cancelled, RecoveryState, local_only, protected,
}
use stellar_mosaic.NoteTree.{ChainNote}

-- The status of a record, which older versions wrote as pending or confirmed.
pub data RawStatus : Type 0 where
  current : NoteStatus → RawStatus
  pending confirmed : RawStatus

pub record RawNote : Type 0 where
  pub body : NoteBody
  pub raw_status : RawStatus
  pub raw_indexed : Option Bool

-- A note as a record of the store.
abbrev pub stored : Note → RawNote
stored n = record { body = n.body; raw_status = current n.status; raw_indexed = some n.indexed }

-- Numbers and texts under `if`: 0 and "" count as absent.
abbrev pub is_set : Option ℕ → Bool
is_set none = false
is_set (some n) = not (n == 0)

abbrev pub is_named : Option String → Bool
is_named none = false
is_named (some s) = not (str_eq s "")

abbrev pub status_of : RawStatus → NoteStatus
status_of (current spent) = spent
status_of (current cancelled) = cancelled
status_of _ = active

abbrev is_confirmed : RawStatus → Bool
is_confirmed confirmed = true
is_confirmed _ = false

unfoldable pub normalize_note : RawNote → Note
normalize_note raw = record {
  body = record raw.body {
    recovery_state = some (
        or_value raw.body.recovery_state
          (if is_named raw.body.wallet_address then protected else local_only));
    revision = some (or_value raw.body.revision 0);
  };
  status = if is_set raw.body.cancelled_at then cancelled else status_of raw.raw_status;
  indexed = or_value raw.raw_indexed (is_confirmed raw.raw_status);
}

abbrev pub is_owned_by : String → Option String → Bool
is_owned_by wallet none = false
is_owned_by wallet (some owner) = str_eq owner wallet

-- `n.wallet_address === walletAddress`, where the argument may be absent too.
abbrev same_owner : Option String → Option String → Bool
same_owner owner none = false
same_owner owner (some wallet) = is_owned_by wallet owner

abbrev is_one : Option ℕ → Bool
is_one none = false
is_one (some n) = n == 1

-- `n.updatedAt ?? n.createdAt` and `n.revision ?? 0`
abbrev pub time_of : Note → ℕ
time_of n = or_value n.updated_at n.created_at

abbrev pub revision_of : Note → ℕ
revision_of n = or_value n.revision 0

unfoldable pub is_newer : Note → Note → Bool
is_newer b a =
    ltb (revision_of a) (revision_of b)
    || (revision_of b == revision_of a && ltb (time_of a) (time_of b))

abbrev pub is_terminal : NoteStatus → Bool
is_terminal active = false
is_terminal _ = true

-- `{ ...other, ...newer }`: a field that the newer note lacks comes from the other one. No field of a
-- note is present with the value undefined here.
unfoldable pub spread : NoteBody → NoteBody → NoteBody
spread other newer = record newer {
  leaf_index = or_else newer.leaf_index other.leaf_index;
  tx_hash = or_else newer.tx_hash other.tx_hash;
  updated_at = or_else newer.updated_at other.updated_at;
  cancel = or_else newer.cancel other.cancel;
  cancelled_at = or_else newer.cancelled_at other.cancelled_at;
  wallet_address = or_else newer.wallet_address other.wallet_address;
  recovery_version = or_else newer.recovery_version other.recovery_version;
  recovery_state = or_else newer.recovery_state other.recovery_state;
  revision = or_else newer.revision other.revision;
  operation_id = or_else newer.operation_id other.operation_id;
  operation_state = or_else newer.operation_state other.operation_state;
}

-- The status of the first of the two notes that is spent or cancelled, or else the newer one's.
abbrev pub merged_status : NoteStatus → NoteStatus → NoteStatus → NoteStatus
merged_status a b newer = if is_terminal a then a else if is_terminal b then b else newer

unfoldable pub merge_onto : Note → Note → Note → Note → Note
merge_onto a b other newer = record {
  body = record (spread other.body newer.body) {
    recovery_state = some protected;
    revision = some (max (revision_of a) (revision_of b));
    updated_at = some (max (time_of a) (time_of b));
  };
  status = merged_status a.status b.status newer.status;
  indexed = a.indexed || b.indexed;
}

unfoldable pub merge_note : Note → Note → Note
unfolding merge_onto
merge_note a b = if is_newer b a then merge_onto a b a b else merge_onto a b b a

-- The `Map` of the store: an id stands once, and setting it again keeps its place.
unfoldable pub get_note : String → List RawNote → Option RawNote
get_note id [] = none
get_note id (r ∷ rs) = let rest = get_note id rs in if str_eq r.body.id id then some r else rest

unfoldable pub put_note : RawNote → List RawNote → List RawNote
put_note n [] = n ∷ []
put_note n (r ∷ rs) =
    let rest = r ∷ put_note n rs in if str_eq r.body.id n.body.id then n ∷ rs else rest

unfoldable pub delete_note : String → List RawNote → List RawNote
delete_note id [] = []
delete_note id (r ∷ rs) =
    let rest = delete_note id rs in if str_eq r.body.id id then rs else r ∷ rest

unfoldable pub keep_notes {ℓ} : {A : Type ℓ} → (A → Bool) → List A → List A
keep_notes keep [] = []
keep_notes keep (r ∷ rs) = let rest = keep_notes keep rs in if keep r then r ∷ rest else rest

unfoldable pub by_desk : String → List RawNote → List RawNote
by_desk desk_id rs = keep_notes (λ r. str_eq r.body.desk_id desk_id) rs

-- The store and the number of change notifications.
pub record NoteManager : Type 0 where
  pub store : List RawNote
  pub notified : ℕ

abbrev pub notify : NoteManager → NoteManager
notify m = record m { notified = suc m.notified }

abbrev pub put : Note → NoteManager → NoteManager
put n m = record m { store = put_note (stored n) m.store }

unfoldable pub add : RawNote → NoteManager → NoteManager
add n m = notify (record m {
  store =
      put_note
        (record n {
          body = record n.body {
            revision = some (or_value n.body.revision 1);
            updated_at = some (or_value n.body.updated_at n.body.created_at);
          };
        })
        m.store;
})

-- The note as the wallet may see it: without an owner, or with this one.
abbrev visible_to : Option String → Note → Bool
visible_to wallet n = not (is_named n.wallet_address) || same_owner n.wallet_address wallet

abbrev is_older : Note → Note → Bool
is_older a b = ltb a.created_at b.created_at

unfoldable pub for_desk : String → Option String → NoteManager → List Note
for_desk desk_id wallet m =
    sort_by is_older (keep_notes (visible_to wallet) (map normalize_note (by_desk desk_id m.store)))

-- `patch` writes the fields of a patch.
abbrev pub patched : (Note → Note) → ℕ → Note → Note
patched patch now n =
    let p = patch n in
    record p { body = record p.body { revision = some (revision_of n + 1); updated_at = some now } }

abbrev pub update_found : (Note → Note) → ℕ → NoteManager → Option RawNote → NoteManager
update_found patch now m none = m
update_found patch now m (some raw) = notify (put (patched patch now (normalize_note raw)) m)

unfoldable pub update : String → (Note → Note) → ℕ → NoteManager → NoteManager
update id patch now m = update_found patch now m (get_note id m.store)

unfoldable pub remove : String → NoteManager → NoteManager
remove id m = notify (record m { store = delete_note id m.store })

-- The notes of an account that recovery covers.
abbrev pub is_recoverable : String → NoteBody → Bool
is_recoverable wallet n = is_owned_by wallet n.wallet_address && is_one n.recovery_version

unfoldable pub recovery_notes : String → NoteManager → List Note
recovery_notes wallet m =
    keep_notes (λ n. is_recoverable wallet n.body) (map normalize_note m.store)

abbrev is_protected : Option RecoveryState → Bool
is_protected (some protected) = true
is_protected _ = false

abbrev pub protect_one : String → Note → NoteManager × Bool → NoteManager × Bool
protect_one wallet n (m, changed) =
    if is_recoverable wallet n.body && not (is_protected n.recovery_state)
    then (put (record n { body = record n.body { recovery_state = some protected } }) m, true)
    else (m, changed)

unfoldable pub protect_all : String → List Note → NoteManager × Bool → NoteManager × Bool
protect_all wallet [] m = m
protect_all wallet (n ∷ ns) m = protect_all wallet ns (protect_one wallet n m)

abbrev pub notify_if : NoteManager × Bool → NoteManager
notify_if (m, changed) = if changed then notify m else m

unfoldable pub mark_recovery_protected : String → NoteManager → NoteManager
unfolding protect_all
mark_recovery_protected wallet m =
    notify_if (protect_all wallet (map normalize_note m.store) (m, false))

-- The record that a snapshot is stored as, or merged into the note that is there.
abbrev pub merge_found : String → Note → NoteManager → Option RawNote → NoteManager
merge_found wallet remote m none = put remote m
merge_found wallet remote m (some raw) =
    let current = normalize_note raw in
    if is_named current.wallet_address && not (is_owned_by wallet current.wallet_address)
    then m
    else put (merge_note current remote) m

-- A record of the snapshot, as a protected note.
abbrev pub remote_of : RawNote → Note
remote_of raw =
    normalize_note (record raw { body = record raw.body { recovery_state = some protected } })

unfoldable pub merge_one : String → RawNote → NoteManager → NoteManager
merge_one wallet raw m =
    let remote = remote_of raw in
    if is_recoverable wallet raw.body
    then merge_found wallet remote m (get_note remote.id m.store)
    else m

unfoldable pub merge_all : String → List RawNote → NoteManager → NoteManager
merge_all wallet [] m = m
merge_all wallet (raw ∷ incoming) m = merge_all wallet incoming (merge_one wallet raw m)

unfoldable pub merge_recovery_notes : String → List RawNote → NoteManager → NoteManager
merge_recovery_notes wallet incoming m = notify (merge_all wallet incoming m)
