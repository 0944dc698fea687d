-- ===== src/Credentials.antt =====
-- packages/mcp/src/store.ts: the login challenges, the sessions and the wallet backups of
-- `MemoryMosaicStore`. The SHA-256 of a token is a parameter; random ids and tokens and the clock are
-- arguments.
pub mod Guarding
mod Tests
use stellar_mosaic.Prelude.{
  ℕ, ◌+◌, String, Bool, true, false, not, ◌&&◌, ◌||◌, Option, none, some, List, ltb, ◌==◌,
  if◌then◌else◌, Result, ok, throw, str_eq,
}
use stellar_mosaic.Prelude.Keyed.{find_key, set_key, delete_key}
use stellar_mosaic.Text.{Text}

-- CHALLENGE_TTL_MS and SESSION_TTL_MS
abbrev pub challenge_ttl_ms : ℕ
challenge_ttl_ms = 300000

abbrev pub session_ttl_ms : ℕ
session_ttl_ms = 3600000

pub record StoredChallenge : Type 0 where
  pub id : String
  pub address : String
  pub message : Text
  pub expires_at : ℕ

pub record StoredSession : Type 0 where
  pub token_hash : String
  pub address : String
  pub network : String
  pub expires_at : ℕ

-- The envelope; what it holds beside its generation is one text here.
pub record Envelope : Type 0 where
  pub generation : ℕ
  pub sealed : Text

pub record StoredBackup : Type 0 where
  pub id : String
  pub write_token_hash : String
  pub generation : ℕ
  pub sealed : Text

pub record Credentials : Type 0 where
  pub challenges : List StoredChallenge
  pub sessions : List StoredSession
  pub backups : List StoredBackup

pub data CredentialError : Type 0 where
  unknown_challenge generation_conflict token_mismatch : CredentialError

abbrev pub challenge_id : StoredChallenge → String
challenge_id c = c.id

abbrev pub session_hash : StoredSession → String
session_hash s = s.token_hash

abbrev pub backup_id : StoredBackup → String
backup_id b = b.id

unfoldable pub create_challenge :
    (id address : String) → Text → ℕ → Credentials → Credentials × StoredChallenge
create_challenge id address message now s =
    let c : StoredChallenge = record {
      id = id;
      address = address;
      message = message;
      expires_at = now + challenge_ttl_ms;
    } in
    (record s { challenges = set_key challenge_id c s.challenges }, c)

abbrev pub consume_found :
    String
    → ℕ
    → Credentials
    → Option StoredChallenge
    → Credentials × Result CredentialError StoredChallenge
consume_found address now s none = (s, throw unknown_challenge)
consume_found address now s (some c) =
    if not (str_eq c.address address) || ltb c.expires_at now
    then (s, throw unknown_challenge)
    else (record s { challenges = delete_key challenge_id c.id s.challenges }, ok c)

unfoldable pub consume_challenge :
    (id address : String) → ℕ → Credentials → Credentials × Result CredentialError StoredChallenge
consume_challenge id address now s =
    consume_found address now s (find_key challenge_id id s.challenges)

module _ (hash : String → String) where
  unfoldable pub create_session : (token address network : String) → ℕ → Credentials → Credentials
  create_session token address network now s = record s {
    sessions =
        set_key session_hash
          (record {
            token_hash = hash token;
            address = address;
            network = network;
            expires_at = now + session_ttl_ms;
          })
          s.sessions;
  }

  abbrev pub running : ℕ → Option StoredSession → Option StoredSession
  running now none = none
  running now (some s) = if ltb s.expires_at now then none else some s

  unfoldable pub get_session : String → ℕ → Credentials → Option StoredSession
  get_session token now s = running now (find_key session_hash (hash token) s.sessions)

  unfoldable pub delete_session : String → Credentials → Credentials
  delete_session token s = record s { sessions = delete_key session_hash (hash token) s.sessions }

  abbrev pub stored_backup : (id token : String) → ℕ → Text → StoredBackup
  stored_backup id token generation sealed = record {
    id = id;
    write_token_hash = hash token;
    generation = generation;
    sealed = sealed;
  }

  abbrev pub write_backup :
      (id token : String)
      → ℕ
      → Text
      → Credentials
      → Option StoredBackup
      → Credentials × Result CredentialError ℕ
  write_backup id token expected sealed s none = (
    record s {
      backups = set_key backup_id (stored_backup id token (expected + 1) sealed) s.backups;
    },
    ok (expected + 1),
  )
  write_backup id token expected sealed s (some b) =
      if not (b.generation == expected)
      then (s, throw generation_conflict)
      else if not (str_eq b.write_token_hash (hash token))
      then (s, throw token_mismatch)
      else (
        record s {
          backups = set_key backup_id (stored_backup id token (expected + 1) sealed) s.backups;
        },
        ok (expected + 1),
      )

  unfoldable pub put_wallet_backup :
      (id token : String) → ℕ → Text → Credentials → Credentials × Result CredentialError ℕ
  put_wallet_backup id token expected sealed s =
      write_backup id token expected sealed s (find_key backup_id id s.backups)

abbrev pub find_backup : String → Credentials → Option StoredBackup
find_backup id s = find_key backup_id id s.backups

-- Without the hash of the write token.
abbrev pub envelope_of : Option StoredBackup → Option Envelope
envelope_of none = none
envelope_of (some b) = some (record { generation = b.generation; sealed = b.sealed })

unfoldable pub get_wallet_backup : String → Credentials → Option Envelope
get_wallet_backup id s = envelope_of (find_backup id s)
