-- ===== src/Credentials/Tests.antt =====
-- A challenge consumed and a backup written, and the theorems at them.
use stellar_mosaic.Prelude.{◌≡◌, refl, throw, [], ◌∷◌}
use stellar_mosaic.Prelude.Keyed.{find_key, delete_key}
use stellar_mosaic.Text.{codes}
use stellar_mosaic.Credentials.{
  Credentials, StoredChallenge, unknown_challenge, consume_challenge, put_wallet_backup,
}
use stellar_mosaic.Credentials.Guarding.{consume_challenge_once, IsWrite, put_wallet_backup-IsWrite}

abbrev challenge : StoredChallenge
challenge = record { id = "c"; address = "me"; message = codes "sign"; expires_at = 100 }

abbrev before : Credentials
before = record { challenges = challenge ∷ []; sessions = []; backups = [] }

abbrev after : Credentials
after = record { challenges = []; sessions = []; backups = [] }

consume_challenge_once_example :
    consume_challenge "c" "me" 60 after ≡ (after, throw unknown_challenge)
consume_challenge_once_example =
    consume_challenge_once "c" "me" "me" 50 60 before after challenge (tt, tt)
      (unfold consume_challenge find_key delete_key in refl)

put_wallet_backup-IsWrite_example :
    IsWrite
      (λ t. t)
      "backup"
      "token"
      0
      (codes "sealed")
      before
      (put_wallet_backup (λ t. t) "backup" "token" 0 (codes "sealed") before)
put_wallet_backup-IsWrite_example =
    put_wallet_backup-IsWrite (λ t. t) "backup" "token" 0 (codes "sealed") before
