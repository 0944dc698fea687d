-- ===== src/Credentials/Guarding.antt =====
-- A challenge is consumed once, and a backup is written only over the generation that was read.
use stellar_mosaic.Prelude.{
  ℕ, ◌+◌, String, ◌≡◌, refl, sym, ap, ◌∙◌, ◌⊎◌, inl, inr, true, false, not, ◌||◌, Option, none,
  some, Bool-cases, Result, ok, throw, throw_ne_ok, ok_inj, subst, str_eq, ltb, ◌==◌,
}
use stellar_mosaic.Prelude.Keyed.{
  find_key, set_key, delete_key, find_key-set_key, find_key-delete_key, AreDistinct,
}
use stellar_mosaic.Text.{Text}
use stellar_mosaic.Credentials.{
  StoredChallenge, StoredBackup, Credentials, CredentialError, unknown_challenge,
  generation_conflict, token_mismatch, challenge_id, backup_id, consume_found, consume_challenge,
  stored_backup, write_backup, put_wallet_backup, find_backup,
}

consumed_found :
    (address : String) (now : ℕ) (s s' : Credentials) (o : Option StoredChallenge)
    (c : StoredChallenge)
    → AreDistinct challenge_id s.challenges
    → consume_found address now s o ≡ (s', ok c)
    → find_key challenge_id c.id s'.challenges ≡ none
consumed_found address now s s' none c d e = absurd (throw_ne_ok (ap (λ p. p.1) e))
consumed_found address now s s' (some x) c d e =
    elim (Bool-cases (not (str_eq x.address address) || ltb x.expires_at now)) [
      | inl bad ↦
          let refused : ◌≡◌ {A = Credentials × Result CredentialError StoredChallenge}
              (s, throw unknown_challenge) (s', ok c) =
            sym (rw bad refl) ∙ e in
          absurd (throw_ne_ok (ap (λ p. p.1) refused))
      | inr good ↦
          let done : ◌≡◌ {A = Credentials × Result CredentialError StoredChallenge}
              (record s { challenges = delete_key challenge_id x.id s.challenges }, ok x)
              (s', ok c) =
            sym (rw good refl) ∙ e in
          let is_c : x ≡ c = ok_inj (ap (λ p. p.1) done) in
          subst (λ (y : StoredChallenge). find_key challenge_id y.id s'.challenges ≡ none) is_c
            (subst (λ (t : Credentials). find_key challenge_id x.id t.challenges ≡ none)
              (ap (λ p. p.0) done) (find_key-delete_key challenge_id x.id s.challenges d))
    ]

-- In a store whose challenges have distinct ids, a challenge that has been consumed is gone: to
-- consume its id again throws, for every address and at every time, and changes nothing.
pub consume_challenge_once :
    (id address address' : String) (now now' : ℕ) (s s' : Credentials) (c : StoredChallenge)
    → AreDistinct challenge_id s.challenges
    → consume_challenge id address now s ≡ (s', ok c)
    → consume_challenge c.id address' now' s' ≡ (s', throw unknown_challenge)
unfolding consume_challenge
consume_challenge_once id address address' now now' s s' c d e =
    ap (consume_found address' now' s')
      (consumed_found address now s s' (find_key challenge_id id s.challenges) c d e)

module _ (hash : String → String) (id token : String) (expected : ℕ) (sealed : Text)
    (s : Credentials) where
  -- The outcomes of writing a backup.
  pub data IsWrite (r : Credentials × Result CredentialError ℕ) : Type 0 where
    conflict :
        (b : StoredBackup)
        → find_backup id s ≡ some b
        → (b.generation == expected) ≡ false
        → r ≡ (s, throw generation_conflict)
        → IsWrite r
    mismatch :
        (b : StoredBackup)
        → find_backup id s ≡ some b
        → (b.generation == expected) ≡ true
        → str_eq b.write_token_hash (hash token) ≡ false
        → r ≡ (s, throw token_mismatch)
        → IsWrite r
    written :
        (s' : Credentials)
        → (find_backup id s ≡ none)
          ⊎ ((b : StoredBackup) × (find_backup id s ≡ some b)
              × ((b.generation == expected) ≡ true)
              × (str_eq b.write_token_hash (hash token) ≡ true))
        → r ≡ (s', ok (expected + 1))
        → find_backup id s' ≡ some (stored_backup hash id token (expected + 1) sealed)
        → IsWrite r

  write_backup-IsWrite :
      (o : Option StoredBackup)
      → find_backup id s ≡ o
      → IsWrite (write_backup hash id token expected sealed s o)
  write_backup-IsWrite none h =
      written _ (inl h) refl
        (find_key-set_key backup_id (stored_backup hash id token (expected + 1) sealed) s.backups)
  write_backup-IsWrite (some b) h = elim (Bool-cases (b.generation == expected)) [
    | inr other ↦ conflict b h other (rw other refl)
    | inl same ↦ elim (Bool-cases (str_eq b.write_token_hash (hash token))) [
      | inr wrong ↦ mismatch b h same wrong (rw (same, wrong) refl)
      | inl right ↦
          written
            (record s {
              backups =
                  set_key backup_id (stored_backup hash id token (expected + 1) sealed) s.backups;
            })
            (inr (b, h, same, right)) (rw (same, right) refl)
            (find_key-set_key backup_id (stored_backup hash id token (expected + 1) sealed)
              s.backups)
    ]
  ]

  -- Writing a backup throws and changes nothing when the stored one has another generation than the
  -- writer expects, or another write token; otherwise it stores the envelope with the next
  -- generation, under the writer's token.
  pub put_wallet_backup-IsWrite : IsWrite (put_wallet_backup hash id token expected sealed s)
  unfolding put_wallet_backup
  put_wallet_backup-IsWrite = write_backup-IsWrite (find_key backup_id id s.backups) refl
