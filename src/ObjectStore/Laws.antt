-- ===== src/ObjectStore/Laws.antt =====
-- What a store gives back: the row put last under a key, and what a change keeps of every row.
use stellar_mosaic.Prelude.{
  ◌≡◌, refl, sym, ap, subst, ◌∙◌, Bool, true, false, Option, none, some, List, [], ◌∷◌,
  if◌then◌else◌, Bool-cases, inl, inr, ◌⊎◌, some_inj, none_ne_some, All,
}
use stellar_mosaic.Text.{Text, text_eq}
use stellar_mosaic.Text.Comparing.{text_before, text_eq_refl, text_eq-true}
use stellar_mosaic.ObjectStore.{select, get, put, delete}

module _ {ℓ} {A : Type ℓ} where
  pub All-select {κ} :
      (P : A → Type κ) (keep : A → Bool) (rows : List A) → All P rows → All P (select keep rows)
  unfolding select
  All-select P keep [] h = tt
  All-select P keep (a ∷ rows) (p, h) = elim (Bool-cases (keep a)) [
    | inl e ↦ rw e (p, All-select P keep rows h)
    | inr e ↦ rw e (All-select P keep rows h)
  ]

  pub select_kept : (keep : A → Bool) (rows : List A) → All (λ a. keep a ≡ true) (select keep rows)
  unfolding select
  select_kept keep [] = tt
  select_kept keep (a ∷ rows) = elim (Bool-cases (keep a)) [
    | inl e ↦ rw e (e, select_kept keep rows)
    | inr e ↦ rw e (select_kept keep rows)
  ]

module _ {ℓ} {A : Type ℓ} (key : A → Text) where
  pub get-put : (a : A) (rows : List A) → get key (key a) (put key a rows) ≡ some a
  unfolding get put
  get-put a [] = rw (text_eq_refl (key a)) refl
  get-put a (b ∷ rows) = elim (Bool-cases (text_eq (key b) (key a))) [
    | inl e ↦ rw (e, text_eq_refl (key a)) refl
    | inr e ↦ elim (Bool-cases (text_before (key a) (key b))) [
      | inl f ↦ rw (e, f, text_eq_refl (key a)) refl
      | inr f ↦ rw (e, f, e) (get-put a rows)
    ]
  ]

  -- Two keys that are not the same: a put under one keeps what is found under the other.
  pub get-put_other :
      (k : Text) (a : A) (rows : List A)
      → text_eq (key a) k ≡ false
      → get key k (put key a rows) ≡ get key k rows
  unfolding get put
  get-put_other k a [] h = rw h refl
  get-put_other k a (b ∷ rows) h = elim (Bool-cases (text_eq (key b) (key a))) [
    | inl e ↦
        let f : text_eq (key b) k ≡ false =
          ap (λ x. text_eq x k) (text_eq-true (key b) (key a) e) ∙ h in
        rw (e, h, f) refl
    | inr e ↦ elim (Bool-cases (text_before (key a) (key b))) [
      | inl f ↦ rw (e, f, h) refl
      | inr f ↦
          rw (e, f)
            (ap (λ rest. if text_eq (key b) k then some b else rest) (get-put_other k a rows h))
    ]
  ]

  pub put-put : (a : A) (rows : List A) → put key a (put key a rows) ≡ put key a rows
  unfolding put
  put-put a [] = rw (text_eq_refl (key a)) refl
  put-put a (b ∷ rows) = elim (Bool-cases (text_eq (key b) (key a))) [
    | inl e ↦ rw (e, text_eq_refl (key a)) refl
    | inr e ↦ elim (Bool-cases (text_before (key a) (key b))) [
      | inl f ↦ rw (e, f, text_eq_refl (key a)) refl
      | inr f ↦ rw (e, f, e, f) (ap (◌∷◌ b) (put-put a rows))
    ]
  ]

  pub All-put {κ} :
      (P : A → Type κ) (a : A) (rows : List A) → P a → All P rows → All P (put key a rows)
  unfolding put
  All-put P a [] p h = (p, tt)
  All-put P a (b ∷ rows) p (q, h) = elim (Bool-cases (text_eq (key b) (key a))) [
    | inl e ↦ rw e (p, h)
    | inr e ↦ elim (Bool-cases (text_before (key a) (key b))) [
      | inl f ↦ rw (e, f) (p, (q, h))
      | inr f ↦ rw (e, f) (q, All-put P a rows p h)
    ]
  ]

  All-trivial : (rows : List A) → All (λ b. Unit {0}) rows
  All-trivial [] = tt
  All-trivial (a ∷ rows) = (tt, All-trivial rows)

  pub All-get {κ} :
      (P : A → Type κ) (k : Text) (rows : List A) (a : A)
      → All P rows
      → get key k rows ≡ some a
      → P a × (key a ≡ k)
  unfolding get
  All-get P k [] a h g = absurd (cc)
  All-get P k (b ∷ rows) a (p, h) g = elim (Bool-cases (text_eq (key b) k)) [
    | inl e ↦
        let s : ◌≡◌ {A = Option A} (some b) (some a) = sym (rw e refl) ∙ g in
        let t : b ≡ a = cc in subst (λ x. P x × (key x ≡ k)) t (p, text_eq-true (key b) k e)
    | inr e ↦ All-get P k rows a h (sym (rw e refl) ∙ g)
  ]

  pub get-key : (k : Text) (rows : List A) (a : A) → get key k rows ≡ some a → key a ≡ k
  get-key k rows a g = let (u, e) = All-get (λ b. Unit {0}) k rows a (All-trivial rows) g in e

  -- What a changed store finds was put, or was found before.
  pub get-put_cases :
      (k : Text) (a : A) (rows : List A) {b : A}
      → get key k (put key a rows) ≡ some b
      → ((k ≡ key a) × (b ≡ a)) ⊎ (get key k rows ≡ some b)
  get-put_cases k a rows {b = b} h = elim (Bool-cases (text_eq (key a) k)) [
    | inl e ↦
        let s : key a ≡ k = text_eq-true (key a) k e in
        let f : get key k (put key a rows) ≡ some a =
          subst (λ x. get key x (put key a rows) ≡ some a) s (get-put a rows) in
        inl (sym s, some_inj (sym h ∙ f))
    | inr e ↦ inr (sym (get-put_other k a rows e) ∙ h)
  ]

  pub get-delete : (d : Text) (rows : List A) → get key d (delete key d rows) ≡ none
  unfolding get delete select
  get-delete d [] = refl
  get-delete d (a ∷ rows) = elim (Bool-cases (text_eq (key a) d)) [
    | inl e ↦ rw e (get-delete d rows)
    | inr e ↦ rw (e, e) (get-delete d rows)
  ]

  pub get-delete_back :
      (k d : Text) (rows : List A) {b : A}
      → get key k (delete key d rows) ≡ some b
      → get key k rows ≡ some b
  unfolding get delete select
  get-delete_back k d [] h = h
  get-delete_back k d (a ∷ rows) {b = b} h = elim (Bool-cases (text_eq (key a) d)) [
    | inl e ↦
        let g : get key k rows ≡ some b = get-delete_back k d rows (sym (rw e refl) ∙ h) in
        elim (Bool-cases (text_eq (key a) k)) [
          | inl f ↦
              let same : d ≡ k = sym (text_eq-true (key a) d e) ∙ text_eq-true (key a) k f in
              absurd (
                none_ne_some (
                  sym (get-delete d rows)
                  ∙ subst (λ x. get key x (delete key d rows) ≡ some b) (sym same)
                      (sym (rw e refl) ∙ h)))
          | inr f ↦ rw f g
        ]
    | inr e ↦ elim (Bool-cases (text_eq (key a) k)) [
      | inl f ↦ rw f (sym (rw (e, f) refl) ∙ h)
      | inr f ↦ rw f (get-delete_back k d rows (sym (rw (e, f) refl) ∙ h))
    ]
  ]

  pub get-delete_other :
      (k d : Text) (rows : List A)
      → text_eq d k ≡ false
      → get key k (delete key d rows) ≡ get key k rows
  unfolding get delete select
  get-delete_other k d [] h = refl
  get-delete_other k d (a ∷ rows) h = elim (Bool-cases (text_eq (key a) d)) [
    | inl e ↦
        let f : text_eq (key a) k ≡ false = ap (λ x. text_eq x k) (text_eq-true (key a) d e) ∙ h in
        rw (e, f) (get-delete_other k d rows h)
    | inr e ↦
        rw e (ap (λ rest. if text_eq (key a) k then some a else rest) (get-delete_other k d rows h))
  ]
