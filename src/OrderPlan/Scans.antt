-- ===== src/OrderPlan/Scans.antt =====
-- Looking a note up by its id, and the two scans for an exact and for a larger note.
use stellar_mosaic.Prelude.{
  ℕ, zero, suc, String, ◌≡◌, ◌≢◌, refl, sym, subst, ap, ◌∙◌, inl, inr, Bool, none, some, List, [],
  ◌∷◌, All, arith, eq_iff, Bool-cases, take,
}
use stellar_mosaic.Prelude.Int.{ℤ, ◌<ℤ◌, ltb_ℤ, eqb_ℤ}
use stellar_mosaic.Prelude.Sorting.{insert_by, sort_by}
use stellar_mosaic.OrderPlan.{Priced, find_exact, covering}
use stellar_mosaic.OrderPlan.Execution.{amount_of, Unused, AreDistinct, ids_of}
use stellar_mosaic.OrderPlan.Merging.{Known}

amount_of-cons :
    (p : Priced) (sp : List Priced) (id : String)
    → id ≢ p.id
    → amount_of (p ∷ sp) id ≡ amount_of sp id
unfolding amount_of
amount_of-cons p sp id h = grind (arith, eq_iff)

amount_of-here : (p : Priced) (sp : List Priced) → amount_of (p ∷ sp) p.id ≡ some p.amount
unfolding amount_of
amount_of-here p sp = grind (arith, eq_iff)

Known-cons :
    (p : Priced) (sp qs : List Priced)
    → Unused p.id (ids_of qs)
    → All (Known sp) qs
    → All (Known (p ∷ sp)) qs
Known-cons p sp [] u k = tt
Known-cons p sp (q ∷ qs) (h, u) (e, k) = (amount_of-cons p sp q.id h ∙ e, Known-cons p sp qs u k)

pub All-Known : (sp : List Priced) → AreDistinct (ids_of sp) → All (Known sp) sp
All-Known [] d = tt
All-Known (p ∷ sp) (u, d) = (amount_of-here p sp, Known-cons p sp sp u (All-Known sp d))

Unused-take :
    (id : String) (n : ℕ) (ps : List Priced)
    → Unused id (ids_of ps)
    → Unused id (ids_of (take n ps))
Unused-take id zero ps h = tt
Unused-take id (suc n) [] h = tt
Unused-take id (suc n) (p ∷ ps) (l, h) = (l, Unused-take id n ps h)

pub AreDistinct-take :
    (n : ℕ) (ps : List Priced) → AreDistinct (ids_of ps) → AreDistinct (ids_of (take n ps))
AreDistinct-take zero ps h = tt
AreDistinct-take (suc n) [] h = tt
AreDistinct-take (suc n) (p ∷ ps) (u, d) = (Unused-take p.id n ps u, AreDistinct-take n ps d)

-- What the two scans of the notes find, or rule out.
pub find_exact-some :
    (sp : List Priced) (P : Priced → Type 0) (target : ℤ) (p : Priced)
    → All P sp
    → find_exact target sp ≡ some p
    → P p × (p.amount ≡ target)
unfolding find_exact
find_exact-some [] P target p h e = absurd cc
find_exact-some (q ∷ sp) P target p (k, h) e = elim (Bool-cases (eqb_ℤ q.amount target)) [
  | inl same ↦
      let found : some q ≡ some p = sym (rw same refl) ∙ e in
      let is_q : q ≡ p = cc in
      (subst P is_q k, ap (λ (x : Priced). x.amount) (sym is_q) ∙ ground arith)
  | inr other ↦ find_exact-some sp P target p h (sym (rw other refl) ∙ e)
]

cons-≢-[] {ℓ} : {A : Type ℓ} {x : A} {xs : List A} → (x ∷ xs) ≢ []
cons-≢-[] h = cc

some-≢-none {ℓ} : {A : Type ℓ} {x : A} → some x ≢ none
some-≢-none h = cc

pub find_exact-none :
    (sp : List Priced) (target : ℤ)
    → find_exact target sp ≡ none
    → covering target sp ≡ []
    → All (λ p. p.amount <ℤ target) sp
unfolding find_exact covering
find_exact-none [] target e c = tt
find_exact-none (q ∷ sp) target e c = elim (Bool-cases (eqb_ℤ q.amount target)) [
  | inl same ↦ absurd (some-≢-none {x = q} (sym (rw same refl) ∙ e))
  | inr other ↦ elim (Bool-cases (ltb_ℤ target q.amount)) [
    | inl larger ↦ absurd (cons-≢-[] {x = q} {xs = covering target sp} (sym (rw larger refl) ∙ c))
    | inr smaller ↦ (
      ground arith,
      find_exact-none sp target (sym (rw other refl) ∙ e) (sym (rw smaller refl) ∙ c),
    )
  ]
]

pub covering-All :
    (sp : List Priced) (P : Priced → Type 0) (target : ℤ)
    → All P sp
    → All (λ p. P p × (target <ℤ p.amount)) (covering target sp)
unfolding covering
covering-All [] P target h = tt
covering-All (p ∷ sp) P target (k, h) = elim (Bool-cases (ltb_ℤ target p.amount)) [
  | inl e ↦ rw e ((k, ground arith), covering-All sp P target h)
  | inr e ↦ rw e (covering-All sp P target h)
]

module _ (after : Priced → Priced → Bool) where
  insert_by-≢-[] : (p : Priced) (ps : List Priced) → insert_by after p ps ≢ []
  unfolding insert_by
  insert_by-≢-[] p [] h = cons-≢-[] h
  insert_by-≢-[] p (q ∷ ps) h = elim (Bool-cases (after p q)) [
    | inl e ↦ cons-≢-[] {x = q} {xs = insert_by after p ps} (sym (rw e refl) ∙ h)
    | inr e ↦ cons-≢-[] {x = p} {xs = q ∷ ps} (sym (rw e refl) ∙ h)
  ]

  pub sort_by-[] : (ps : List Priced) → sort_by after ps ≡ [] → ps ≡ []
  unfolding sort_by
  sort_by-[] [] h = refl
  sort_by-[] (p ∷ ps) h = absurd (insert_by-≢-[] p (sort_by after ps) h)
