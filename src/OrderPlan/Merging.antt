-- ===== src/OrderPlan/Merging.antt =====
-- Sorting keeps the notes, and merging them largest first reaches every amount up to the balance.
use stellar_mosaic.Prelude.{
  ℕ, suc, String, ◌≡◌, ◌≢◌, refl, sym, ap, ◌∙◌, inl, inr, Bool, Option, some, true, false, List, [],
  ◌∷◌, ◌++◌, All, arith, Bool-cases, take, leb→le,
}
use stellar_mosaic.Prelude.Int.{ℤ, pos, ◌+ℤ◌, ◌-ℤ◌, ◌≤ℤ◌, ◌<ℤ◌, leb_ℤ, int_laws}
use stellar_mosaic.Prelude.Sorting.{insert_by, sort_by}
use stellar_mosaic.Amount.{to_string}
use stellar_mosaic.Amount.Printing.{big_int-to_string}
use stellar_mosaic.OrderPlan.{
  JoinInputRef, note, prev, AssemblyStep, join, Priced, AssemblyPlan, assemble, merge_loop,
  add_amounts,
}
use stellar_mosaic.OrderPlan.Execution.{
  amount_of, value_of, Runs, finished, joins, spent_ids, Unused, AreDistinct, ids_of, refs,
}

-- The amounts, added up from the right.
unfoldable pub total : List Priced → ℤ
total [] = pos 0
total (p ∷ ps) = p.amount +ℤ total ps

pub add_amounts-total : (s : ℤ) (ps : List Priced) → add_amounts s ps ≡ s +ℤ total ps
unfolding add_amounts total
add_amounts-total s [] = omega int_laws
add_amounts-total s (p ∷ ps) = add_amounts-total (s +ℤ p.amount) ps ∙ omega int_laws

module _ (after : Priced → Priced → Bool) where
  total-insert_by :
      (p : Priced) (ps : List Priced) → total (insert_by after p ps) ≡ p.amount +ℤ total ps
  unfolding total insert_by
  total-insert_by p [] = refl
  total-insert_by p (q ∷ ps) = elim (Bool-cases (after p q)) [
    | inl e ↦ rw (e, total-insert_by p ps) (omega int_laws)
    | inr e ↦ rw e refl
  ]

  pub total-sort_by : (ps : List Priced) → total (sort_by after ps) ≡ total ps
  unfolding total sort_by
  total-sort_by [] = refl
  total-sort_by (p ∷ ps) =
      total-insert_by p (sort_by after ps) ∙ ap (λ t. p.amount +ℤ t) (total-sort_by ps)

  Unused-insert_by :
      (id : String) (p : Priced) (ps : List Priced)
      → p.id ≢ id
      → Unused id (ids_of ps)
      → Unused id (ids_of (insert_by after p ps))
  unfolding insert_by
  Unused-insert_by id p [] h k = (h, tt)
  Unused-insert_by id p (q ∷ ps) h (l, k) = elim (Bool-cases (after p q)) [
    | inl e ↦ rw e (l, Unused-insert_by id p ps h k)
    | inr e ↦ rw e (h, (l, k))
  ]

  AreDistinct-insert_by :
      (p : Priced) (ps : List Priced)
      → Unused p.id (ids_of ps)
      → AreDistinct (ids_of ps)
      → AreDistinct (ids_of (insert_by after p ps))
  unfolding insert_by
  AreDistinct-insert_by p [] h d = (tt, tt)
  AreDistinct-insert_by p (q ∷ ps) (l, h) (u, d) = elim (Bool-cases (after p q)) [
    | inl e ↦ rw e (Unused-insert_by q.id p ps (λ s. l (sym s)) u, AreDistinct-insert_by p ps h d)
    | inr e ↦ rw e ((l, h), (u, d))
  ]

  Unused-sort_by :
      (id : String) (ps : List Priced)
      → Unused id (ids_of ps)
      → Unused id (ids_of (sort_by after ps))
  unfolding sort_by
  Unused-sort_by id [] h = tt
  Unused-sort_by id (p ∷ ps) (l, h) =
      Unused-insert_by id p (sort_by after ps) l (Unused-sort_by id ps h)

  pub AreDistinct-sort_by :
      (ps : List Priced) → AreDistinct (ids_of ps) → AreDistinct (ids_of (sort_by after ps))
  unfolding sort_by
  AreDistinct-sort_by [] h = tt
  AreDistinct-sort_by (p ∷ ps) (u, d) =
      AreDistinct-insert_by p (sort_by after ps) (Unused-sort_by p.id ps u)
        (AreDistinct-sort_by ps d)

-- The sum of a step's inputs is split into its target and its change.
split_sum : (s target : ℤ) → s ≡ target +ℤ (s -ℤ target)
split_sum s target = omega int_laws

plus_zero : (s : ℤ) → s ≡ s +ℤ pos 0
plus_zero s = omega int_laws

change_nonneg : (s target : ℤ) → leb_ℤ target s ≡ true → pos 0 ≤ℤ s -ℤ target
change_nonneg s target h = let le : target ≤ℤ s = leb→le _ _ h in omega int_laws

short_sum : (s target : ℤ) → leb_ℤ target s ≡ false → s <ℤ target
short_sum s target h = ground arith

-- The step that merges a note into the sum so far.
abbrev merge_step : JoinInputRef → Priced → ℤ → AssemblyStep
merge_step acc_ref n sum = join acc_ref (note n.id) (to_string sum) (to_string (pos 0))

append_assoc {ℓ} : {A : Type ℓ} (xs ys zs : List A) → (xs ++ ys) ++ zs ≡ xs ++ (ys ++ zs)
append_assoc [] ys zs = refl
append_assoc (x ∷ xs) ys zs = ap (◌∷◌ x) (append_assoc xs ys zs)

-- The lookup of a note finds its amount.
abbrev pub Known : List Priced → Priced → Type 0
Known sp p = amount_of sp p.id ≡ some p.amount

module _ (sp : List Priced) (target : ℤ) where
  -- What the loop makes of the notes `rest`: steps that run to the target, and spend the note that
  -- it starts from and the first `used` of `rest`.
  pub record IsMerged (last : Option ℤ) (acc_ref : JoinInputRef) (rest : List Priced)
      (made : AssemblyPlan) (steps more : List AssemblyStep) (used : ℕ) : Type 0 where
    pub plan_eq : made ≡ assemble (steps ++ more)
    pub runs : Runs sp last more target
    pub spent : spent_ids more ≡ refs acc_ref ++ ids_of (take used rest)

  reached-IsMerged :
      {last : Option ℤ} (acc_ref : JoinInputRef) (acc : ℤ) (n : Priced) (rest : List Priced)
      (steps : List AssemblyStep)
      → value_of sp last acc_ref ≡ some acc
      → Known sp n
      → leb_ℤ target (acc +ℤ n.amount) ≡ true
      → IsMerged last acc_ref
          (n ∷ rest)
          (merge_loop target acc_ref acc (n ∷ rest) steps)
          steps
          (join acc_ref (note n.id) (to_string target) (to_string (acc +ℤ n.amount -ℤ target)) ∷ [])
          1
  unfolding merge_loop spent_ids
  reached-IsMerged acc_ref acc n rest steps v k reached = record {
    plan_eq = rw reached refl;
    runs =
        joins acc_ref (note n.id) _ _ acc n.amount target (acc +ℤ n.amount -ℤ target) refl v k
          (big_int-to_string target) (big_int-to_string (acc +ℤ n.amount -ℤ target))
          (split_sum (acc +ℤ n.amount) target) (change_nonneg (acc +ℤ n.amount) target reached)
          (finished target);
    spent = refl;
  }

  missed-IsMerged :
      {last : Option ℤ} (acc_ref : JoinInputRef) (acc : ℤ) (n : Priced) (rest : List Priced)
      (steps more : List AssemblyStep) (used : ℕ)
      → value_of sp last acc_ref ≡ some acc
      → Known sp n
      → leb_ℤ target (acc +ℤ n.amount) ≡ false
      → let step = merge_step acc_ref n (acc +ℤ n.amount) in
        IsMerged
          (some (acc +ℤ n.amount))
          prev
          rest
          (merge_loop target prev (acc +ℤ n.amount) rest (steps ++ step ∷ []))
          (steps ++ step ∷ [])
          more
          used
        → IsMerged last acc_ref
            (n ∷ rest)
            (merge_loop target acc_ref acc (n ∷ rest) steps)
            steps
            (step ∷ more)
            (suc used)
  unfolding merge_loop spent_ids
  missed-IsMerged acc_ref acc n rest steps more used v k missed m = record {
    plan_eq = rw missed (m.plan_eq ∙ ap assemble (append_assoc steps _ more));
    runs =
        joins acc_ref (note n.id) _ _ acc n.amount (acc +ℤ n.amount) (pos 0) refl v k
          (big_int-to_string (acc +ℤ n.amount)) (big_int-to_string (pos 0))
          (plus_zero (acc +ℤ n.amount)) (omega arith) m.runs;
    spent = ap (λ ids. refs acc_ref ++ (n.id ∷ ids)) m.spent;
  }

  pub merge_loop-IsMerged :
      (last : Option ℤ) (acc_ref : JoinInputRef) (acc : ℤ) (rest : List Priced)
      (steps : List AssemblyStep)
      → value_of sp last acc_ref ≡ some acc
      → All (Known sp) rest
      → acc <ℤ target
      → target ≤ℤ acc +ℤ total rest
      → (more : List AssemblyStep) × (used : ℕ) × IsMerged last acc_ref rest
          (merge_loop target acc_ref acc rest steps)
          steps
          more
          used
  unfolding total
  merge_loop-IsMerged last acc_ref acc [] steps v k short enough = absurd (omega (int_laws))
  merge_loop-IsMerged last acc_ref acc (n ∷ rest) steps v (k, ks) short enough =
      elim (Bool-cases (leb_ℤ target (acc +ℤ n.amount))) [
        | inl reached ↦ (_, 1, reached-IsMerged acc_ref acc n rest steps v k reached)
        | inr missed ↦
            let sum = acc +ℤ n.amount in
            let (more, used, m) =
              merge_loop-IsMerged (some sum) prev sum rest (steps ++ merge_step acc_ref n sum ∷ [])
                refl ks (short_sum sum target missed) (omega int_laws) in
            (_, suc used, missed-IsMerged acc_ref acc n rest steps more used v k missed m)
      ]
