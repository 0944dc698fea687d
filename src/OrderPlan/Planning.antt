-- ===== src/OrderPlan/Planning.antt =====
-- The plan for an amount within the balance, whichever of the three branches makes it.
use stellar_mosaic.Prelude.{
  ℕ, suc, String, ◌≡◌, refl, sym, subst, ap, ◌∙◌, inl, inr, none, some, false, List, [], ◌∷◌, All,
  arith, Bool-cases, Option-cases, leb→le, Result, ok,
}
use stellar_mosaic.Prelude.Int.{ℤ, pos, ◌+ℤ◌, ◌-ℤ◌, ◌≤ℤ◌, ◌<ℤ◌, leb_ℤ, ltb_ℤ, int_laws}
use stellar_mosaic.Prelude.Sorting.{sort_by, sort_by-All}
use stellar_mosaic.Amount.{to_string}
use stellar_mosaic.Amount.Printing.{big_int-to_string}
use stellar_mosaic.Types.{Note}
use stellar_mosaic.OrderPlan.{
  note, AssemblyStep, split, Priced, AssemblyPlan, direct, assemble, impossible, not_positive,
  exceeds_balance, price, spendable_notes, plan_assembly, PlanError, find_exact, covering,
  is_larger, is_smaller, add_amounts, merge_notes, cover_or_merge, plan_priced,
}
use stellar_mosaic.OrderPlan.Execution.{
  amount_of, Runs, finished, splits, spent_ids, AreDistinct, ids_of,
}
use stellar_mosaic.OrderPlan.Scans.{
  All-Known, AreDistinct-take, find_exact-some, find_exact-none, covering-All, sort_by-[],
}
use stellar_mosaic.OrderPlan.Merging.{
  total, add_amounts-total, total-sort_by, AreDistinct-sort_by, Known, merge_loop-IsMerged,
}

-- A plan that yields one note of exactly `target`, and spends no note twice.
pub data IsExact (sp : List Priced) (target : ℤ) : Result PlanError AssemblyPlan → Type 0 where
  exact : (id : String) → amount_of sp id ≡ some target → IsExact sp target (ok (direct id))
  assembled :
      (steps : List AssemblyStep)
      → Runs sp none steps target
      → AreDistinct (spent_ids steps)
      → IsExact sp target (ok (assemble steps))

module _ (sp : List Priced) (target : ℤ) where
  -- One split of a note that is larger than the target.
  split-IsExact :
      (n : Priced)
      → Known sp n
      → target <ℤ n.amount
      → IsExact sp target (
          ok
            (assemble (split (note n.id) (to_string target) (to_string (n.amount -ℤ target)) ∷ [])))
  unfolding spent_ids
  split-IsExact n k lt =
      assembled _
        (splits (note n.id) _ _ n.amount target (n.amount -ℤ target) refl k
          (big_int-to_string target) (big_int-to_string (n.amount -ℤ target)) (omega int_laws)
          (omega int_laws) (finished target))
        (tt, tt)

  Known-of :
      (rest : List Priced) → All (λ p. Known sp p × (p.amount <ℤ target)) rest → All (Known sp) rest
  Known-of [] k = tt
  Known-of (p ∷ rest) ((k, lt), ks) = (k, Known-of rest ks)

  both_of :
      (rest : List Priced)
      → All (Known sp) rest
      → All (λ p. p.amount <ℤ target) rest
      → All (λ p. Known sp p × (p.amount <ℤ target)) rest
  both_of [] ks ls = tt
  both_of (p ∷ rest) (k, ks) (l, ls) = ((k, l), both_of rest ks ls)

  merge_notes-IsExact :
      (rest : List Priced)
      → All (λ p. Known sp p × (p.amount <ℤ target)) rest
      → AreDistinct (ids_of rest)
      → pos 0 <ℤ target
      → target ≤ℤ total rest
      → IsExact sp target (merge_notes target rest)
  unfolding merge_notes total
  merge_notes-IsExact [] k d positive enough = absurd (omega arith)
  merge_notes-IsExact (p ∷ rest) ((k, lt), ks) d positive enough =
      let (more, used, m) =
        merge_loop-IsMerged sp target none (note p.id) p.amount rest [] k (Known-of rest ks) lt
          enough in
      subst (λ plan. IsExact sp target (ok plan)) (sym m.plan_eq)
        (assembled more m.runs
          (subst AreDistinct (sym m.spent) (AreDistinct-take (suc used) (p ∷ rest) d)))

  -- No note is larger than the target, or one is.
  cover_or_merge-IsExact :
      (larger : List Priced)
      → All (λ p. Known sp p × (target <ℤ p.amount)) larger
      → AreDistinct (ids_of sp)
      → pos 0 <ℤ target
      → target ≤ℤ total sp
      → (larger ≡ [] → All (λ p. p.amount <ℤ target) sp)
      → IsExact sp target (cover_or_merge target larger sp)
  unfolding cover_or_merge
  cover_or_merge-IsExact (n ∷ larger) ((k, lt), _) d positive enough small = split-IsExact n k lt
  cover_or_merge-IsExact [] _ d positive enough small =
      merge_notes-IsExact (sort_by is_smaller sp)
        (sort_by-All is_smaller (λ p. Known sp p × (p.amount <ℤ target)) sp
          (both_of sp (All-Known sp d) (small refl)))
        (AreDistinct-sort_by is_smaller sp d) positive
        (subst (λ s. target ≤ℤ s) (sym (total-sort_by is_smaller sp)) enough)

  -- An amount within the balance.
  plan_priced-IsExact :
      AreDistinct (ids_of sp)
      → pos 0 <ℤ target
      → target ≤ℤ total sp
      → IsExact sp target (plan_priced target sp)
  unfolding plan_priced
  plan_priced-IsExact d positive enough =
      let sum : add_amounts (pos 0) sp ≡ total sp = add_amounts-total (pos 0) sp ∙ omega int_laws in
      let within : ltb_ℤ (add_amounts (pos 0) sp) target ≡ false = rw sum (ground arith) in
      rw within (elim (Option-cases (find_exact target sp)) [
        | inr (p, e) ↦
            let (k, same) = find_exact-some sp (Known sp) target p (All-Known sp d) e in
            rw e (exact p.id (k ∙ ap some same))
        | inl e ↦ rw e (
            cover_or_merge-IsExact (sort_by is_larger (covering target sp))
              (sort_by-All is_larger (λ p. Known sp p × (target <ℤ p.amount)) _
                (covering-All sp (Known sp) target (All-Known sp d)))
              d positive enough
              (λ empty. find_exact-none sp target e (sort_by-[] is_larger _ empty)))
      ])

zero_plus : (s : ℤ) → pos 0 +ℤ s ≡ s
zero_plus s = omega int_laws

-- What a plan for `target` is, by the sign of the target and the balance of the notes.
pub data IsPlan (sp : List Priced) (target : ℤ) (made : Result PlanError AssemblyPlan)
    : Type 0 where
  refused_sign : target ≤ℤ pos 0 → made ≡ ok (impossible not_positive) → IsPlan sp target made
  refused_size :
      pos 0 <ℤ target
      → total sp <ℤ target
      → made ≡ ok (impossible exceeds_balance)
      → IsPlan sp target made
  planned : pos 0 <ℤ target → target ≤ℤ total sp → IsExact sp target made → IsPlan sp target made

sized-IsPlan :
    (sp : List Priced) (target : ℤ)
    → AreDistinct (ids_of sp)
    → pos 0 <ℤ target
    → IsPlan sp target (plan_priced target sp)
unfolding plan_priced
sized-IsPlan sp target d positive = elim (Bool-cases (ltb_ℤ (total sp) target)) [
  | inl over ↦
      refused_size positive (ground arith)
        (rw (add_amounts-total (pos 0) sp ∙ zero_plus (total sp), over) refl)
  | inr within ↦
      planned positive (ground arith) (plan_priced-IsExact sp target d positive (ground arith))
]

-- For notes whose spendable ones have amounts that parse and distinct ids, `planAssembly` refuses
-- an amount that is not positive, refuses one beyond the balance of the spendable notes, and for
-- every other amount makes a plan: a spendable note of exactly this amount, or steps that run,
-- spend each note at most once, keep every change at or above zero, and end with an output of
-- exactly this amount.
pub plan_assembly-IsPlan :
    (notes : List Note) (asset_id : ℕ) (target : ℤ) (sp : List Priced)
    → price (spendable_notes notes asset_id) ≡ ok sp
    → AreDistinct (ids_of sp)
    → IsPlan sp target (plan_assembly notes asset_id target)
unfolding plan_assembly
plan_assembly-IsPlan notes asset_id target sp e d = elim (Bool-cases (leb_ℤ target (pos 0))) [
  | inl low ↦ refused_sign (leb→le _ _ low) (rw low refl)
  | inr high ↦ rw (high, e) (sized-IsPlan sp target d (ground arith))
]
