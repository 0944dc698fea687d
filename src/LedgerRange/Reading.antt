-- ===== src/LedgerRange/Reading.antt =====
-- The message of an RPC server, read back.
use mathlib.Core.List.{append-nil}
use stellar_mosaic.Prelude.{
  ℕ, ◌+◌, ◌-◌, ◌*◌, ◌^◌, ◌≤◌, ◌≡◌, refl, sym, ap, ◌∙◌, subst, true, false, none, some, [], ◌∷◌,
  ◌++◌, ◌==◌, length, All, All-append, arith, le→leb, some_inj, ◌<◌,
}
use stellar_mosaic.Text.{Text, codes, is_digit, to_digits, read_digits, digit_value, char_value}
use stellar_mosaic.Text.Digits.{
  IsDecimal, to_digits-IsDecimal, read_digits-to_digits, length_pos_to_digits,
}
use stellar_mosaic.LedgerRange.{
  parse_ledger_range, numbers_from, safe_numbers, after_needle, before_needle, range_of, range_in,
  second_part,
}

read_digits-step :
    (acc c : ℕ) (s : Text)
    → is_digit c ≡ true
    → read_digits 10 acc (c ∷ s) ≡ read_digits 10 (acc * 10 + (c - b'0')) s
unfolding read_digits digit_value char_value
read_digits-step acc c s h = ground arith

-- A run of digits is the number that `read_digits` reads.
numbers_from-decimal :
    (acc n : ℕ) (s t : Text)
    → IsDecimal s
    → read_digits 10 acc s ≡ some n
    → numbers_from (some acc) (s ++ t) ≡ numbers_from (some n) t
unfolding numbers_from read_digits
numbers_from-decimal acc n [] t d h = ap (λ m. numbers_from (some m) t) (some_inj h)
numbers_from-decimal acc n (c ∷ s) t (e, d) h =
    rw e
      (numbers_from-decimal (acc * 10 + (c - b'0')) n s t d (sym (read_digits-step acc c s e) ∙ h))

numbers_from-run :
    (n : ℕ) (s t : Text)
    → 0 < length s
    → IsDecimal s
    → read_digits 10 0 s ≡ some n
    → numbers_from none (s ++ t) ≡ numbers_from (some n) t
unfolding numbers_from
numbers_from-run n [] t p d h = absurd (omega arith)
numbers_from-run n (c ∷ s) t p (e, d) h =
    rw e (numbers_from-decimal (0 * 10 + (c - b'0')) n s t d (sym (read_digits-step 0 c s e) ∙ h))

numbers_from-to_digits :
    (n : ℕ) (t : Text) → numbers_from none (to_digits 10 n ++ t) ≡ numbers_from (some n) t
numbers_from-to_digits n t =
    numbers_from-run n (to_digits 10 n) t (length_pos_to_digits 10 n) (to_digits-IsDecimal n)
      (read_digits-to_digits 10 n (omega arith) (omega arith))

-- A text without an l has no needle.
abbrev HasNoL : Text → Type 0
HasNoL = All (λ c. (b'l' == c) ≡ false)

before_needle-HasNoL : (s : Text) → HasNoL s → before_needle s ≡ s
unfolding before_needle
before_needle-HasNoL [] h = refl
before_needle-HasNoL (c ∷ s) (e, h) = rw e (ap (◌∷◌ c) (before_needle-HasNoL s h))

decimal_HasNoL : (s : Text) → IsDecimal s → HasNoL s
decimal_HasNoL [] h = tt
decimal_HasNoL (c ∷ s) (e, h) = (ground arith, decimal_HasNoL s h)

-- The range that an RPC server gives in the message of its error.
abbrev pub range_message : ℕ → ℕ → Text
range_message oldest latest =
    codes "startLedger must be within the ledger range: "
    ++ (to_digits 10 oldest ++ (codes " - " ++ to_digits 10 latest))

behind :
    (oldest latest : ℕ)
    → after_needle (range_message oldest latest)
      ≡ some (32 ∷ (to_digits 10 oldest ++ (codes " - " ++ to_digits 10 latest)))
unfolding after_needle
behind oldest latest = refl

end_of_range : (n : ℕ) → numbers_from none (to_digits 10 n) ≡ n ∷ []
unfolding numbers_from
end_of_range n =
    subst (λ s. numbers_from none s ≡ numbers_from (some n) []) (append-nil (to_digits 10 n))
      (numbers_from-to_digits n [])

numbers_behind :
    (oldest latest : ℕ)
    → numbers_from none (32 ∷ (to_digits 10 oldest ++ (codes " - " ++ to_digits 10 latest)))
      ≡ oldest ∷ latest ∷ []
unfolding numbers_from
numbers_behind oldest latest =
    numbers_from-to_digits oldest (codes " - " ++ to_digits 10 latest)
    ∙ ap (◌∷◌ oldest) (end_of_range latest)

both_safe : (m n : ℕ) → m ≤ 2 ^ 53 - 1 → n ≤ 2 ^ 53 - 1 → safe_numbers (m ∷ n ∷ []) ≡ m ∷ n ∷ []
unfolding safe_numbers
both_safe m n h k = rw (le→leb m (2 ^ 53 - 1) h, le→leb n (2 ^ 53 - 1) k) refl

-- Both numbers are safe integers: the message of the server is read back.
pub parse_ledger_range-range_message :
    (oldest latest : ℕ)
    → oldest ≤ 2 ^ 53 - 1
    → latest ≤ 2 ^ 53 - 1
    → parse_ledger_range (range_message oldest latest)
      ≡ some (record { oldest = oldest; latest = latest })
unfolding parse_ledger_range
parse_ledger_range-range_message oldest latest h k =
    let after = 32 ∷ (to_digits 10 oldest ++ (codes " - " ++ to_digits 10 latest)) in
    let no_l : HasNoL after = (
      refl,
      All-append (λ c. (b'l' == c) ≡ false) (to_digits 10 oldest)
          (codes " - " ++ to_digits 10 latest)
          (decimal_HasNoL (to_digits 10 oldest) (to_digits-IsDecimal oldest))
          (refl, (refl, (refl, decimal_HasNoL (to_digits 10 latest) (to_digits-IsDecimal latest)))),
    ) in
    ap (λ o. range_in (second_part o)) (behind oldest latest)
    ∙ ap (λ s. range_of (safe_numbers (numbers_from none s))) (before_needle-HasNoL after no_l)
    ∙ ap (λ ns. range_of (safe_numbers ns)) (numbers_behind oldest latest)
    ∙ ap range_of (both_safe oldest latest h k)
