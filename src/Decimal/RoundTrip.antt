-- ===== src/Decimal/RoundTrip.antt =====
-- What `Itoa` writes, `Atoi` reads.
use Prim.Native.Char.{code}
use lib_service_discovery.Common.{
  ℕ, zero, suc, ◌+◌, ◌*◌, ◌/◌, ◌%◌, ◌≤◌, ◌<◌, String, ◌≡◌, refl, ◌∙◌, ap, sym, subst, Bool, Option,
  none, nat_eq, if_true, if_false, true, false, some, arith, ltb, Bool-cases, inl, inr,
}
use lib_service_discovery.Common.Int.{ℤ, pos, negsuc}
use lib_service_discovery.Decimal.{
  digit, emit, format_nat, itoa, scan, digits, to_int, atoi, IsInt, int_limit,
}

code-digit : (d : ℕ) → d < 10 → code (digit d) ≡ b'0' + d
unfolding digit
code-digit zero h = refl
code-digit (suc zero) h = refl
code-digit (suc (suc zero)) h = refl
code-digit (suc (suc (suc zero))) h = refl
code-digit (suc (suc (suc (suc zero)))) h = refl
code-digit (suc (suc (suc (suc (suc zero))))) h = refl
code-digit (suc (suc (suc (suc (suc (suc zero)))))) h = refl
code-digit (suc (suc (suc (suc (suc (suc (suc zero))))))) h = refl
code-digit (suc (suc (suc (suc (suc (suc (suc (suc zero)))))))) h = refl
code-digit (suc (suc (suc (suc (suc (suc (suc (suc (suc zero))))))))) h = refl
code-digit (suc (suc (suc (suc (suc (suc (suc (suc (suc (suc n)))))))))) h = absurd (omega arith)

scan-digit :
    (d : ℕ) (s : String) (acc : ℕ)
    → d < 10
    → scan (String.◌∷◌ (digit d) s) acc ≡ scan s (acc * 10 + d)
unfolding scan
scan-digit d s acc h = ground (arith, code-digit d h)

emit-scan : (f n : ℕ) (out : String) → n < f → scan (emit f n out) 0 ≡ scan out n
unfolding emit
emit-scan zero n out h = absurd (omega arith)
emit-scan (suc f) n out h = elim (Bool-cases (ltb n 10)) [
  | inl small ↦ rw small (scan-digit n out 0 (ground arith) ∙ ap (scan out) (omega arith))
  | inr large ↦ rw large (
      emit-scan f (n / 10) (String.◌∷◌ (digit (n % 10)) out) (ground arith)
      ∙ scan-digit (n % 10) out (n / 10) (omega arith)
      ∙ ap (scan out) (omega arith))
]

-- A text that begins with a digit, and so neither is empty nor has a sign.
StartsDigit : String → Type 0
StartsDigit String.[] = ⊥
StartsDigit (String.◌∷◌ c s) = b'0' ≤ code c

digit-StartsDigit : (d : ℕ) (s : String) → d < 10 → StartsDigit (String.◌∷◌ (digit d) s)
unfolding StartsDigit
digit-StartsDigit d s h = omega (arith, code-digit d h)

emit-StartsDigit : (f n : ℕ) (out : String) → n < f → StartsDigit (emit f n out)
unfolding emit
emit-StartsDigit zero n out h = absurd (omega arith)
emit-StartsDigit (suc f) n out h = elim (Bool-cases (ltb n 10)) [
  | inl small ↦ rw small (digit-StartsDigit n out (ground arith))
  | inr large ↦
      rw large (emit-StartsDigit f (n / 10) (String.◌∷◌ (digit (n % 10)) out) (ground arith))
]

digits-scan : (s : String) → StartsDigit s → digits s ≡ scan s 0
unfolding digits StartsDigit
digits-scan String.[] h = absurd h
digits-scan (String.◌∷◌ c s) h = refl

digits-format_nat : (n : ℕ) → digits (format_nat n) ≡ some n
unfolding format_nat scan
digits-format_nat n =
    digits-scan (emit (suc n) n "") (emit-StartsDigit (suc n) n "" (omega arith))
    ∙ emit-scan (suc n) n "" (omega arith)

atoi-StartsDigit : (s : String) → StartsDigit s → atoi s ≡ to_int false (digits s)
unfolding atoi StartsDigit
atoi-StartsDigit String.[] h = absurd h
atoi-StartsDigit (String.◌∷◌ c s) h = ground arith

atoi-minus : (s : String) → atoi (String.◌∷◌ "-" s) ≡ to_int true (digits s)
unfolding atoi
atoi-minus s = refl

-- Every `int` that `Itoa` writes is read back by `Atoi`, with no error.
pub atoi-itoa : (i : ℤ) → IsInt i → atoi (itoa i) ≡ some i
unfolding itoa to_int
atoi-itoa (pos n) h =
    atoi-StartsDigit (format_nat n) (emit-StartsDigit (suc n) n "" (omega arith))
    ∙ rw (digits-format_nat n) (ground arith)
atoi-itoa (negsuc n) h =
    atoi-minus (format_nat (suc n)) ∙ rw (digits-format_nat (suc n)) (ground arith)

IsIntOption : Option ℤ → Type 0
IsIntOption none = Unit
IsIntOption (some i) = IsInt i

to_int-IsInt : (neg : Bool) (o : Option ℕ) (i : ℤ) → to_int neg o ≡ some i → IsInt i
unfolding to_int IsIntOption
to_int-IsInt neg none i h = cc
to_int-IsInt false (some n) i h = elim (Bool-cases (ltb n int_limit)) [
  | inl fits ↦ subst IsIntOption (sym (if_true (ltb n int_limit) _ fits) ∙ h) (ground arith)
  | inr large ↦ subst IsIntOption (sym (if_false (ltb n int_limit) _ large) ∙ h) tt
]
to_int-IsInt true (some zero) i h = subst IsIntOption h (omega arith)
to_int-IsInt true (some (suc n)) i h = elim (Bool-cases (ltb n int_limit)) [
  | inl fits ↦ subst IsIntOption (sym (if_true (ltb n int_limit) _ fits) ∙ h) (ground arith)
  | inr large ↦ subst IsIntOption (sym (if_false (ltb n int_limit) _ large) ∙ h) tt
]

-- What `Atoi` reads fits an `int`.
pub atoi-IsInt : (s : String) (i : ℤ) → atoi s ≡ some i → IsInt i
unfolding atoi
atoi-IsInt String.[] i h = cc
atoi-IsInt (String.◌∷◌ c s) i h = elim (Bool-cases (nat_eq (code c) b'-')) [
  | inl minus ↦ to_int-IsInt true (digits s) i (sym (if_true (nat_eq (code c) b'-') _ minus) ∙ h)
  | inr other ↦ elim (Bool-cases (nat_eq (code c) b'+')) [
    | inl plus ↦
        to_int-IsInt false (digits s) i (
          sym (if_false (nat_eq (code c) b'-') _ other ∙ if_true (nat_eq (code c) b'+') _ plus) ∙ h)
    | inr first ↦ to_int-IsInt false (digits (String.◌∷◌ c s)) i (
        sym (if_false (nat_eq (code c) b'-') _ other ∙ if_false (nat_eq (code c) b'+') _ first) ∙ h)
  ]
]

-- Every character of a number is a sign or a digit.
abbrev pub IsNumeral : String → Type 0
IsNumeral String.[] = Unit
IsNumeral (String.◌∷◌ c s) = (b'-' ≤ code c) × (code c ≤ b'9') × IsNumeral s

emit-IsNumeral : (f n : ℕ) (out : String) → n < f → IsNumeral out → IsNumeral (emit f n out)
unfolding emit
emit-IsNumeral zero n out h k = k
emit-IsNumeral (suc f) n out h k = elim (Bool-cases (ltb n 10)) [
  | inl small ↦ rw small (digit_sign n (ground arith), digit_nine n (ground arith), k)
  | inr large ↦ rw large (
      emit-IsNumeral f (n / 10) (String.◌∷◌ (digit (n % 10)) out) (ground arith)
        (digit_sign (n % 10) (omega arith), digit_nine (n % 10) (omega arith), k))
]
  where
    digit_sign : (d : ℕ) → d < 10 → b'-' ≤ code (digit d)
    digit_sign d h = omega (arith, code-digit d h)

    digit_nine : (d : ℕ) → d < 10 → code (digit d) ≤ b'9'
    digit_nine d h = omega (arith, code-digit d h)

pub itoa-IsNumeral : (i : ℤ) → IsNumeral (itoa i)
unfolding itoa format_nat
itoa-IsNumeral (pos n) = emit-IsNumeral (suc n) n "" (omega arith) tt
itoa-IsNumeral (negsuc n) =
    (omega arith, omega arith, emit-IsNumeral (suc (suc n)) (suc n) "" (omega arith) tt)
