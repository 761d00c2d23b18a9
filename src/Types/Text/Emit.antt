-- ===== src/Types/Text/Emit.antt =====
-- What the digit loop of the printers leaves in the buffer, as a reader of its reverse sees it.
use linuxab.Prelude.{
  ℕ, zero, suc, ◌+◌, ◌*◌, ◌/◌, ◌%◌, ◌^◌, ◌≤◌, ◌<◌, ◌≡◌, sym, ap, ◌∙◌, inl, inr, true, false, some,
  [], ◌∷◌, ◌++◌, arith, ◌==◌, Bool-cases, Option-cases, none, split_last, subst,
}
use linuxab.Types.Text.{Text, digit_char, emit_digits, is_digit, digit_value}
use mathlib.Core.List.{reverse, append_assoc, reverse-append, reverse-cons}
use mathlib.Core.Option
use mathlib.Core.Option.{Option, some-injective}
use native.Mathlib.Nat.{div-add-mod', mod-lt, pow-suc}

pub digit_value-digit_char : (d : ℕ) → d < 16 → digit_value (digit_char d) ≡ some d
unfolding digit_value digit_char is_digit
digit_value-digit_char d h = ground arith

is_digit-digit_char : (d : ℕ) → d < 10 → is_digit (digit_char d) ≡ true
unfolding digit_char is_digit
is_digit-digit_char d h = ground arith

emit_last :
    (fuel base uv : ℕ)
    → (uv / base == 0) ≡ true
    → emit_digits (suc fuel) base uv ≡ some (digit_char (uv % base) ∷ [])
unfolding emit_digits
emit_last fuel base uv h = rw h

emit_more :
    (fuel base uv : ℕ) (s : Text)
    → (uv / base == 0) ≡ false
    → emit_digits fuel base (uv / base) ≡ some s
    → emit_digits (suc fuel) base uv ≡ some (digit_char (uv % base) ∷ s)
unfolding emit_digits
emit_more fuel base uv s h e = rw (h, e)

quotient_zero : (base uv : ℕ) → 0 < base → (uv / base == 0) ≡ true → uv % base ≡ uv
quotient_zero base uv pos h =
    let e : uv / base ≡ 0 = ground arith in
    omega (arith, div-add-mod' uv base, ap (λ (t : ℕ). t * base) e)

fuel_left : (fuel q : ℕ) → (q == 0) ≡ false → q < 2 ^ fuel → 0 < fuel
fuel_left zero q h lt = ground arith
fuel_left (suc fuel) q h lt = omega arith

quotient_small : (base uv p : ℕ) → 2 ≤ base → uv < p * 2 → uv / base < p
quotient_small base uv p h lt = grind (arith, div-add-mod' uv base)

-- A reader that takes one more digit in as `res * base + d`, as long as that stays below `bound`,
-- reads the digits of `uv` turned round as `uv`.
module _ {X : Type 0} (base bound : ℕ) (two : 2 ≤ base) (read : ℕ → Text → X)
    (step : (res d : ℕ) (s : Text)
      → d < base
      → res * base + d < bound
      → read res (digit_char d ∷ s) ≡ read (res * base + d) s) where
  pub emit_read :
      (fuel uv : ℕ)
      → 0 < fuel
      → uv < 2 ^ fuel
      → uv < bound
      → (s : Text) × (emit_digits fuel base uv ≡ some s)
        × ((tail : Text) → read 0 (reverse s ++ tail) ≡ read uv tail)
  emit_read zero uv pos h b = elim pos [ ]
  emit_read (suc fuel) uv pos h b = elim (Bool-cases (uv / base == 0)) [
    | inl done ↦ (
      digit_char (uv % base) ∷ [],
      emit_last fuel base uv done,
      λ tail.
          step 0 (uv % base) tail (mod-lt uv (omega arith))
            (omega (arith, quotient_zero base uv (omega arith) done))
          ∙ ap (λ k. read k tail) (omega (arith, quotient_zero base uv (omega arith) done)),
    )
    | inr more ↦
        let (s, runs, reads) =
          emit_read fuel (uv / base)
            (fuel_left fuel (uv / base) more
              (quotient_small base uv (2 ^ fuel) two (omega (arith, pow-suc 2 fuel))))
            (quotient_small base uv (2 ^ fuel) two (omega (arith, pow-suc 2 fuel)))
            (quotient_small base uv bound two (omega arith)) in
        (
          digit_char (uv % base) ∷ s,
          emit_more fuel base uv s more runs,
          λ tail.
              ap (λ t. read 0 t)
                (ap (λ t. t ++ tail) (reverse-cons (digit_char (uv % base)) s)
                  ∙ append_assoc (reverse s) (digit_char (uv % base) ∷ []) tail)
              ∙ reads (digit_char (uv % base) ∷ tail)
              ∙ step (uv / base) (uv % base) tail (mod-lt uv (omega arith))
                  (omega (arith, div-add-mod' uv base))
              ∙ ap (λ k. read k tail) (div-add-mod' uv base),
        )
  ]

-- In base 10 the loop writes at least one character, and only decimal digits.
abbrev pub AllDigits : Text → Type 0
AllDigits [] = Unit {0}
AllDigits (c ∷ s) = (is_digit c ≡ true) × AllDigits s

emit_out : (uv : ℕ) (s : Text) → ¬ (emit_digits zero 10 uv ≡ some s)
unfolding emit_digits
emit_out uv s e = cc

emit_stuck :
    (fuel uv : ℕ) (s : Text)
    → (uv / 10 == 0) ≡ false
    → emit_digits fuel 10 (uv / 10) ≡ none
    → ¬ (emit_digits (suc fuel) 10 uv ≡ some s)
unfolding emit_digits
emit_stuck fuel uv s h e r = ground arith

emit_digits-AllDigits : (fuel uv : ℕ) (s : Text) → emit_digits fuel 10 uv ≡ some s → AllDigits s
emit_digits-AllDigits zero uv s e = absurd (emit_out uv s e)
emit_digits-AllDigits (suc fuel) uv s e = elim (Bool-cases (uv / 10 == 0)) [
  | inl done ↦
      let same = some-injective _ _ (sym (emit_last fuel 10 uv done) ∙ e) in
      subst AllDigits same (is_digit-digit_char (uv % 10) (omega arith), tt)
  | inr more ↦ elim (Option-cases (emit_digits fuel 10 (uv / 10))) [
    | inl out ↦ absurd (emit_stuck fuel uv s more out e)
    | inr (s', runs) ↦
        let same = some-injective _ _ (sym (emit_more fuel 10 uv s' more runs) ∙ e) in
        subst AllDigits same (
          is_digit-digit_char (uv % 10) (omega arith),
          emit_digits-AllDigits fuel (uv / 10) s' runs,
        )
  ]
]

AllDigits-last : (m : Text) (y : ℕ) → AllDigits (m ++ (y ∷ [])) → is_digit y ≡ true
AllDigits-last [] y h = h.0
AllDigits-last (x ∷ m) y h = AllDigits-last m y h.1

-- So the text that is read starts with a digit.
leading_digit :
    (x : ℕ) (s : Text)
    → AllDigits (x ∷ s)
    → (c : ℕ) × (t : Text) × (reverse (x ∷ s) ≡ c ∷ t) × (is_digit c ≡ true)
leading_digit x s h =
    let (m, y, last) = split_last x s in
    (
      y,
      reverse m,
      ap reverse last ∙ reverse-append m (y ∷ []),
      AllDigits-last m y (subst AllDigits last h),
    )

map_cons_ne : (c : ℕ) (o : Option Text) → ¬ (Option.map (λ s. c ∷ s) o ≡ some [])
map_cons_ne c none h = cc
map_cons_ne c (some s) h = cc

emit_digits-ne-nil : (fuel uv : ℕ) → ¬ (emit_digits fuel 10 uv ≡ some [])
unfolding emit_digits
emit_digits-ne-nil zero uv h = cc
emit_digits-ne-nil (suc fuel) uv h = map_cons_ne _ _ h

pub emit_digits-leading :
    (fuel uv : ℕ) (s : Text)
    → emit_digits fuel 10 uv ≡ some s
    → (c : ℕ) × (t : Text) × (reverse s ≡ c ∷ t) × (is_digit c ≡ true)
emit_digits-leading fuel uv [] e = absurd (emit_digits-ne-nil fuel uv e)
emit_digits-leading fuel uv (x ∷ s) e = leading_digit x s (emit_digits-AllDigits fuel uv (x ∷ s) e)
