-- ===== src/Numbering/Decimal.antt =====
-- Decimal printing, and the parser `int` of backend/app/services/payments.py on what it prints.
use project_lifecycle_manage.Base.{
  ℕ, zero, suc, ◌+◌, ◌-◌, ◌*◌, ◌/◌, ◌%◌, ◌<◌, ltb, leb, Bool, true, false, ◌&&◌, ◌≡◌, refl, ◌∙◌, ap,
  some, [], ◌∷◌, ◌++◌, pos, Text, arith, all, is_space, lstrip, rstrip, digits, int_of_text,
  if◌then◌else◌, all-append, Bool-cases, inl, inr, &&-eq-true,
}

-- `str(n)`, on fuel; `suc n` is enough.
unfoldable pub decimal_on : ℕ → ℕ → Text
decimal_on zero n = []
decimal_on (suc f) n =
    let rest = decimal_on f (n / 10) ++ (48 + n % 10) ∷ [] in
    if ltb n 10 then (48 + n) ∷ [] else rest

unfoldable pub to_decimal : ℕ → Text
to_decimal n = decimal_on (suc n) n

-- `f"{n:03d}"`
unfoldable pub pad3 : Text → Text
pad3 [] = 48 ∷ 48 ∷ 48 ∷ []
pad3 (a ∷ []) = 48 ∷ 48 ∷ a ∷ []
pad3 (a ∷ b ∷ []) = 48 ∷ a ∷ b ∷ []
pad3 t = t

abbrev pub is_digit_code : ℕ → Bool
is_digit_code c = leb 48 c && leb c 57

-- The number that a text of digits stands for, from an accumulator.
value : ℕ → Text → ℕ
value acc [] = acc
value acc (c ∷ s) = value (acc * 10 + (c - 48)) s

value-append : (acc c : ℕ) (s : Text) → value acc (s ++ c ∷ []) ≡ value acc s * 10 + (c - 48)
unfolding value
value-append acc c [] = refl
value-append acc c (d ∷ s) = value-append (acc * 10 + (d - 48)) c s

digits-value :
    (acc : ℕ) (s : Text) → all is_digit_code s ≡ true → digits false acc s ≡ some (value acc s)
unfolding digits value all
digits-value acc [] h = refl
digits-value acc (c ∷ s) h = ground (arith, digits-value (acc * 10 + (c - 48)) s)

decimal_on-all : (f n : ℕ) → all is_digit_code (decimal_on f n) ≡ true
unfolding decimal_on all
decimal_on-all zero n = refl
decimal_on-all (suc f) n = ground (
  arith,
  all-append is_digit_code (decimal_on f (n / 10)) ((48 + n % 10) ∷ []),
  decimal_on-all f (n / 10),
)

-- Enough fuel prints the whole number.
decimal_on-value : (f n : ℕ) → n < f → value 0 (decimal_on f n) ≡ n
unfolding decimal_on
decimal_on-value zero n h = absurd (omega arith)
decimal_on-value (suc f) n h = elim (Bool-cases (ltb n 10)) [
  | inl small ↦ rw small (unfold value in omega arith)
  | inr large ↦
      rw (large, value-append)
        (ground (arith, large, decimal_on-value f (n / 10) (ground (arith, large))))
]

-- A text of digits has no white space to strip.
digit_not_space : (c : ℕ) → is_digit_code c ≡ true → is_space c ≡ false
unfolding is_space
digit_not_space c h = ground arith

rstrip-digits : (s : Text) → all is_digit_code s ≡ true → rstrip s ≡ s
unfolding rstrip all
rstrip-digits [] h = refl
rstrip-digits (c ∷ []) h = rw (digit_not_space c (&&-eq-true _ _ h).0)
rstrip-digits (c ∷ d ∷ s) h = rw (rstrip-digits (d ∷ s) (&&-eq-true (is_digit_code c) _ h).1)

lstrip-digits : (s : Text) → all is_digit_code s ≡ true → lstrip s ≡ s
unfolding lstrip all
lstrip-digits [] h = refl
lstrip-digits (c ∷ s) h = rw (digit_not_space c (&&-eq-true _ _ h).0)

int_of_text-digits :
    (c : ℕ) (s : Text)
    → all is_digit_code (c ∷ s) ≡ true
    → int_of_text (c ∷ s) ≡ some (pos (value 0 (c ∷ s)))
unfolding int_of_text
int_of_text-digits c s h =
    rw (lstrip-digits (c ∷ s) h, rstrip-digits (c ∷ s) h)
      (unfold all value in ground (arith, digits-value (0 * 10 + (c - 48)) s))

-- Padding keeps the digits and their value.
pad3-all : (t : Text) → all is_digit_code t ≡ true → all is_digit_code (pad3 t) ≡ true
unfolding pad3 all
pad3-all [] h = refl
pad3-all (a ∷ []) h = ground arith
pad3-all (a ∷ b ∷ []) h = ground arith
pad3-all (a ∷ b ∷ c ∷ t) h = h

pad3-value : (t : Text) → value 0 (pad3 t) ≡ value 0 t
unfolding pad3 value
pad3-value [] = refl
pad3-value (a ∷ []) = refl
pad3-value (a ∷ b ∷ []) = refl
pad3-value (a ∷ b ∷ c ∷ t) = refl

pad3-cons : (t : Text) → (c : ℕ) × (s : Text) × (pad3 t ≡ c ∷ s)
unfolding pad3
pad3-cons [] = (48, 48 ∷ 48 ∷ [], refl)
pad3-cons (a ∷ []) = (48, 48 ∷ a ∷ [], refl)
pad3-cons (a ∷ b ∷ []) = (48, a ∷ b ∷ [], refl)
pad3-cons (a ∷ b ∷ c ∷ t) = (a, b ∷ c ∷ t, refl)

abbrev pub padded : ℕ → Text
padded n = pad3 (to_decimal n)

pub padded-all : (n : ℕ) → all is_digit_code (padded n) ≡ true
unfolding to_decimal
padded-all n = pad3-all (decimal_on (suc n) n) (decimal_on-all (suc n) n)

-- `int` reads back what the format prints.
pub int_of_text-padded : (n : ℕ) → int_of_text (padded n) ≡ some (pos n)
int_of_text-padded n =
    let (c, s, e) = pad3-cons (to_decimal n) in
    let digits_all : all is_digit_code (c ∷ s) ≡ true = rw (← e) (padded-all n) in
    let same : value 0 (padded n) ≡ n =
      pad3-value (to_decimal n) ∙ (unfold to_decimal in decimal_on-value (suc n) n (omega arith)) in
    e-chain c s e digits_all same
  where
    e-chain :
        (c : ℕ) (s : Text)
        → padded n ≡ c ∷ s
        → all is_digit_code (c ∷ s) ≡ true
        → value 0 (padded n) ≡ n
        → int_of_text (padded n) ≡ some (pos n)
    e-chain c s e d same = rw e (int_of_text-digits c s d ∙ ap (λ x. some (pos x)) (rw (← e) same))
