-- ===== src/Numbering/Fresh.antt =====
-- The next running number is new: `next_sequence_from_payment_numbers` of
-- backend/app/services/payments.py and `next_sequence_from_task_numbers` of
-- backend/app/services/tasks.py. The number of a sub project of backend/app/services/sub_projects.py
-- is formatted alike.
use project_lifecycle_manage.Base.{
  ℕ, ◌+◌, ◌≤◌, ◌<◌, ◌==◌, ltb, true, false, ◌≡◌, refl, ap, Option, none, some, List, [], ◌∷◌, ◌++◌,
  ℤ, pos, negsuc, Text, codes, text_eq, text_eq-eq, arith, all, any, after_prefix, int_of_text,
  if◌then◌else◌, Bool-cases, inl, inr, &&-eq-true,
}
use project_lifecycle_manage.Numbering.Decimal.{
  is_digit_code, padded, padded-all, int_of_text-padded,
}

-- `text.rsplit(sep, maxsplit=1)[1]`, and `none` for the IndexError.
unfoldable pub after_last : Text → Text → Option Text
after_last sep [] = after_prefix sep []
after_last sep (c ∷ s) = elim (after_last sep s) [
  | some rest ↦ some rest
  | none ↦ after_prefix sep (c ∷ s)
]

abbrev int_of : Option Text → Option ℤ
int_of none = none
int_of (some t) = int_of_text t

-- The sequence in a number; `none` where the loop goes on with the next one.
unfoldable pub sequence_of : Text → Text → Option ℤ
sequence_of sep number = int_of (after_last sep number)

-- `max(max_sequence, sequence)` on a maximum that starts at 0.
abbrev max_with : ℕ → Option ℤ → ℕ
max_with m none = m
max_with m (some (pos n)) = if ltb m n then n else m
max_with m (some (negsuc n)) = m

unfoldable pub max_sequence_from : Text → ℕ → List Text → ℕ
max_sequence_from sep m [] = m
max_sequence_from sep m (number ∷ rest) =
    max_sequence_from sep (max_with m (sequence_of sep number)) rest

-- `next_sequence_from_payment_numbers`
unfoldable pub next_sequence : Text → List Text → ℕ
unfolding max_sequence_from
next_sequence sep numbers = max_sequence_from sep 0 numbers + 1

-- `f"{prefix}{sep}{sequence:03d}"`
unfoldable pub format_number : Text → Text → ℕ → Text
format_number sep prefix sequence = prefix ++ (sep ++ padded sequence)

max_sequence_from-le : (sep : Text) (m : ℕ) (ns : List Text) → m ≤ max_sequence_from sep m ns
unfolding max_sequence_from
max_sequence_from-le sep m [] = omega arith
max_sequence_from-le sep m (n ∷ ns) =
    ground (arith, max_sequence_from-le sep (max_with m (sequence_of sep n)) ns)

-- A number with the next sequence stands nowhere in the list.
no_such_sequence :
    (sep : Text) (m k : ℕ) (ns : List Text) (t : Text)
    → sequence_of sep t ≡ some (pos k)
    → max_sequence_from sep m ns < k
    → any (λ n. text_eq n t) ns ≡ false
unfolding max_sequence_from any
no_such_sequence sep m k [] t h lt = refl
no_such_sequence sep m k (n ∷ ns) t h lt = elim (Bool-cases (text_eq n t)) [
  | inr other ↦ rw other (no_such_sequence sep (max_with m (sequence_of sep n)) k ns t h lt)
  | inl same ↦
      let e = text_eq-eq n t same in
      let le = max_sequence_from-le sep (max_with m (sequence_of sep n)) ns in
      absurd (ground (arith, ap (sequence_of sep) e, le))
]

after_last-append :
    (sep p s : Text) {r : Text} → after_last sep s ≡ some r → after_last sep (p ++ s) ≡ some r
unfolding after_last
after_last-append sep [] s h = h
after_last-append sep (c ∷ p) s h = rw (after_last-append sep p s h)

-- The separators of payments, of tasks and of sub projects.
abbrev pub pay_separator : Text
pay_separator = codes "-PAY-"

abbrev pub task_separator : Text
task_separator = codes "-T-"

abbrev pub sub_separator : Text
sub_separator = codes "-ZX-"

after_last-digits :
    (sep : Text) (c : ℕ) (s : Text)
    → is_digit_code c ≡ false
    → all is_digit_code s ≡ true
    → after_last (c ∷ sep) s ≡ none
unfolding after_last after_prefix all
after_last-digits sep c [] h k = refl
after_last-digits sep c (d ∷ s) h k = ground (arith, after_last-digits sep c s)

digit-ne : (c d : ℕ) → is_digit_code d ≡ true → is_digit_code c ≡ false → (c == d) ≡ false
digit-ne c d h k = ground arith

pay-after_last :
    (s : Text) → all is_digit_code s ≡ true → after_last pay_separator (pay_separator ++ s) ≡ some s
unfolding after_last after_prefix
pay-after_last [] h = refl
pay-after_last (d ∷ s) h =
    let digit = &&-eq-true (is_digit_code d) (all is_digit_code s) (unfold all in h) in
    let later = after_last-digits (codes "PAY-") b'-' (d ∷ s) refl h in
    rw (later, digit-ne b'P' d digit.0 refl) refl

pub sub-after_last :
    (s : Text) → all is_digit_code s ≡ true → after_last sub_separator (sub_separator ++ s) ≡ some s
unfolding after_last after_prefix
sub-after_last [] h = refl
sub-after_last (d ∷ s) h =
    let digit = &&-eq-true (is_digit_code d) (all is_digit_code s) (unfold all in h) in
    let later = after_last-digits (codes "ZX-") b'-' (d ∷ s) refl h in
    rw (later, digit-ne b'Z' d digit.0 refl) refl

pub task-after_last :
    (s : Text)
    → all is_digit_code s ≡ true
    → after_last task_separator (task_separator ++ s) ≡ some s
unfolding after_last after_prefix
task-after_last [] h = refl
task-after_last (d ∷ s) h =
    let digit = &&-eq-true (is_digit_code d) (all is_digit_code s) (unfold all in h) in
    let later = after_last-digits (codes "T-") b'-' (d ∷ s) refl h in
    rw (later, digit-ne b'T' d digit.0 refl) refl

module _ (sep : Text)
    (reads : (s : Text) → all is_digit_code s ≡ true → after_last sep (sep ++ s) ≡ some s) where
  -- The sequence is read back from the number that is formatted with it.
  pub sequence_of-format :
      (prefix : Text) (n : ℕ) → sequence_of sep (format_number sep prefix n) ≡ some (pos n)
  unfolding sequence_of format_number
  sequence_of-format prefix n =
      rw (after_last-append sep prefix (sep ++ padded n) (reads (padded n) (padded-all n)))
        (int_of_text-padded n)

  -- The number with the next sequence is none of the numbers that the sequence was computed from.
  pub next_number_new :
      (prefix : Text) (ns : List Text)
      → any (λ n. text_eq n (format_number sep prefix (next_sequence sep ns))) ns ≡ false
  unfolding next_sequence
  next_number_new prefix ns =
      no_such_sequence sep 0 (max_sequence_from sep 0 ns + 1) ns
        (format_number sep prefix (max_sequence_from sep 0 ns + 1))
        (sequence_of-format prefix (max_sequence_from sep 0 ns + 1)) (omega arith)

-- A payment number is read back to its sequence, and the number that is formatted with the next
-- sequence of any list of numbers is not in the list.
pub payment_number_new :
    (prefix : Text) (ns : List Text)
    → ((n : ℕ) → sequence_of pay_separator (format_number pay_separator prefix n) ≡ some (pos n))
      × (any
            (λ n. text_eq n (format_number pay_separator prefix (next_sequence pay_separator ns)))
            ns
          ≡ false)
payment_number_new prefix ns = (
  sequence_of-format pay_separator pay-after_last prefix,
  next_number_new pay_separator pay-after_last prefix ns,
)
