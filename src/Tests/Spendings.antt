-- ===== src/Tests/Spendings.antt =====
-- The accountant pays 120.50 with a voucher, and takes the payment back.
use project_lifecycle_manage.Base.{
  ℕ, ◌≡◌, refl, none, some, Option, List, [], ◌∷◌, ◌++◌, true, false, codes, pos, Text, ◌+ℤ◌, ◌-ℤ◌,
  leb_ℤ, if◌then◌else◌, Bool-cases, inl, inr, subst, arith, any, text_eq, strip, find?, distinct,
  all, put,
}
use project_lifecycle_manage.Model.{Db, SubProject, Payment, is_reversal}
use project_lifecycle_manage.Errors.{
  ok, err, business, already_reversed, validation_failed, file_name_unsafe,
}
use project_lifecycle_manage.Queries.{get_sub_project, get_main_project, send}
use project_lifecycle_manage.Numbering.{format_number, sequence_of, next_sequence, pay_separator}
use project_lifecycle_manage.Numbering.Fresh.{payment_number_new}
use project_lifecycle_manage.Payments.Uploads.{
  PaymentVoucherUpload, Backends, Storage, clean_voucher_uploads, save_contents,
}
use project_lifecycle_manage.Payments.Service.{
  PaymentCreate, create_payment, reverse_payment, get_payment, clean_optional_text, prepare,
  clean_amount, get_payment_phase, ensure_budget_confirmation, store_payment, sum_payments, sum_by,
  sum_sub_project_spent, commit_payment, send_notifications, recalculate_spending, add_payment,
  get_reversible_payment, new_payment, get_reversal_for_payment,
}
use project_lifecycle_manage.Payments.Spending.{IsBalanced}
use project_lifecycle_manage.Payments.Budget.{
  create_payment-IsBalanced, create_payment_budget, IsWithin,
}
use project_lifecycle_manage.Payments.Cleanup.{GivesNewKeys, IsCleaned, create_payment_cleans_up}
use project_lifecycle_manage.Payments.Reversals.{
  reverse_payment-IsBalanced, reverse_payment_restores, reverse_payment_once,
}
use project_lifecycle_manage.Tests.Data.{value, env, accountant, no_payment_yet, db}
use project_lifecycle_manage.Payments.Money.{to_money, to_cents}

abbrev upload : PaymentVoucherUpload
upload = record { file_name = codes "a.pdf"; content_type = none; content = 1 ∷ 2 ∷ [] }

abbrev backends : Backends
backends = record {
  accepts = λ u. true;
  save = λ s p name content. some (codes "k/" ++ name);
  deletes = λ k. true;
  max_file_size_bytes = 10;
  commits = λ d. true;
}

abbrev payload : PaymentCreate
payload = record {
  sub_project_id = 9;
  amount = record { mantissa = pos 1205; scale = 1 };
  payment_date = 6;
  voucher_files = upload ∷ [];
  remark = none;
  confirm_over_budget = false;
  over_budget_reason = none;
}

abbrev paid : Db × Payment
paid = value (db, no_payment_yet) (create_payment backends env accountant payload [] db).0

pays : (create_payment backends env accountant payload [] db).0 ≡ ok paid
unfolding create_payment prepare clean_amount to_money to_cents clean_voucher_uploads strip
    get_sub_project find? get_main_project get_payment_phase ensure_budget_confirmation ◌+ℤ◌
    store_payment save_contents
pays = refl

pub db-IsBalanced : IsBalanced db
unfolding distinct all sum_payments sum_by sum_sub_project_spent ◌+ℤ◌
db-IsBalanced = record { unique = refl; sub_projects = (refl, tt); main_projects = (refl, tt) }

create_payment-IsBalanced_example : IsBalanced paid.0
create_payment-IsBalanced_example =
    create_payment-IsBalanced backends env accountant payload [] db pays db-IsBalanced

create_payment_budget_example :
    (s r : SubProject) × (get_sub_project 9 db ≡ some s)
    × (get_sub_project 9 paid.0 ≡ some r)
    × (r.spent_amount ≡ s.spent_amount +ℤ paid.1.amount)
    × (leb_ℤ paid.1.amount (pos 0) ≡ false)
    × IsWithin payload r
create_payment_budget_example =
    create_payment_budget backends env accountant payload [] db pays db-IsBalanced

-- A storage that takes the first of the two files and refuses the second.
abbrev picky : Backends
picky = record {
  accepts = λ u. true;
  save = λ s p name content. if text_eq name (codes "a.pdf") then some (codes "k/a") else none;
  deletes = λ k. true;
  max_file_size_bytes = 10;
  commits = λ d. true;
}

abbrev two_files : PaymentCreate
two_files = record payload {
  voucher_files = upload ∷ record upload { file_name = codes "../b.pdf" } ∷ [];
}

abbrev storage : Storage
storage = codes "other" ∷ []

abbrev key_of : Option Text → Text
key_of none = []
key_of (some key) = key

new_keys : GivesNewKeys picky storage
unfolding any text_eq
new_keys s p name content key h = elim (Bool-cases (text_eq name (codes "a.pdf"))) [
  | inl e ↦
      subst (λ o. any (text_eq (key_of o)) storage ≡ false)
        (subst (λ b. (if b then some (codes "k/a") else none) ≡ some key) e h) refl
  | inr n ↦ ground (arith, n, h)
]

fails :
    (create_payment picky env accountant two_files storage db).0
    ≡ err (validation_failed file_name_unsafe)
unfolding create_payment prepare clean_amount to_money to_cents clean_voucher_uploads strip
    get_sub_project find? get_main_project get_payment_phase ensure_budget_confirmation ◌+ℤ◌
    store_payment save_contents text_eq
fails = refl

create_payment_cleans_up_example :
    IsCleaned picky storage (create_payment picky env accountant two_files storage db).1
    × (((k : Text) → picky.deletes k ≡ true)
        → (create_payment picky env accountant two_files storage db).1 ≡ storage)
create_payment_cleans_up_example =
    create_payment_cleans_up picky storage new_keys env accountant two_files db fails

abbrev remark : Option Text
remark = some (codes "twice")

abbrev reversed : Db × Payment
reversed = value paid (reverse_payment env accountant 9 1000 remark paid.0)

reverses : reverse_payment env accountant 9 1000 remark paid.0 ≡ ok reversed
unfolding create_payment reverse_payment clean_optional_text strip get_sub_project find? prepare
    clean_amount to_money to_cents clean_voucher_uploads get_main_project get_payment_phase
    ensure_budget_confirmation ◌+ℤ◌ store_payment save_contents commit_payment send_notifications
    send recalculate_spending put add_payment get_reversible_payment get_payment new_payment
    get_reversal_for_payment
reverses = refl

reverse_payment-IsBalanced_example : IsBalanced reversed.0
reverse_payment-IsBalanced_example =
    reverse_payment-IsBalanced env accountant 9 1000 remark paid.0 reverses
      (create_payment-IsBalanced backends env accountant payload [] db pays db-IsBalanced)

reverse_payment_restores_example :
    (original : Payment) × (s r : SubProject) × (get_payment 1000 paid.0 ≡ some original)
    × (is_reversal original.payment_type ≡ false)
    × (original.sub_project_id ≡ s.id)
    × (get_sub_project 9 paid.0 ≡ some s)
    × (get_sub_project 9 reversed.0 ≡ some r)
    × (r.spent_amount ≡ s.spent_amount -ℤ original.amount)
reverse_payment_restores_example =
    reverse_payment_restores env accountant 9 1000 remark paid.0 reverses
      (create_payment-IsBalanced backends env accountant payload [] db pays db-IsBalanced)

cleans : clean_optional_text remark ≡ some (codes "twice")
unfolding clean_optional_text strip
cleans = refl

reverse_payment_once_example :
    reverse_payment env accountant 9 1000 remark reversed.0
    ≡ err (business (already_reversed 1000 reversed.1.id))
reverse_payment_once_example =
    reverse_payment_once env accountant 9 1000 remark paid.0 reverses env accountant remark refl
      cleans

abbrev numbers : List Text
numbers = codes "S-1-PAY-001" ∷ codes "S-1-PAY-007" ∷ []

payment_number_new_example :
    ((n : ℕ)
      → sequence_of pay_separator (format_number pay_separator (codes "S-1") n) ≡ some (pos n))
    × (any
          (λ n.
            text_eq n
              (format_number pay_separator (codes "S-1") (next_sequence pay_separator numbers)))
          numbers
        ≡ false)
payment_number_new_example = payment_number_new (codes "S-1") numbers
