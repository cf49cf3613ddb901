-- ===== src/Payments/Service.antt =====
-- `PaymentService` of backend/app/services/payments.py.
use project_lifecycle_manage.Base.{
  ℕ, suc, ◌+◌, ◌*◌, ◌==◌, ltb, leb_ℤ, Bool, true, false, not, ◌&&◌, ◌||◌, Option, none, some, List,
  [], ◌∷◌, ◌++◌, ℤ, pos, neg, ◌+ℤ◌, ◌-ℤ◌, Text, codes, strip, text_eq, length, find?, filter, map,
  if◌then◌else◌,
}
use project_lifecycle_manage.Model.{
  Db, Env, User, SubProject, MainProject, Phase, Document, Payment, PaymentVoucher, Notice, normal,
  reversal, is_reversal, is_admin, is_finance_manager, is_dept_manager, is_locked_project,
}
use project_lifecycle_manage.Errors.{
  integrity_error, Result, ok, err, permission_denied, validation_failed, amount_not_positive,
  remark_required, file_name_unsafe, not_found, no_payment_phase, no_original_payment, business,
  project_locked, over_budget, already_reversed, reversal_not_reversible, guard, from_option, ◌>>=◌,
  ◌>>◌,
}
use project_lifecycle_manage.Queries.{
  existing_sub_project, existing_main_project, list_active_user_ids_by_role, save_sub_project,
  save_main_project, send,
}
use project_lifecycle_manage.Numbering.{next_sequence, format_number, pay_separator}
use project_lifecycle_manage.Payments.Money.{Decimal, to_money}
use project_lifecycle_manage.Payments.Uploads.{
  PaymentVoucherUpload, Backends, clean_voucher_uploads, Storage, save_contents,
  delete_saved_contents,
}

abbrev pub can_pay : User → Bool
can_pay actor = is_admin actor.role || is_finance_manager actor.role

unfoldable pub clean_amount : Decimal → Result ℤ
clean_amount amount = do
  let cleaned = to_money amount
  guard (not (leb_ℤ cleaned (pos 0))) (validation_failed amount_not_positive)
  ok cleaned

abbrev non_empty : Text → Option Text
non_empty [] = none
non_empty (c ∷ s) = some (c ∷ s)

unfoldable pub clean_optional_text : Option Text → Option Text
clean_optional_text none = none
clean_optional_text (some t) = non_empty (strip t)

unfoldable pub get_payment_phase : ℕ → Db → Option Phase
get_payment_phase sub_project_id db =
    find? (λ p. p.sub_project_id == sub_project_id && p.phase_no == 5) db.phases

unfoldable pub get_payment : ℕ → Db → Option Payment
get_payment i db = find? (λ p. p.id == i) db.payments

abbrev pub is_same : Option ℕ → ℕ → Bool
is_same none i = false
is_same (some j) i = j == i

unfoldable pub get_reversal_for_payment : ℕ → Db → Option Payment
get_reversal_for_payment i db =
    find? (λ p. is_same p.reverses_payment_id i && is_reversal p.payment_type) db.payments

unfoldable pub next_payment_sequence : ℕ → Db → ℕ
next_payment_sequence sub_project_id db =
    next_sequence pay_separator
      (map (λ p. p.payment_no) (filter (λ p. p.sub_project_id == sub_project_id) db.payments))

-- `sum(...)` over the rows that pass.
unfoldable pub sum_by {ℓ} : {A : Type ℓ} → (A → Bool) → (A → ℤ) → List A → ℤ
sum_by p f [] = pos 0
sum_by p f (x ∷ xs) = let rest = sum_by p f xs in if p x then f x +ℤ rest else rest

unfoldable pub sum_payments : ℕ → List Payment → ℤ
sum_payments s = sum_by (λ p. p.sub_project_id == s) (λ p. p.amount)

unfoldable pub sum_sub_project_spent : ℕ → List SubProject → ℤ
sum_sub_project_spent m = sum_by (λ s. s.main_project_id == m) (λ s. s.spent_amount)

abbrev pub given : Option Text → Bool
given none = false
given (some t) = true

-- `_ensure_budget_confirmation`: whether the payment goes over the budget.
unfoldable pub ensure_budget_confirmation : SubProject → ℤ → Bool → Option Text → Result Bool
ensure_budget_confirmation sub_project amount confirm_over_budget over_budget_reason =
    let new_total = sub_project.spent_amount +ℤ amount in
    if leb_ℤ new_total sub_project.budget
    then ok false
    else if confirm_over_budget && given over_budget_reason
    then ok true
    else err (
        business (
          over_budget sub_project.budget sub_project.spent_amount amount
            (new_total -ℤ sub_project.budget)))

-- The sub project and the main project after `sum_payments` and `sum_sub_project_spent`.
abbrev pub with_spent : Env → Db → SubProject → SubProject
with_spent env db s = record s {
  spent_amount = sum_payments s.id db.payments;
  updated_at = env.now;
}

abbrev pub main_with_spent : Env → Db → MainProject → MainProject
main_with_spent env db m = record m {
  spent_amount = sum_sub_project_spent m.id db.sub_projects;
  updated_at = env.now;
}

-- `_recalculate_spending`, which `create_payment` writes out too.
unfoldable pub recalculate_spending : Env → SubProject → MainProject → Db → Db
recalculate_spending env sub_project main_project db =
    let db1 = record db {
      sub_projects = save_sub_project (with_spent env db sub_project) db.sub_projects;
    } in
    record db1 {
      main_projects = save_main_project (main_with_spent env db1 main_project) db1.main_projects;
    }

pub record PaymentCreate : Type 0 where
  pub sub_project_id : ℕ
  pub amount : Decimal
  pub payment_date : ℕ
  pub voucher_files : List PaymentVoucherUpload
  pub remark : Option Text
  pub confirm_over_budget : Bool
  pub over_budget_reason : Option Text

-- What `create_payment` has at hand when it begins to write.
pub record Prepared : Type 0 where
  pub amount : ℤ
  pub remark : Option Text
  pub uploads : List PaymentVoucherUpload
  pub sub_project : SubProject
  pub main_project : MainProject
  pub phase : Phase
  pub over : Bool

unfoldable pub prepare : Backends → User → PaymentCreate → Db → Result Prepared
prepare b actor payload db = do
  guard (can_pay actor) permission_denied
  amount ← clean_amount payload.amount
  uploads ← clean_voucher_uploads b payload.voucher_files
  sub_project ← existing_sub_project payload.sub_project_id db
  guard (not (is_locked_project sub_project.status)) (business (project_locked sub_project.status))
  main_project ← existing_main_project sub_project.main_project_id db
  phase ← from_option (get_payment_phase sub_project.id db) (not_found no_payment_phase)
  over ←
      ensure_budget_confirmation sub_project amount payload.confirm_over_budget
        (clean_optional_text payload.over_budget_reason)
  ok (record {
    amount = amount;
    remark = clean_optional_text payload.remark;
    uploads = uploads;
    sub_project = sub_project;
    main_project = main_project;
    phase = phase;
    over = over;
  })

unfoldable pub payment_no : SubProject → Db → Text
payment_no sub_project db =
    format_number pay_separator sub_project.project_no (next_payment_sequence sub_project.id db)

unfoldable pub new_payment : Env → User → PaymentCreate → Prepared → Db → Payment
new_payment env actor payload p db = record {
  id = env.uuid 0;
  payment_no = payment_no p.sub_project db;
  sub_project_id = p.sub_project.id;
  amount = p.amount;
  payment_date = payload.payment_date;
  remark = p.remark;
  payment_type = normal;
  reverses_payment_id = none;
  operator_id = some actor.id;
  created_at = env.now;
  updated_at = env.now;
}

-- `max((d.version for d in group_documents), default=0)`
max_version : ℕ → List Document → ℕ
max_version m [] = m
max_version m (d ∷ ds) = max_version (if ltb m d.version then d.version else m) ds

unfoldable pub latest_version : Prepared → Db → ℕ
unfolding max_version
latest_version p db = max_version 0 (
    filter
      (λ d.
        d.sub_project_id == p.sub_project.id
        && (d.phase_id == p.phase.id && text_eq d.doc_type (codes "payment_voucher")))
      db.documents)

-- One document for each upload, with its key; the versions run on.
unfoldable pub voucher_documents :
    Env → User → Prepared → ℕ → ℕ → List PaymentVoucherUpload → List Text → List Document
voucher_documents env actor p k version [] keys = []
voucher_documents env actor p k version (u ∷ us) [] = []
voucher_documents env actor p k version (u ∷ us) (key ∷ keys) =
    record {
      id = env.uuid (2 * k + 1);
      sub_project_id = p.sub_project.id;
      phase_id = p.phase.id;
      acceptance_step_id = none;
      doc_type = codes "payment_voucher";
      file_name = u.file_name;
      file_path = key;
      file_size = length u.content;
      version = version + 1;
      is_latest = true;
      is_deleted = false;
      uploader_id = actor.id;
      created_at = env.now;
      updated_at = env.now;
    }
    ∷ voucher_documents env actor p (suc k) (version + 1) us keys

-- The pairs are numbered as the documents are.
unfoldable pub vouchers_for : Env → ℕ → ℕ → List Document → List PaymentVoucher
vouchers_for env payment_id k [] = []
vouchers_for env payment_id k (d ∷ ds) =
    record { id = env.uuid (2 * k + 2); payment_id = payment_id; document_id = d.id }
    ∷ vouchers_for env payment_id (suc k) ds

-- The rows that `create_payment` adds, before spending is computed again.
unfoldable pub add_payment : Env → User → PaymentCreate → Prepared → List Text → Db → Db
add_payment env actor payload p keys db =
    let payment = new_payment env actor payload p db in
    let documents = voucher_documents env actor p 0 (latest_version p db) p.uploads keys in
    record db {
      payments = db.payments ++ payment ∷ [];
      documents = db.documents ++ documents;
      payment_vouchers = db.payment_vouchers ++ vouchers_for env payment.id 0 documents;
    }

-- `_send_notifications`
unfoldable pub send_notifications : Payment → SubProject → MainProject → Bool → Db → Db
send_notifications payment sub_project main_project over db =
    let created : Notice = record {
      scenario = codes "payment_created";
      receivers = sub_project.manager_id ∷ [];
      source_id = payment.id;
    } in
    let admin_ids = list_active_user_ids_by_role is_admin none db in
    let manager_ids = list_active_user_ids_by_role is_dept_manager (some main_project.dept_id) db in
    let warning : Notice = record {
      scenario = codes "over_budget_warning";
      receivers = admin_ids ++ manager_ids;
      source_id = payment.id;
    } in
    let db1 = send created db in let db2 = send warning db1 in if over then db2 else db1

unfoldable pub commit_payment :
    Env → User → PaymentCreate → Prepared → List Text → Db → Db × Payment
commit_payment env actor payload p keys db =
    let payment = new_payment env actor payload p db in
    let db1 = add_payment env actor payload p keys db in
    let db2 = recalculate_spending env p.sub_project p.main_project db1 in
    (send_notifications payment p.sub_project p.main_project p.over db2, payment)

-- The rows as the commit has them.
abbrev pub written : Env → User → PaymentCreate → Prepared → List Text → Db → Db
written env actor payload p keys db =
    recalculate_spending env p.sub_project p.main_project (add_payment env actor payload p keys db)

-- Saves the contents and writes the rows. Where a content cannot be saved, or the database does not
-- take the rows, what was saved is deleted again.
unfoldable pub store_payment :
    Backends
    → Env
    → User
    → PaymentCreate
    → Storage
    → Db
    → Prepared
    → Result (Db × Payment) × Storage
store_payment b env actor payload storage db p =
    let saved = save_contents b p.sub_project.id p.phase.id p.uploads in
    let storage1 = storage ++ saved.keys in
    if not saved.complete
    then (err (validation_failed file_name_unsafe), delete_saved_contents b saved.keys storage1)
    else if b.commits (written env actor payload p saved.keys db)
    then (ok (commit_payment env actor payload p saved.keys db), storage1)
    else (err integrity_error, delete_saved_contents b saved.keys storage1)

abbrev pub create_prepared :
    Backends
    → Env
    → User
    → PaymentCreate
    → Storage
    → Db
    → Result Prepared
    → Result (Db × Payment) × Storage
create_prepared b env actor payload storage db (err e) = (err e, storage)
create_prepared b env actor payload storage db (ok p) =
    store_payment b env actor payload storage db p

unfoldable pub create_payment :
    Backends → Env → User → PaymentCreate → Storage → Db → Result (Db × Payment) × Storage
create_payment b env actor payload storage db =
    create_prepared b env actor payload storage db (prepare b actor payload db)

-- `_get_reversible_payment`
unfoldable pub get_reversible_payment : SubProject → ℕ → Db → Result Payment
get_reversible_payment sub_project payment_id db = do
  payment ← from_option (get_payment payment_id db) (not_found no_original_payment)
  guard (payment.sub_project_id == sub_project.id) (not_found no_original_payment)
  guard (not (is_reversal payment.payment_type)) (business (reversal_not_reversible payment.id))
  ok payment

-- `if existing_reversal is not None: raise`
abbrev pub not_reversed : Payment → Option Payment → Result (Unit {0})
not_reversed original none = ok tt
not_reversed original (some r) = err (business (already_reversed original.id r.id))

unfoldable pub new_reversal : Env → User → SubProject → Payment → Text → Db → Payment
new_reversal env actor sub_project original remark db = record {
  id = env.uuid 0;
  payment_no = payment_no sub_project db;
  sub_project_id = sub_project.id;
  amount = neg original.amount;
  payment_date = env.today;
  remark = some remark;
  payment_type = reversal;
  reverses_payment_id = some original.id;
  operator_id = some actor.id;
  created_at = env.now;
  updated_at = env.now;
}

unfoldable pub commit_reversal :
    Env → User → SubProject → MainProject → Payment → Text → Db → Db × Payment
commit_reversal env actor sub_project main_project original remark db =
    let payment = new_reversal env actor sub_project original remark db in
    let db1 = record db { payments = db.payments ++ payment ∷ [] } in
    (recalculate_spending env sub_project main_project db1, payment)

unfoldable pub reverse_payment : Env → User → ℕ → ℕ → Option Text → Db → Result (Db × Payment)
reverse_payment env actor sub_project_id reverses_payment_id remark db = do
  guard (can_pay actor) permission_denied
  cleaned ← from_option (clean_optional_text remark) (validation_failed remark_required)
  sub_project ← existing_sub_project sub_project_id db
  main_project ← existing_main_project sub_project.main_project_id db
  original ← get_reversible_payment sub_project reverses_payment_id db
  not_reversed original (get_reversal_for_payment original.id db)
  ok (commit_reversal env actor sub_project main_project original cleaned db)
