-- ===== src/Errors.antt =====
-- backend/app/core/exceptions.py: what a service call returns or raises. An exception leaves through
-- the `async with` of backend/app/core/db.py, which drops what was not committed, so an error
-- carries no database.
use project_lifecycle_manage.Base.{
  ℕ, ℤ, Text, List, [], ◌∷◌, Option, none, some, Bool, true, false, ◌≡◌, refl, arith, ◌⊎◌, inl, inr,
}
use project_lifecycle_manage.Model.{
  PhaseStatus, PaymentVoucherCoverage, SubProjectStatus, MainProjectStatus, RevokeRequestStatus,
  UserStatus, UserRole, HandoverRequestStatus,
}

pub data NotFound : Type 0 where
  no_phase no_sub_project no_main_project no_payment_phase no_original_payment no_payment no_step
        no_revoke_request no_task no_user no_member no_workflow_version no_default_version
        no_new_leader no_handover_request no_project_type :
      NotFound

pub data Invalid : Type 0 where
  reason_required step_number step_name amount_not_positive remark_required voucher_required
        file_name_required file_too_large page_number page_size executor_required
        executors_not_unique file_name_unsafe only_assignee_me no_handover_projects :
      Invalid

-- An entry of `missing_documents`: `doc_type`, `required`, `actual`, and the keys that
-- `_missing_document_extra` adds, taken from the coverage.
pub record MissingDocument : Type 0 where
  pub doc_type : Text
  pub required : Text
  pub actual : ℕ
  pub extra : Option PaymentVoucherCoverage

-- The messages of `BusinessException`, with their data.
pub data Business : Type 0 where
  not_procurement_phase : ℕ → Business
  procurement_phase_completed : PhaseStatus → Business
  not_in_progress : PhaseStatus → Business
  previous_incomplete : PhaseStatus → List ℕ → Business
  missing_documents : List MissingDocument → Business
  procurement_type_missing : Business
  steps_incomplete : List ℤ → Business
  project_locked : SubProjectStatus → Business
  phase_not_completed : PhaseStatus → Business
  request_not_pending : RevokeRequestStatus → Business
  not_acceptance_phase : ℕ → Business
  acceptance_not_in_progress : PhaseStatus → Business
  responsible_not_member : ℕ → Business
  step_report_missing : ℕ → Business
  over_budget : (budget spent amount over : ℤ) → Business
  already_reversed : (payment reversing : ℕ) → Business
  reversal_not_reversible : ℕ → Business
  executor_not_member : ℕ → Business
  sub_project_status : SubProjectStatus → Business
  main_project_status : MainProjectStatus → Business
  not_active_member : UserStatus → UserRole → Business
  leader_not_removable : ℕ → Business
  manager_mismatch : (sub_project expected actual : ℕ) → Business
  same_manager : ℕ → Business
  not_active_leader : UserStatus → UserRole → Business
  over_allocated : (budget allocated amount over : ℤ) → Business
  phases_incomplete : (phases incomplete : ℕ) → Business
  open_sub_projects : ℕ → Business
  candidate_is_leader : ℕ → Business
  candidate_not_leader : ℕ → Business
  handover_status : SubProjectStatus → Business
  handover_request_status : HandoverRequestStatus → Business
  handover_too_early : ℕ → Business
  manager_changed : ℕ → Business

pub data Error : Type 0 where
  permission_denied : Error
  validation_failed : Invalid → Error
  not_found : NotFound → Error
  conflict : Error
  self_review_denied : Error
  business : Business → Error
  -- What the services let through: a ValueError of `int`, an error of the file validator, and the
  -- IntegrityError of a commit that a constraint of the database refuses.
  value_error file_rejected integrity_error : Error

-- The codes 3001 (budget), 3002 (something missing), 3030 (revoke), and 3003 for the rest.
unfoldable pub business_code : Business → ℕ
business_code (over_budget _ _ _ _) = 3001
business_code (over_allocated _ _ _ _) = 3001
business_code (missing_documents _) = 3002
business_code procurement_type_missing = 3002
business_code (step_report_missing _) = 3002
business_code (phase_not_completed _) = 3030
business_code _ = 3003

-- `exc.code`; `none` where the exception is no BusinessException.
unfoldable pub error_code : Error → Option ℕ
unfolding business_code
error_code permission_denied = some 1003
error_code (validation_failed _) = some 2003
error_code (not_found _) = some 4001
error_code conflict = some 4002
error_code self_review_denied = some 1010
error_code (business b) = some (business_code b)
error_code _ = none

-- `exc.status_code`
unfoldable pub status_code : Error → ℕ
status_code permission_denied = 403
status_code (validation_failed _) = 422
status_code (not_found _) = 404
status_code conflict = 409
status_code self_review_denied = 403
status_code (business _) = 409
status_code _ = 500

pub data Result {κ} (V : Type κ) : Type κ where
  err : (raised : Error) → Result V
  ok : (returned : V) → Result V

-- `if not test: raise e`
abbrev pub guard : (test : Bool) (raised : Error) → Result (Unit {0})
guard false raised = err raised
guard true raised = ok tt

infixl 5 ◌>>=◌ ◌>>◌
-- The statements after a call see what it returned, and an exception skips them.
abbrev pub ◌>>=◌ {κ ℓ} :
    {V : Type κ} {W : Type ℓ} (call : Result V) (next : V → Result W) → Result W
err raised >>= next = err raised
ok v >>= next = next v

abbrev pub ◌>>◌ {κ} : {W : Type κ} (check : Result (Unit {0})) (next : Result W) → Result W
check >> next = check >>= λ _. next

-- The call returned True.
abbrev pub returns_true : Result Bool → Bool
returns_true (ok b) = b
returns_true (err e) = false

abbrev pub from_option {ℓ} : {A : Type ℓ} → Option A → Error → Result A
from_option none e = err e
from_option (some a) e = ok a

-- `if xs: raise e(xs)`
abbrev pub guard_empty {ℓ} : {A : Type ℓ} → List A → (List A → Error) → Result (Unit {0})
guard_empty [] e = ok tt
guard_empty (x ∷ xs) e = err (e (x ∷ xs))

-- Inversions of a successful step.
pub ok-injective {ℓ} : {A : Type ℓ} {a b : A} → ok a ≡ ok b → a ≡ b
ok-injective h = cc

pub Result-cases {ℓ} :
    {A : Type ℓ} (m : Result A) → ((a : A) × (m ≡ ok a)) ⊎ ((e : Error) × (m ≡ err e))
Result-cases (ok a) = inl (a, refl)
Result-cases (err e) = inr (e, refl)

pub >>=-eq-ok {κ ℓ} :
    {V : Type κ} {W : Type ℓ} (call : Result V) (next : V → Result W) {w : W}
    → (call >>= next) ≡ ok w
    → (v : V) × (call ≡ ok v) × (next v ≡ ok w)
>>=-eq-ok (err raised) next h = ground arith
>>=-eq-ok (ok v) next h = (v, refl, h)

pub guard->>-eq-ok {ℓ} :
    {B : Type ℓ} (t : Bool) (e : Error) (k : Result B) {b : B}
    → (guard t e >> k) ≡ ok b
    → (t ≡ true) × (k ≡ ok b)
guard->>-eq-ok true e k h = (refl, h)
guard->>-eq-ok false e k h = ground arith

pub from_option->>=-eq-ok {ℓ κ} :
    {A : Type ℓ} {B : Type κ} (o : Option A) (e : Error) (f : A → Result B) {b : B}
    → (from_option o e >>= f) ≡ ok b
    → (a : A) × (o ≡ some a) × (f a ≡ ok b)
from_option->>=-eq-ok (some a) e f h = (a, refl, h)
from_option->>=-eq-ok none e f h = ground arith

pub guard_empty->>-eq-ok {ℓ κ} :
    {A : Type ℓ} {B : Type κ} (xs : List A) (e : List A → Error) (k : Result B) {b : B}
    → (guard_empty xs e >> k) ≡ ok b
    → (xs ≡ []) × (k ≡ ok b)
guard_empty->>-eq-ok [] e k h = (refl, h)
guard_empty->>-eq-ok (x ∷ xs) e k h = ground arith

pub guard_empty-eq-ok {ℓ} :
    {A : Type ℓ} (xs : List A) (e : List A → Error) → guard_empty xs e ≡ ok tt → xs ≡ []
guard_empty-eq-ok [] e h = refl
guard_empty-eq-ok (x ∷ xs) e h = ground arith
