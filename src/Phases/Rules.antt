-- ===== src/Phases/Rules.antt =====
-- The document rules of backend/app/services/phases.py: quantity rules, the cover of payments by
-- vouchers, and the templates that a phase requires.
use project_lifecycle_manage.Base.{
  ℕ, suc, ◌+◌, ◌==◌, leb, Bool, true, false, not, ◌&&◌, ◌||◌, Option, none, some, List, [], ◌∷◌,
  pos, negsuc, Text, codes, text_eq, text_le, strip, lower, after_prefix, int_of_text, is_some,
  if◌then◌else◌, find?, filter, any, count, length, map, sort_by,
}
use project_lifecycle_manage.Model.{
  Db, Env, Phase, PhaseDocTemplate, RequiredDocument, not_an_object, required_document,
  WorkflowTemplateVersion, PaymentVoucherCoverage, ProcurementType, required, conditional, optional,
  has_procurement, is_required, is_conditional, is_reversal,
}
use project_lifecycle_manage.Errors.{Result, ok, err, value_error, ◌>>=◌}
use project_lifecycle_manage.Queries.{existing_sub_project}

-- `actual >= int(text)`
unfoldable pub at_least : Text → ℕ → Result Bool
at_least text actual = elim (int_of_text text) [
  | none ↦ err value_error
  | some (pos n) ↦ ok (leb n actual)
  | some (negsuc n) ↦ ok true
]

unfoldable pub is_per_payment_rule : Text → Bool
is_per_payment_rule qty_rule = is_some (after_prefix (codes "per_payment") (lower (strip qty_rule)))

unfoldable pub matches_qty_rule : Text → ℕ → Result Bool
matches_qty_rule qty_rule actual =
    let normalized = lower (strip qty_rule) in
    elim (after_prefix (codes ">=") normalized) [
      | some rest ↦ at_least (strip rest) actual
      | none ↦ elim (after_prefix (codes "=") normalized) [
        | some rest ↦ at_least (strip rest) actual
        | none ↦
            if is_some (after_prefix (codes "per_payment") normalized)
            then ok (leb 1 actual)
            else ok (leb 1 actual)
      ]
    ]

abbrev is_empty : List ℕ → Bool
is_empty [] = true
is_empty (x ∷ xs) = false

unfoldable pub is_satisfied : PaymentVoucherCoverage → Bool
is_satisfied c = leb 1 c.payment_count && is_empty c.missing_payment_ids

abbrev pub payment_voucher : Text
payment_voucher = codes "payment_voucher"

-- The template is judged by the coverage, where there is one.
unfoldable pub judged_by :
    PhaseDocTemplate → Option PaymentVoucherCoverage → Option PaymentVoucherCoverage
judged_by document coverage =
    if text_eq document.doc_type payment_voucher && is_per_payment_rule document.qty_rule
    then coverage
    else none

unfoldable pub required_document_is_satisfied :
    PhaseDocTemplate → ℕ → Option PaymentVoucherCoverage → Result Bool
required_document_is_satisfied document actual coverage = elim (judged_by document coverage) [
  | some c ↦ ok (is_satisfied c)
  | none ↦ matches_qty_rule document.qty_rule actual
]

-- `count(Document.id)` over the outer joins: the vouchers of a payment whose document is kept.
unfoldable pub voucher_count : Db → ℕ → ℕ
voucher_count db payment_id =
    count
      (λ v.
        v.payment_id == payment_id
        && any (λ d. d.id == v.document_id && not d.is_deleted) db.documents)
      db.payment_vouchers

unfoldable pub normal_payment_ids : ℕ → Db → List ℕ
normal_payment_ids sub_project_id db =
    map (λ p. p.id)
      (filter (λ p. p.sub_project_id == sub_project_id && not (is_reversal p.payment_type))
        db.payments)

sum_counts : Db → List ℕ → ℕ
unfolding voucher_count
sum_counts db [] = 0
sum_counts db (i ∷ is) = voucher_count db i + sum_counts db is

unfoldable pub get_payment_voucher_coverage : ℕ → Db → PaymentVoucherCoverage
unfolding sum_counts normal_payment_ids
get_payment_voucher_coverage sub_project_id db =
    let ids = normal_payment_ids sub_project_id db in
    record {
      payment_count = length ids;
      covered_payment_count = count (λ i. leb 1 (voucher_count db i)) ids;
      voucher_count = sum_counts db ids;
      missing_payment_ids = filter (λ i. not (leb 1 (voucher_count db i))) ids;
    }

unfoldable pub payment_voucher_coverage_for_phase : Phase → Db → Option PaymentVoucherCoverage
payment_voucher_coverage_for_phase phase db =
    if phase.phase_no == 5
    then some (get_payment_voucher_coverage phase.sub_project_id db)
    else none

by_doc_type : List PhaseDocTemplate → List PhaseDocTemplate
by_doc_type = sort_by (λ a b. text_le a.doc_type b.doc_type)

-- The procurement type is selected, and is the template's.
abbrev same_procurement : Option ProcurementType → Option ProcurementType → Bool
same_procurement none t = false
same_procurement (some p) t = has_procurement t p

unfoldable pub list_required_doc_templates : ℕ → Option ProcurementType → Db → List PhaseDocTemplate
unfolding by_doc_type
list_required_doc_templates phase_no procurement db = by_doc_type (
    filter
      (λ t.
        t.phase_no == phase_no
        && (t.is_active
            && (is_required t.requirement
                || (is_conditional t.requirement
                    && same_procurement procurement t.procurement_type))))
      db.phase_doc_templates)

-- One turn of the loop over `required_documents`; `none` is `continue`.
unfoldable pub template_of : Env → ℕ → Phase → RequiredDocument → Option PhaseDocTemplate
template_of env k phase not_an_object = none
template_of env k phase (required_document doc_type optional qty_rule procurement) = none
template_of env k phase (required_document doc_type required qty_rule procurement) = some (record {
  id = env.uuid k;
  phase_no = phase.phase_no;
  doc_type = doc_type;
  requirement = required;
  qty_rule = qty_rule;
  procurement_type = procurement;
  is_active = true;
})
template_of env k phase (required_document doc_type conditional qty_rule procurement) =
    let template : PhaseDocTemplate = record {
      id = env.uuid k;
      phase_no = phase.phase_no;
      doc_type = doc_type;
      requirement = conditional;
      qty_rule = qty_rule;
      procurement_type = procurement;
      is_active = true;
    } in
    elim procurement [
      | none ↦ some template
      | some p ↦ if has_procurement phase.procurement_type p then some template else none
    ]

abbrev cons? : Option PhaseDocTemplate → List PhaseDocTemplate → List PhaseDocTemplate
cons? none ts = ts
cons? (some t) ts = t ∷ ts

unfoldable pub templates_from : Env → ℕ → Phase → List RequiredDocument → List PhaseDocTemplate
unfolding template_of
templates_from env k phase [] = []
templates_from env k phase (d ∷ ds) =
    cons? (template_of env k phase d) (templates_from env (suc k) phase ds)

unfoldable pub required_documents_from_workflow_version :
    Env → WorkflowTemplateVersion → Phase → List PhaseDocTemplate
unfolding templates_from by_doc_type
required_documents_from_workflow_version env version phase =
    elim (find? (λ d. d.order == phase.phase_no || text_eq d.key phase.code)
      version.phase_definitions) [
        | none ↦ []
        | some definition ↦ by_doc_type (templates_from env 1 phase definition.required_documents)
      ]

abbrev workflow_version : Option ℕ → Db → Option WorkflowTemplateVersion
workflow_version none db = none
workflow_version (some i) db = find? (λ v. v.id == i) db.workflow_versions

unfoldable pub required_documents_for_phase : Env → Phase → Db → Result (List PhaseDocTemplate)
required_documents_for_phase env phase db = do
  sub_project ← existing_sub_project phase.sub_project_id db
  elim (workflow_version sub_project.workflow_template_version_id db) [
    | some version ↦ ok (required_documents_from_workflow_version env version phase)
    | none ↦ ok (list_required_doc_templates phase.phase_no phase.procurement_type db)
  ]
