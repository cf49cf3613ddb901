-- ===== src/MainProjects/Review.antt =====
-- `review_project` of `MainProjectService` in backend/app/services/main_projects.py.
use project_lifecycle_manage.Base.{
  ℕ, ◌==◌, ℤ, pos, negsuc, Text, codes, text_eq, Bool, true, false, not, ◌||◌, Option, none, some,
  List, [], ◌∷◌, ◌++◌, if◌then◌else◌,
}
use project_lifecycle_manage.Model.{
  Db, Env, User, MainProject, MainProjectStatus, ProjectReview, ProjectReviewDecision, ColumnValue,
  text_value, id_value, date_value, money_value, null, FieldChange, is_pending_main, is_admin,
  is_dept_manager,
}
use project_lifecycle_manage.Errors.{
  Result, ok, permission_denied, self_review_denied, integrity_error, business, main_project_status,
  guard, ◌>>=◌, ◌>>◌,
}
use project_lifecycle_manage.Queries.{existing_main_project, save_main_project, notify, is_user}
use project_lifecycle_manage.SubProjects.Creation.{given_or}
use project_lifecycle_manage.MainProjects.Creation.{other_dept_managers, audit_main_project}

-- A field is `some` where it is in `model_fields_set`; the payload may then hold null.
pub record MainProjectReviewUpdate : Type 0 where
  pub name : Option (Option Text)
  pub dept_id : Option (Option ℕ)
  pub total_budget : Option (Option ℤ)
  pub expected_finish_date : Option (Option ℕ)
  pub remark : Option (Option Text)

pub record MainProjectReviewRequest : Type 0 where
  pub decision : ProjectReviewDecision
  pub review_comment : Option Text
  pub updates : Option MainProjectReviewUpdate

abbrev equal_ℤ : ℤ → ℤ → Bool
equal_ℤ (pos a) (pos b) = a == b
equal_ℤ (negsuc a) (negsuc b) = a == b
equal_ℤ _ _ = false

-- `old_value == new_value`
unfoldable pub same_value : ColumnValue → ColumnValue → Bool
same_value (text_value a) (text_value b) = text_eq a b
same_value (id_value a) (id_value b) = a == b
same_value (date_value a) (date_value b) = a == b
same_value (money_value a) (money_value b) = equal_ℤ a b
same_value null null = true
same_value _ _ = false

abbrev column {ℓ} : {A : Type ℓ} → (A → ColumnValue) → Option A → ColumnValue
column wrap none = null
column wrap (some a) = wrap a

-- The entry of one field: none where it is not given or keeps its value.
unfoldable pub change_of : Text → ColumnValue → Option ColumnValue → List FieldChange
unfolding same_value
change_of field old none = []
change_of field old (some new) =
    if same_value old new then [] else record { field = field; before = old; after = new } ∷ []

abbrev given_column {ℓ} : {A : Type ℓ} → (A → ColumnValue) → Option (Option A) → Option ColumnValue
given_column wrap none = none
given_column wrap (some v) = some (column wrap v)

unfoldable pub changes : MainProjectReviewUpdate → MainProject → List FieldChange
unfolding change_of
changes u m =
    change_of (codes "name") (text_value m.name) (given_column text_value u.name)
    ++ change_of (codes "dept_id") (id_value m.dept_id) (given_column id_value u.dept_id)
    ++ change_of (codes "total_budget") (money_value m.total_budget)
        (given_column money_value u.total_budget)
    ++ change_of (codes "expected_finish_date") (date_value m.expected_finish_date)
        (given_column date_value u.expected_finish_date)
    ++ change_of (codes "remark") (column text_value m.remark) (given_column text_value u.remark)

-- The value that a NOT NULL column gets; a null is refused by the commit.
abbrev given_value {ℓ} : {A : Type ℓ} → A → Option (Option A) → A
given_value old none = old
given_value old (some none) = old
given_value old (some (some new)) = new

abbrev is_null {ℓ} : {A : Type ℓ} → Option (Option A) → Bool
is_null none = false
is_null (some none) = true
is_null (some (some a)) = false

-- A column that is NOT NULL is given null.
unfoldable pub nulls_column : MainProjectReviewUpdate → Bool
nulls_column u =
    is_null u.name
    || (is_null u.dept_id || (is_null u.total_budget || is_null u.expected_finish_date))

abbrev pub has_null : Option MainProjectReviewUpdate → Bool
has_null none = false
has_null (some u) = nulls_column u

-- `_apply_review_updates`: the project, and the entries of `modified_fields`.
unfoldable pub apply_review_updates : Option MainProjectReviewUpdate → MainProject → MainProject
apply_review_updates none m = m
apply_review_updates (some u) m = record m {
  name = given_value m.name u.name;
  dept_id = given_value m.dept_id u.dept_id;
  total_budget = given_value m.total_budget u.total_budget;
  expected_finish_date = given_value m.expected_finish_date u.expected_finish_date;
  remark = given_or m.remark u.remark;
}

unfoldable pub modified_fields_of : Option MainProjectReviewUpdate → MainProject → List FieldChange
unfolding changes
modified_fields_of none m = []
modified_fields_of (some u) m = changes u m

abbrev pub decided_status : ProjectReviewDecision → MainProjectStatus
decided_status ProjectReviewDecision.approve = MainProjectStatus.not_started
decided_status ProjectReviewDecision.reject = MainProjectStatus.rejected

unfoldable pub reviewed_main_project : Env → MainProjectReviewRequest → MainProject → MainProject
unfolding apply_review_updates
reviewed_main_project env payload m = record (apply_review_updates payload.updates m) {
  status = decided_status payload.decision;
  updated_at = env.now;
}

unfoldable pub main_project_review :
    Env → User → MainProject → MainProjectReviewRequest → ProjectReview
main_project_review env actor m payload = record {
  id = env.uuid 0;
  main_project_id = some m.id;
  sub_project_id = none;
  reviewer_id = actor.id;
  decision = payload.decision;
  from_status = m.status;
  to_status = decided_status payload.decision;
  review_comment = payload.review_comment;
  modified_fields = modified_fields_of payload.updates m;
  admin_override = is_admin actor.role;
  reviewed_at = env.now;
}

abbrev pub record_project_review : Env → User → MainProject → MainProjectReviewRequest → Db → Db
record_project_review env actor m payload db = record db {
  main_projects = save_main_project (reviewed_main_project env payload m) db.main_projects;
  project_reviews = db.project_reviews ++ main_project_review env actor m payload ∷ [];
}

abbrev creator_of : Option ℕ → List ℕ
creator_of none = []
creator_of (some u) = u ∷ []

abbrev pub announce_project_review : User → MainProject → Db → Db
announce_project_review actor m db =
    audit_main_project (codes "main_project.review") actor m
      (notify (codes "project_review_result") (creator_of m.creator_id) m.id db)

abbrev pub no_ids : List ℕ → Bool
no_ids [] = true
no_ids (i ∷ is) = false

-- A creator who is no administrator reviews only where no other department manager is active.
abbrev pub may_review : User → MainProject → Db → Bool
may_review actor m db =
    not (is_user m.creator_id actor.id)
    || (is_admin actor.role || no_ids (other_dept_managers actor.id db))

unfoldable pub review_project :
    Env → User → ℕ → MainProjectReviewRequest → Db → Result (Db × MainProject)
review_project env actor i payload db = do
  guard (is_admin actor.role || is_dept_manager actor.role) permission_denied
  m ← existing_main_project i db
  guard (may_review actor m db) self_review_denied
  guard (is_pending_main m.status) (business (main_project_status m.status))
  guard (not (has_null payload.updates)) integrity_error
  ok (
    announce_project_review actor (reviewed_main_project env payload m)
        (record_project_review env actor m payload db),
    reviewed_main_project env payload m,
  )
