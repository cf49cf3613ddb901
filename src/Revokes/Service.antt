-- ===== src/Revokes/Service.antt =====
-- `RevokeRequestService` of backend/app/services/revoke_requests.py.
use project_lifecycle_manage.Base.{
  ℕ, ◌==◌, leb, Bool, true, false, not, ◌&&◌, ◌||◌, Option, none, some, List, [], ◌∷◌, ◌++◌, Text,
  codes, strip, if◌then◌else◌, find?, filter, map, put, sort_by,
}
use project_lifecycle_manage.Model.{
  Db, Env, User, SubProject, Phase, PhaseStatus, PhaseHistory, Document, RevokeRequest,
  RevokeRequestStatus, pending, approved, rejected, RevokeReviewDecision, approve, reject, Notice,
  ReviewAudit, is_admin, is_dept_manager, is_proj_leader, is_locked_project, is_completed,
  is_pending,
}
use project_lifecycle_manage.Errors.{
  Result, ok, err, permission_denied, conflict, validation_failed, reason_required, not_found,
  no_revoke_request, business, project_locked, phase_not_completed, request_not_pending, guard,
  from_option, ◌>>=◌, ◌>>◌,
}
use project_lifecycle_manage.Queries.{
  existing_phase, existing_sub_project, latest_documents, list_phase_tasks,
  list_active_user_ids_by_role, unique_receivers, save_phase, send, contains,
}

abbrev request_status_eq : RevokeRequestStatus → RevokeRequestStatus → Bool
request_status_eq pending pending = true
request_status_eq approved approved = true
request_status_eq rejected rejected = true
request_status_eq _ _ = false

abbrev with_status : Option RevokeRequestStatus → RevokeRequest → Bool
with_status none r = true
with_status (some s) r = request_status_eq r.status s

newest_first : List RevokeRequest → List RevokeRequest
newest_first = sort_by (λ a b. leb b.created_at a.created_at)

-- VIEW_ALL_REVOKE_ROLES
abbrev pub can_review : User → Bool
can_review actor = is_admin actor.role || is_dept_manager actor.role

unfoldable pub managed_sub_project_ids : User → Db → List ℕ
managed_sub_project_ids actor db =
    map (λ s. s.id) (filter (λ s. s.manager_id == actor.id) db.sub_projects)

unfoldable pub list_requests : User → Option RevokeRequestStatus → Db → Result (List RevokeRequest)
unfolding newest_first managed_sub_project_ids
list_requests actor status db =
    if can_review actor
    then ok (newest_first (filter (with_status status) db.revoke_requests))
    else if is_proj_leader actor.role
    then ok (
        newest_first (
          filter
            (λ r.
              with_status status r
              && (contains r.sub_project_id (managed_sub_project_ids actor db)
                  || r.requester_id == actor.id))
            db.revoke_requests))
    else err permission_denied

abbrev text_or_none : Text → Option Text
text_or_none [] = none
text_or_none (c ∷ s) = some (c ∷ s)

-- `_clean_optional_text`
unfoldable pub clean_optional_text : Option Text → Option Text
clean_optional_text none = none
clean_optional_text (some t) = text_or_none (strip t)

abbrev pub is_text : Text → Bool
is_text [] = false
is_text (c ∷ s) = true

abbrev pub can_submit : User → SubProject → Bool
can_submit actor sub_project = is_proj_leader actor.role && sub_project.manager_id == actor.id

unfoldable pub ensure_phase_can_be_revoked : Phase → SubProject → Result (Unit {0})
ensure_phase_can_be_revoked phase sub_project = do
  guard (not (is_locked_project sub_project.status)) (business (project_locked sub_project.status))
  guard (is_completed phase.status) (business (phase_not_completed phase.status))

-- `get_pending_request_by_phase`
unfoldable pub get_pending_request_by_phase : ℕ → Db → Option RevokeRequest
get_pending_request_by_phase phase_id db =
    find? (λ r. r.phase_id == phase_id && is_pending r.status) db.revoke_requests

abbrev pub is_none : Option RevokeRequest → Bool
is_none none = true
is_none (some r) = false

pub record RevokeRequestCreate : Type 0 where
  pub phase_id : ℕ
  pub reason : Text
  pub keep_documents : Bool

unfoldable pub new_request : Env → User → RevokeRequestCreate → Phase → SubProject → RevokeRequest
new_request env actor payload phase sub_project = record {
  id = env.uuid 0;
  phase_id = phase.id;
  sub_project_id = sub_project.id;
  requester_id = actor.id;
  reason = strip payload.reason;
  keep_documents = payload.keep_documents;
  status = pending;
  reviewer_id = none;
  review_comment = none;
  reviewed_at = none;
  created_at = env.now;
  updated_at = env.now;
}

unfoldable pub pending_notice : RevokeRequest → SubProject → Db → Notice
pending_notice request sub_project db = record {
  scenario = codes "revoke_request_pending";
  receivers = unique_receivers (
      list_active_user_ids_by_role is_admin none db
      ++ list_active_user_ids_by_role is_dept_manager (some sub_project.dept_id) db);
  source_id = request.id;
}

abbrev pub insert_request : RevokeRequest → Db → Db
insert_request r db = record db { revoke_requests = db.revoke_requests ++ r ∷ [] }

unfoldable pub submit_request : Env → User → RevokeRequestCreate → Db → Result (Db × RevokeRequest)
submit_request env actor payload db = do
  guard (is_text (strip payload.reason)) (validation_failed reason_required)
  phase ← existing_phase payload.phase_id db
  sub_project ← existing_sub_project phase.sub_project_id db
  guard (can_submit actor sub_project) permission_denied
  ensure_phase_can_be_revoked phase sub_project
  guard (is_none (get_pending_request_by_phase phase.id db)) conflict
  let request = new_request env actor payload phase sub_project
  ok (send (pending_notice request sub_project db) (insert_request request db), request)

-- `_apply_approval`: the phase is opened again, with `enter_at or now`.
abbrev entered : Option ℕ → ℕ → Option ℕ
entered none now = some now
entered (some t) now = some t

abbrev pub reopened : Env → Phase → Phase
reopened env phase = record phase {
  status = PhaseStatus.in_progress;
  finish_at = none;
  enter_at = entered phase.enter_at env.now;
  updated_at = env.now;
}

unfoldable pub revoke_history : Env → User → Phase → PhaseHistory
revoke_history env actor phase = record {
  id = env.uuid 0;
  phase_id = phase.id;
  from_status = some phase.status;
  to_status = PhaseStatus.in_progress;
  changed_by_id = some actor.id;
  changed_at = env.now;
  note = some (codes "revoked");
}

-- The documents that `list_latest_documents_for_update` returned are marked deleted.
abbrev soft_delete_row : ℕ → ℕ → Document → Document
soft_delete_row phase_id now d =
    if d.phase_id == phase_id && (d.is_latest && not d.is_deleted)
    then record d { is_deleted = true; updated_at = now }
    else d

unfoldable pub soft_delete : ℕ → ℕ → List Document → List Document
soft_delete phase_id now = map (soft_delete_row phase_id now)

unfoldable pub apply_approval : Env → User → Bool → Phase → Db → Db
apply_approval env actor keep_documents phase db = record db {
  phases = save_phase (reopened env phase) db.phases;
  phase_histories = db.phase_histories ++ revoke_history env actor phase ∷ [];
  documents = if keep_documents then db.documents else soft_delete phase.id env.now db.documents;
}

abbrev pub save_request : RevokeRequest → List RevokeRequest → List RevokeRequest
save_request r rs = put (λ x. x.id == r.id) r rs

abbrev pub decided : Env → User → Option Text → RevokeRequestStatus → RevokeRequest → RevokeRequest
decided env actor comment status request = record request {
  reviewer_id = some actor.id;
  review_comment = clean_optional_text comment;
  reviewed_at = some env.now;
  updated_at = env.now;
  status = status;
}

-- What `_send_revoke_result_notification` and `_record_review_audit` are given.
unfoldable pub result_notice : RevokeRequest → SubProject → List Document → Notice
result_notice request sub_project documents = record {
  scenario = codes "revoke_result";
  receivers = unique_receivers (sub_project.manager_id ∷ map (λ d. d.uploader_id) documents);
  source_id = request.id;
}

unfoldable pub review_audit :
    User → RevokeRequest → Phase → RevokeRequest → Phase → List Document → Db → ReviewAudit
review_audit actor request phase request' phase' documents db = record {
  actor_id = actor.id;
  request_id = request.id;
  before_phase = phase.status;
  before_request = request.status;
  after_phase = phase'.status;
  after_request = request'.status;
  document_ids_soft_deleted = if request.keep_documents then [] else map (λ d. d.id) documents;
  preserved_task_ids = map (λ t. t.id) (list_phase_tasks phase.id db);
}

-- The writes of `review_request` from the decision to its end.
unfoldable pub record_review :
    Env → User → RevokeRequest → RevokeRequest → Phase → Phase → SubProject → Db → Db → Db
record_review env actor request request' phase phase' sub_project db db' =
    let documents = latest_documents phase.id db in
    let db1 = record db' { revoke_requests = save_request request' db'.revoke_requests } in
    let db2 = send (result_notice request' sub_project documents) db1 in
    record db2 {
      audits = db2.audits ++ review_audit actor request phase request' phase' documents db ∷ [];
    }

unfoldable pub review_decision :
    Env
    → User
    → RevokeReviewDecision
    → Option Text
    → RevokeRequest
    → Phase
    → SubProject
    → Db
    → Result (Db × RevokeRequest)
review_decision env actor reject comment request phase sub_project db =
    let request' = decided env actor comment rejected request in
    ok (record_review env actor request request' phase phase sub_project db db, request')
review_decision env actor approve comment request phase sub_project db = do
  ensure_phase_can_be_revoked phase sub_project
  let request' = decided env actor comment approved request
  let db' = apply_approval env actor request.keep_documents phase db
  ok (
    record_review env actor request request' phase (reopened env phase) sub_project db db',
    request',
  )

unfoldable pub get_request : ℕ → Db → Option RevokeRequest
get_request i db = find? (λ r. r.id == i) db.revoke_requests

unfoldable pub review_request :
    Env → User → ℕ → RevokeReviewDecision → Option Text → Db → Result (Db × RevokeRequest)
review_request env actor request_id decision comment db = do
  guard (can_review actor) permission_denied
  request ← from_option (get_request request_id db) (not_found no_revoke_request)
  guard (is_pending request.status) (business (request_not_pending request.status))
  phase ← existing_phase request.phase_id db
  sub_project ← existing_sub_project request.sub_project_id db
  review_decision env actor decision comment request phase sub_project db
