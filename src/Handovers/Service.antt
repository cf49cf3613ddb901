-- ===== src/Handovers/Service.antt =====
-- `HandoverRequestService` of backend/app/services/handover_requests.py. Times count microseconds.
use project_lifecycle_manage.Base.{
  ℕ, ◌==◌, ◌+◌, suc, leb, Text, codes, strip, Bool, true, false, not, ◌&&◌, ◌||◌, Option, none,
  some, List, [], ◌∷◌, ◌++◌, find?, filter, put, map, all,
}
use project_lifecycle_manage.Model.{
  Db, Env, User, SubProject, HandoverRequest, HandoverRequestStatus, HandoverRequestProject, Notice,
  awaits_candidate, awaits_review, is_active_handover, is_admin, is_dept_manager, is_proj_leader,
  is_active_user,
}
use project_lifecycle_manage.Errors.{
  Result, ok, permission_denied, validation_failed, no_handover_projects, not_found, no_user,
  no_handover_request, business, candidate_is_leader, candidate_not_leader, handover_status,
  handover_request_status, handover_too_early, manager_changed, guard, from_option, ◌>>=◌, ◌>>◌,
}
use project_lifecycle_manage.Queries.{
  existing_sub_project, get_user, get_member, unique_receivers, list_active_user_ids_by_role,
  record_audit,
}
use project_lifecycle_manage.SubProjects.Members.{SubProjectHandoverRequest, hand_over, draw_after}

unfoldable pub get_handover_request : ℕ → Db → Option HandoverRequest
get_handover_request i db = find? (λ r. r.id == i) db.handover_requests

-- In the order of the rows: the rows of one request have the same time of creation.
unfoldable pub list_request_project_ids : ℕ → Db → List ℕ
list_request_project_ids i db =
    map (λ p. p.sub_project_id) (filter (λ p. p.request_id == i) db.handover_request_projects)

abbrev pub existing_request : ℕ → Db → Result HandoverRequest
existing_request i db = from_option (get_handover_request i db) (not_found no_handover_request)

-- `[await self._get_existing_project_for_update(i) for i in ids]`
unfoldable pub existing_projects : List ℕ → Db → Result (List SubProject)
existing_projects [] db = ok []
existing_projects (i ∷ is) db =
    existing_sub_project i db >>= λ p. existing_projects is db >>= λ ps. ok (p ∷ ps)

abbrev leader_checked : ℕ → User → Result User
leader_checked i user =
    guard (is_proj_leader user.role && is_active_user user.status)
      (business (candidate_not_leader i))
    >> ok user

unfoldable pub get_active_project_leader : ℕ → Db → Result User
get_active_project_leader i db =
    from_option (get_user i db) (not_found no_user) >>= λ user. leader_checked i user

abbrev pub ensure_active_project : SubProject → Result (Unit {0})
ensure_active_project p = guard (is_active_handover p.status) (business (handover_status p.status))

-- The checks of a submission on its projects, in turn.
unfoldable pub ensure_managed : ℕ → List SubProject → Result (Unit {0})
ensure_managed actor_id [] = ok tt
ensure_managed actor_id (p ∷ ps) =
    ensure_active_project p
    >> (guard (p.manager_id == actor_id) permission_denied >> ensure_managed actor_id ps)

abbrev some_ids : List ℕ → Bool
some_ids [] = false
some_ids (i ∷ is) = true

unfoldable pub deduplicate_ids : List ℕ → Result (List ℕ)
deduplicate_ids is =
    guard (some_ids (unique_receivers is)) (validation_failed no_handover_projects)
    >> ok (unique_receivers is)

pub record HandoverRequestCreate : Type 0 where
  pub sub_project_ids : List ℕ
  pub to_user_id : ℕ
  pub reason : Text

unfoldable pub new_handover_request : Env → User → HandoverRequestCreate → HandoverRequest
new_handover_request env actor payload = record {
  id = env.uuid 0;
  from_user_id = actor.id;
  to_user_id = payload.to_user_id;
  reason = payload.reason;
  status = HandoverRequestStatus.pending_candidate;
  candidate_comment = none;
  candidate_responded_at = none;
  reviewer_id = none;
  review_comment = none;
  reviewed_at = none;
  forced_by_id = none;
  forced_at = none;
  created_at = env.now;
  updated_at = env.now;
}

-- The rows of the request's projects, the first of which takes the draw `n`.
unfoldable pub request_projects_from : Env → ℕ → ℕ → List ℕ → List HandoverRequestProject
request_projects_from env n request_id [] = []
request_projects_from env n request_id (i ∷ is) =
    record { id = env.uuid n; request_id = request_id; sub_project_id = i; created_at = env.now }
    ∷ request_projects_from env (suc n) request_id is

-- `_send_notification`, which makes the receivers unique.
abbrev pub announce : Text → List ℕ → ℕ → Db → Db
announce scenario receivers source_id db = record db {
  notices =
      db.notices
      ++ record {
        scenario = scenario;
        receivers = unique_receivers receivers;
        source_id = source_id;
      }
        ∷ [];
}

abbrev pub audit_request : Text → User → HandoverRequest → Db → Db
audit_request action actor r db = record_audit actor action (codes "handover_request") r.id db

abbrev pub insert_request : Env → HandoverRequest → List ℕ → Db → Db
insert_request env r ids db = record db {
  handover_requests = db.handover_requests ++ r ∷ [];
  handover_request_projects = db.handover_request_projects ++ request_projects_from env 1 r.id ids;
}

unfoldable pub submit_handover_request :
    Env → User → HandoverRequestCreate → Db → Result (Db × HandoverRequest)
submit_handover_request env actor payload db = do
  guard (is_proj_leader actor.role) permission_denied
  ids ← deduplicate_ids payload.sub_project_ids
  guard (not (payload.to_user_id == actor.id)) (business (candidate_is_leader payload.to_user_id))
  to_user ← get_active_project_leader payload.to_user_id db
  projects ← existing_projects ids db
  ensure_managed actor.id projects
  ok (
    audit_request (codes "handover_request.create") actor (new_handover_request env actor payload) (
        announce (codes "handover_request_candidate") (payload.to_user_id ∷ []) (env.uuid 0)
          (insert_request env (new_handover_request env actor payload) ids db)),
    new_handover_request env actor payload,
  )

abbrev kept_text : Text → Option Text
kept_text [] = none
kept_text (c ∷ s) = some (c ∷ s)

abbrev clean_comment : Option Text → Option Text
clean_comment none = none
clean_comment (some t) = kept_text (strip t)

pub data HandoverCandidateDecision : Type 0 where
  confirm reject : HandoverCandidateDecision

pub data HandoverReviewDecision : Type 0 where
  approve reject : HandoverReviewDecision

abbrev pub write_request : HandoverRequest → Db → Db
write_request r db = record db {
  handover_requests = put (λ x. x.id == r.id) r db.handover_requests;
}

abbrev pub answered_status : HandoverCandidateDecision → HandoverRequestStatus
answered_status HandoverCandidateDecision.confirm = HandoverRequestStatus.pending_review
answered_status HandoverCandidateDecision.reject = HandoverRequestStatus.candidate_rejected

unfoldable pub answered :
    Env → HandoverCandidateDecision → Option Text → HandoverRequest → HandoverRequest
answered env decision comment r = record r {
  status = answered_status decision;
  candidate_comment = clean_comment comment;
  candidate_responded_at = some env.now;
  updated_at = env.now;
}

-- The department managers of each department, in turn.
unfoldable pub managers_of : List ℕ → Db → List ℕ
managers_of [] db = []
managers_of (d ∷ ds) db =
    list_active_user_ids_by_role is_dept_manager (some d) db ++ managers_of ds db

-- `dept_ids` is a set; its order is that of the projects here.
unfoldable pub reviewer_receivers : List SubProject → Db → List ℕ
unfolding managers_of
reviewer_receivers projects db = unique_receivers (
    list_active_user_ids_by_role is_admin none db
    ++ managers_of (unique_receivers (map (λ p. p.dept_id) projects)) db)

abbrev announce_answer : HandoverCandidateDecision → HandoverRequest → Db → Result Db
announce_answer HandoverCandidateDecision.reject r db =
    ok (announce (codes "handover_request_rejected") (r.from_user_id ∷ []) r.id db)
announce_answer HandoverCandidateDecision.confirm r db =
    existing_projects (list_request_project_ids r.id db) db >>= λ projects.
    ok (announce (codes "handover_request_pending_review") (reviewer_receivers projects db) r.id db)

unfoldable pub review_candidate :
    Env → User → ℕ → HandoverCandidateDecision → Option Text → Db → Result (Db × HandoverRequest)
review_candidate env actor i decision comment db = do
  r ← existing_request i db
  guard (actor.id == r.to_user_id) permission_denied
  guard (awaits_candidate r.status) (business (handover_request_status r.status))
  announced ← announce_answer decision r (write_request (answered env decision comment r) db)
  ok (announced, answered env decision comment r)

-- One project of `_apply_transfer`: its checks, and what it writes.
abbrev pub transfer_payload : HandoverRequest → SubProjectHandoverRequest
transfer_payload r = record { to_user_id = r.to_user_id; reason = r.reason }

abbrev pub later_draws : ℕ → Env → Env
later_draws n env = record env { uuid = λ k. env.uuid (n + k) }

abbrev member_ids : ℕ → Db → List ℕ
member_ids s db = map (λ m. m.user_id) (filter (λ m. m.sub_project_id == s) db.members)

unfoldable pub completion_notice : HandoverRequest → SubProject → Db → Notice
completion_notice r p db = record {
  scenario = codes "handover_completed";
  receivers = unique_receivers (p.manager_id ∷ r.to_user_id ∷ member_ids p.id db);
  source_id = p.id;
}

-- The loop of `_apply_transfer`, with the notices to send after the commit.
unfoldable pub transfer :
    Env → User → HandoverRequest → List SubProject → Db → Result (Db × List Notice)
transfer env actor r [] db = ok (db, [])
transfer env actor r (p ∷ ps) db =
    ensure_active_project p
    >> (guard (p.manager_id == r.from_user_id) (business (manager_changed p.id))
        >> (transfer (later_draws (suc (draw_after (get_member p.id r.to_user_id db))) env) actor r
              ps (hand_over env actor p (transfer_payload r) db)
            >>= λ x.
                ok (
                  x.0,
                  completion_notice r p (hand_over env actor p (transfer_payload r) db) ∷ x.1,
                )))

unfoldable pub apply_transfer :
    Env → User → HandoverRequest → List SubProject → Db → Result (Db × List Notice)
apply_transfer env actor r projects db =
    get_active_project_leader r.to_user_id db >>= λ to_user. transfer env actor r projects db

abbrev pub send_completions : List Notice → Db → Db
send_completions ns db = record db { notices = db.notices ++ ns }

-- `_ensure_can_review`
abbrev in_own_dept : Option ℕ → SubProject → Bool
in_own_dept none p = false
in_own_dept (some d) p = p.dept_id == d

unfoldable pub can_review_request : User → List SubProject → Bool
can_review_request actor projects =
    is_admin actor.role || (is_dept_manager actor.role && all (in_own_dept actor.dept_id) projects)

abbrev reviewed_request_status : HandoverReviewDecision → HandoverRequestStatus
reviewed_request_status HandoverReviewDecision.approve = HandoverRequestStatus.approved
reviewed_request_status HandoverReviewDecision.reject = HandoverRequestStatus.review_rejected

unfoldable pub reviewed_request :
    Env → User → HandoverReviewDecision → Option Text → HandoverRequest → HandoverRequest
reviewed_request env actor decision comment r = record r {
  status = reviewed_request_status decision;
  reviewer_id = some actor.id;
  review_comment = clean_comment comment;
  reviewed_at = some env.now;
  updated_at = env.now;
}

abbrev pub decide_request :
    Env → User → HandoverReviewDecision → HandoverRequest → List SubProject → Db → Result Db
decide_request env actor HandoverReviewDecision.reject r projects db = ok (
    announce (codes "handover_request_rejected") (r.from_user_id ∷ r.to_user_id ∷ []) r.id
      (write_request r db))
decide_request env actor HandoverReviewDecision.approve r projects db =
    apply_transfer env actor r projects (write_request r db) >>= λ x. ok (send_completions x.1 x.0)

unfoldable pub review_handover_request :
    Env → User → ℕ → HandoverReviewDecision → Option Text → Db → Result (Db × HandoverRequest)
review_handover_request env actor i decision comment db = do
  r ← existing_request i db
  guard (awaits_review r.status) (business (handover_request_status r.status))
  projects ← existing_projects (list_request_project_ids r.id db) db
  guard (can_review_request actor projects) permission_denied
  decided ←
      decide_request env actor decision (reviewed_request env actor decision comment r) projects db
  ok (
    audit_request (codes "handover_request.review") actor
        (reviewed_request env actor decision comment r) decided,
    reviewed_request env actor decision comment r,
  )

-- ADMIN_FORCE_AFTER
abbrev pub admin_force_after : ℕ
admin_force_after = 604800000000

unfoldable pub forced_request : Env → User → HandoverRequest → HandoverRequest
forced_request env actor r = record r {
  status = HandoverRequestStatus.forced;
  forced_by_id = some actor.id;
  forced_at = some env.now;
  updated_at = env.now;
}

unfoldable pub force_request : Env → User → ℕ → Db → Result (Db × HandoverRequest)
force_request env actor i db = do
  guard (is_admin actor.role) permission_denied
  r ← existing_request i db
  guard (awaits_candidate r.status) (business (handover_request_status r.status))
  guard (leb (r.created_at + admin_force_after) env.now) (business (handover_too_early r.id))
  projects ← existing_projects (list_request_project_ids r.id db) db
  x ←
      apply_transfer env actor (forced_request env actor r) projects
        (write_request (forced_request env actor r) db)
  ok (
    audit_request (codes "handover_request.force") actor (forced_request env actor r)
        (send_completions x.1 x.0),
    forced_request env actor r,
  )
