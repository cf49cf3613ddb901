-- ===== src/Revokes/Review.antt =====
-- What `review_request` of backend/app/services/revoke_requests.py does on each decision.
use project_lifecycle_manage.Base.{
  ℕ, ◌==◌, true, false, not, ◌&&◌, ◌≡◌, refl, sym, subst, Option, none, some, List, [], ◌∷◌, Text,
  arith, find?, filter, find?-put, find?-sound, ==_iff, ==_refl,
}
use project_lifecycle_manage.Model.{
  Db, Env, User, SubProject, Phase, PhaseStatus, Document, RevokeRequest, approved, rejected,
  RevokeReviewDecision, approve, reject, is_locked_project, is_completed, is_pending,
}
use project_lifecycle_manage.Errors.{
  ok, ok-injective, from_option->>=-eq-ok, guard->>-eq-ok, permission_denied, business,
  request_not_pending, not_found, no_phase, no_sub_project, no_revoke_request,
}
use project_lifecycle_manage.Queries.{get_phase, get_sub_project, latest_documents, send}
use project_lifecycle_manage.Revokes.Service.{
  can_review, ensure_phase_can_be_revoked, reopened, decided, save_request, soft_delete,
  apply_approval, record_review, review_decision, get_request, review_request, clean_optional_text,
}

-- What was fetched and checked before the decision.
pub record IsReviewable (actor : User) (request_id : ℕ) (db : Db) : Type 0 where
  pub request : RevokeRequest
  pub phase : Phase
  pub sub_project : SubProject
  pub reviewer : can_review actor ≡ true
  pub found : get_request request_id db ≡ some request
  pub open_request : is_pending request.status ≡ true
  pub found_phase : get_phase request.phase_id db ≡ some phase
  pub found_project : get_sub_project request.sub_project_id db ≡ some sub_project

pub review_request-IsReviewable :
    (env : Env) (actor : User) (request_id : ℕ) (decision : RevokeReviewDecision)
    (comment : Option Text) (db : Db) {r : Db × RevokeRequest}
    → review_request env actor request_id decision comment db ≡ ok r
    → (v : IsReviewable actor request_id db) × (review_decision env actor decision comment v.request
          v.phase v.sub_project db
        ≡ ok r)
unfolding review_request
review_request-IsReviewable env actor request_id decision comment db h =
    let (reviewer, h1) = guard->>-eq-ok (can_review actor) permission_denied _ h in
    let (request, found, h2) =
      from_option->>=-eq-ok (get_request request_id db) (not_found no_revoke_request) _ h1 in
    let (open_request, h3) =
      guard->>-eq-ok (is_pending request.status) (business (request_not_pending request.status)) _
        h2 in
    let (phase, found_phase, h4) =
      from_option->>=-eq-ok (get_phase request.phase_id db) (not_found no_phase) _ h3 in
    let (sub, found_project, h5) =
      from_option->>=-eq-ok (get_sub_project request.sub_project_id db) (not_found no_sub_project) _
        h4 in
    (
      record {
        request = request;
        phase = phase;
        sub_project = sub;
        reviewer = reviewer;
        found = found;
        open_request = open_request;
        found_phase = found_phase;
        found_project = found_project;
      },
      h5,
    )

-- The checks of an approval.
pub approve-checked :
    (env : Env) (actor : User) (comment : Option Text) (request : RevokeRequest) (phase : Phase)
    (sub : SubProject) (db : Db) {r : Db × RevokeRequest}
    → review_decision env actor approve comment request phase sub db ≡ ok r
    → (is_locked_project sub.status ≡ false)
      × (is_completed phase.status ≡ true)
      × (r ≡ (
        record_review env actor request
            (decided env actor comment approved request)
            phase
            (reopened env phase)
            sub
            db
            (apply_approval env actor request.keep_documents phase db),
        decided env actor comment approved request,
      ))
unfolding review_decision ensure_phase_can_be_revoked
approve-checked env actor comment request phase sub db h = ground arith

-- Of the latest documents of a phase none is left after `soft_delete`.
filter-soft_delete :
    (phase_id now : ℕ) (ds : List Document)
    → filter
        (λ d. d.phase_id == phase_id && (d.is_latest && not d.is_deleted))
        (soft_delete phase_id now ds)
      ≡ []
unfolding filter soft_delete
filter-soft_delete phase_id now [] = refl
filter-soft_delete phase_id now (d ∷ ds) = ground (arith, filter-soft_delete phase_id now ds)

-- An approval that returns opens the phase of the request again: it was completed, in a sub project
-- that is not locked, and it is found in progress, with no finish time and the time of entry that it
-- had (or now). The request is found approved. The documents stay if the request keeps them;
-- otherwise no latest document of the phase is left. No sub project changes.
pub review_request_approve :
    (env : Env) (actor : User) (request_id : ℕ) (comment : Option Text) (db : Db)
    {r : Db × RevokeRequest}
    → review_request env actor request_id approve comment db ≡ ok r
    → (phase : Phase) × (sub : SubProject) × (get_phase r.1.phase_id db ≡ some phase)
      × (get_sub_project r.1.sub_project_id db ≡ some sub)
      × (is_completed phase.status ≡ true)
      × (is_locked_project sub.status ≡ false)
      × ((p : Phase) × (get_phase phase.id r.0 ≡ some p)
          × (p ≡ record phase {
            status = PhaseStatus.in_progress;
            finish_at = none;
            enter_at = p.enter_at;
            updated_at = env.now;
          })
          × ((t : ℕ) → phase.enter_at ≡ some t → p.enter_at ≡ some t)
          × (phase.enter_at ≡ none → p.enter_at ≡ some env.now))
      × (get_request request_id r.0 ≡ some r.1)
      × (r.1.status ≡ approved)
      × (r.1.keep_documents ≡ true → r.0.documents ≡ db.documents)
      × (r.1.keep_documents ≡ false → latest_documents phase.id r.0 ≡ [])
      × (r.0.sub_projects ≡ db.sub_projects)
unfolding get_phase get_request record_review send apply_approval latest_documents
review_request_approve env actor request_id comment db h =
    let (v, h1) = review_request-IsReviewable env actor request_id approve comment db h in
    let (unlocked, done, e) =
      approve-checked env actor comment v.request v.phase v.sub_project db h1 in
    let same_request =
      (==_iff v.request.id request_id).0
        (find?-sound (λ x. x.id == request_id) db.revoke_requests v.found) in
    let same_phase =
      (==_iff v.phase.id v.request.phase_id).0
        (find?-sound (λ x. x.id == v.request.phase_id) db.phases v.found_phase) in
    let here =
      subst (λ i. find? (λ x. x.id == i) db.phases ≡ some v.phase) (sym same_phase) v.found_phase in
    let mine =
      subst (λ i. find? (λ x. x.id == i) db.revoke_requests ≡ some v.request) (sym same_request)
        v.found in
    let request' = decided env actor comment approved v.request in
    rw e (
      v.phase,
      v.sub_project,
      v.found_phase,
      v.found_project,
      done,
      unlocked,
      (
        reopened env v.phase,
        find?-put (λ x. x.id == v.phase.id) db.phases (reopened env v.phase) here
            (==_refl v.phase.id),
        refl,
        λ t before. rw before refl,
        λ never. rw never refl,
      ),
      subst (λ i. find? (λ x. x.id == i) (save_request request' db.revoke_requests) ≡ some request')
          same_request
          (find?-put (λ x. x.id == v.request.id) db.revoke_requests request' mine
            (==_refl v.request.id)),
      refl,
      λ keep. rw keep,
      λ drop. rw drop (filter-soft_delete v.phase.id env.now db.documents),
      refl,
    )

-- A rejection that returns leaves the request found as rejected, with its reviewer, the cleaned
-- comment and the time, and changes no phase, sub project or document.
pub review_request_reject :
    (env : Env) (actor : User) (request_id : ℕ) (comment : Option Text) (db : Db)
    {r : Db × RevokeRequest}
    → review_request env actor request_id reject comment db ≡ ok r
    → (get_request request_id r.0 ≡ some r.1)
      × (r.1.status ≡ rejected)
      × (r.1.reviewer_id ≡ some actor.id)
      × (r.1.review_comment ≡ clean_optional_text comment)
      × (r.1.reviewed_at ≡ some env.now)
      × (r.0.phases ≡ db.phases)
      × (r.0.phase_histories ≡ db.phase_histories)
      × (r.0.sub_projects ≡ db.sub_projects)
      × (r.0.documents ≡ db.documents)
unfolding get_request record_review send review_decision
review_request_reject env actor request_id comment db h =
    let (v, h1) = review_request-IsReviewable env actor request_id reject comment db h in
    let same_request =
      (==_iff v.request.id request_id).0
        (find?-sound (λ x. x.id == request_id) db.revoke_requests v.found) in
    let mine =
      subst (λ i. find? (λ x. x.id == i) db.revoke_requests ≡ some v.request) (sym same_request)
        v.found in
    let request' = decided env actor comment rejected v.request in
    rw (sym (ok-injective h1)) (
      subst (λ i. find? (λ x. x.id == i) (save_request request' db.revoke_requests) ≡ some request')
          same_request
          (find?-put (λ x. x.id == v.request.id) db.revoke_requests request' mine
            (==_refl v.request.id)),
      refl,
      refl,
      refl,
      refl,
      refl,
      refl,
      refl,
      refl,
    )
