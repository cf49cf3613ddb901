-- ===== src/Revokes/Pending.antt =====
-- At most one pending request for a phase, and the invariant of the phases, across the operations of
-- backend/app/services/revoke_requests.py.
use project_lifecycle_manage.Base.{
  ℕ, ◌==◌, Bool, true, false, not, ◌&&◌, ◌||◌, ◌≡◌, refl, sym, subst, find?, find?-append_none,
  any-none, ==_iff, ==_refl, Option, none, some, List, [], ◌∷◌, ◌++◌, Text, arith, find?-all, any,
  put, strip, find?-sound, find?-none, any-append,
}
use project_lifecycle_manage.Model.{
  Db, Env, User, SubProject, Phase, RevokeRequest, RevokeReviewDecision, approve, reject,
  is_pending, is_completed, is_locked_project, pending, Notice,
}
use project_lifecycle_manage.Errors.{
  ok, err, ok-injective, from_option->>=-eq-ok, guard->>-eq-ok, >>=-eq-ok, permission_denied,
  business, request_not_pending, conflict, validation_failed, reason_required, not_found, no_phase,
  no_sub_project,
}
use project_lifecycle_manage.Queries.{get_phase, get_sub_project, send}
use project_lifecycle_manage.Phases.Invariant.{IsSound, is_linked}
use project_lifecycle_manage.Revokes.Service.{
  can_review, can_submit, ensure_phase_can_be_revoked, save_request, apply_approval, record_review,
  review_decision, get_request, review_request, RevokeRequestCreate, new_request, insert_request,
  submit_request, get_pending_request_by_phase, is_text, is_none, pending_notice,
}
use project_lifecycle_manage.Revokes.Review.{
  review_request-IsReviewable, approve-checked, review_request_approve, review_request_reject,
}

abbrev competes : ℕ → RevokeRequest → Bool
competes phase_id r = r.phase_id == phase_id && is_pending r.status

-- No two rows are pending for one phase.
unfoldable pub one_pending : List RevokeRequest → Bool
one_pending [] = true
one_pending (r ∷ rs) =
    (not (is_pending r.status) || not (any (competes r.phase_id) rs)) && one_pending rs

one_pending-append :
    (r : RevokeRequest) (rs : List RevokeRequest)
    → one_pending rs ≡ true
    → any (competes r.phase_id) rs ≡ false
    → one_pending (rs ++ r ∷ []) ≡ true
unfolding one_pending any
one_pending-append r [] h k = ground arith
one_pending-append r (x ∷ xs) h k =
    ground (arith, any-append (competes x.phase_id) xs (r ∷ []), one_pending-append r xs)

any-put-false :
    (q m : RevokeRequest → Bool) (r : RevokeRequest) (rs : List RevokeRequest)
    → any q rs ≡ false
    → q r ≡ false
    → any q (put m r rs) ≡ false
unfolding any put
any-put-false q m r [] h k = refl
any-put-false q m r (x ∷ xs) h k = ground (arith, any-put-false q m r xs)

one_pending-put :
    (m : RevokeRequest → Bool) (r : RevokeRequest) (rs : List RevokeRequest)
    → one_pending rs ≡ true
    → is_pending r.status ≡ false
    → one_pending (put m r rs) ≡ true
unfolding one_pending put
one_pending-put m r [] h k = refl
one_pending-put m r (x ∷ xs) h k = ground (
  arith,
  one_pending-put m r xs,
  any-put-false (competes r.phase_id) m r xs,
  any-put-false (competes x.phase_id) m r xs,
)

-- What a submission has checked, and what it inserts.
pub record IsSubmitted (env : Env) (actor : User) (payload : RevokeRequestCreate) (db : Db)
    : Type 0 where
  pub phase : Phase
  pub sub_project : SubProject
  pub reasoned : is_text (strip payload.reason) ≡ true
  pub found_phase : get_phase payload.phase_id db ≡ some phase
  pub found_project : get_sub_project phase.sub_project_id db ≡ some sub_project
  pub leader : can_submit actor sub_project ≡ true
  pub unlocked : is_locked_project sub_project.status ≡ false
  pub done : is_completed phase.status ≡ true
  pub alone : any (competes phase.id) db.revoke_requests ≡ false

unique-none :
    (phase_id : ℕ) (db : Db)
    → is_none (get_pending_request_by_phase phase_id db) ≡ true
    → any (competes phase_id) db.revoke_requests ≡ false
unfolding get_pending_request_by_phase
unique-none phase_id db h = find?-none (competes phase_id) db.revoke_requests (ground arith)

revocable-checked :
    (phase : Phase) (sub : SubProject) (u : Unit {0})
    → ensure_phase_can_be_revoked phase sub ≡ ok u
    → (is_locked_project sub.status ≡ false) × (is_completed phase.status ≡ true)
unfolding ensure_phase_can_be_revoked
revocable-checked phase sub u h = ground arith

-- The checks of a submission that returns, and its two writes.
pub submit_request-eq-ok :
    (env : Env) (actor : User) (payload : RevokeRequestCreate) (db : Db) {r : Db × RevokeRequest}
    → submit_request env actor payload db ≡ ok r
    → (s : IsSubmitted env actor payload db) × (r.1
        ≡ new_request env actor payload s.phase s.sub_project)
      × (r.0 ≡ send (pending_notice r.1 s.sub_project db) (insert_request r.1 db))
unfolding submit_request ensure_phase_can_be_revoked
submit_request-eq-ok env actor payload db h =
    let (reasoned, h1) =
      guard->>-eq-ok (is_text (strip payload.reason)) (validation_failed reason_required) _ h in
    let (phase, found_phase, h2) =
      from_option->>=-eq-ok (get_phase payload.phase_id db) (not_found no_phase) _ h1 in
    let (sub, found_project, h3) =
      from_option->>=-eq-ok (get_sub_project phase.sub_project_id db) (not_found no_sub_project) _
        h2 in
    let (leader, h4) = guard->>-eq-ok (can_submit actor sub) permission_denied _ h3 in
    let (checked, revocable, h5) = >>=-eq-ok (ensure_phase_can_be_revoked phase sub) _ h4 in
    let (unlocked, done) = revocable-checked phase sub checked revocable in
    let (free, h6) =
      guard->>-eq-ok (is_none (get_pending_request_by_phase phase.id db)) conflict _ h5 in
    (
      record {
        phase = phase;
        sub_project = sub;
        reasoned = reasoned;
        found_phase = found_phase;
        found_project = found_project;
        leader = leader;
        unlocked = unlocked;
        done = done;
        alone = unique-none phase.id db free;
      },
      rw (sym (ok-injective h6)) refl,
      rw (sym (ok-injective h6)) refl,
    )

-- A submission that returns came from the leader of the sub project, with a reason, for a completed
-- phase of a sub project that is not locked and with no pending request. It added one row to the table,
-- a pending request of the actor for that phase with the stripped reason and the payload's choice on the
-- documents, without a review; it is the pending request that is then found for the phase. One notice
-- names it; no phase, sub project or document changes.
pub submit_request-IsSubmitted :
    (env : Env) (actor : User) (payload : RevokeRequestCreate) (db : Db) {r : Db × RevokeRequest}
    → submit_request env actor payload db ≡ ok r
    → (s : IsSubmitted env actor payload db) × (r.1.status ≡ pending)
      × (r.1.phase_id ≡ payload.phase_id)
      × (r.1.sub_project_id ≡ s.phase.sub_project_id)
      × (r.1.requester_id ≡ actor.id)
      × (r.1.reason ≡ strip payload.reason)
      × (r.1.keep_documents ≡ payload.keep_documents)
      × (r.1.reviewer_id ≡ none)
      × (r.1.review_comment ≡ none)
      × (r.1.reviewed_at ≡ none)
      × (r.1.created_at ≡ env.now)
      × (r.0.revoke_requests ≡ db.revoke_requests ++ r.1 ∷ [])
      × (get_pending_request_by_phase payload.phase_id r.0 ≡ some r.1)
      × ((n : Notice) × (n.source_id ≡ r.1.id) × (r.0.notices ≡ db.notices ++ n ∷ []))
      × (r.0.phases ≡ db.phases)
      × (r.0.sub_projects ≡ db.sub_projects)
      × (r.0.documents ≡ db.documents)
unfolding new_request send pending_notice get_pending_request_by_phase get_phase get_sub_project
submit_request-IsSubmitted env actor payload db h =
    let (s, e, e') = submit_request-eq-ok env actor payload db h in
    let same =
      (==_iff _ _).0 (find?-sound (λ p. p.id == payload.phase_id) db.phases s.found_phase) in
    let scope =
      (==_iff _ _).0
        (find?-sound (λ x. x.id == s.phase.sub_project_id) db.sub_projects s.found_project) in
    let none_pending = any-none (competes s.phase.id) db.revoke_requests s.alone in
    rw (e', e)
      (
        s,
        refl,
        same,
        scope,
        refl,
        refl,
        refl,
        refl,
        refl,
        refl,
        refl,
        refl,
        subst
            (λ i.
              find? (competes i)
                (db.revoke_requests ++ new_request env actor payload s.phase s.sub_project ∷ [])
              ≡ some (new_request env actor payload s.phase s.sub_project))
            same
            (find?-append_none (competes s.phase.id) db.revoke_requests
              (new_request env actor payload s.phase s.sub_project) none_pending
              (ground (arith, ==_refl s.phase.id))),
        (_, refl, refl),
        refl,
        refl,
        refl,
      )

-- A submission that returns keeps at most one pending request for each phase, which the partial
-- unique index of the table states too.
pub submit_request-one_pending :
    (env : Env) (actor : User) (payload : RevokeRequestCreate) (db : Db) {r : Db × RevokeRequest}
    → one_pending db.revoke_requests ≡ true
    → submit_request env actor payload db ≡ ok r
    → one_pending r.0.revoke_requests ≡ true
submit_request-one_pending env actor payload db one h =
    let (s, e, e') = submit_request-eq-ok env actor payload db h in
    rw (e', e)
      (unfold send new_request in
        one_pending-append (new_request env actor payload s.phase s.sub_project) db.revoke_requests
          one s.alone)

-- The requests after a review are the old ones with the decided request in its place.
review_request_requests :
    (env : Env) (actor : User) (request_id : ℕ) (decision : RevokeReviewDecision)
    (comment : Option Text) (db : Db) {r : Db × RevokeRequest}
    → review_request env actor request_id decision comment db ≡ ok r
    → (r.0.revoke_requests ≡ save_request r.1 db.revoke_requests) × (is_pending r.1.status ≡ false)
unfolding record_review send apply_approval review_decision
review_request_requests env actor request_id approve comment db h =
    let (v, h1) = review_request-IsReviewable env actor request_id approve comment db h in
    let (unlocked, done, e) =
      approve-checked env actor comment v.request v.phase v.sub_project db h1 in
    rw e (refl, refl)
review_request_requests env actor request_id reject comment db h =
    let (v, h1) = review_request-IsReviewable env actor request_id reject comment db h in
    rw (sym (ok-injective h1)) (refl, refl)

-- A review that returns, whatever it decides, keeps at most one pending request for each phase.
pub review_request-one_pending :
    (env : Env) (actor : User) (request_id : ℕ) (decision : RevokeReviewDecision)
    (comment : Option Text) (db : Db) {r : Db × RevokeRequest}
    → one_pending db.revoke_requests ≡ true
    → review_request env actor request_id decision comment db ≡ ok r
    → one_pending r.0.revoke_requests ≡ true
review_request-one_pending env actor request_id decision comment db {r} one h =
    let (e, closed) = review_request_requests env actor request_id decision comment db h in
    rw e (one_pending-put (λ x. x.id == r.1.id) r.1 db.revoke_requests one closed)

review_request_found :
    (env : Env) (actor : User) (request_id : ℕ) (decision : RevokeReviewDecision)
    (comment : Option Text) (db : Db) {r : Db × RevokeRequest}
    → review_request env actor request_id decision comment db ≡ ok r
    → get_request request_id r.0 ≡ some r.1
review_request_found env actor request_id approve comment db h =
    (review_request_approve env actor request_id comment db h).7
review_request_found env actor request_id reject comment db h =
    (review_request_reject env actor request_id comment db h).0

-- A request that was reviewed is not reviewed again: every later review of it, by anyone who may
-- review, with any decision and comment, fails with its status and nothing else.
pub review_request_once :
    (env : Env) (actor : User) (request_id : ℕ) (decision : RevokeReviewDecision)
    (comment : Option Text) (db : Db) {r : Db × RevokeRequest}
    → review_request env actor request_id decision comment db ≡ ok r
    → (env' : Env) (actor' : User) (decision' : RevokeReviewDecision) (comment' : Option Text)
    → can_review actor' ≡ true
    → review_request env' actor' request_id decision' comment' r.0
      ≡ err (business (request_not_pending r.1.status))
unfolding review_request
review_request_once env actor request_id decision comment db {r} h env' actor' decision' comment'
      may =
    let (e, closed) = review_request_requests env actor request_id decision comment db h in
    rw (may, review_request_found env actor request_id decision comment db h, closed)

-- A request names the sub project of its phase, so the sub project that the review checks is the
-- phase's own.
pub linked-project :
    (db : Db)
    → IsSound db
    → (request : RevokeRequest) (phase : Phase) → get_request request.id db ≡ some request
    → get_phase request.phase_id db ≡ some phase
    → phase.sub_project_id ≡ request.sub_project_id
unfolding get_request get_phase
linked-project db sound request phase found found_phase =
    let link =
      find?-all (λ x. x.id == request.id) (is_linked db.phases) db.revoke_requests found
        sound.linked in
    let mine =
      find?-all (λ x. x.id == request.phase_id)
        (λ p. not (p.id == request.phase_id) || p.sub_project_id == request.sub_project_id)
        db.phases found_phase link in
    let same = find?-sound (λ x. x.id == request.phase_id) db.phases found_phase in
    ground (arith, mine, same)
