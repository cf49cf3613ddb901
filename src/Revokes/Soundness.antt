-- ===== src/Revokes/Soundness.antt =====
-- The operations of backend/app/services/revoke_requests.py keep the invariant of the phases.
use project_lifecycle_manage.Base.{
  ℕ, ◌==◌, true, false, ◌≡◌, refl, sym, subst, Option, some, Text, arith, find?, find?-sound,
  find?-all, all-append_one, all-put, distinct-all, ==_iff,
}
use project_lifecycle_manage.Model.{
  Db, Env, User, SubProjectStatus, Phase, RevokeRequest, RevokeReviewDecision, approve, reject,
  approved, rejected, is_locked_project, is_completed_project,
}
use project_lifecycle_manage.Errors.{ok, ok-injective}
use project_lifecycle_manage.Queries.{get_phase, get_sub_project, save_phase, send}
use project_lifecycle_manage.Phases.Invariant.{
  IsSound, IsSound-tables, is_linked, has_times, reopened-IsSound,
}
use project_lifecycle_manage.Revokes.Service.{
  reopened, decided, save_request, apply_approval, record_review, review_decision, get_request,
  review_request, RevokeRequestCreate, new_request, submit_request,
}
use project_lifecycle_manage.Revokes.Review.{
  IsReviewable, review_request-IsReviewable, approve-checked,
}
use project_lifecycle_manage.Revokes.Pending.{submit_request-eq-ok, linked-project}

unlocked-open :
    (s : SubProjectStatus) → is_locked_project s ≡ false → is_completed_project s ≡ false
unlocked-open s h = ground arith

reopened-has_times : (env : Env) (phase : Phase) → has_times (reopened env phase) ≡ true
reopened-has_times env phase = ground arith

-- A submission that returns keeps the invariant of phases, sub projects and requests; so the new
-- request names its phase's sub project.
pub submit_request-IsSound :
    (env : Env) (actor : User) (payload : RevokeRequestCreate) (db : Db) {r : Db × RevokeRequest}
    → IsSound db
    → submit_request env actor payload db ≡ ok r
    → IsSound r.0
unfolding get_phase get_sub_project
submit_request-IsSound env actor payload db sound h =
    let (s, e, e') = submit_request-eq-ok env actor payload db h in
    let same_phase =
      (==_iff s.phase.id payload.phase_id).0
        (find?-sound (λ p. p.id == payload.phase_id) db.phases s.found_phase) in
    let same_project =
      find?-sound (λ x. x.id == s.phase.sub_project_id) db.sub_projects s.found_project in
    let found =
      subst (λ i. find? (λ p. p.id == i) db.phases ≡ some s.phase) (sym same_phase) s.found_phase in
    let link =
      distinct-all (λ p. p.id) (λ p. p.sub_project_id == s.sub_project.id) s.phase.id db.phases
        sound.unique_phases found (ground (arith, same_project)) in
    rw (e', e)
      (unfold send new_request in
        record {
          times = sound.times;
          settled = sound.settled;
          unique = sound.unique;
          unique_phases = sound.unique_phases;
          linked =
              all-append_one (is_linked db.phases) db.revoke_requests
                (new_request env actor payload s.phase s.sub_project) sound.linked link;
        })

-- A request is written anew with the phase and the sub project that it had.
decided-IsSound :
    (db : Db)
    → IsSound db
    → (request r : RevokeRequest) → get_request request.id db ≡ some request
    → r.phase_id ≡ request.phase_id
    → r.sub_project_id ≡ request.sub_project_id
    → IsSound (record db { revoke_requests = save_request r db.revoke_requests })
unfolding get_request
decided-IsSound db sound request r found same_phase same_project = record {
  times = sound.times;
  settled = sound.settled;
  unique = sound.unique;
  unique_phases = sound.unique_phases;
  linked =
      all-put (is_linked db.phases) (λ x. x.id == r.id) r db.revoke_requests sound.linked
        (rw (same_phase, same_project)
          (find?-all (λ x. x.id == request.id) (is_linked db.phases) db.revoke_requests found
            sound.linked));
}

module _ {actor : User} {request_id : ℕ} {db : Db} (v : IsReviewable actor request_id db) where
  own_request : get_request v.request.id db ≡ some v.request
  unfolding get_request
  own_request =
      let same =
        (==_iff v.request.id request_id).0
          (find?-sound (λ x. x.id == request_id) db.revoke_requests v.found) in
      subst (λ i. find? (λ x. x.id == i) db.revoke_requests ≡ some v.request) (sym same) v.found

  own_phase : get_phase v.phase.id db ≡ some v.phase
  unfolding get_phase
  own_phase =
      let same =
        (==_iff v.phase.id v.request.phase_id).0
          (find?-sound (λ x. x.id == v.request.phase_id) db.phases v.found_phase) in
      subst (λ i. find? (λ x. x.id == i) db.phases ≡ some v.phase) (sym same) v.found_phase

  own_project : IsSound db → get_sub_project v.phase.sub_project_id db ≡ some v.sub_project
  own_project sound =
      subst (λ i. get_sub_project i db ≡ some v.sub_project)
        (sym (linked-project db sound v.request v.phase own_request v.found_phase)) v.found_project

-- A review that returns keeps the invariant of phases, sub projects and requests, on either decision.
pub review_request-IsSound :
    (env : Env) (actor : User) (request_id : ℕ) (decision : RevokeReviewDecision)
    (comment : Option Text) (db : Db) {r : Db × RevokeRequest}
    → IsSound db
    → review_request env actor request_id decision comment db ≡ ok r
    → IsSound r.0
unfolding record_review send apply_approval review_decision get_request
review_request-IsSound env actor request_id approve comment db sound h =
    let (v, h1) = review_request-IsReviewable env actor request_id approve comment db h in
    let (unlocked, done, e) =
      approve-checked env actor comment v.request v.phase v.sub_project db h1 in
    let again =
      reopened-IsSound db sound (own_phase v) (reopened env v.phase) refl refl (own_project v sound)
        (reopened-has_times env v.phase) (unlocked-open v.sub_project.status unlocked) in
    let request' = decided env actor comment approved v.request in
    rw e (
      IsSound-tables _ _ refl refl refl (
        decided-IsSound (record db { phases = save_phase (reopened env v.phase) db.phases }) again
          v.request request' (own_request v) refl refl))
review_request-IsSound env actor request_id reject comment db sound h =
    let (v, h1) = review_request-IsReviewable env actor request_id reject comment db h in
    let request' = decided env actor comment rejected v.request in
    rw (sym (ok-injective h1)) (
      IsSound-tables _ _ refl refl refl
        (decided-IsSound db sound v.request request' (own_request v) refl refl))
