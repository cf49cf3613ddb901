-- ===== src/System/Frames.antt =====
-- What payments (backend/app/services/payments.py) leave of phases and requests, and what requests
-- (backend/app/services/revoke_requests.py) and the procurement type leave of payments.
use project_lifecycle_manage.Base.{
  ℕ, ◌≡◌, refl, sym, ap, subst, all-put, find?-all, distinct-put, ◌==◌, not, Option, some, List,
  Text,
}
use project_lifecycle_manage.Model.{
  Db, Env, User, SubProject, MainProject, Phase, Payment, PaymentVoucher, Document, ProcurementType,
  RevokeRequest, RevokeReviewDecision, approve, reject, is_completed,
}
use project_lifecycle_manage.Errors.{
  ok, guard->>-eq-ok, from_option->>=-eq-ok, ok-injective, permission_denied, business,
  not_procurement_phase, procurement_phase_completed,
}
use project_lifecycle_manage.Queries.{get_phase, get_sub_project, save_phase, send}
use project_lifecycle_manage.Phases.Invariant.{IsSound, IsSound-tables, is_settled}
use project_lifecycle_manage.Phases.Guards.{can_operate_phase}
use project_lifecycle_manage.Phases.Service.{
  PhasePromotionResult, promote_phase, update_procurement_type, notify_promoted,
}
use project_lifecycle_manage.Phases.Promotion.{promote_phase-IsGranted}
use project_lifecycle_manage.Phases.Effects.{complete_phase_requests}
use project_lifecycle_manage.Revokes.Service.{
  RevokeRequestCreate, submit_request, review_request, record_review, apply_approval,
  review_decision,
}
use project_lifecycle_manage.Revokes.Review.{review_request-IsReviewable, approve-checked}
use project_lifecycle_manage.Revokes.Pending.{submit_request-eq-ok}
use project_lifecycle_manage.Payments.Uploads.{Backends, Storage}
use project_lifecycle_manage.Payments.Service.{
  PaymentCreate, create_payment, commit_payment, add_payment, new_payment, reverse_payment,
  commit_reversal, new_reversal, recalculate_spending,
}
use project_lifecycle_manage.Payments.Spending.{paid, IsBalanced, IsBalanced-tables}
use project_lifecycle_manage.Payments.Budget.{create_payment-eq-ok, send_notifications-keeps}
use project_lifecycle_manage.Payments.Reversals.{reverse_payment-eq-ok}

abbrev pub SameRequests : Db → Db → Type 0
SameRequests db db' = db'.revoke_requests ≡ db.revoke_requests

paid-IsSound :
    (env : Env) (db : Db) (i : ℕ) (s : SubProject) (m : MainProject) (p : Payment)
    (documents : List Document) (vouchers : List PaymentVoucher)
    → IsSound db
    → get_sub_project i db ≡ some s
    → IsSound (recalculate_spending env s m (paid p documents vouchers db))
unfolding recalculate_spending get_sub_project
paid-IsSound env db i s m p documents vouchers sound hs = record {
  times = sound.times;
  settled =
      all-put (is_settled db.phases) _ _ db.sub_projects sound.settled
        (find?-all (λ r. r.id == i) (is_settled db.phases) db.sub_projects hs sound.settled);
  unique = distinct-put (λ r. r.id) _ db.sub_projects sound.unique;
  unique_phases = sound.unique_phases;
  linked = sound.linked;
}

module _ (b : Backends) (env : Env) (actor : User) (payload : PaymentCreate) (storage : Storage)
    (db : Db) {after : Db} {payment : Payment}
    (h : (create_payment b env actor payload storage db).0 ≡ ok (after, payment)) where
  pub create_payment-IsSound : IsSound db → IsSound after
  unfolding commit_payment add_payment
  create_payment-IsSound sound =
      let (p, q, e) = create_payment-eq-ok b env actor payload storage db h in
      subst IsSound (ap (λ r. r.0) e) (
        send_notifications-keeps IsSound _ _ _ p.over _ (λ notices.
          IsSound-tables _ _ refl refl refl (
            paid-IsSound env db payload.sub_project_id p.sub_project p.main_project
              (new_payment env actor payload p db) _ _ sound q.sub_project)))

  pub create_payment_requests : SameRequests db after
  unfolding commit_payment add_payment recalculate_spending
  create_payment_requests =
      let (p, q, e) = create_payment-eq-ok b env actor payload storage db h in
      subst (SameRequests db) (ap (λ r. r.0) e)
        (send_notifications-keeps (SameRequests db) _ _ _ p.over _ (λ notices. refl))

module _ (env : Env) (actor : User) (i j : ℕ) (remark : Option Text) (db : Db) {after : Db}
    {payment : Payment} (h : reverse_payment env actor i j remark db ≡ ok (after, payment)) where
  pub reverse_payment-IsSound : IsSound db → IsSound after
  unfolding commit_reversal
  reverse_payment-IsSound sound =
      let (text, s, m, original, q, e) = reverse_payment-eq-ok env actor i j remark db h in
      subst IsSound (ap (λ r. r.0) e) (
        paid-IsSound env db i s m (new_reversal env actor s original text db) _ _ sound
          q.sub_project)

  pub reverse_payment_requests : SameRequests db after
  unfolding commit_reversal recalculate_spending
  reverse_payment_requests =
      let (text, s, m, original, q, e) = reverse_payment-eq-ok env actor i j remark db h in
      subst (SameRequests db) (ap (λ r. r.0) e) refl

pub promote_phase_requests :
    (env : Env) (actor : User) (phase_id : ℕ) (db : Db) {r : PhasePromotionResult}
    → promote_phase env actor phase_id db ≡ ok r
    → SameRequests db r.db
promote_phase_requests env actor phase_id db h =
    let (g, e) = promote_phase-IsGranted env actor phase_id db h in
    let same = complete_phase_requests env actor g.phase g.sub_project db in
    rw e (unfold notify_promoted send in same)

-- The row of the phase is all that the choice of a procurement type changes.
pub update_procurement_type_rows :
    (env : Env) (actor : User) (phase_id : ℕ) (t : ProcurementType) (db : Db) {r : Db × Phase}
    → update_procurement_type env actor phase_id t db ≡ ok r
    → record db { phases = save_phase r.1 db.phases } ≡ r.0
unfolding update_procurement_type
update_procurement_type_rows env actor phase_id t db h =
    let (phase, found, h1) = from_option->>=-eq-ok (get_phase phase_id db) _ _ h in
    let (sub, scope, h2) = from_option->>=-eq-ok (get_sub_project phase.sub_project_id db) _ _ h1 in
    let (operator, h3) = guard->>-eq-ok (can_operate_phase actor sub db) permission_denied _ h2 in
    let (second, h4) =
      guard->>-eq-ok (phase.phase_no == 2) (business (not_procurement_phase phase.phase_no)) _ h3 in
    let (unfinished, h5) =
      guard->>-eq-ok (not (is_completed phase.status))
        (business (procurement_phase_completed phase.status)) _ h4 in
    subst (λ x. record db { phases = save_phase x.1 db.phases } ≡ x.0) (ok-injective h5) refl

pub submit_request-IsBalanced :
    (env : Env) (actor : User) (payload : RevokeRequestCreate) (db : Db) {r : Db × RevokeRequest}
    → submit_request env actor payload db ≡ ok r
    → IsBalanced db
    → IsBalanced r.0
submit_request-IsBalanced env actor payload db h balanced =
    let (s, e, e') = submit_request-eq-ok env actor payload db h in
    rw e' (unfold send in IsBalanced-tables db _ refl refl refl balanced)

pub review_request-IsBalanced :
    (env : Env) (actor : User) (request_id : ℕ) (decision : RevokeReviewDecision)
    (comment : Option Text) (db : Db) {r : Db × RevokeRequest}
    → review_request env actor request_id decision comment db ≡ ok r
    → IsBalanced db
    → IsBalanced r.0
unfolding record_review send apply_approval review_decision
review_request-IsBalanced env actor request_id approve comment db h balanced =
    let (v, h1) = review_request-IsReviewable env actor request_id approve comment db h in
    let (unlocked, done, e) =
      approve-checked env actor comment v.request v.phase v.sub_project db h1 in
    rw e (IsBalanced-tables db _ refl refl refl balanced)
review_request-IsBalanced env actor request_id reject comment db h balanced =
    let (v, h1) = review_request-IsReviewable env actor request_id reject comment db h in
    rw (sym (ok-injective h1)) (IsBalanced-tables db _ refl refl refl balanced)
