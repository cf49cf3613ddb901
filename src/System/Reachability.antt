-- ===== src/System/Reachability.antt =====
-- What holds in every database that calls of the services under backend/app/services lead to.
use project_lifecycle_manage.Base.{◌≡◌, refl, subst, true, List}
use project_lifecycle_manage.Model.{Db, RevokeRequest}
use project_lifecycle_manage.Revokes.Pending.{
  one_pending, submit_request-one_pending, review_request-one_pending,
}
use project_lifecycle_manage.Revokes.Soundness.{submit_request-IsSound, review_request-IsSound}
use project_lifecycle_manage.Phases.Invariant.{IsSound}
use project_lifecycle_manage.Phases.Completion.{
  promote_phase-IsSound, update_procurement_type-IsSound,
}
use project_lifecycle_manage.Payments.Spending.{IsBalanced, IsBalanced-tables}
use project_lifecycle_manage.Payments.Budget.{create_payment-IsBalanced}
use project_lifecycle_manage.Payments.Reversals.{reverse_payment-IsBalanced}
use project_lifecycle_manage.System.{
  ◌⟶◌, ◌⟶*◌, promotes, chooses, submits, reviews, pays, reverses, manages, stay, and_then,
}
use project_lifecycle_manage.System.Accounts.{promote_phase-IsBalanced}
use project_lifecycle_manage.Portfolio.Tables.{⇒-IsChanged}
use project_lifecycle_manage.System.Projects.{changed-IsSound, changed-IsBalanced}
use project_lifecycle_manage.System.Frames.{
  SameRequests, create_payment-IsSound, create_payment_requests, reverse_payment-IsSound,
  reverse_payment_requests, promote_phase_requests, update_procurement_type_rows,
  submit_request-IsBalanced, review_request-IsBalanced,
}

-- The invariants of the services together.
pub record IsConsistent (db : Db) : Type 0 where
  pub sound : IsSound db
  pub balanced : IsBalanced db
  pub one : one_pending db.revoke_requests ≡ true

same_one : {rs rs' : List RevokeRequest} → rs' ≡ rs → one_pending rs ≡ true → one_pending rs' ≡ true
same_one same h = rw same h

⟶-IsConsistent : {a b : Db} → a ⟶ b → IsConsistent a → IsConsistent b
⟶-IsConsistent (promotes env actor i {db = a} h) c = record {
  sound = promote_phase-IsSound env actor i a c.sound h;
  balanced = promote_phase-IsBalanced env actor i a c.balanced h;
  one = same_one (promote_phase_requests env actor i a h) c.one;
}
⟶-IsConsistent (chooses env actor i t {db = a} {db' = b} h) c =
    let rows = update_procurement_type_rows env actor i t a h in
    record {
      sound = update_procurement_type-IsSound env actor i t a c.sound h;
      balanced = subst IsBalanced rows (IsBalanced-tables a _ refl refl refl c.balanced);
      one = same_one (subst (SameRequests a) rows refl) c.one;
    }
⟶-IsConsistent (submits env actor payload {db = a} h) c = record {
  sound = submit_request-IsSound env actor payload a c.sound h;
  balanced = submit_request-IsBalanced env actor payload a h c.balanced;
  one = submit_request-one_pending env actor payload a c.one h;
}
⟶-IsConsistent (reviews env actor i decision comment {db = a} h) c = record {
  sound = review_request-IsSound env actor i decision comment a c.sound h;
  balanced = review_request-IsBalanced env actor i decision comment a h c.balanced;
  one = review_request-one_pending env actor i decision comment a c.one h;
}
⟶-IsConsistent (pays b env actor payload storage {db = a} h) c = record {
  sound = create_payment-IsSound b env actor payload storage a h c.sound;
  balanced = create_payment-IsBalanced b env actor payload storage a h c.balanced;
  one = same_one (create_payment_requests b env actor payload storage a h) c.one;
}
⟶-IsConsistent (reverses env actor i j remark {db = a} h) c = record {
  sound = reverse_payment-IsSound env actor i j remark a h c.sound;
  balanced = reverse_payment-IsBalanced env actor i j remark a h c.balanced;
  one = same_one (reverse_payment_requests env actor i j remark a h) c.one;
}
⟶-IsConsistent (manages keyed step) c =
    let change = ⇒-IsChanged step in
    record {
      sound = changed-IsSound keyed change c.sound;
      balanced = changed-IsBalanced keyed c.balanced change;
      one = same_one change.frame.2 c.one;
    }

-- From a consistent database, calls of the main project, sub project, phase, revoke and payment
-- services that return, in whatever order and by whomever, lead to a consistent database, where the
-- database upholds its primary and foreign keys around each call on projects: the times of phases agree
-- with their status, completed sub projects have completed phases only, stored sums are the sums of the
-- rows, and no phase has two pending revoke requests.
pub reachable-IsConsistent : {a b : Db} → a ⟶* b → IsConsistent a → IsConsistent b
reachable-IsConsistent stay c = c
reachable-IsConsistent (and_then s t) c = ⟶-IsConsistent t (reachable-IsConsistent s c)
