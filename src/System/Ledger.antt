-- ===== src/System/Ledger.antt =====
-- Payments and phase histories as ledgers: the services under backend/app/services only add to them.
use project_lifecycle_manage.Base.{
  ℕ, ◌≡◌, refl, sym, ap, subst, ◌∙◌, List, [], ◌∷◌, ◌++◌, Text, Option,
}
use project_lifecycle_manage.Model.{
  Db, Env, User, RevokeReviewDecision, approve, reject, RevokeRequest,
}
use project_lifecycle_manage.Errors.{ok, ok-injective}
use project_lifecycle_manage.Queries.{send}
use project_lifecycle_manage.Phases.Service.{PhasePromotionResult, promote_phase, notify_promoted}
use project_lifecycle_manage.Phases.Promotion.{promote_phase-IsGranted}
use project_lifecycle_manage.Phases.Effects.{complete_phase_accounts, complete_phase_histories}
use project_lifecycle_manage.Revokes.Service.{
  review_request, record_review, apply_approval, review_decision,
}
use project_lifecycle_manage.Revokes.Review.{review_request-IsReviewable, approve-checked}
use project_lifecycle_manage.Revokes.Pending.{submit_request-eq-ok}
use project_lifecycle_manage.Payments.Service.{
  commit_payment, add_payment, commit_reversal, recalculate_spending,
}
use project_lifecycle_manage.Payments.Budget.{create_payment-eq-ok, send_notifications-keeps}
use project_lifecycle_manage.Payments.Reversals.{reverse_payment-eq-ok}
use project_lifecycle_manage.System.{
  ◌⟶◌, ◌⟶*◌, promotes, chooses, submits, reviews, pays, reverses, manages, stay, and_then,
}
use project_lifecycle_manage.Portfolio.Tables.{⇒-IsChanged}
use project_lifecycle_manage.System.Frames.{update_procurement_type_rows}

module _ {ℓ} {A : Type ℓ} where
  -- The rows `xs` are a beginning of the rows `ys`.
  abbrev pub Extends : List A → List A → Type ℓ
  Extends xs ys = (added : List A) × (xs ++ added ≡ ys)

  append-nil : (xs : List A) → xs ++ [] ≡ xs
  append-nil [] = refl
  append-nil (x ∷ xs) = ap (λ t. x ∷ t) (append-nil xs)

  append_assoc : (xs ys zs : List A) → xs ++ (ys ++ zs) ≡ (xs ++ ys) ++ zs
  append_assoc [] ys zs = refl
  append_assoc (x ∷ xs) ys zs = ap (λ t. x ∷ t) (append_assoc xs ys zs)

  Extends-refl : (xs ys : List A) → ys ≡ xs → Extends xs ys
  Extends-refl xs ys e = ([], append-nil xs ∙ sym e)

  Extends-trans : (xs ys zs : List A) → Extends xs ys → Extends ys zs → Extends xs zs
  Extends-trans xs ys zs (a, e) (b, e') = (a ++ b, append_assoc xs a b ∙ ap (λ t. t ++ b) e ∙ e')

-- Both ledgers were added to, at most.
pub record IsLater (a b : Db) : Type 0 where
  pub payments : Extends a.payments b.payments
  pub histories : Extends a.phase_histories b.phase_histories

review_request-IsLater :
    (env : Env) (actor : User) (i : ℕ) (decision : RevokeReviewDecision) (comment : Option Text)
    (db : Db) {r : Db × RevokeRequest}
    → review_request env actor i decision comment db ≡ ok r
    → IsLater db r.0
unfolding record_review send apply_approval review_decision
review_request-IsLater env actor i approve comment db h =
    let (v, h1) = review_request-IsReviewable env actor i approve comment db h in
    let (unlocked, done, e) =
      approve-checked env actor comment v.request v.phase v.sub_project db h1 in
    rw e (record { payments = Extends-refl _ _ refl; histories = (_, refl) })
review_request-IsLater env actor i reject comment db h =
    let (v, h1) = review_request-IsReviewable env actor i reject comment db h in
    rw (sym (ok-injective h1))
      (record { payments = Extends-refl _ _ refl; histories = Extends-refl _ _ refl })

promote_phase-IsLater :
    (env : Env) (actor : User) (i : ℕ) (db : Db) {r : PhasePromotionResult}
    → promote_phase env actor i db ≡ ok r
    → IsLater db r.db
promote_phase-IsLater env actor i db h =
    let (g, e) = promote_phase-IsGranted env actor i db h in
    let paid = (complete_phase_accounts env actor g.phase g.sub_project db).0 in
    let noted = complete_phase_histories env actor g.phase g.sub_project db in
    rw e (
      unfold notify_promoted send in
      record { payments = Extends-refl _ _ paid; histories = (_, sym noted) })

⟶-IsLater : {a b : Db} → a ⟶ b → IsLater a b
unfolding commit_payment add_payment commit_reversal recalculate_spending
⟶-IsLater (promotes env actor i {db = a} h) = promote_phase-IsLater env actor i a h
⟶-IsLater (chooses env actor i t {db = a} h) =
    subst (IsLater a) (update_procurement_type_rows env actor i t a h)
      (record { payments = Extends-refl _ _ refl; histories = Extends-refl _ _ refl })
⟶-IsLater (submits env actor payload {db = a} h) =
    let (s, e, e') = submit_request-eq-ok env actor payload a h in
    rw e' (
      unfold send in record { payments = Extends-refl _ _ refl; histories = Extends-refl _ _ refl })
⟶-IsLater (reviews env actor i decision comment {db = a} h) =
    review_request-IsLater env actor i decision comment a h
⟶-IsLater (pays b env actor payload storage {db = a} h) =
    let (p, q, e) = create_payment-eq-ok b env actor payload storage a h in
    subst (IsLater a) (ap (λ r. r.0) e) (
      send_notifications-keeps (IsLater a) _ _ _ p.over _
        (λ notices. record { payments = (_, refl); histories = Extends-refl _ _ refl }))
⟶-IsLater (reverses env actor i j remark {db = a} h) =
    let (text, s, m, original, q, e) = reverse_payment-eq-ok env actor i j remark a h in
    subst (IsLater a) (ap (λ r. r.0) e)
      (record { payments = (_, refl); histories = Extends-refl _ _ refl })
⟶-IsLater (manages keyed step) =
    let frame = (⇒-IsChanged step).frame in
    record { payments = Extends-refl _ _ frame.0; histories = Extends-refl _ _ frame.1 }

-- Whatever calls of the main project, sub project, phase, revoke and payment services return, in
-- whatever order, no payment and no entry of a phase's history is ever changed or removed: the rows of
-- before are the first rows of after.
pub reachable-IsLater : {a b : Db} → a ⟶* b → IsLater a b
reachable-IsLater stay = record {
  payments = Extends-refl _ _ refl;
  histories = Extends-refl _ _ refl;
}
reachable-IsLater (and_then s t) =
    let before = reachable-IsLater s in
    let last = ⟶-IsLater t in
    record {
      payments = Extends-trans _ _ _ before.payments last.payments;
      histories = Extends-trans _ _ _ before.histories last.histories;
    }
