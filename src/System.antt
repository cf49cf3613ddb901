-- ===== src/System.antt =====
-- The phase, revoke and payment services (phases.py, revoke_requests.py and payments.py in
-- backend/app/services) with the main project and sub project services as one system: a call that
-- returns is a step from one database to the next. A step that inserts or writes projects is a commit
-- that the database accepts, so the keys of backend/app/models hold around it.
pub mod Accounts
pub mod Frames
pub mod Reachability
pub mod Ledger
pub mod Projects
use project_lifecycle_manage.Base.{ℕ, ◌≡◌, Option, List, Text, ◌==◌, true, all, any, distinct}
use project_lifecycle_manage.Portfolio.{◌⇒◌}
use project_lifecycle_manage.Model.{
  Db, Env, User, ProcurementType, Phase, RevokeRequest, RevokeReviewDecision, Payment,
}
use project_lifecycle_manage.Errors.{Result, ok}
use project_lifecycle_manage.Phases.Service.{
  PhasePromotionResult, promote_phase, update_procurement_type,
}
use project_lifecycle_manage.Revokes.Service.{RevokeRequestCreate, submit_request, review_request}
use project_lifecycle_manage.Payments.Uploads.{Backends, Storage}
use project_lifecycle_manage.Payments.Service.{PaymentCreate, create_payment, reverse_payment}

-- The primary keys that the database upholds in `b`, and its foreign keys in `a`.
pub record IsKeyed (a b : Db) : Type 0 where
  pub sub_projects : distinct (λ s. s.id) b.sub_projects ≡ true
  pub phases : distinct (λ p. p.id) b.phases ≡ true
  pub main_projects : distinct (λ m. m.id) b.main_projects ≡ true
  pub paid_for : all (λ p. any (λ s. s.id == p.sub_project_id) a.sub_projects) a.payments ≡ true
  pub requested : all (λ r. any (λ p. p.id == r.phase_id) a.phases) a.revoke_requests ≡ true
  pub scoped : all (λ s. any (λ m. m.id == s.main_project_id) a.main_projects) a.sub_projects ≡ true

infix 50 ◌⟶◌ ◌⟶*◌
pub data ◌⟶◌ : Db → Db → Type 0 where
  promotes :
      (env : Env) (actor : User) (phase_id : ℕ) {db : Db} {r : PhasePromotionResult}
      → promote_phase env actor phase_id db ≡ ok r
      → db ⟶ r.db
  chooses :
      (env : Env) (actor : User) (phase_id : ℕ) (t : ProcurementType) {db db' : Db} {phase : Phase}
      → update_procurement_type env actor phase_id t db ≡ ok (db', phase)
      → db ⟶ db'
  submits :
      (env : Env) (actor : User) (payload : RevokeRequestCreate) {db db' : Db}
      {request : RevokeRequest}
      → submit_request env actor payload db ≡ ok (db', request)
      → db ⟶ db'
  reviews :
      (env : Env) (actor : User) (request_id : ℕ) (decision : RevokeReviewDecision)
      (comment : Option Text) {db db' : Db} {request : RevokeRequest}
      → review_request env actor request_id decision comment db ≡ ok (db', request)
      → db ⟶ db'
  pays :
      (b : Backends) (env : Env) (actor : User) (payload : PaymentCreate) (storage : Storage)
      {db db' : Db} {payment : Payment}
      → (create_payment b env actor payload storage db).0 ≡ ok (db', payment)
      → db ⟶ db'
  reverses :
      (env : Env) (actor : User) (sub_project_id payment_id : ℕ) (remark : Option Text)
      {db db' : Db} {payment : Payment}
      → reverse_payment env actor sub_project_id payment_id remark db ≡ ok (db', payment)
      → db ⟶ db'
  manages : {a b : Db} → IsKeyed a b → a ⇒ b → a ⟶ b

pub data ◌⟶*◌ : Db → Db → Type 0 where
  stay : {db : Db} → db ⟶* db
  and_then : {a b c : Db} → a ⟶* b → b ⟶ c → a ⟶* c
