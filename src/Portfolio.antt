-- ===== src/Portfolio.antt =====
-- The main project and sub project services (main_projects.py and sub_projects.py in
-- backend/app/services) as one system: a call that returns is a step from one database to the next.
-- A batch of handovers is a sequence of steps.
pub mod Tables
pub mod Lifecycle
pub mod Refinement
pub mod Closure
use project_lifecycle_manage.Base.{ℕ, ◌≡◌, Option}
use project_lifecycle_manage.Model.{Db, Env, User, MainProject, SubProject, SubProjectMember}
use project_lifecycle_manage.Errors.{ok}
use project_lifecycle_manage.MainProjects.Creation.{
  MainProjectCreate, MainProjectUpdate, create_project, update_project, submit_project,
}
use project_lifecycle_manage.MainProjects.Review.{MainProjectReviewRequest, review_project}
use project_lifecycle_manage.MainProjects.Closing.{close_project}
use project_lifecycle_manage.SubProjects.Creation.{
  SubProjectCreate, SubProjectUpdate, create_sub_project, update_sub_project, submit_sub_project,
}
use project_lifecycle_manage.SubProjects.Review.{SubProjectReviewRequest, review_sub_project}
use project_lifecycle_manage.SubProjects.Closing.{close_sub_project, terminate_sub_project}
use project_lifecycle_manage.SubProjects.Members.{
  SubProjectHandoverRequest, add_sub_project_member, remove_sub_project_member,
  handover_sub_project,
}

infix 50 ◌⇒◌ ◌⇒*◌
pub data ◌⇒◌ : Db → Db → Type 0 where
  founds :
      (env : Env) (actor : User) (payload : MainProjectCreate) {db : Db} {r : Db × MainProject}
      → create_project env actor payload db ≡ ok r
      → db ⇒ r.0
  revises :
      (env : Env) (actor : User) (i : ℕ) (payload : MainProjectUpdate) {db : Db}
      {r : Db × MainProject}
      → update_project env actor i payload db ≡ ok r
      → db ⇒ r.0
  proposes :
      (env : Env) (actor : User) (i : ℕ) {db : Db} {r : Db × MainProject}
      → submit_project env actor i db ≡ ok r
      → db ⇒ r.0
  judges :
      (env : Env) (actor : User) (i : ℕ) (payload : MainProjectReviewRequest) {db : Db}
      {r : Db × MainProject}
      → review_project env actor i payload db ≡ ok r
      → db ⇒ r.0
  concludes :
      (env : Env) (actor : User) (i : ℕ) {db : Db} {r : Db × MainProject}
      → close_project env actor i db ≡ ok r
      → db ⇒ r.0
  creates :
      (env : Env) (actor : User) (payload : SubProjectCreate) {db : Db} {r : Db × SubProject}
      → create_sub_project env actor payload db ≡ ok r
      → db ⇒ r.0
  updates :
      (env : Env) (actor : User) (i : ℕ) (payload : SubProjectUpdate) {db : Db}
      {r : Db × SubProject}
      → update_sub_project env actor i payload db ≡ ok r
      → db ⇒ r.0
  submits :
      (env : Env) (actor : User) (i : ℕ) {db : Db} {r : Db × SubProject}
      → submit_sub_project env actor i db ≡ ok r
      → db ⇒ r.0
  reviews :
      (env : Env) (actor : User) (i : ℕ) (payload : SubProjectReviewRequest) {db : Db}
      {r : Db × SubProject}
      → review_sub_project env actor i payload db ≡ ok r
      → db ⇒ r.0
  closes :
      (env : Env) (actor : User) (i : ℕ) {db : Db} {r : Db × SubProject}
      → close_sub_project env actor i db ≡ ok r
      → db ⇒ r.0
  terminates :
      (env : Env) (actor : User) (i : ℕ) {db : Db} {r : Db × SubProject}
      → terminate_sub_project env actor i db ≡ ok r
      → db ⇒ r.0
  adds_member :
      (env : Env) (actor : User) (i user_id : ℕ) {db : Db} {r : Db × SubProjectMember}
      → add_sub_project_member env actor i user_id db ≡ ok r
      → db ⇒ r.0
  removes_member :
      (actor : User) (i user_id : ℕ) {db : Db} {r : Db × SubProjectMember}
      → remove_sub_project_member actor i user_id db ≡ ok r
      → db ⇒ r.0
  hands_over :
      (env : Env) (actor : User) (i : ℕ) (payload : SubProjectHandoverRequest) (expected : Option ℕ)
      {db : Db} {r : Db × SubProject}
      → handover_sub_project env actor i payload expected db ≡ ok r
      → db ⇒ r.0

pub data ◌⇒*◌ : Db → Db → Type 0 where
  stay : {db : Db} → db ⇒* db
  and_then : {a b c : Db} → a ⇒* b → b ⇒ c → a ⇒* c
