-- ===== src/Workflows/Publishing.antt =====
-- What calls of backend/app/services/workflows.py leave of published versions and of templates.
use project_lifecycle_manage.Base.{
  ℕ, ◌==◌, ==_iff, Bool, true, false, not, ◌&&◌, Option, none, some, List, [], ◌∷◌, ◌≡◌, refl, sym,
  ap, subst, ◌∙◌, arith, find?, find?-sound, find?-all, find?-append, find?-put_ne, put, all, any,
  all-append, filter, sort_by, some-injective, Bool-cases, inl, inr, Text, text_eq,
}
use project_lifecycle_manage.Model.{
  Db, Env, User, ProjectType, WorkflowTemplate, WorkflowTemplateVersion, PhaseDefinition,
  is_published, is_draft, WorkflowTemplateStatus, MainProject, is_open_main,
}
use project_lifecycle_manage.Errors.{
  ok, err, not_found, no_default_version, conflict, integrity_error, ok-injective, guard->>-eq-ok,
  from_option->>=-eq-ok,
}
use project_lifecycle_manage.SubProjects.Creation.{
  get_workflow_template_version, get_default_workflow_template_version, template_of_version,
  stands_before, is_published_for, first_version, SubProjectCreate, create_sub_project,
}
use project_lifecycle_manage.Queries.{get_main_project}
use project_lifecycle_manage.Workflows.Service.{
  create_project_type, create_template, get_project_type, name_taken, new_template,
  update_phase_definitions, publish_template_version, some_definitions, with_definitions,
  published_version,
}

infix 50 ◌⇉◌ ◌⇉*◌
pub data ◌⇉◌ : Db → Db → Type 0 where
  adds_type :
      (env : Env) (actor : User) (code name : Text) {db : Db} {r : Db × ProjectType}
      → create_project_type env actor code name db ≡ ok r
      → db ⇉ r.0
  adds_template :
      (env : Env) (actor : User) (type_id : ℕ) (name : Text) {db : Db} {r : Db × WorkflowTemplate}
      → create_template env actor type_id name db ≡ ok r
      → db ⇉ r.0
  redefines :
      (actor : User) (i : ℕ) (ds : List PhaseDefinition) {db : Db}
      {r : Db × WorkflowTemplateVersion}
      → update_phase_definitions actor i ds db ≡ ok r
      → db ⇉ r.0
  publishes :
      (env : Env) (actor : User) (i : ℕ) {db : Db} {r : Db × WorkflowTemplateVersion}
      → publish_template_version env actor i db ≡ ok r
      → db ⇉ r.0

pub data ◌⇉*◌ : Db → Db → Type 0 where
  stay : {db : Db} → db ⇉* db
  and_then : {a b c : Db} → a ⇉* b → b ⇉ c → a ⇉* c

-- A write of an unpublished version leaves the published ones.
write_keeps :
    (i : ℕ) (v v' w : WorkflowTemplateVersion) (db : Db)
    → get_workflow_template_version i db ≡ some v
    → v'.id ≡ v.id
    → is_published v.status ≡ false
    → (j : ℕ) → get_workflow_template_version j db ≡ some w
    → is_published w.status ≡ true
    → find? (λ r. r.id == j) (put (λ r. r.id == v'.id) v' db.workflow_versions) ≡ some w
unfolding get_workflow_template_version
write_keeps i v v' w db found same draft j here shown = elim (Bool-cases (v'.id == j)) [
  | inr n ↦
      find?-put_ne (λ r. r.id == j) (λ r. r.id == v'.id) v' db.workflow_versions
        (λ r e. subst (λ k. k == j ≡ false) (sym ((==_iff r.id v'.id).0 e)) n) n
      ∙ here
  | inl e ↦
      let key = (==_iff v.id i).0 (find?-sound (λ r. r.id == i) db.workflow_versions found) in
      let index : i ≡ j = sym key ∙ sym same ∙ (==_iff v'.id j).0 e in
      let row : v ≡ w = some-injective (
        sym (subst (λ k. find? (λ r. r.id == k) db.workflow_versions ≡ some v) index found)
        ∙ here) in
      absurd (ground (arith, draft, subst (λ x. is_published x.status ≡ true) (sym row) shown))
]

draft_unpublished : (s : WorkflowTemplateStatus) → is_draft s ≡ true → is_published s ≡ false
draft_unpublished WorkflowTemplateStatus.draft h = refl
draft_unpublished WorkflowTemplateStatus.published h = absurd (ground (arith, h))
draft_unpublished WorkflowTemplateStatus.archived h = refl

-- One step keeps the published versions, and publishes no template.
⇉-keeps :
    {a b : Db} (j : ℕ) (w : WorkflowTemplateVersion)
    → a ⇉ b
    → get_workflow_template_version j a ≡ some w
    → is_published w.status ≡ true
    → get_workflow_template_version j b ≡ some w
unfolding get_workflow_template_version create_project_type create_template update_phase_definitions
    publish_template_version
⇉-keeps j w (adds_type env actor code name {db = a} {r = r} h) here shown =
    let (free, h1) =
      guard->>-eq-ok (not (any (λ t. text_eq t.code code) a.project_types)) conflict _ h in
    subst (λ x. find? (λ v. v.id == j) x.0.workflow_versions ≡ some w) (ok-injective h1) here
⇉-keeps j w (adds_template env actor type_id name {db = a} h) here shown =
    let (t, known, h1) = from_option->>=-eq-ok (get_project_type type_id a) _ _ h in
    let (free, h2) =
      guard->>-eq-ok (not (name_taken type_id name a.workflow_templates)) integrity_error _ h1 in
    subst (λ x. find? (λ v. v.id == j) x.0.workflow_versions ≡ some w) (ok-injective h2)
      (find?-append (λ v. v.id == j) a.workflow_versions _ here)
⇉-keeps j w (redefines actor i ds {db = a} h) here shown =
    let (v, found, h1) = from_option->>=-eq-ok (get_workflow_template_version i a) _ _ h in
    let (hidden, h2) = guard->>-eq-ok (not (is_published v.status)) conflict _ h1 in
    subst (λ x. find? (λ v. v.id == j) x.0.workflow_versions ≡ some w) (ok-injective h2)
      (write_keeps i v (with_definitions ds v) w a found refl (ground (arith, hidden)) j here shown)
⇉-keeps j w (publishes env actor i {db = a} h) here shown =
    let (v, found, h1) = from_option->>=-eq-ok (get_workflow_template_version i a) _ _ h in
    let (draft, h2) = guard->>-eq-ok (is_draft v.status) conflict _ h1 in
    let (full, h3) = guard->>-eq-ok (some_definitions v.phase_definitions) conflict _ h2 in
    subst (λ x. find? (λ v. v.id == j) x.0.workflow_versions ≡ some w) (ok-injective h3)
      (write_keeps i v (published_version env v) w a found refl (draft_unpublished v.status draft) j
        here shown)

-- Whatever calls of the workflow service return, in whatever order, a published version stays as it is:
-- its phase definitions, its number and its time of publication are never changed.
pub reachable_published :
    {a b : Db} (j : ℕ) (w : WorkflowTemplateVersion)
    → a ⇉* b
    → get_workflow_template_version j a ≡ some w
    → is_published w.status ≡ true
    → get_workflow_template_version j b ≡ some w
reachable_published j w stay here shown = here
reachable_published j w (and_then p step) here shown =
    ⇉-keeps j w step (reachable_published j w p here shown) shown

-- No template of the type is published.
abbrev pub none_published : ℕ → List WorkflowTemplate → Bool
none_published type_id ts =
    all (λ t. not (t.project_type_id == type_id && is_published t.status)) ts

⇉-none_published :
    {a b : Db} (type_id : ℕ)
    → a ⇉ b
    → none_published type_id a.workflow_templates ≡ true
    → none_published type_id b.workflow_templates ≡ true
unfolding create_project_type create_template update_phase_definitions publish_template_version
    new_template all
⇉-none_published k (adds_type env actor code name {db = a} {r = r} h) none_yet =
    let (free, h1) =
      guard->>-eq-ok (not (any (λ t. text_eq t.code code) a.project_types)) conflict _ h in
    subst (λ x. none_published k x.0.workflow_templates ≡ true) (ok-injective h1) none_yet
⇉-none_published k (adds_template env actor type_id name {db = a} h) none_yet =
    let (t, known, h1) = from_option->>=-eq-ok (get_project_type type_id a) _ _ h in
    let (free, h2) =
      guard->>-eq-ok (not (name_taken type_id name a.workflow_templates)) integrity_error _ h1 in
    subst (λ x. none_published k x.0.workflow_templates ≡ true) (ok-injective h2)
      (all-append (λ t. not (t.project_type_id == k && is_published t.status)) a.workflow_templates
          _
        ∙ ground (arith, none_yet))
⇉-none_published k (redefines actor i ds {db = a} h) none_yet =
    let (v, found, h1) = from_option->>=-eq-ok (get_workflow_template_version i a) _ _ h in
    let (hidden, h2) = guard->>-eq-ok (not (is_published v.status)) conflict _ h1 in
    subst (λ x. none_published k x.0.workflow_templates ≡ true) (ok-injective h2) none_yet
⇉-none_published k (publishes env actor i {db = a} h) none_yet =
    let (v, found, h1) = from_option->>=-eq-ok (get_workflow_template_version i a) _ _ h in
    let (draft, h2) = guard->>-eq-ok (is_draft v.status) conflict _ h1 in
    let (full, h3) = guard->>-eq-ok (some_definitions v.phase_definitions) conflict _ h2 in
    subst (λ x. none_published k x.0.workflow_templates ≡ true) (ok-injective h3) none_yet

reachable-none_published :
    {a b : Db} (type_id : ℕ)
    → a ⇉* b
    → none_published type_id a.workflow_templates ≡ true
    → none_published type_id b.workflow_templates ≡ true
reachable-none_published k stay h = h
reachable-none_published k (and_then p step) h =
    ⇉-none_published k step (reachable-none_published k p h)

not_published_for :
    (type_id : ℕ) (o : Option WorkflowTemplate) (ts : List WorkflowTemplate)
    (m : WorkflowTemplate → Bool)
    → find? m ts ≡ o
    → none_published type_id ts ≡ true
    → is_published_for type_id o ≡ false
not_published_for k none ts m e h = refl
not_published_for k (some t) ts m e h =
    let one = find?-all m (λ t. not (t.project_type_id == k && is_published t.status)) ts e h in
    ground (arith, one)

filter-none : {A : Type 0} (p : A → Bool) (xs : List A) → ((x : A) → p x ≡ false) → filter p xs ≡ []
unfolding filter
filter-none p [] f = refl
filter-none p (x ∷ xs) f = rw (f x) (filter-none p xs f)

no_default :
    (type_id : ℕ) (db : Db)
    → none_published type_id db.workflow_templates ≡ true
    → get_default_workflow_template_version type_id db ≡ none
unfolding get_default_workflow_template_version template_of_version sort_by
no_default k db h =
    ap (λ vs. first_version (sort_by (stands_before db) vs))
      (filter-none (λ v. is_published v.status && is_published_for k (template_of_version db v))
        db.workflow_versions
        (λ v.
          let off =
            not_published_for k (template_of_version db v) db.workflow_templates
              (λ t. t.id == v.template_id) refl h in
          ground (arith, off)))

-- Where no template of a project type is published, no calls of the workflow service make one so,
-- whatever versions they publish: after any of them, the creation of a sub project that names no version
-- in an open main project of that type fails, for want of a published version of the type.
pub reachable_no_default :
    {a b : Db} (env : Env) (actor : User) (payload : SubProjectCreate) (type_id : ℕ)
    (main : MainProject)
    → a ⇉* b
    → none_published type_id a.workflow_templates ≡ true
    → get_main_project payload.main_project_id b ≡ some main
    → is_open_main main.status ≡ true
    → main.project_type_id ≡ some type_id
    → payload.workflow_template_version_id ≡ none
    → create_sub_project env actor payload b ≡ err (not_found no_default_version)
unfolding create_sub_project
reachable_no_default {b = b} env actor payload k main p h found still kind unnamed =
    let missing = no_default k b (reachable-none_published k p h) in
    rw (found, still, unnamed, kind, missing) refl
