-- ===== src/SubProjects/Definitions.antt =====
-- The phase definitions that `_create_phases_for_sub_project` of backend/app/services/sub_projects.py
-- goes through.
use project_lifecycle_manage.Base.{
  ℕ, suc, leb, Bool, true, ◌&&◌, Option, none, some, List, [], ◌∷◌, ◌≡◌, ◌≢◌, refl, ap, arith, all,
  all_mono, all-insert_by, count, insert_by, sort_by, &&-eq-true, Bool-cases, inl, inr,
}
use project_lifecycle_manage.Model.{Db, Env, SubProject, PhaseDefinition, WorkflowTemplateVersion}
use project_lifecycle_manage.SubProjects.Creation.{get_workflow_template_version}
use project_lifecycle_manage.SubProjects.Review.{
  phase_definitions_for, by_order, defined_or_default, definitions_of, version_definitions,
  phases_from, new_phase,
}

-- The numbers never go down.
unfoldable pub ascending {ℓ} : {A : Type ℓ} → (A → ℕ) → List A → Bool
ascending f [] = true
ascending f (x ∷ xs) = all (λ y. leb (f x) (f y)) xs && ascending f xs

module _ {A : Type 0} (p : A → Bool) (before : A → A → Bool) where
  count-insert_by : (x : A) (xs : List A) → count p (insert_by before x xs) ≡ count p (x ∷ xs)
  unfolding count insert_by
  count-insert_by x [] = refl
  count-insert_by x (y ∷ ys) = ground (arith, count-insert_by x ys)

  count-sort_by : (xs : List A) → count p (sort_by before xs) ≡ count p xs
  unfolding count sort_by
  count-sort_by [] = refl
  count-sort_by (x ∷ xs) = ground (arith, count-insert_by x (sort_by before xs), count-sort_by xs)

module _ {A : Type 0} (f : A → ℕ) where
  ascending-insert_by :
      (x : A) (xs : List A)
      → ascending f xs ≡ true
      → ascending f (insert_by (λ a b. leb (f a) (f b)) x xs) ≡ true
  unfolding ascending insert_by all
  ascending-insert_by x [] h = refl
  ascending-insert_by x (y ∷ ys) h =
      let (above, rest) = &&-eq-true (all (λ z. leb (f y) (f z)) ys) (ascending f ys) h in
      elim (Bool-cases (leb (f x) (f y))) [
        | inl t ↦
            let over =
              all_mono (λ z. leb (f y) (f z)) (λ z. leb (f x) (f z)) ys
                (λ z e. ground (arith, t, e)) above in
            ground (arith, t, over, above, rest)
        | inr n ↦
            let over = all-insert_by (λ z. leb (f y) (f z)) (λ a b. leb (f a) (f b)) x ys in
            ground (arith, n, over, above, ascending-insert_by x ys rest)
      ]

  ascending-sort_by : (xs : List A) → ascending f (sort_by (λ a b. leb (f a) (f b)) xs) ≡ true
  unfolding ascending sort_by
  ascending-sort_by [] = refl
  ascending-sort_by (x ∷ xs) =
      ascending-insert_by x (sort_by (λ a b. leb (f a) (f b)) xs) (ascending-sort_by xs)

count-defined :
    (p : PhaseDefinition → Bool) (ds : List PhaseDefinition)
    → ds ≢ []
    → count p (defined_or_default ds) ≡ count p ds
unfolding by_order
count-defined p [] filled = absurd (filled refl)
count-defined p (d ∷ ds) filled = count-sort_by p (λ a b. leb a.order b.order) (d ∷ ds)

-- Where the version of the sub project has definitions, they are the ones, each as often.
pub versioned_definitions :
    (s : SubProject) (db : Db) (i : ℕ) (v : WorkflowTemplateVersion)
    → s.workflow_template_version_id ≡ some i
    → get_workflow_template_version i db ≡ some v
    → v.phase_definitions ≢ []
    → (p : PhaseDefinition → Bool)
    → count p (phase_definitions_for s db) ≡ count p v.phase_definitions
unfolding phase_definitions_for
versioned_definitions s db i v named found filled p =
    rw (named, found) (count-defined p v.phase_definitions filled)

ascending_or_default :
    (ds : List PhaseDefinition) → ascending (λ d. d.order) (defined_or_default ds) ≡ true
unfolding by_order ascending all
ascending_or_default [] = refl
ascending_or_default (d ∷ ds) = ascending-sort_by (λ x. x.order) (d ∷ ds)

ascending_of :
    (o : Option WorkflowTemplateVersion) → ascending (λ d. d.order) (definitions_of o) ≡ true
unfolding ascending all
ascending_of none = refl
ascending_of (some v) = ascending_or_default v.phase_definitions

ascending_version :
    (o : Option ℕ) (db : Db) → ascending (λ d. d.order) (version_definitions o db) ≡ true
unfolding ascending all
ascending_version none db = refl
ascending_version (some i) db = ascending_of (get_workflow_template_version i db)

pub ascending_definitions :
    (s : SubProject) (db : Db) → ascending (λ d. d.order) (phase_definitions_for s db) ≡ true
unfolding phase_definitions_for
ascending_definitions s db = ascending_version s.workflow_template_version_id db

all-phases_from :
    (env : Env) (n s k : ℕ) (ds : List PhaseDefinition)
    → all (λ p. leb k p.phase_no) (phases_from env n s ds) ≡ all (λ d. leb k d.order) ds
unfolding all phases_from new_phase
all-phases_from env n s k [] = refl
all-phases_from env n s k (d ∷ ds) =
    ap (λ b. leb k d.order && b) (all-phases_from env (suc n) s k ds)

pub ascending-phases_from :
    (env : Env) (n s : ℕ) (ds : List PhaseDefinition)
    → ascending (λ p. p.phase_no) (phases_from env n s ds) ≡ ascending (λ d. d.order) ds
unfolding ascending phases_from new_phase
ascending-phases_from env n s [] = refl
ascending-phases_from env n s (d ∷ ds) =
    rw (all-phases_from env (suc n) s d.order ds, ascending-phases_from env (suc n) s ds) refl
