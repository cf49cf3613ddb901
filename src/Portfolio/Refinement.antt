-- ===== src/Portfolio/Refinement.antt =====
-- The services of backend/app/services/main_projects.py and sub_projects.py run the abstract life of a
-- sub project.
use project_lifecycle_manage.Base.{
  ℕ, ◌==◌, ==_iff, true, false, some, List, ◌≡◌, sym, ap, subst, ◌∙◌, inl, inr, find?, find?-append,
  find?-put, find?-put_ne, some-injective, Bool-cases, put,
}
use project_lifecycle_manage.Model.{Db, SubProject, is_ended_project}
use project_lifecycle_manage.Queries.{get_sub_project, save_sub_project}
use project_lifecycle_manage.Portfolio.{◌⇒*◌, stay, and_then}
use project_lifecycle_manage.Portfolio.Lifecycle.{◌↝*◌, rest, ↝*_trans, ended_↝*}
use project_lifecycle_manage.Portfolio.Tables.{SubChange, kept, added, written, ⇒-IsChanged}

abbrev Found : ℕ → List SubProject → SubProject → Type 0
Found i ss s = find? (λ r. r.id == i) ss ≡ some s

key_put_ne :
    (i : ℕ) (s : SubProject) (ss : List SubProject)
    → s.id == i ≡ false
    → find? (λ r. r.id == i) (save_sub_project s ss) ≡ find? (λ r. r.id == i) ss
key_put_ne i s ss n =
    find?-put_ne (λ r. r.id == i) (λ r. r.id == s.id) s ss
      (λ r e. subst (λ k. k == i ≡ false) (sym ((==_iff r.id s.id).0 e)) n) n

-- A write of one row, seen from the row with id `i`.
written-row :
    (i : ℕ) (ss : List SubProject) (t t' s : SubProject)
    → Found t'.id ss t
    → t.status ↝* t'.status
    → Found i ss s
    → (s' : SubProject) × Found i (save_sub_project t' ss) s' × (s.status ↝* s'.status)
written-row i ss t t' s found move h = elim (Bool-cases (t'.id == i)) [
  | inr n ↦ (s, key_put_ne i t' ss n ∙ h, rest)
  | inl e ↦
      let same = (==_iff t'.id i).0 e in
      let here = subst (λ j. Found j ss t) same found in
      let row : t ≡ s = some-injective (sym here ∙ h) in
      (
        t',
        subst (λ j. find? (λ r. r.id == i) (put (λ r. r.id == j) t' ss) ≡ some t') (sym same)
            (find?-put (λ r. r.id == i) ss t' h e),
        subst (λ x. x.status ↝* t'.status) row move,
      )
]

change-row :
    (i : ℕ) {a b : Db} (s : SubProject)
    → SubChange a b
    → get_sub_project i a ≡ some s
    → (s' : SubProject) × (get_sub_project i b ≡ some s') × (s.status ↝* s'.status)
unfolding get_sub_project
change-row i s (kept e) h = (s, ap (find? (λ r. r.id == i)) e ∙ h, rest)
change-row i {a} s (added t m pending spent found still e) h =
    (s, ap (find? (λ r. r.id == i)) e ∙ find?-append (λ r. r.id == i) a.sub_projects _ h, rest)
change-row i {a} s (written t t' found scope spent move e) h =
    let (s', row, path) = written-row i a.sub_projects t t' s found move h in
    (s', ap (find? (λ r. r.id == i)) e ∙ row, path)

-- The row with id `i` after calls.
reachable-row :
    {a b : Db} (i : ℕ) (s : SubProject)
    → a ⇒* b
    → get_sub_project i a ≡ some s
    → (s' : SubProject) × (get_sub_project i b ≡ some s') × (s.status ↝* s'.status)
reachable-row i s stay h = (s, h, rest)
reachable-row i s (and_then p step) h =
    let (t, found, path) = reachable-row i s p h in
    let (u, last, more) = change-row i t (⇒-IsChanged step).subs found in
    (u, last, ↝*_trans path more)

-- Calls of the main project and sub project services that return, in whatever order and by whomever,
-- lose no sub project: one that is found is still found under its id, its status has gone there by moves
-- of the abstract life (resubmission, approval, refusal, closing and termination), and if it was closed
-- or terminated, its status has not changed.
pub reachable_lifecycle :
    {a b : Db} (i : ℕ) (s : SubProject)
    → a ⇒* b
    → get_sub_project i a ≡ some s
    → (s' : SubProject) × (get_sub_project i b ≡ some s')
      × (s.status ↝* s'.status)
      × (is_ended_project s.status ≡ true → s'.status ≡ s.status)
reachable_lifecycle i s p h =
    let (s', found, path) = reachable-row i s p h in (s', found, path, λ e. sym (ended_↝* path e))
