-- ===== src/Handovers/Transfers.antt =====
-- An approved or forced request of backend/app/services/handover_requests.py hands over all its sub
-- projects.
use project_lifecycle_manage.Base.{
  ℕ, suc, ◌==◌, ==_iff, true, false, not, some, List, [], ◌∷◌, ◌++◌, map, ◌≡◌, refl, sym, ap, subst,
  ◌∙◌, arith, find?, find?-sound, find?-put, find?-put_ne, put, all, All, distinct, &&-eq-true,
}
use project_lifecycle_manage.Model.{
  Db, Env, User, SubProject, HandoverRequest, Notice, is_active_handover,
}
use project_lifecycle_manage.Errors.{
  ok, business, manager_changed, handover_status, ok-injective, >>=-eq-ok, guard->>-eq-ok,
  from_option->>=-eq-ok,
}
use project_lifecycle_manage.Queries.{get_sub_project, get_member}
use project_lifecycle_manage.SubProjects.Members.{hand_over, draw_after, new_handover, with_manager}
use project_lifecycle_manage.Handovers.Service.{
  existing_projects, transfer, transfer_payload, later_draws,
}

abbrev pub Here : List SubProject → SubProject → Type 0
Here ss p = find? (λ s. s.id == p.id) ss ≡ some p

-- The projects that are loaded are rows of the table.
pub existing_projects-rows :
    (ids : List ℕ) (db : Db) {ps : List SubProject}
    → existing_projects ids db ≡ ok ps
    → (map (λ p. p.id) ps ≡ ids) × All (Here db.sub_projects) ps
unfolding existing_projects get_sub_project
existing_projects-rows [] db h = rw (sym (ok-injective h)) (refl, tt)
existing_projects-rows (i ∷ is) db h =
    let (p, found, h1) = from_option->>=-eq-ok (get_sub_project i db) _ _ h in
    let (ps, more, h2) = >>=-eq-ok (existing_projects is db) _ h1 in
    let (ids, rows) = existing_projects-rows is db more in
    let same = (==_iff p.id i).0 (find?-sound (λ s. s.id == i) db.sub_projects found) in
    rw (sym (ok-injective h2)) (
      ap (λ t. p.id ∷ t) ids ∙ ap (λ j. j ∷ is) same,
      (subst (λ j. find? (λ s. s.id == j) db.sub_projects ≡ some p) (sym same) found, rows),
    )

-- What became of a project: its row has the new manager, and the rest as before.
abbrev pub IsTaken : ℕ → List SubProject → SubProject → Type 0
IsTaken to ss p =
    (s : SubProject) × (find? (λ t. t.id == p.id) ss ≡ some s)
    × (s.manager_id ≡ to)
    × (s.status ≡ p.status)
    × (s.main_project_id ≡ p.main_project_id)

pub record IsTransferred (r : HandoverRequest) (ps : List SubProject) (db db' : Db) : Type 0 where
  pub managed : all (λ p. p.manager_id == r.from_user_id) ps ≡ true
  pub active : all (λ p. is_active_handover p.status) ps ≡ true
  pub taken : All (IsTaken r.to_user_id db'.sub_projects) ps
  pub others :
      (i : ℕ)
      → all (λ p. not (p.id == i)) ps ≡ true
      → find? (λ s. s.id == i) db'.sub_projects ≡ find? (λ s. s.id == i) db.sub_projects
  pub recorded :
      map (λ h. h.sub_project_id) db'.sub_project_handovers
      ≡ map (λ h. h.sub_project_id) db.sub_project_handovers ++ map (λ p. p.id) ps
  pub requests : db'.handover_requests ≡ db.handover_requests

map-append_one :
    {A B : Type 0} (f : A → B) (xs : List A) (x : A) (ys : List B)
    → map f (xs ++ x ∷ []) ++ ys ≡ map f xs ++ f x ∷ ys
map-append_one f [] x ys = refl
map-append_one f (z ∷ xs) x ys = ap (λ t. f z ∷ t) (map-append_one f xs x ys)

append-nil : {A : Type 0} (xs : List A) → xs ++ [] ≡ xs
append-nil [] = refl
append-nil (x ∷ xs) = ap (λ t. x ∷ t) (append-nil xs)

other_row :
    (i : ℕ) (p : SubProject) (ss : List SubProject)
    → p.id == i ≡ false
    → find? (λ s. s.id == i) (put (λ s. s.id == p.id) p ss) ≡ find? (λ s. s.id == i) ss
other_row i p ss n =
    find?-put_ne (λ s. s.id == i) (λ s. s.id == p.id) p ss
      (λ s e. subst (λ k. k == i ≡ false) (sym ((==_iff s.id p.id).0 e)) n) n

-- The projects that come later are still found as they were loaded.
rows_stay :
    (p p' : SubProject) (ps ss : List SubProject)
    → p'.id ≡ p.id
    → all (λ q. not (q.id == p.id)) ps ≡ true
    → All (Here ss) ps
    → All (Here (put (λ s. s.id == p'.id) p' ss)) ps
unfolding all
rows_stay p p' [] ss same d h = tt
rows_stay p p' (q ∷ qs) ss same d h =
    let (n, rest) = &&-eq-true (not (q.id == p.id)) (all (λ q. not (q.id == p.id)) qs) d in
    let apart : p'.id == q.id ≡ false =
      subst (λ k. k == q.id ≡ false) (sym same)
        (ground (arith, n, (==_iff p.id q.id).0, (==_iff q.id p.id).1)) in
    (other_row q.id p' ss apart ∙ h.0, rows_stay p p' qs ss same rest h.1)

pub transfer-IsTransferred :
    (env : Env) (actor : User) (r : HandoverRequest) (ps : List SubProject) (db : Db)
    {x : Db × List Notice}
    → distinct (λ p. p.id) ps ≡ true
    → All (Here db.sub_projects) ps
    → transfer env actor r ps db ≡ ok x
    → IsTransferred r ps db x.0
unfolding transfer all distinct hand_over new_handover
transfer-IsTransferred env actor r [] db d rows h =
    subst (λ x. IsTransferred r [] db x.0) (ok-injective h)
      (record {
        managed = refl;
        active = refl;
        taken = tt;
        others = λ i a. refl;
        recorded = sym (append-nil _);
        requests = refl;
      })
transfer-IsTransferred env actor r (p ∷ ps) db d rows h =
    let (active, h1) =
      guard->>-eq-ok (is_active_handover p.status) (business (handover_status p.status)) _ h in
    let (managed, h2) =
      guard->>-eq-ok (p.manager_id == r.from_user_id) (business (manager_changed p.id)) _ h1 in
    let env' = later_draws (suc (draw_after (get_member p.id r.to_user_id db))) env in
    let next = hand_over env actor p (transfer_payload r) db in
    let row = with_manager env r.to_user_id p in
    let (y, more, h3) = >>=-eq-ok (transfer env' actor r ps next) _ h2 in
    let (apart, d') = &&-eq-true (all (λ q. not (q.id == p.id)) ps) (distinct (λ q. q.id) ps) d in
    let c =
      transfer-IsTransferred env' actor r ps next d'
        (rows_stay p row ps db.sub_projects refl apart rows.1) more in
    let here =
      find?-put (λ s. s.id == p.id) db.sub_projects row rows.0 ((==_iff p.id p.id).1 refl) in
    subst (λ z. IsTransferred r (p ∷ ps) db z.0) (ok-injective h3)
      (record {
        managed = ground (arith, managed, c.managed);
        active = ground (arith, active, c.active);
        taken = ((row, c.others p.id apart ∙ here, refl, refl, refl), c.taken);
        others = λ i a.
            let (n, rest) = &&-eq-true (not (p.id == i)) (all (λ q. not (q.id == i)) ps) a in
            c.others i rest ∙ other_row i row db.sub_projects (ground (arith, n));
        recorded = c.recorded ∙ map-append_one (λ h. h.sub_project_id) db.sub_project_handovers _ _;
        requests = c.requests;
      })
