-- ===== src/Handovers/Decisions.antt =====
-- What the handlers of backend/app/services/handover_requests.py do to a request, and with it to the
-- sub projects.
use project_lifecycle_manage.Base.{
  ℕ, ◌+◌, ◌==◌, ==_iff, ◌≤◌, leb, true, not, ◌&&◌, some, List, [], ◌∷◌, map, ◌≡◌, refl, sym, ap,
  subst, ◌∙◌, arith, find?, find?-sound, find?-put, put, all, distinct, Option, Text, codes,
}
use project_lifecycle_manage.Model.{
  Db, Env, User, SubProject, HandoverRequest, HandoverRequestStatus, Notice, awaits_review,
  awaits_candidate, is_admin,
}
use project_lifecycle_manage.Errors.{
  ok, permission_denied, ok-injective, >>=-eq-ok, guard->>-eq-ok, from_option->>=-eq-ok,
}
use project_lifecycle_manage.Handovers.Service.{
  HandoverReviewDecision, get_handover_request, list_request_project_ids, existing_projects,
  can_review_request, review_handover_request, reviewed_request, decide_request, apply_transfer,
  get_active_project_leader, write_request, force_request, forced_request, admin_force_after,
  send_completions, audit_request,
}
use project_lifecycle_manage.Handovers.Transfers.{
  IsTransferred, transfer-IsTransferred, existing_projects-rows,
}

-- `distinct` looks at the keys alone.
all-map_key :
    {A : Type 0} (key : A → ℕ) (k : ℕ) (xs : List A)
    → all (λ y. not (y == k)) (map key xs) ≡ all (λ x. not (key x == k)) xs
unfolding all
all-map_key key k [] = refl
all-map_key key k (x ∷ xs) = ap (λ b. not (key x == k) && b) (all-map_key key k xs)

distinct-map :
    {A : Type 0} (key : A → ℕ) (xs : List A) → distinct (λ y. y) (map key xs) ≡ distinct key xs
unfolding distinct
distinct-map key [] = refl
distinct-map key (x ∷ xs) =
    ap (λ b. b && distinct (λ y. y) (map key xs)) (all-map_key key (key x) xs)
    ∙ ap (λ b. all (λ y. not (key y == key x)) xs && b) (distinct-map key xs)

-- The request after a decision, and what became of the sub projects it names.
pub record IsHandedOver (i : ℕ) (db db' : Db) (request after : HandoverRequest)
    (projects : List SubProject) : Type 0 where
  pub found : get_handover_request i db ≡ some request
  pub stored : get_handover_request i db' ≡ some after
  pub same_users :
      (after.from_user_id ≡ request.from_user_id) × (after.to_user_id ≡ request.to_user_id)
  pub named : map (λ p. p.id) projects ≡ list_request_project_ids i db
  pub transferred : IsTransferred after projects (write_request after db) db'

module _ (env : Env) (actor : User) (i : ℕ) (db : Db) (r after : HandoverRequest)
    (ps : List SubProject) (found : get_handover_request i db ≡ some r) (same : after.id ≡ r.id)
    (users : (after.from_user_id ≡ r.from_user_id) × (after.to_user_id ≡ r.to_user_id))
    (loaded : existing_projects (list_request_project_ids r.id db) db ≡ ok ps)
    (apart : distinct (λ y. y) (list_request_project_ids i db) ≡ true) {x : Db × List Notice}
    (h : apply_transfer env actor after ps (write_request after db) ≡ ok x) where
  -- The transfer, seen from a database that differs in notices and audit entries.
  applied-IsHandedOver :
      (db' : Db)
      → db'.sub_projects ≡ x.0.sub_projects
      → db'.sub_project_handovers ≡ x.0.sub_project_handovers
      → db'.handover_requests ≡ x.0.handover_requests
      → IsHandedOver i db db' r after ps
  unfolding apply_transfer get_handover_request
  applied-IsHandedOver db' subs handovers requests =
      let key : r.id ≡ i =
        (==_iff r.id i).0 (find?-sound (λ q. q.id == i) db.handover_requests found) in
      let (ids, rows) = existing_projects-rows (list_request_project_ids r.id db) db loaded in
      let named = ids ∙ ap (λ j. list_request_project_ids j db) key in
      let (to_user, leader, h1) =
        >>=-eq-ok (get_active_project_leader after.to_user_id (write_request after db)) _ h in
      let unique = sym (distinct-map (λ p. p.id) ps) ∙ ap (distinct (λ y. y)) named ∙ apart in
      let c = transfer-IsTransferred env actor after ps (write_request after db) unique rows h1 in
      let row =
        subst
          (λ j.
            find? (λ q. q.id == i) (put (λ q. q.id == j) after db.handover_requests) ≡ some after)
          (sym (same ∙ key))
          (find?-put (λ q. q.id == i) db.handover_requests after found
            ((==_iff _ _).1 (same ∙ key))) in
      record {
        found = found;
        stored = ap (find? (λ q. q.id == i)) (requests ∙ c.requests) ∙ row;
        same_users = users;
        named = named;
        transferred = record {
          managed = c.managed;
          active = c.active;
          taken = rw subs c.taken;
          others = λ k a. ap (find? (λ s. s.id == k)) subs ∙ c.others k a;
          recorded = ap (map (λ y. y.sub_project_id)) handovers ∙ c.recorded;
          requests = requests ∙ c.requests;
        };
      }

-- An approval of a request that returns came from the administrator or from the manager of the
-- department of all its sub projects, for a request that awaited its review. It leaves the request
-- approved and hands over every sub project that the request names, each of which was active and had
-- the asking leader as manager: each has the candidate as manager and its status as before, any other
-- sub project is as before, and one handover is recorded for each, in order. The request names no sub
-- project twice.
pub review_handover_request_approve :
    (env : Env) (actor : User) (i : ℕ) (comment : Option Text) (db : Db) {x : Db × HandoverRequest}
    → distinct (λ y. y) (list_request_project_ids i db) ≡ true
    → review_handover_request env actor i HandoverReviewDecision.approve comment db ≡ ok x
    → (r : HandoverRequest) × (ps : List SubProject) × IsHandedOver i db x.0 r x.1 ps
      × (awaits_review r.status ≡ true)
      × (can_review_request actor ps ≡ true)
      × (x.1.status ≡ HandoverRequestStatus.approved)
unfolding review_handover_request reviewed_request
review_handover_request_approve env actor i comment db apart h =
    let (r, found, h1) = from_option->>=-eq-ok (get_handover_request i db) _ _ h in
    let (waiting, h2) = guard->>-eq-ok (awaits_review r.status) _ _ h1 in
    let (ps, loaded, h3) =
      >>=-eq-ok (existing_projects (list_request_project_ids r.id db) db) _ h2 in
    let (allowed, h4) = guard->>-eq-ok (can_review_request actor ps) permission_denied _ h3 in
    let after = reviewed_request env actor HandoverReviewDecision.approve comment r in
    let (decided, d, h5) =
      >>=-eq-ok (decide_request env actor HandoverReviewDecision.approve after ps db) _ h4 in
    let (y, applied, h6) =
      >>=-eq-ok (apply_transfer env actor after ps (write_request after db)) _ d in
    let whole =
      ap (λ z. (audit_request (codes "handover_request.review") actor after z, after))
        (ok-injective h6)
      ∙ ok-injective h5 in
    subst
      (λ z.
        (r : HandoverRequest) × (ps : List SubProject) × IsHandedOver i db z.0 r z.1 ps
        × (awaits_review r.status ≡ true)
        × (can_review_request actor ps ≡ true)
        × (z.1.status ≡ HandoverRequestStatus.approved))
      whole
      (
        r,
        ps,
        applied-IsHandedOver env actor i db r after ps found refl (refl, refl) loaded apart {x = y}
            applied
            (audit_request (codes "handover_request.review") actor after (send_completions y.1 y.0))
            refl refl refl,
        waiting,
        allowed,
        refl,
      )

-- A forced request that returns came from the administrator, at least seven days after it was made and
-- while it awaited its candidate. It leaves the request forced and hands over every sub project that it
-- names, as an approval does. The request names no sub project twice.
pub force_request_effect :
    (env : Env) (actor : User) (i : ℕ) (db : Db) {x : Db × HandoverRequest}
    → distinct (λ y. y) (list_request_project_ids i db) ≡ true
    → force_request env actor i db ≡ ok x
    → (r : HandoverRequest) × (ps : List SubProject) × IsHandedOver i db x.0 r x.1 ps
      × (awaits_candidate r.status ≡ true)
      × (is_admin actor.role ≡ true)
      × (r.created_at + admin_force_after ≤ env.now)
      × (x.1.status ≡ HandoverRequestStatus.forced)
unfolding force_request forced_request
force_request_effect env actor i db apart h =
    let (administrator, h1) = guard->>-eq-ok (is_admin actor.role) permission_denied _ h in
    let (r, found, h2) = from_option->>=-eq-ok (get_handover_request i db) _ _ h1 in
    let (waiting, h3) = guard->>-eq-ok (awaits_candidate r.status) _ _ h2 in
    let (late, h4) = guard->>-eq-ok (leb (r.created_at + admin_force_after) env.now) _ _ h3 in
    let (ps, loaded, h5) =
      >>=-eq-ok (existing_projects (list_request_project_ids r.id db) db) _ h4 in
    let after = forced_request env actor r in
    let (y, applied, h6) =
      >>=-eq-ok (apply_transfer env actor after ps (write_request after db)) _ h5 in
    subst
      (λ z.
        (r : HandoverRequest) × (ps : List SubProject) × IsHandedOver i db z.0 r z.1 ps
        × (awaits_candidate r.status ≡ true)
        × (is_admin actor.role ≡ true)
        × (r.created_at + admin_force_after ≤ env.now)
        × (z.1.status ≡ HandoverRequestStatus.forced))
      (ok-injective h6)
      (
        r,
        ps,
        applied-IsHandedOver env actor i db r after ps found refl (refl, refl) loaded apart {x = y}
            applied
            (audit_request (codes "handover_request.force") actor after (send_completions y.1 y.0))
            refl refl refl,
        waiting,
        administrator,
        ground (arith, late),
        refl,
      )
