-- ===== src/SubProjects/Leaders.antt =====
-- The leader of a sub project and its members (backend/app/services/sub_projects.py).
use project_lifecycle_manage.Base.{
  ℕ, ◌==◌, ==_iff, ==_refl, Bool, true, false, not, ◌&&◌, ◌||◌, Option, none, some, List, [], ◌∷◌,
  ◌++◌, ◌≡◌, refl, sym, ap, subst, ◌∙◌, arith, find?, find?-sound, find?-put, find?-all,
  find?-append_none, find?-none, any-eq-false, put, all, all_mono, all-append_one, all-&&, all-put,
  some-injective, &&-eq-true, Bool-cases, Option-cases, inl, inr, if◌then◌else◌,
}
use project_lifecycle_manage.Model.{
  Db, Env, User, SubProject, SubProjectMember, SubProjectMemberRole, SubProjectHandover,
  is_leader_role,
}
use project_lifecycle_manage.Errors.{ok}
use project_lifecycle_manage.Queries.{get_sub_project, get_member}
use project_lifecycle_manage.SubProjects.Creation.{new_member}
use project_lifecycle_manage.SubProjects.Members.{
  SubProjectHandoverRequest, handover_sub_project, hand_over, upsert_handover_members, demote,
  promote, with_role, with_manager, new_handover,
}
use project_lifecycle_manage.SubProjects.Staffing.{handover_sub_project-IsHandedOver}

abbrev pub is_row : ℕ → ℕ → SubProjectMember → Bool
is_row s u m = m.sub_project_id == s && m.user_id == u

-- uq_sub_project_members_sub_project_user
unfoldable pub member_rows_unique : List SubProjectMember → Bool
member_rows_unique [] = true
member_rows_unique (m ∷ ms) =
    all (λ r. not (is_row m.sub_project_id m.user_id r)) ms && member_rows_unique ms

-- Among the members of sub project `s`, the user `u` is the one leader.
abbrev pub leads_alone : ℕ → ℕ → SubProjectMember → Bool
leads_alone s u m =
    not (m.sub_project_id == s)
    || (if m.user_id == u
        then is_leader_role m.role_in_project
        else not (is_leader_role m.role_in_project))

abbrev leads_none : ℕ → SubProjectMember → Bool
leads_none s m = not (m.sub_project_id == s) || not (is_leader_role m.role_in_project)

-- The row that is found is the only one of its user.
row_alone :
    (s u : ℕ) (ms : List SubProjectMember) {m : SubProjectMember}
    → member_rows_unique ms ≡ true
    → find? (is_row s u) ms ≡ some m
    → all (λ r. not (is_row s u r) || r.id == m.id) ms ≡ true
unfolding member_rows_unique find? all
row_alone s u [] d h = refl
row_alone s u (y ∷ ys) {m} d h = elim (Bool-cases (is_row s u y)) [
  | inl e ↦
      let (in_s, of_u) = &&-eq-true (y.sub_project_id == s) (y.user_id == u) e in
      let row : y ≡ m =
        some-injective (subst (λ b. (if b then some y else find? (is_row s u) ys) ≡ some m) e h) in
      let others =
        subst (λ j. all (λ r. not (is_row j u r)) ys ≡ true) ((==_iff _ _).0 in_s)
          (subst (λ k. all (λ r. not (is_row y.sub_project_id k r)) ys ≡ true) ((==_iff _ _).0 of_u)
            (&&-eq-true _ _ d).0) in
      let rest : all (λ r. not (is_row s u r) || r.id == m.id) ys ≡ true =
        all_mono (λ r. not (is_row s u r)) (λ r. not (is_row s u r) || r.id == m.id) ys
          (λ r g. ground (arith, g)) others in
      ground (arith, rest, (==_iff y.id m.id).1 (ap (λ x. x.id) row))
  | inr n ↦
      let rest : all (λ r. not (is_row s u r) || r.id == m.id) ys ≡ true =
        row_alone s u ys {m = m} (&&-eq-true _ _ d).1
          (subst (λ b. (if b then some y else find? (is_row s u) ys) ≡ some m) n h) in
      ground (arith, n, rest)
]

all-put_kept :
    {A : Type 0} (p q m : A → Bool) (x' : A) (xs : List A)
    → all p xs ≡ true
    → q x' ≡ true
    → ((y : A) → m y ≡ false → p y ≡ true → q y ≡ true)
    → all q (put m x' xs) ≡ true
unfolding all put
all-put_kept p q m x' [] h k f = refl
all-put_kept p q m x' (y ∷ ys) h k f = ground (arith, f y, all-put_kept p q m x' ys)

find?-put_match :
    {A : Type 0} (p m : A → Bool) (x' : A) (xs : List A) {x : A}
    → find? p xs ≡ some x
    → all (λ r. not (p r) || m r) xs ≡ true
    → p x' ≡ true
    → find? p (put m x' xs) ≡ some x'
unfolding find? put all
find?-put_match p m x' [] h a k = ground (arith, h)
find?-put_match p m x' (y ∷ ys) {x} h a k = ground (arith, find?-put_match p m x' ys {x = x})

-- Once the old leader is a member, nobody leads.
demoted :
    (s old : ℕ) (db : Db) (row : Option SubProjectMember)
    → get_member s old db ≡ row
    → member_rows_unique db.members ≡ true
    → all (leads_alone s old) db.members ≡ true
    → all (leads_none s) (demote row db).members ≡ true
unfolding get_member
demoted s old db none e d h =
    let absent = any-eq-false (is_row s old) db.members (find?-none (is_row s old) db.members e) in
    all_mono (λ r. leads_alone s old r && not (is_row s old r)) (leads_none s) db.members
      (λ r g. ground (arith, g))
      (all-&& (leads_alone s old) (λ r. not (is_row s old r)) db.members h absent)
demoted s old db (some m) e d h =
    let alone = row_alone s old db.members {m = m} d e in
    all-put_kept (λ r. leads_alone s old r && (not (is_row s old r) || r.id == m.id)) (leads_none s)
      (λ r. r.id == m.id) (with_role SubProjectMemberRole.proj_member m) db.members
      (all-&& (leads_alone s old) (λ r. not (is_row s old r) || r.id == m.id) db.members h alone)
      (ground arith) (λ r n g. ground (arith, n, g))

-- What holds of rows that are not the old leader's holds after the demotion.
demoted-all :
    (p : SubProjectMember → Bool) (s old : ℕ) (db : Db) (row : Option SubProjectMember)
    → get_member s old db ≡ row
    → ((r : SubProjectMember) → is_row s old r ≡ true → p r ≡ true)
    → all p db.members ≡ true
    → all p (demote row db).members ≡ true
unfolding get_member
demoted-all p s old db none e f h = h
demoted-all p s old db (some m) e f h =
    all-put p (λ r. r.id == m.id) (with_role SubProjectMemberRole.proj_member m) db.members h
      (f (with_role SubProjectMemberRole.proj_member m) (find?-sound (is_row s old) db.members e))

apart_rows :
    (s old new : ℕ) (r : SubProjectMember)
    → new == old ≡ false
    → is_row s old r ≡ true
    → is_row s new r ≡ false
apart_rows s old new r n h = elim (Bool-cases (is_row s new r)) [
  | inr f ↦ f
  | inl t ↦
      let a : r.user_id ≡ old = (==_iff r.user_id old).0 (&&-eq-true _ _ h).1 in
      let b : r.user_id ≡ new = (==_iff r.user_id new).0 (&&-eq-true _ _ t).1 in
      absurd (ground (arith, n, (==_iff new old).1 (sym b ∙ a)))
]

-- The new leader's row is the only one of that user after the demotion too.
new_alone :
    (s old new : ℕ) (db : Db) (row : Option SubProjectMember) {n : SubProjectMember}
    → new == old ≡ false
    → get_member s old db ≡ row
    → member_rows_unique db.members ≡ true
    → find? (is_row s new) (demote row db).members ≡ some n
    → all (λ r. not (is_row s new r) || r.id == n.id) (demote row db).members ≡ true
new_alone s old new db row {n} other e d h = elim (Option-cases (find? (is_row s new) db.members)) [
  | inl missing ↦
      let absent =
        demoted-all (λ r. not (is_row s new r)) s old db row e
          (λ r g. ap not (apart_rows s old new r other g))
          (any-eq-false (is_row s new) db.members (find?-none (is_row s new) db.members missing)) in
      all_mono (λ r. not (is_row s new r)) (λ r. not (is_row s new r) || r.id == n.id) _
        (λ r g. ground (arith, g)) absent
  | inr (m, found) ↦
      let alone =
        demoted-all (λ r. not (is_row s new r) || r.id == m.id) s old db row e
          (λ r g. ground (arith, apart_rows s old new r other g))
          (row_alone s new db.members {m = m} d found) in
      let own = find?-sound (is_row s new) (demote row db).members h in
      let this =
        find?-all (is_row s new) (λ r. not (is_row s new r) || r.id == m.id) (demote row db).members
          h alone in
      let same : n.id ≡ m.id = (==_iff n.id m.id).0 (ground (arith, own, this)) in
      subst (λ k. all (λ r. not (is_row s new r) || r.id == k) (demote row db).members ≡ true)
        (sym same) alone
]

-- The promotion of the user `new` where nobody leads.
promoted_alone :
    (env : Env) (s new : ℕ) (db : Db) (row : Option SubProjectMember)
    → find? (is_row s new) db.members ≡ row
    → all (leads_none s) db.members ≡ true
    → ((n : SubProjectMember)
        → row ≡ some n
        → all (λ r. not (is_row s new r) || r.id == n.id) db.members ≡ true)
    → (all (leads_alone s new) (promote env s new row db).members ≡ true)
      × (m : SubProjectMember) × (get_member s new (promote env s new row db) ≡ some m)
      × (is_leader_role m.role_in_project ≡ true)
unfolding get_member new_member
promoted_alone env s new db none e h alone =
    let absent = any-eq-false (is_row s new) db.members (find?-none (is_row s new) db.members e) in
    let row = new_member env 0 s new SubProjectMemberRole.proj_leader in
    (
      all-append_one (leads_alone s new) db.members row
          (all_mono (λ r. leads_none s r && not (is_row s new r)) (leads_alone s new) db.members
            (λ r g. ground (arith, g))
            (all-&& (leads_none s) (λ r. not (is_row s new r)) db.members h absent))
          (ground (arith, ==_refl new)),
      row,
      find?-append_none (is_row s new) db.members row e (ground (arith, ==_refl s, ==_refl new)),
      refl,
    )
promoted_alone env s new db (some n) e h alone =
    let own = find?-sound (is_row s new) db.members e in
    let row = with_role SubProjectMemberRole.proj_leader n in
    (
      all-put_kept (λ r. leads_none s r && (not (is_row s new r) || r.id == n.id))
          (leads_alone s new) (λ r. r.id == n.id) row db.members
          (all-&& (leads_none s) (λ r. not (is_row s new r) || r.id == n.id) db.members h
            (alone n refl))
          (ground (arith, own)) (λ r k g. ground (arith, k, g)),
      row,
      find?-put_match (is_row s new) (λ r. r.id == n.id) row db.members e (alone n refl) own,
      refl,
    )

-- A handover that returns where the manager alone led the sub project (and no user has two rows in it)
-- makes the new user its manager and the one leader among its members, with a row of his own: whoever
-- led before is a member without the lead, and the handover is recorded once, from the old manager.
pub handover_sub_project_leads :
    (env : Env) (actor : User) (i : ℕ) (payload : SubProjectHandoverRequest) (expected : Option ℕ)
    (s : SubProject) (db : Db) {r : Db × SubProject}
    → get_sub_project i db ≡ some s
    → member_rows_unique db.members ≡ true
    → all (leads_alone i s.manager_id) db.members ≡ true
    → handover_sub_project env actor i payload expected db ≡ ok r
    → (get_sub_project i r.0 ≡ some r.1)
      × (r.1.manager_id ≡ payload.to_user_id)
      × (all (leads_alone i payload.to_user_id) r.0.members ≡ true)
      × ((m : SubProjectMember) × (get_member i payload.to_user_id r.0 ≡ some m)
          × (is_leader_role m.role_in_project ≡ true))
      × ((h : SubProjectHandover) × (h.from_user_id ≡ s.manager_id)
          × (h.to_user_id ≡ payload.to_user_id)
          × (r.0.sub_project_handovers ≡ db.sub_project_handovers ++ h ∷ []))
unfolding get_sub_project hand_over upsert_handover_members get_member new_handover
handover_sub_project_leads env actor i payload expected s db {r} found unique leads h =
    let c = handover_sub_project-IsHandedOver env actor i payload expected db h in
    let row : c.s ≡ s = some-injective (sym c.found ∙ found) in
    let same : c.s.id ≡ i =
      (==_iff c.s.id i).0 (find?-sound (λ x. x.id == i) db.sub_projects c.found) in
    let new = payload.to_user_id in
    let old = c.s.manager_id in
    let other : new == old ≡ false = ground (arith, c.other) in
    let alone = subst (λ x. all (leads_alone i x.manager_id) db.members ≡ true) (sym row) leads in
    let before = get_member c.s.id old db in
    let led =
      demoted c.s.id old db before refl unique
        (subst (λ j. all (leads_alone j old) db.members ≡ true) (sym same) alone) in
    let base = demote before db in
    let (all_alone, m, stored, leader) =
      promoted_alone env c.s.id new base (get_member c.s.id new base) refl led
        (λ n e. new_alone c.s.id old new db before {n = n} other refl unique e) in
    let after = with_manager env new c.s in
    subst
      (λ x.
        (get_sub_project i x.0 ≡ some x.1)
        × (x.1.manager_id ≡ new)
        × (all (leads_alone i new) x.0.members ≡ true)
        × ((m : SubProjectMember) × (get_member i new x.0 ≡ some m)
            × (is_leader_role m.role_in_project ≡ true))
        × ((h : SubProjectHandover) × (h.from_user_id ≡ s.manager_id)
            × (h.to_user_id ≡ new)
            × (x.0.sub_project_handovers ≡ db.sub_project_handovers ++ h ∷ [])))
      (sym c.returned)
      (
        subst
            (λ j. find? (λ x. x.id == i) (put (λ x. x.id == j) after db.sub_projects) ≡ some after)
            (sym same)
            (find?-put (λ x. x.id == i) db.sub_projects after c.found ((==_iff _ _).1 same)),
        refl,
        subst
            (λ j.
              all (leads_alone j new)
                (promote env c.s.id new (get_member c.s.id new base) base).members
              ≡ true)
            same all_alone,
        (
          m,
          subst
              (λ j.
                find? (is_row j new)
                  (promote env c.s.id new (get_member c.s.id new base) base).members
                ≡ some m)
              same stored,
          leader,
        ),
        (_, ap (λ x. x.manager_id) row, refl, refl),
      )
