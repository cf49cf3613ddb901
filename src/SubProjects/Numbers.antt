-- ===== src/SubProjects/Numbers.antt =====
-- The running numbers of sub projects: `next_sub_project_sequence` and `create_sub_project` of
-- backend/app/services/sub_projects.py.
use project_lifecycle_manage.Base.{
  ℕ, ◌+◌, ◌==◌, ==_iff, true, Option, none, some, List, ◌≡◌, refl, sym, arith, pos, Bool, not, all,
  all-put, all-append_one, find?, find?-all, find?-sound, find?-put, find?-append_none,
}
use project_lifecycle_manage.Model.{Db, Env, User, SubProject, SubProjectNoCounter}
use project_lifecycle_manage.Errors.{ok}
use project_lifecycle_manage.Queries.{get_main_project}
use project_lifecycle_manage.Numbering.{
  sequence_of, sequence_of-format, sub_separator, sub-after_last,
}
use project_lifecycle_manage.SubProjects.Creation.{
  SubProjectCreate, create_sub_project, new_sub_project, counter_of, next_sub_project_sequence,
  drawn_sequence, upsert_counter,
}
use project_lifecycle_manage.SubProjects.Effects.{create_sub_project-eq-ok}

-- No counter stands at 0.
abbrev pub counters_positive : Db → Bool
counters_positive db = all (λ c. not (c.next_sequence == 0)) db.sub_project_no_counters

upsert-drawn :
    (m : ℕ) (o : Option SubProjectNoCounter) (cs : List SubProjectNoCounter)
    → find? (λ c. c.main_project_id == m) cs ≡ o
    → all (λ c. not (c.next_sequence == 0)) cs ≡ true
    → drawn_sequence (find? (λ c. c.main_project_id == m) (upsert_counter m o cs))
      ≡ drawn_sequence o + 1
upsert-drawn m none cs h up =
    rw
      (find?-append_none (λ c. c.main_project_id == m) cs
        (record { main_project_id = m; next_sequence = 2 }) h ((==_iff m m).1 refl))
      refl
upsert-drawn m (some c) cs h up =
    let key = find?-sound (λ c. c.main_project_id == m) cs h in
    let positive =
      find?-all (λ c. c.main_project_id == m) (λ c. not (c.next_sequence == 0)) cs h up in
    rw
      (find?-put (λ c. c.main_project_id == m) cs (record c { next_sequence = c.next_sequence + 1 })
        h key)
      (ground (arith, positive))

upsert-positive :
    (m : ℕ) (o : Option SubProjectNoCounter) (cs : List SubProjectNoCounter)
    → all (λ c. not (c.next_sequence == 0)) cs ≡ true
    → all (λ c. not (c.next_sequence == 0)) (upsert_counter m o cs) ≡ true
upsert-positive m none cs up = all-append_one (λ c. not (c.next_sequence == 0)) cs _ up refl
upsert-positive m (some c) cs up =
    all-put (λ c. not (c.next_sequence == 0)) _ _ cs up (ground arith)

-- Where no counter stands at 0 and the creation of a sub project returns, its number is read back to the
-- sequence that its main project stood at, the next creation under that main project draws the sequence
-- after it, and again no counter stands at 0.
pub create_sub_project_number :
    (env : Env) (actor : User) (payload : SubProjectCreate) (db : Db) {r : Db × SubProject}
    → counters_positive db ≡ true
    → create_sub_project env actor payload db ≡ ok r
    → (sequence_of sub_separator r.1.project_no
        ≡ some (pos (next_sub_project_sequence payload.main_project_id db)))
      × (next_sub_project_sequence payload.main_project_id r.0
          ≡ next_sub_project_sequence payload.main_project_id db + 1)
      × (counters_positive r.0 ≡ true)
unfolding next_sub_project_sequence counter_of get_main_project new_sub_project
create_sub_project_number env actor payload db {r} up h =
    let (main, version, found, still, e) = create_sub_project-eq-ok env actor payload db h in
    let key : main.id ≡ payload.main_project_id =
      (==_iff main.id payload.main_project_id).0
        (find?-sound (λ m. m.id == payload.main_project_id) db.main_projects found) in
    rw (e, sym key)
      (
        sequence_of-format sub_separator sub-after_last main.project_no _,
        upsert-drawn main.id _ db.sub_project_no_counters refl up,
        upsert-positive main.id _ db.sub_project_no_counters up,
      )
