-- ===== src/SubProjects/Handovers.antt =====
-- Batches of handovers: `batch_handover_sub_projects` of backend/app/services/sub_projects.py.
use project_lifecycle_manage.Base.{ℕ, some, List, [], ◌∷◌, ◌++◌, ◌≡◌, refl, sym, ap, ◌∙◌, inl, inr}
use project_lifecycle_manage.Model.{Db, Env, User, SubProject}
use project_lifecycle_manage.Errors.{Result, ok, err, Error, Result-cases, ◌>>=◌}
use project_lifecycle_manage.SubProjects.Members.{
  SubProjectBatchHandoverItem, handover_sub_project, after_handover, batch_handovers,
}

-- What follows when the first part of a batch has been handed over.
abbrev continued :
    User
    → ℕ
    → List (Env × SubProjectBatchHandoverItem)
    → Db × Result (List SubProject)
    → Db × Result (List SubProject)
continued actor from rest (db, err e) = (db, err e)
continued actor from rest (db, ok ss) = (
  (batch_handovers actor from rest db).0,
  ((batch_handovers actor from rest db).1 >>= λ ts. ok (ss ++ ts)),
)

ok->>= : {A : Type 0} (m : Result (List A)) → (m >>= λ ts. ok ([] ++ ts)) ≡ m
ok->>= (ok ts) = refl
ok->>= (err e) = refl

-- A handover that succeeds comes first.
step_ok :
    (actor : User) (from : ℕ) (env : Env) (item : SubProjectBatchHandoverItem)
    (items : List (Env × SubProjectBatchHandoverItem)) (db : Db) {r : Db × SubProject}
    → handover_sub_project env actor item.sub_project_id item.request (some from) db ≡ ok r
    → batch_handovers actor from ((env, item) ∷ items) db ≡ (
      (batch_handovers actor from items r.0).0,
      ((batch_handovers actor from items r.0).1 >>= λ ss. ok (r.1 ∷ ss)),
    )
unfolding batch_handovers
step_ok actor from env item items db h = ap (after_handover (batch_handovers actor from items) db) h

step_err :
    (actor : User) (from : ℕ) (env : Env) (item : SubProjectBatchHandoverItem)
    (items : List (Env × SubProjectBatchHandoverItem)) (db : Db) {e : Error}
    → handover_sub_project env actor item.sub_project_id item.request (some from) db ≡ err e
    → batch_handovers actor from ((env, item) ∷ items) db ≡ (db, err e)
unfolding batch_handovers
step_err actor from env item items db h =
    ap (after_handover (batch_handovers actor from items) db) h

one_more :
    {A : Type 0} (a : A) (xs : List A) (m : Result (List A))
    → ((m >>= λ ts. ok (xs ++ ts)) >>= λ ts. ok (a ∷ ts)) ≡ (m >>= λ ts. ok ((a ∷ xs) ++ ts))
one_more a xs (ok ts) = refl
one_more a xs (err e) = refl

continued_cons :
    (actor : User) (from : ℕ) (rest : List (Env × SubProjectBatchHandoverItem)) (s : SubProject)
    (p : Db × Result (List SubProject))
    → ((continued actor from rest p).0, ((continued actor from rest p).1 >>= λ ts. ok (s ∷ ts)))
      ≡ continued actor from rest (p.0, (p.1 >>= λ ts. ok (s ∷ ts)))
continued_cons actor from rest s (db, err e) = refl
continued_cons actor from rest s (db, ok ss) =
    ap (λ m. ((batch_handovers actor from rest db).0, m))
      (one_more s ss (batch_handovers actor from rest db).1)

-- A batch in two parts.
batch_handovers-append :
    (actor : User) (from : ℕ) (items rest : List (Env × SubProjectBatchHandoverItem)) (db : Db)
    → batch_handovers actor from (items ++ rest) db
      ≡ continued actor from rest (batch_handovers actor from items db)
unfolding batch_handovers
batch_handovers-append actor from [] rest db =
    ap (λ m. ((batch_handovers actor from rest db).0, m))
      (sym (ok->>= (batch_handovers actor from rest db).1))
batch_handovers-append actor from ((env, item) ∷ items) rest db =
    elim (Result-cases
      (handover_sub_project env actor item.sub_project_id item.request (some from) db)) [
        | inl (r, h) ↦
            step_ok actor from env item (items ++ rest) db h
            ∙ ap (λ p. (p.0, (p.1 >>= λ ss. ok (r.1 ∷ ss))))
                (batch_handovers-append actor from items rest r.0)
            ∙ continued_cons actor from rest r.1 (batch_handovers actor from items r.0)
            ∙ ap (continued actor from rest) (sym (step_ok actor from env item items db h))
        | inr (e, h) ↦
            step_err actor from env item (items ++ rest) db h
            ∙ ap (continued actor from rest) (sym (step_err actor from env item items db h))
      ]

-- Where a batch hands the first items over and the next item fails in the database that they leave, the
-- batch with whatever items after it fails with that error, and leaves that database: the handovers
-- before the failure stay, and none after it is made.
pub batch_handovers_fails :
    (actor : User) (from : ℕ) (items rest : List (Env × SubProjectBatchHandoverItem)) (env : Env)
    (item : SubProjectBatchHandoverItem) (db db' : Db) (ss : List SubProject) (e : Error)
    → batch_handovers actor from items db ≡ (db', ok ss)
    → handover_sub_project env actor item.sub_project_id item.request (some from) db' ≡ err e
    → batch_handovers actor from (items ++ (env, item) ∷ rest) db ≡ (db', err e)
batch_handovers_fails actor from items rest env item db db' ss e h f =
    batch_handovers-append actor from items ((env, item) ∷ rest) db
    ∙ ap (continued actor from ((env, item) ∷ rest)) h
    ∙ ap (λ p. (p.0, (p.1 >>= λ ts. ok (ss ++ ts)))) (step_err actor from env item rest db' f)
