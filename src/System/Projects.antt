-- ===== src/System/Projects.antt =====
-- What the main project and sub project services (main_projects.py and sub_projects.py in
-- backend/app/services) leave of the invariants of phases and sums.
use project_lifecycle_manage.Base.{
  ℕ, ◌==◌, ==_iff, Bool, true, false, not, ◌&&◌, ◌||◌, List, [], ◌∷◌, ◌++◌, ◌≡◌, refl, sym, ap,
  subst, ◌∙◌, arith, ℤ, pos, ◌+ℤ◌, All, All-put, All-find, All-map, all, all-append, all_mono, any,
  find?-all, find?-sound, distinct, all-put, all-put_self, all-&&, Bool-cases, inl, inr, &&-eq-true,
}
use project_lifecycle_manage.Model.{
  Db, SubProject, SubProjectStatus, MainProject, Phase, RevokeRequest, is_completed_project,
  is_completed,
}
use project_lifecycle_manage.Phases.Tables.{phases_done}
use project_lifecycle_manage.Phases.Invariant.{IsSound, is_settled, is_linked, has_times}
use project_lifecycle_manage.Payments.Service.{sum_by, sum_payments, sum_sub_project_spent}
use project_lifecycle_manage.Payments.Spending.{
  IsBalanced, IsSpentOf, IsMainSpentOf, sum_by-append_other, sum_by-append_one, +ℤ_zero,
}
use project_lifecycle_manage.System.{IsKeyed}
use project_lifecycle_manage.System.Accounts.{sum_by-put_same}
use project_lifecycle_manage.Portfolio.Lifecycle.{completed_↝*}
use project_lifecycle_manage.Portfolio.Tables.{
  SubChange, MainChange, PhaseChange, IsChanged, kept, added, written, opened,
}

-- A key that stands in the first rows is that of no later row.
later_rows :
    {A : Type 0} (key : A → ℕ) (k : ℕ) (xs ys : List A)
    → distinct key (xs ++ ys) ≡ true
    → any (λ x. key x == k) xs ≡ true
    → all (λ y. not (key y == k)) ys ≡ true
unfolding distinct any
later_rows key k [] ys d h = absurd (ground (arith, h))
later_rows key k (x ∷ xs) ys d h = elim (Bool-cases (key x == k)) [
  | inl e ↦
      let none_after : all (λ y. not (key y == key x)) (xs ++ ys) ≡ true = (&&-eq-true _ _ d).0 in
      let split = all-append (λ y. not (key y == key x)) xs ys in
      let there : all (λ y. not (key y == key x)) ys ≡ true =
        (&&-eq-true (all (λ y. not (key y == key x)) xs) _ (sym split ∙ none_after)).1 in
      subst (λ j. all (λ y. not (key y == j)) ys ≡ true) ((==_iff (key x) k).0 e) there
  | inr n ↦ later_rows key k xs ys (&&-eq-true _ _ d).1 (ground (arith, n, h))
]

-- What refers to the first rows does not refer to the row after them.
not_referred :
    {A B : Type 0} (key : A → ℕ) (ref : B → ℕ) (xs : List A) (x : A) (ys : List B)
    → distinct key (xs ++ x ∷ []) ≡ true
    → all (λ y. any (λ z. key z == ref y) xs) ys ≡ true
    → all (λ y. not (ref y == key x)) ys ≡ true
unfolding all
not_referred key ref xs x [] d h = refl
not_referred key ref xs x (y ∷ ys) d h =
    let (first, rest) =
      &&-eq-true (any (λ z. key z == ref y) xs) (all (λ y. any (λ z. key z == ref y) xs) ys) h in
    let apart = later_rows key (ref y) xs (x ∷ []) d first in
    let own : not (ref y == key x) ≡ true =
      ground (arith, apart, (==_iff (ref y) (key x)).0, (==_iff (key x) (ref y)).1) in
    ground (arith, own, not_referred key ref xs x ys d rest)

sum_by_none :
    {A : Type 0} (p : A → Bool) (f : A → ℤ) (xs : List A)
    → all (λ x. not (p x)) xs ≡ true
    → sum_by p f xs ≡ pos 0
unfolding sum_by all
sum_by_none p f [] h = refl
sum_by_none p f (x ∷ xs) h = ground (arith, sum_by_none p f xs)

All-append_one :
    {A : Type 0} (P : A → Type 0) (xs : List A) (x : A) → All P xs → P x → All P (xs ++ x ∷ [])
All-append_one P [] x h k = (k, tt)
All-append_one P (y ∷ ys) x h k = (h.0, All-append_one P ys x h.1 k)

module _ {a b : Db} (keyed : IsKeyed a b) where
  -- Sub projects that are not completed have nothing to show.
  pending_settled :
      (ps : List Phase) (s : SubProject)
      → s.status ≡ SubProjectStatus.pending_review
      → is_settled ps s ≡ true
  pending_settled ps s e =
      subst (λ t. not (is_completed_project t) || phases_done s.id ps ≡ true) (sym e) refl

  subs_sound :
      SubChange a b
      → all (is_settled a.phases) a.sub_projects ≡ true
      → all (is_settled a.phases) b.sub_projects ≡ true
  unfolding all
  subs_sound (kept e) h = subst (λ ss. all (is_settled a.phases) ss ≡ true) (sym e) h
  subs_sound (added s m pending spent here still e) h =
      subst (λ ss. all (is_settled a.phases) ss ≡ true) (sym e)
        (all-append (is_settled a.phases) a.sub_projects (s ∷ [])
          ∙ ground (arith, h, pending_settled a.phases s pending))
  subs_sound (written s s' here scope spent move e) h =
      let before = find?-all (λ r. r.id == s'.id) (is_settled a.phases) a.sub_projects here h in
      let same = (==_iff s.id s'.id).0 (find?-sound (λ r. r.id == s'.id) a.sub_projects here) in
      let after : is_settled a.phases s' ≡ true =
        elim (Bool-cases (is_completed_project s'.status)) [
          | inr n ↦ ground (arith, n)
          | inl c ↦
              let done : phases_done s.id a.phases ≡ true =
                ground (arith, before, completed_↝* move c) in
              ground (arith, subst (λ j. phases_done j a.phases ≡ true) same done)
        ] in
      subst (λ ss. all (is_settled a.phases) ss ≡ true) (sym e)
        (all-put (is_settled a.phases) (λ r. r.id == s'.id) s' a.sub_projects h after)

  -- New phases concern their own sub project alone.
  others_settled :
      (s : SubProject) (new : List Phase) (t : SubProject)
      → all (λ p. p.sub_project_id == s.id) new ≡ true
      → (is_settled a.phases t && (not (t.id == s.id) || not (is_completed_project t.status)))
        ≡ true
      → is_settled (a.phases ++ new) t ≡ true
  unfolding phases_done
  others_settled s new t owner h = elim (Bool-cases (is_completed_project t.status)) [
    | inr n ↦ ground (arith, n)
    | inl c ↦
        let (settled, apart) = &&-eq-true (is_settled a.phases t) _ h in
        let other : t.id == s.id ≡ false = ground (arith, apart, c) in
        let old : phases_done t.id a.phases ≡ true = ground (arith, settled, c) in
        let fresh : phases_done t.id new ≡ true =
          all_mono (λ p. p.sub_project_id == s.id)
            (λ p. not (p.sub_project_id == t.id) || is_completed p.status) new
            (λ p e. ground (
              arith,
              other,
              (==_iff p.sub_project_id s.id).0 e,
              (==_iff t.id s.id).1,
              (==_iff p.sub_project_id t.id).0,
            ))
            owner in
        let both =
          all-append (λ p. not (p.sub_project_id == t.id) || is_completed p.status) a.phases new in
        ground (arith, both, old, fresh)
  ]

  phases_settled :
      PhaseChange a b
      → all (is_settled a.phases) b.sub_projects ≡ true
      → all (is_settled b.phases) b.sub_projects ≡ true
  phases_settled (kept e) h = subst (λ ps. all (is_settled ps) b.sub_projects ≡ true) (sym e) h
  phases_settled (opened s new running times owner subs e) h =
      let row =
        subst (λ ss. all (λ t. not (t.id == s.id) || not (is_completed_project t.status)) ss ≡ true)
          (sym subs)
          (all-put_self (λ t. not (is_completed_project t.status)) (λ t. t.id == s.id) s
            a.sub_projects (ap not running)) in
      subst (λ ps. all (is_settled ps) b.sub_projects ≡ true) (sym e)
        (all_mono _ (is_settled (a.phases ++ new)) b.sub_projects
          (λ t k. others_settled s new t owner k)
          (all-&& (is_settled a.phases)
            (λ t. not (t.id == s.id) || not (is_completed_project t.status)) b.sub_projects h row))

  phases_timed : PhaseChange a b → all has_times a.phases ≡ true → all has_times b.phases ≡ true
  phases_timed (kept e) h = subst (λ ps. all has_times ps ≡ true) (sym e) h
  phases_timed (opened s new running times owner subs e) h =
      subst (λ ps. all has_times ps ≡ true) (sym e)
        (all-append has_times a.phases new ∙ ground (arith, h, times))

  -- No request refers to a new phase.
  linked_new :
      (new : List Phase) (rs : List RevokeRequest)
      → distinct (λ p. p.id) (a.phases ++ new) ≡ true
      → all (λ r. any (λ p. p.id == r.phase_id) a.phases) rs ≡ true
      → all (is_linked a.phases) rs ≡ true
      → all (is_linked (a.phases ++ new)) rs ≡ true
  linked_new new rs d refs h =
      all_mono (λ r. is_linked a.phases r && any (λ p. p.id == r.phase_id) a.phases)
        (is_linked (a.phases ++ new)) rs
        (λ r k.
          let (old, there) = &&-eq-true (is_linked a.phases r) _ k in
          let apart = later_rows (λ p. p.id) r.phase_id a.phases new d there in
          let fresh =
            all_mono (λ p. not (p.id == r.phase_id))
              (λ p. not (p.id == r.phase_id) || p.sub_project_id == r.sub_project_id) new
              (λ p n. ground (arith, n)) apart in
          all-append (λ p. not (p.id == r.phase_id) || p.sub_project_id == r.sub_project_id)
            a.phases new
          ∙ ground (arith, old, fresh))
        (all-&& (is_linked a.phases) (λ r. any (λ p. p.id == r.phase_id) a.phases) rs h refs)

  phases_linked :
      PhaseChange a b
      → all (is_linked a.phases) a.revoke_requests ≡ true
      → all (is_linked b.phases) a.revoke_requests ≡ true
  phases_linked (kept e) h = subst (λ ps. all (is_linked ps) a.revoke_requests ≡ true) (sym e) h
  phases_linked (opened s new running times owner subs e) h =
      subst (λ ps. all (is_linked ps) a.revoke_requests ≡ true) (sym e)
        (linked_new new a.revoke_requests
          (subst (λ ps. distinct (λ p. p.id) ps ≡ true) e keyed.phases) keyed.requested h)

  pub changed-IsSound : IsChanged a b → IsSound a → IsSound b
  changed-IsSound c sound = record {
    times = phases_timed c.phases sound.times;
    settled = phases_settled c.phases (subs_sound c.subs sound.settled);
    unique = keyed.sub_projects;
    unique_phases = keyed.phases;
    linked =
        subst (λ rs. all (is_linked b.phases) rs ≡ true) (sym c.frame.2)
          (phases_linked c.phases sound.linked);
  }

-- The sums after the step.
module _ {a b : Db} (keyed : IsKeyed a b) (balanced : IsBalanced a) where
  subs_spent : SubChange a b → All (IsSpentOf a.payments) b.sub_projects
  unfolding sum_payments
  subs_spent (kept e) = subst (λ ss. All (IsSpentOf a.payments) ss) (sym e) balanced.sub_projects
  subs_spent (added s m pending spent here still e) =
      let none_paid =
        not_referred (λ r. r.id) (λ p. p.sub_project_id) a.sub_projects s a.payments
          (subst (λ ss. distinct (λ r. r.id) ss ≡ true) e keyed.sub_projects) keyed.paid_for in
      subst (λ ss. All (IsSpentOf a.payments) ss) (sym e)
        (All-append_one (IsSpentOf a.payments) a.sub_projects s balanced.sub_projects (
          spent
          ∙ sym (sum_by_none (λ p. p.sub_project_id == s.id) (λ p. p.amount) a.payments none_paid)))
  subs_spent (written s s' here scope spent move e) =
      let same = (==_iff s.id s'.id).0 (find?-sound (λ r. r.id == s'.id) a.sub_projects here) in
      let old = All-find (IsSpentOf a.payments) _ a.sub_projects balanced.sub_projects here in
      subst (λ ss. All (IsSpentOf a.payments) ss) (sym e)
        (All-put (IsSpentOf a.payments) (IsSpentOf a.payments) (λ r. r.id == s'.id) s'
          a.sub_projects balanced.sub_projects
          (spent ∙ old ∙ ap (λ j. sum_payments j a.payments) same) (λ y n h. h))

  -- The sum of a main project does not change with the sub projects.
  main_sum :
      (m : MainProject)
      → SubChange a b
      → sum_sub_project_spent m.id b.sub_projects ≡ sum_sub_project_spent m.id a.sub_projects
  unfolding sum_sub_project_spent
  main_sum m (kept e) = ap (sum_by (λ s. s.main_project_id == m.id) (λ s. s.spent_amount)) e
  main_sum m (added s main pending spent here still e) =
      ap (sum_by (λ r. r.main_project_id == m.id) (λ r. r.spent_amount)) e
      ∙ elim (Bool-cases (s.main_project_id == m.id)) [
        | inl t ↦
            sum_by-append_one (λ r. r.main_project_id == m.id) (λ r. r.spent_amount) a.sub_projects
              s t
            ∙ ap
                (λ z.
                  sum_by (λ r. r.main_project_id == m.id) (λ r. r.spent_amount) a.sub_projects +ℤ z)
                spent
            ∙ +ℤ_zero _
        | inr n ↦
            sum_by-append_other (λ r. r.main_project_id == m.id) (λ r. r.spent_amount)
              a.sub_projects s n
      ]
  main_sum m (written s s' here scope spent move e) =
      ap (sum_by (λ r. r.main_project_id == m.id) (λ r. r.spent_amount)) e
      ∙ sum_by-put_same (λ r. r.id) (λ r. r.main_project_id == m.id) (λ r. r.spent_amount)
          a.sub_projects s s' balanced.unique here (ap (λ j. j == m.id) scope) spent

  old_mains : SubChange a b → All (IsMainSpentOf b.sub_projects) a.main_projects
  old_mains c =
      All-map (IsMainSpentOf a.sub_projects) (IsMainSpentOf b.sub_projects) a.main_projects
        balanced.main_projects (λ m h. h ∙ sym (main_sum m c))

  mains_spent :
      MainChange a b
      → All (IsMainSpentOf b.sub_projects) a.main_projects
      → All (IsMainSpentOf b.sub_projects) b.main_projects
  unfolding sum_sub_project_spent
  mains_spent (kept e) h = subst (λ ms. All (IsMainSpentOf b.sub_projects) ms) (sym e) h
  mains_spent (added m closed spent subs e) h =
      let none_owned =
        not_referred (λ r. r.id) (λ s. s.main_project_id) a.main_projects m a.sub_projects
          (subst (λ ms. distinct (λ r. r.id) ms ≡ true) e keyed.main_projects) keyed.scoped in
      subst (λ ms. All (IsMainSpentOf b.sub_projects) ms) (sym e)
        (All-append_one (IsMainSpentOf b.sub_projects) a.main_projects m h (
          spent
          ∙ sym (
              ap (sum_by (λ s. s.main_project_id == m.id) (λ s. s.spent_amount)) subs
              ∙ sum_by_none (λ s. s.main_project_id == m.id) (λ s. s.spent_amount) a.sub_projects
                  none_owned)))
  mains_spent (written m m' here spent shut e) h =
      let same = (==_iff m.id m'.id).0 (find?-sound (λ r. r.id == m'.id) a.main_projects here) in
      let old = All-find (IsMainSpentOf b.sub_projects) _ a.main_projects h here in
      subst (λ ms. All (IsMainSpentOf b.sub_projects) ms) (sym e)
        (All-put (IsMainSpentOf b.sub_projects) (IsMainSpentOf b.sub_projects) (λ r. r.id == m'.id)
          m' a.main_projects h (spent ∙ old ∙ ap (λ j. sum_sub_project_spent j b.sub_projects) same)
          (λ y n k. k))

  pub changed-IsBalanced : IsChanged a b → IsBalanced b
  changed-IsBalanced c = record {
    unique = keyed.sub_projects;
    sub_projects =
        subst (λ ps. All (IsSpentOf ps) b.sub_projects) (sym c.frame.0) (subs_spent c.subs);
    main_projects = mains_spent c.mains (old_mains c.subs);
  }
