-- ===== src/Payments/Spending.antt =====
-- What is spent (backend/app/services/payments.py): the stored sums are the sums of the rows.
use project_lifecycle_manage.Base.{
  ℕ, ◌==◌, Bool, true, false, not, ◌||◌, some, List, [], ◌∷◌, ◌++◌, ◌≡◌, refl, sym, ap, subst, ◌∙◌,
  arith, ℤ, pos, neg, ◌+ℤ◌, ◌-ℤ◌, All, all, put, find?, distinct, distinct-put, distinct-all,
  find?-sound, All-put, All-find, find?-put, Bool-cases, ==_iff, inl, inr, eq_of_parts, +ℤ_parts,
}
use project_lifecycle_manage.Model.{
  Db, Env, SubProject, MainProject, Payment, PaymentVoucher, Document,
}
use project_lifecycle_manage.Queries.{get_sub_project, get_main_project}
use project_lifecycle_manage.Payments.Service.{
  sum_by, sum_payments, sum_sub_project_spent, with_spent, main_with_spent, recalculate_spending,
}

abbrev pub IsSpentOf : List Payment → SubProject → Type 0
IsSpentOf payments s = s.spent_amount ≡ sum_payments s.id payments

abbrev pub IsMainSpentOf : List SubProject → MainProject → Type 0
IsMainSpentOf sub_projects m = m.spent_amount ≡ sum_sub_project_spent m.id sub_projects

-- Every sub project has spent the sum of its payments, and every main project what its sub projects
-- have.
pub record IsBalanced (db : Db) : Type 0 where
  pub unique : distinct (λ s. s.id) db.sub_projects ≡ true
  pub sub_projects : All (IsSpentOf db.payments) db.sub_projects
  pub main_projects : All (IsMainSpentOf db.sub_projects) db.main_projects

==_sym_false : (a b : ℕ) → a == b ≡ false → b == a ≡ false
==_sym_false a b h = ground (arith, (==_iff b a).0, (==_iff a b).1, h)

pub +ℤ_zero : (a : ℤ) → a +ℤ pos 0 ≡ a
unfolding ◌+ℤ◌
+ℤ_zero a = ground arith

zero_+ℤ : (a : ℤ) → pos 0 +ℤ a ≡ a
unfolding ◌+ℤ◌
zero_+ℤ a = ground arith

pub +ℤ_assoc : (a b c : ℤ) → a +ℤ (b +ℤ c) ≡ (a +ℤ b) +ℤ c
+ℤ_assoc a b c =
    eq_of_parts _ _
      (omega (arith, +ℤ_parts a (b +ℤ c), +ℤ_parts b c, +ℤ_parts (a +ℤ b) c, +ℤ_parts a b))

pub +ℤ_neg : (a b : ℤ) → a +ℤ neg b ≡ a -ℤ b
unfolding ◌+ℤ◌ ◌-ℤ◌ neg
+ℤ_neg a b = ground arith

module _ {ℓ} {A : Type ℓ} (p : A → Bool) (f : A → ℤ) where
  pub sum_by-append_one :
      (xs : List A) (x : A) → p x ≡ true → sum_by p f (xs ++ x ∷ []) ≡ sum_by p f xs +ℤ f x
  unfolding sum_by
  sum_by-append_one [] x h = rw h (+ℤ_zero _ ∙ sym (zero_+ℤ _))
  sum_by-append_one (y ∷ ys) x h = elim (Bool-cases (p y)) [
    | inl e ↦ rw e (ap (λ t. f y +ℤ t) (sum_by-append_one ys x h) ∙ +ℤ_assoc _ _ _)
    | inr n ↦ rw n (sum_by-append_one ys x h)
  ]

  pub sum_by-append_other :
      (xs : List A) (x : A) → p x ≡ false → sum_by p f (xs ++ x ∷ []) ≡ sum_by p f xs
  unfolding sum_by
  sum_by-append_other [] x h = ground arith
  sum_by-append_other (y ∷ ys) x h = ground (arith, sum_by-append_other ys x h)

  -- A write among rows that do not count.
  pub sum_by-put_other :
      (m : A → Bool) (x' : A) (xs : List A)
      → p x' ≡ false
      → all (λ y. not (m y) || not (p y)) xs ≡ true
      → sum_by p f (put m x' xs) ≡ sum_by p f xs
  unfolding sum_by put all
  sum_by-put_other m x' [] k h = refl
  sum_by-put_other m x' (y ∷ ys) k h = ground (arith, sum_by-put_other m x' ys k)

-- The database with one payment more, whatever documents and vouchers come with it.
abbrev pub paid : Payment → List Document → List PaymentVoucher → Db → Db
paid p documents vouchers db = record db {
  payments = db.payments ++ p ∷ [];
  documents = documents;
  payment_vouchers = vouchers;
}

-- The rows of the projects are found where they were.
module _ (env : Env) (db : Db) (i : ℕ) (s : SubProject) (m : MainProject)
    (hs : get_sub_project i db ≡ some s) (hm : get_main_project s.main_project_id db ≡ some m) where
  sub_project_id : s.id ≡ i
  unfolding get_sub_project
  sub_project_id = (==_iff _ _).0 (find?-sound (λ r. r.id == i) db.sub_projects hs)

  main_project_id : m.id ≡ s.main_project_id
  unfolding get_main_project
  main_project_id =
      (==_iff _ _).0 (find?-sound (λ r. r.id == s.main_project_id) db.main_projects hm)

  pub recalculated-sub_project :
      (payments : List Payment)
      → get_sub_project i (recalculate_spending env s m (record db { payments = payments }))
        ≡ some (with_spent env (record db { payments = payments }) s)
  unfolding recalculate_spending get_sub_project
  recalculated-sub_project payments =
      let row = with_spent env (record db { payments = payments }) s in
      subst (λ j. find? (λ r. r.id == i) (put (λ r. r.id == j) row db.sub_projects) ≡ some row)
        (sym sub_project_id)
        (find?-put (λ r. r.id == i) db.sub_projects row hs ((==_iff _ _).1 sub_project_id))

  pub recalculated-main_project :
      (payments : List Payment)
      → (m' : MainProject) × (get_main_project s.main_project_id
            (recalculate_spending env s m (record db { payments = payments }))
          ≡ some m')
  unfolding recalculate_spending get_main_project
  recalculated-main_project payments =
      let k = s.main_project_id in
      let row =
        main_with_spent env
          (record db {
            payments = payments;
            sub_projects =
                put (λ r. r.id == s.id) (with_spent env (record db { payments = payments }) s)
                  db.sub_projects;
          })
          m in
      (
        row,
        subst (λ j. find? (λ r. r.id == k) (put (λ r. r.id == j) row db.main_projects) ≡ some row)
            (sym main_project_id)
            (find?-put (λ r. r.id == k) db.main_projects row hm ((==_iff _ _).1 main_project_id)),
      )

-- One payment of `s` is added.
module _ (env : Env) (db : Db) (i : ℕ) (s : SubProject) (m : MainProject) (p : Payment)
    (documents : List Document) (vouchers : List PaymentVoucher) (balanced : IsBalanced db)
    (hs : get_sub_project i db ≡ some s) (hm : get_main_project s.main_project_id db ≡ some m)
    (hp : p.sub_project_id ≡ s.id) where
  abbrev row : SubProject
  row = with_spent env (paid p documents vouchers db) s

  abbrev after : Db
  after = recalculate_spending env s m (paid p documents vouchers db)

  found : find? (λ r. r.id == s.id) db.sub_projects ≡ some s
  unfolding get_sub_project
  found =
      subst (λ j. find? (λ r. r.id == j) db.sub_projects ≡ some s)
        (sym (sub_project_id env db i s m hs hm)) hs

  others_keep :
      (y : SubProject) → y.id == s.id ≡ false → IsSpentOf db.payments y → IsSpentOf after.payments y
  unfolding recalculate_spending sum_payments
  others_keep y n h =
      h
      ∙ sym (
          sum_by-append_other _ _ db.payments p
            (subst (λ j. j == y.id ≡ false) (sym hp) (==_sym_false _ _ n)))

  mains_keep :
      (y : MainProject)
      → y.id == m.id ≡ false
      → IsMainSpentOf db.sub_projects y
      → IsMainSpentOf after.sub_projects y
  unfolding recalculate_spending sum_sub_project_spent
  mains_keep y n h = elim (Bool-cases (s.main_project_id == y.id)) [
    | inl e ↦ ground (
      arith,
      main_project_id env db i s m hs hm,
      (==_iff s.main_project_id y.id).0 e,
      (==_iff y.id m.id).1,
      n,
    )
    | inr d ↦
        h
        ∙ sym (
            sum_by-put_other _ _ _ _ db.sub_projects d (
              distinct-all (λ r. r.id) (λ r. not (r.main_project_id == y.id)) s.id db.sub_projects
                {x = s} balanced.unique found (ap not d)))
  ]

  pub paid-IsBalanced : IsBalanced after
  unfolding recalculate_spending
  paid-IsBalanced = record {
    unique = distinct-put (λ r. r.id) _ db.sub_projects balanced.unique;
    sub_projects =
        All-put (IsSpentOf db.payments) (IsSpentOf after.payments) _ _ db.sub_projects
          balanced.sub_projects refl others_keep;
    main_projects =
        All-put (IsMainSpentOf db.sub_projects) (IsMainSpentOf after.sub_projects) _ _
          db.main_projects balanced.main_projects refl mains_keep;
  }

  pub spent_before : s.spent_amount ≡ sum_payments s.id db.payments
  spent_before = All-find _ _ db.sub_projects balanced.sub_projects found

  -- What the sub project has spent grows by the amount.
  pub paid-spent :
      (r : SubProject) × (get_sub_project i after ≡ some r)
      × (r.spent_amount ≡ s.spent_amount +ℤ p.amount)
      × (r.budget ≡ s.budget)
  unfolding recalculate_spending get_sub_project sum_payments
  paid-spent = (
    row,
    recalculated-sub_project env db i s m hs hm (db.payments ++ p ∷ []),
    sum_by-append_one _ _ db.payments p ((==_iff _ _).1 hp)
        ∙ ap (λ t. t +ℤ p.amount) (sym spent_before),
    refl,
  )

-- The invariant looks at three tables alone.
pub IsBalanced-tables :
    (db db' : Db)
    → db'.payments ≡ db.payments
    → db'.sub_projects ≡ db.sub_projects
    → db'.main_projects ≡ db.main_projects
    → IsBalanced db
    → IsBalanced db'
IsBalanced-tables db db' same_payments same_projects same_mains balanced = record {
  unique = rw same_projects balanced.unique;
  sub_projects = rw (same_payments, same_projects) balanced.sub_projects;
  main_projects = rw (same_projects, same_mains) balanced.main_projects;
}
