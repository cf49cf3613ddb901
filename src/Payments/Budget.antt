-- ===== src/Payments/Budget.antt =====
-- `PaymentService.create_payment` (backend/app/services/payments.py): the sums it keeps, the budget it
-- respects, and what it leaves behind when it fails.
use project_lifecycle_manage.Base.{
  Bool, true, false, not, ◌&&◌, Option, some, List, ◌≡◌, refl, sym, ap, subst, ◌∙◌, arith, ℤ, pos,
  ◌+ℤ◌, leb_ℤ, Text, Bool-cases, inl, inr, ◌⊎◌, &&-eq-true,
}
use project_lifecycle_manage.Model.{
  Db, Env, User, SubProject, MainProject, Payment, Notice, is_locked_project,
}
use project_lifecycle_manage.Errors.{
  ok, guard->>-eq-ok, >>=-eq-ok, from_option->>=-eq-ok, ok-injective, Result-cases,
  permission_denied, business, project_locked, validation_failed, amount_not_positive,
}
use project_lifecycle_manage.Queries.{get_sub_project, get_main_project, send}
use project_lifecycle_manage.Payments.Service.{
  Prepared, PaymentCreate, prepare, can_pay, clean_amount, clean_optional_text, get_payment_phase,
  ensure_budget_confirmation, create_payment, store_payment, written, commit_payment, add_payment,
  given, create_prepared, new_payment, send_notifications,
}
use project_lifecycle_manage.Payments.Money.{Decimal, to_money}
use project_lifecycle_manage.Payments.Uploads.{
  Backends, clean_voucher_uploads, Storage, save_contents,
}
use project_lifecycle_manage.Payments.Spending.{IsBalanced, paid-IsBalanced, paid-spent}

-- What the checks of `create_payment` have established.
pub record IsPrepared (b : Backends) (actor : User) (payload : PaymentCreate) (db : Db)
    (p : Prepared) : Type 0 where
  pub allowed : can_pay actor ≡ true
  pub amount : clean_amount payload.amount ≡ ok p.amount
  pub uploads : clean_voucher_uploads b payload.voucher_files ≡ ok p.uploads
  pub sub_project : get_sub_project payload.sub_project_id db ≡ some p.sub_project
  pub unlocked : is_locked_project p.sub_project.status ≡ false
  pub main_project : get_main_project p.sub_project.main_project_id db ≡ some p.main_project
  pub phase : get_payment_phase p.sub_project.id db ≡ some p.phase
  pub budget :
      ensure_budget_confirmation p.sub_project p.amount payload.confirm_over_budget
        (clean_optional_text payload.over_budget_reason)
      ≡ ok p.over

pub prepare-IsPrepared :
    (b : Backends) (actor : User) (payload : PaymentCreate) (db : Db) {p : Prepared}
    → prepare b actor payload db ≡ ok p
    → IsPrepared b actor payload db p
unfolding prepare
prepare-IsPrepared b actor payload db {p} h =
    let (allowed, h1) = guard->>-eq-ok (can_pay actor) permission_denied _ h in
    let (amount, ha, h2) = >>=-eq-ok (clean_amount payload.amount) _ h1 in
    let (uploads, hu, h3) = >>=-eq-ok (clean_voucher_uploads b payload.voucher_files) _ h2 in
    let (s, hs, h4) = from_option->>=-eq-ok (get_sub_project payload.sub_project_id db) _ _ h3 in
    let (hl, h5) =
      guard->>-eq-ok (not (is_locked_project s.status)) (business (project_locked s.status)) _ h4 in
    let (m, hm, h6) = from_option->>=-eq-ok (get_main_project s.main_project_id db) _ _ h5 in
    let (phase, hf, h7) = from_option->>=-eq-ok (get_payment_phase s.id db) _ _ h6 in
    let (over, hb, h8) =
      >>=-eq-ok
        (ensure_budget_confirmation s amount payload.confirm_over_budget
          (clean_optional_text payload.over_budget_reason))
        _ h7 in
    subst (IsPrepared b actor payload db) (ok-injective h8) (record {
      allowed = allowed;
      amount = ha;
      uploads = hu;
      sub_project = hs;
      unlocked = ground (arith, hl);
      main_project = hm;
      phase = hf;
      budget = hb;
    })

module _ (b : Backends) (env : Env) (actor : User) (payload : PaymentCreate) (storage : Storage)
    (db : Db) where
  abbrev saved_keys : Prepared → List Text
  saved_keys p = (save_contents b p.sub_project.id p.phase.id p.uploads).keys

  store_payment-eq-ok :
      (p : Prepared) {r : Db × Payment}
      → (store_payment b env actor payload storage db p).0 ≡ ok r
      → commit_payment env actor payload p (saved_keys p) db ≡ r
  unfolding store_payment
  store_payment-eq-ok p {r} h =
      let keys = saved_keys p in
      elim (Bool-cases (save_contents b p.sub_project.id p.phase.id p.uploads).complete) [
        | inl e ↦ elim (Bool-cases (b.commits (written env actor payload p keys db))) [
          | inl c ↦ ok-injective (ground (arith, e, c, h))
          | inr n ↦ ground (arith, e, n, h)
        ]
        | inr n ↦ ground (arith, n, h)
      ]

  -- A successful call stored the contents and committed the rows.
  pub create_payment-eq-ok :
      {r : Db × Payment}
      → (create_payment b env actor payload storage db).0 ≡ ok r
      → (p : Prepared) × IsPrepared b actor payload db p
        × (commit_payment env actor payload p (saved_keys p) db ≡ r)
  unfolding create_payment
  create_payment-eq-ok {r} h = elim (Result-cases (prepare b actor payload db)) [
    | inr (e, n) ↦
        let k = subst (λ m. (create_prepared b env actor payload storage db m).0 ≡ ok r) n h in
        ground (arith, k)
    | inl (p, q) ↦ (
      p,
      prepare-IsPrepared b actor payload db q,
      store_payment-eq-ok p
          (subst (λ m. (create_prepared b env actor payload storage db m).0 ≡ ok r) q h),
    )
  ]

-- The notices are all that `_send_notifications` changes.
send_notifications-notices :
    (payment : Payment) (s : SubProject) (m : MainProject) (over : Bool) (db : Db)
    → (notices : List Notice) × (record db { notices = notices }
        ≡ send_notifications payment s m over db)
unfolding send_notifications send
send_notifications-notices payment s m true db = (_, refl)
send_notifications-notices payment s m false db = (_, refl)

abbrev pub OfNotices : (Db → Type 0) → Db → Type 0
OfNotices P db = (notices : List Notice) → P (record db { notices = notices })

pub send_notifications-keeps :
    (P : Db → Type 0) (payment : Payment) (s : SubProject) (m : MainProject) (over : Bool) (db : Db)
    → OfNotices P db
    → P (send_notifications payment s m over db)
send_notifications-keeps P payment s m over db h =
    let (notices, e) = send_notifications-notices payment s m over db in subst P e (h notices)

abbrev pub IsWithin : PaymentCreate → SubProject → Type 0
IsWithin payload s =
    (leb_ℤ s.spent_amount s.budget ≡ true)
    ⊎ (payload.confirm_over_budget ≡ true)
      × (given (clean_optional_text payload.over_budget_reason) ≡ true)

-- The budget test, over the sum that it makes.
budget-cases :
    (s : SubProject) (a : ℤ) (confirm : Bool) (reason : Option Text) {over : Bool}
    → ensure_budget_confirmation s a confirm reason ≡ ok over
    → (leb_ℤ (s.spent_amount +ℤ a) s.budget ≡ true) ⊎ (confirm ≡ true) × (given reason ≡ true)
unfolding ensure_budget_confirmation
budget-cases s a confirm reason h = elim (Bool-cases (leb_ℤ (s.spent_amount +ℤ a) s.budget)) [
  | inl e ↦ inl e
  | inr n ↦ inr (elim (Bool-cases (confirm && given reason)) [
    | inl t ↦ &&-eq-true _ _ t
    | inr f ↦ ground (arith, n, f, h)
  ])
]

-- `_clean_amount` lets only a positive amount pass.
clean_amount-positive : (d : Decimal) {a : ℤ} → clean_amount d ≡ ok a → leb_ℤ a (pos 0) ≡ false
unfolding clean_amount
clean_amount-positive d h =
    let (t, e) =
      guard->>-eq-ok (not (leb_ℤ (to_money d) (pos 0))) (validation_failed amount_not_positive) _
        h in
    subst (λ a. leb_ℤ a (pos 0) ≡ false) (ok-injective e) (ground (arith, t))

module _ (b : Backends) (env : Env) (actor : User) (payload : PaymentCreate) (storage : Storage)
    (db : Db) {after : Db} {payment : Payment}
    (h : (create_payment b env actor payload storage db).0 ≡ ok (after, payment))
    (balanced : IsBalanced db) where
  -- A successful `create_payment` keeps the invariant: the amount stored as spent by each sub project
  -- is the sum of its payments, and that of each main project the sum over its sub projects.
  pub create_payment-IsBalanced : IsBalanced after
  unfolding commit_payment add_payment new_payment
  create_payment-IsBalanced =
      let (p, q, e) = create_payment-eq-ok b env actor payload storage db h in
      subst IsBalanced (ap (λ r. r.0) e) (
        send_notifications-keeps IsBalanced _ _ _ p.over _ (λ notices.
          let k =
            paid-IsBalanced env db payload.sub_project_id p.sub_project p.main_project
              (new_payment env actor payload p db) _ _ balanced q.sub_project q.main_project refl in
          record {
            unique = k.unique;
            sub_projects = k.sub_projects;
            main_projects = k.main_projects;
          }))

  -- A successful `create_payment` on consistent sums adds its amount, which is positive, to what the
  -- sub project has spent, and the new total is within the budget unless the caller confirmed and gave
  -- a reason.
  pub create_payment_budget :
      (s r : SubProject) × (get_sub_project payload.sub_project_id db ≡ some s)
      × (get_sub_project payload.sub_project_id after ≡ some r)
      × (r.spent_amount ≡ s.spent_amount +ℤ payment.amount)
      × (leb_ℤ payment.amount (pos 0) ≡ false)
      × IsWithin payload r
  unfolding commit_payment add_payment new_payment get_sub_project
  create_payment_budget =
      let (p, q, e) = create_payment-eq-ok b env actor payload storage db h in
      let s = p.sub_project in
      let i = payload.sub_project_id in
      let (r, found, spent, budget) =
        paid-spent env db i s p.main_project (new_payment env actor payload p db) _ _ balanced
          q.sub_project q.main_project refl in
      let within : IsWithin payload r =
        elim (budget-cases s p.amount payload.confirm_over_budget
          (clean_optional_text payload.over_budget_reason) q.budget) [
            | inl t ↦ inl (
                subst (λ x. leb_ℤ x r.budget ≡ true) (sym spent)
                  (subst (λ x. leb_ℤ (s.spent_amount +ℤ p.amount) x ≡ true) (sym budget) t))
            | inr t ↦ inr t
          ] in
      let amount : payment.amount ≡ p.amount = ap (λ z. z.1.amount) (sym e) in
      (
        s,
        r,
        q.sub_project,
        subst (λ d. get_sub_project i d ≡ some r) (ap (λ z. z.0) e)
            (send_notifications-keeps (λ d. get_sub_project i d ≡ some r) _ _ _ p.over _
              (λ notices. found)),
        spent ∙ ap (λ a. s.spent_amount +ℤ a) (sym amount),
        subst (λ a. leb_ℤ a (pos 0) ≡ false) (sym amount)
            (clean_amount-positive payload.amount q.amount),
        within,
      )
