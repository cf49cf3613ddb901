-- ===== src/Payments/Reversals.antt =====
-- `PaymentService.reverse_payment` (backend/app/services/payments.py): a reversal takes a payment back,
-- and only once.
use project_lifecycle_manage.Base.{
  ℕ, ◌==◌, true, false, not, ◌&&◌, Option, none, some, [], ◌∷◌, ◌++◌, ◌≡◌, refl, ap, subst, ◌∙◌,
  arith, ◌-ℤ◌, find?-sound, find?-append, find?-append_none, Text, ==_iff, ==_refl,
}
use project_lifecycle_manage.Model.{Db, Env, User, SubProject, MainProject, Payment, is_reversal}
use project_lifecycle_manage.Errors.{
  Result, ok, err, guard->>-eq-ok, >>=-eq-ok, from_option->>=-eq-ok, ok-injective, not_found,
  no_original_payment, permission_denied, business, already_reversed, reversal_not_reversible, ◌>>◌,
}
use project_lifecycle_manage.Queries.{get_sub_project, get_main_project}
use project_lifecycle_manage.Payments.Service.{
  can_pay, clean_optional_text, get_payment, get_reversal_for_payment, get_reversible_payment,
  is_same, not_reversed, new_reversal, commit_reversal, reverse_payment, recalculate_spending,
}
use project_lifecycle_manage.Payments.Spending.{
  IsBalanced, paid-IsBalanced, paid-spent, +ℤ_neg, recalculated-sub_project,
  recalculated-main_project,
}

-- What the checks of `reverse_payment` have established.
pub record IsReversible (actor : User) (i j : ℕ) (given_remark : Option Text) (db : Db)
    (text : Text) (s : SubProject) (m : MainProject) (o : Payment) : Type 0 where
  pub allowed : can_pay actor ≡ true
  pub remark : clean_optional_text given_remark ≡ some text
  pub sub_project : get_sub_project i db ≡ some s
  pub main_project : get_main_project s.main_project_id db ≡ some m
  pub original : get_payment j db ≡ some o
  pub own : o.sub_project_id == s.id ≡ true
  pub normal : is_reversal o.payment_type ≡ false
  pub first : get_reversal_for_payment o.id db ≡ none

not_reversed-eq-ok :
    (original : Payment) (o : Option Payment) {B : Type 0} (k : Result B) {r : B}
    → (not_reversed original o >> k) ≡ ok r
    → (o ≡ none) × (k ≡ ok r)
not_reversed-eq-ok original none k h = (refl, h)
not_reversed-eq-ok original (some o) k h = ground arith

get_reversible_payment-eq-ok :
    (s : SubProject) (j : ℕ) (db : Db) {original : Payment}
    → get_reversible_payment s j db ≡ ok original
    → (get_payment j db ≡ some original)
      × (original.sub_project_id == s.id ≡ true)
      × (is_reversal original.payment_type ≡ false)
unfolding get_reversible_payment
get_reversible_payment-eq-ok s j db {original} h =
    let (o, ho, h1) = from_option->>=-eq-ok (get_payment j db) _ _ h in
    let (own, h2) =
      guard->>-eq-ok (o.sub_project_id == s.id) (not_found no_original_payment) _ h1 in
    let (n, h3) =
      guard->>-eq-ok (not (is_reversal o.payment_type)) (business (reversal_not_reversible o.id)) _
        h2 in
    let e = ok-injective h3 in
    subst
      (λ x.
        (get_payment j db ≡ some x)
        × (x.sub_project_id == s.id ≡ true)
        × (is_reversal x.payment_type ≡ false))
      e (ho, own, ground (arith, n))

module _ (env : Env) (actor : User) (i j : ℕ) (remark : Option Text) (db : Db) where
  pub reverse_payment-eq-ok :
      {r : Db × Payment}
      → reverse_payment env actor i j remark db ≡ ok r
      → (text : Text) × (s : SubProject) × (m : MainProject) × (original : Payment) × IsReversible
          actor i j remark db text s m original
        × (commit_reversal env actor s m original text db ≡ r)
  unfolding reverse_payment
  reverse_payment-eq-ok h =
      let (allowed, h1) = guard->>-eq-ok (can_pay actor) permission_denied _ h in
      let (text, ht, h2) = from_option->>=-eq-ok (clean_optional_text remark) _ _ h1 in
      let (s, hs, h3) = from_option->>=-eq-ok (get_sub_project i db) _ _ h2 in
      let (m, hm, h4) = from_option->>=-eq-ok (get_main_project s.main_project_id db) _ _ h3 in
      let (original, ho, h5) = >>=-eq-ok (get_reversible_payment s j db) _ h4 in
      let (first, h6) =
        not_reversed-eq-ok original (get_reversal_for_payment original.id db) _ h5 in
      let (found, own, n) = get_reversible_payment-eq-ok s j db ho in
      (
        text,
        s,
        m,
        original,
        record {
          allowed = allowed;
          remark = ht;
          sub_project = hs;
          main_project = hm;
          original = found;
          own = own;
          normal = n;
          first = first;
        },
        ok-injective h6,
      )

-- The first reversal is the one that is found from then on.
reversed-found :
    (env : Env) (actor : User) (s : SubProject) (m : MainProject) (original : Payment) (text : Text)
    (db : Db)
    → get_reversal_for_payment original.id db ≡ none
    → get_reversal_for_payment original.id (commit_reversal env actor s m original text db).0
      ≡ some (commit_reversal env actor s m original text db).1
unfolding get_reversal_for_payment commit_reversal recalculate_spending new_reversal
reversed-found env actor s m original text db h =
    find?-append_none (λ p. is_same p.reverses_payment_id original.id && is_reversal p.payment_type)
      db.payments _ h (ground (arith, ==_refl original.id))

-- A call that finds a reversal is refused.
reverse_payment-refused :
    (env : Env) (actor : User) (i j : ℕ) (remark : Option Text) (db : Db) {text : Text}
    {s : SubProject} {m : MainProject} {o r : Payment}
    → can_pay actor ≡ true
    → clean_optional_text remark ≡ some text
    → get_sub_project i db ≡ some s
    → get_main_project s.main_project_id db ≡ some m
    → get_payment j db ≡ some o
    → o.sub_project_id == s.id ≡ true
    → is_reversal o.payment_type ≡ false
    → get_reversal_for_payment o.id db ≡ some r
    → reverse_payment env actor i j remark db ≡ err (business (already_reversed o.id r.id))
unfolding reverse_payment get_reversible_payment
reverse_payment-refused env actor i j remark db ha ht hs hm ho own n hr =
    rw ha (rw ht (rw hs (rw hm (rw ho (rw own (rw n (rw hr refl)))))))

module _ (env : Env) (actor : User) (i j : ℕ) (remark : Option Text) (db : Db) {after : Db}
    {payment : Payment} (h : reverse_payment env actor i j remark db ≡ ok (after, payment)) where
  -- A successful `reverse_payment` keeps the invariant that stored sums are the sums of the rows.
  pub reverse_payment-IsBalanced : IsBalanced db → IsBalanced after
  unfolding commit_reversal new_reversal
  reverse_payment-IsBalanced balanced =
      let (text, s, m, original, q, e) = reverse_payment-eq-ok env actor i j remark db h in
      subst IsBalanced (ap (λ r. r.0) e) (
        paid-IsBalanced env db i s m (new_reversal env actor s original text db) _ _ balanced
          q.sub_project q.main_project refl)

  -- A successful `reverse_payment` on consistent sums takes the amount of a payment of that sub
  -- project, which is no reversal itself, off what the sub project has spent.
  pub reverse_payment_restores :
      IsBalanced db
      → (original : Payment) × (s r : SubProject) × (get_payment j db ≡ some original)
        × (is_reversal original.payment_type ≡ false)
        × (original.sub_project_id ≡ s.id)
        × (get_sub_project i db ≡ some s)
        × (get_sub_project i after ≡ some r)
        × (r.spent_amount ≡ s.spent_amount -ℤ original.amount)
  unfolding commit_reversal new_reversal
  reverse_payment_restores balanced =
      let (text, s, m, original, q, e) = reverse_payment-eq-ok env actor i j remark db h in
      let (r, found, spent, budget) =
        paid-spent env db i s m (new_reversal env actor s original text db) db.documents
          db.payment_vouchers balanced q.sub_project q.main_project refl in
      (
        original,
        s,
        r,
        q.original,
        q.normal,
        (==_iff _ _).0 q.own,
        q.sub_project,
        subst (λ d. get_sub_project i d ≡ some r) (ap (λ z. z.0) e) found,
        spent ∙ +ℤ_neg s.spent_amount original.amount,
      )

  -- After a successful `reverse_payment`, every further call for the same payment, by whoever may pay
  -- and gives a remark, is refused with the error that names the first reversal.
  pub reverse_payment_once :
      (env' : Env) (actor' : User) (remark' : Option Text) {text : Text}
      → can_pay actor' ≡ true
      → clean_optional_text remark' ≡ some text
      → reverse_payment env' actor' i j remark' after
        ≡ err (business (already_reversed j payment.id))
  unfolding commit_reversal recalculate_spending get_payment new_reversal
  reverse_payment_once env' actor' remark' {text} allowed given =
      let (text0, s, m, original, q, e) = reverse_payment-eq-ok env actor i j remark db h in
      let added = new_reversal env actor s original text0 db in
      let rows = db.payments ++ added ∷ [] in
      let (m', hm) = recalculated-main_project env db i s m q.sub_project q.main_project rows in
      let done =
        reverse_payment-refused env' actor' i j remark'
          (commit_reversal env actor s m original text0 db).0 {o = original} allowed given
          (recalculated-sub_project env db i s m q.sub_project q.main_project rows) hm
          (find?-append (λ p. p.id == j) db.payments (added ∷ []) q.original) q.own q.normal
          (reversed-found env actor s m original text0 db q.first) in
      let j_eq = (==_iff _ _).0 (find?-sound (λ p. p.id == j) db.payments q.original) in
      subst
        (λ r.
          reverse_payment env' actor' i j remark' r.0 ≡ err (business (already_reversed j r.1.id)))
        e
        (subst
          (λ k.
            reverse_payment env' actor' i j remark'
              (commit_reversal env actor s m original text0 db).0
            ≡ err (
                business
                  (already_reversed k (commit_reversal env actor s m original text0 db).1.id)))
          j_eq done)
