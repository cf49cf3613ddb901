-- ===== src/Payments/Cleanup.antt =====
-- `_delete_saved_contents` in `PaymentService.create_payment` (backend/app/services/payments.py): what a
-- failed call leaves in the storage.
use project_lifecycle_manage.Base.{
  ℕ, Bool, true, false, not, ◌||◌, some, List, [], ◌∷◌, ◌++◌, ◌≡◌, append-nil, refl, sym, ap,
  &&-eq-true, subst, ◌∙◌, arith, Text, text_eq, text_eq_refl, text_eq-eq, any, all, all_mono,
  filter, inl, inr, Bool-cases, Option-cases,
}
use project_lifecycle_manage.Model.{Db, Env, User}
use project_lifecycle_manage.Errors.{err, Error, Result-cases}
use project_lifecycle_manage.Payments.Service.{
  Prepared, PaymentCreate, prepare, create_prepared, create_payment, store_payment, written,
}
use project_lifecycle_manage.Payments.Uploads.{
  PaymentVoucherUpload, Backends, Storage, save_contents, delete_saved_contents,
}

text_eq-sym : (s t : Text) → text_eq s t ≡ false → text_eq t s ≡ false
unfolding text_eq
text_eq-sym s t h = elim (Bool-cases (text_eq t s)) [
  | inl e ↦ ground (arith, text_eq_refl s, subst (λ x. text_eq s x ≡ false) (text_eq-eq t s e) h)
  | inr n ↦ n
]

abbrev absent : Storage → Text → Bool
absent storage key = not (any (text_eq key) storage)

absent-head :
    (s : Text) (ss : Storage) (keys : List Text)
    → all (absent (s ∷ ss)) keys ≡ true
    → (any (text_eq s) keys ≡ false) × (all (absent ss) keys ≡ true)
unfolding any all
absent-head s ss [] h = (refl, refl)
absent-head s ss (k ∷ keys) h = ground (arith, absent-head s ss keys, text_eq-sym k s)

module _ {ℓ} {A : Type ℓ} (p : A → Bool) where
  filter-append_kept : (xs ys : List A) → all p xs ≡ true → filter p (xs ++ ys) ≡ xs ++ filter p ys
  unfolding filter all
  filter-append_kept [] ys h = refl
  filter-append_kept (x ∷ xs) ys h = ground (arith, filter-append_kept xs ys)

-- A key that the storage does not hold is in no row of it.
absent-kept :
    (key : Text) (storage : Storage)
    → absent storage key ≡ true
    → all (λ k. not (text_eq k key)) storage ≡ true
unfolding any all
absent-kept key [] h = refl
absent-kept key (s ∷ ss) h = ground (arith, text_eq-sym key s, absent-kept key ss)

-- Each key is among `keys`, or its deletion raises.
abbrev leftover : Backends → List Text → Text → Bool
leftover b keys k = any (text_eq k) keys || not (b.deletes k)

filter-leftover :
    (b : Backends) (key : Text) (keys rest : List Text)
    → b.deletes key ≡ true
    → all (leftover b (key ∷ keys)) rest ≡ true
    → all (leftover b keys) (filter (λ k. not (text_eq k key)) rest) ≡ true
unfolding filter all any
filter-leftover b key keys [] d h = refl
filter-leftover b key keys (r ∷ rest) d h = ground (arith, filter-leftover b key keys rest d)

keep-leftover :
    (b : Backends) (key : Text) (keys rest : List Text)
    → b.deletes key ≡ false
    → all (leftover b (key ∷ keys)) rest ≡ true
    → all (leftover b keys) rest ≡ true
unfolding all any
keep-leftover b key keys [] d h = refl
keep-leftover b key keys (r ∷ rest) d h = elim (Bool-cases (text_eq r key)) [
  | inl e ↦
      let same = text_eq-eq r key e in
      let stays = subst (λ k. b.deletes k ≡ false) (sym same) d in
      ground (arith, stays, keep-leftover b key keys rest d)
  | inr n ↦ ground (arith, n, keep-leftover b key keys rest d)
]

-- What is left of the storage: all that it held before, and saved contents whose deletion raises.
pub record IsCleaned (b : Backends) (storage after : Storage) : Type 0 where
  pub kept : List Text
  pub rest : after ≡ storage ++ kept
  pub stuck : all (λ k. not (b.deletes k)) kept ≡ true

-- Deleting what was saved under new keys.
delete-IsCleaned :
    (b : Backends) (storage : Storage) (keys rest : List Text)
    → all (absent storage) keys ≡ true
    → all (leftover b keys) rest ≡ true
    → IsCleaned b storage (delete_saved_contents b keys (storage ++ rest))
unfolding delete_saved_contents all any
delete-IsCleaned b storage [] rest new left = record { kept = rest; rest = refl; stuck = left }
delete-IsCleaned b storage (key ∷ keys) rest new left =
    let (first, others) = &&-eq-true (absent storage key) (all (absent storage) keys) new in
    elim (Bool-cases (b.deletes key)) [
      | inl d ↦
          let gone =
            filter-append_kept (λ k. not (text_eq k key)) storage rest
              (absent-kept key storage first) in
          rw d (
            subst (λ st. IsCleaned b storage (delete_saved_contents b keys st)) (sym gone)
              (delete-IsCleaned b storage keys (filter (λ k. not (text_eq k key)) rest) others
                (filter-leftover b key keys rest d left)))
      | inr n ↦
          rw n (delete-IsCleaned b storage keys rest others (keep-leftover b key keys rest n left))
    ]

present : (b : Backends) (keys : List Text) → all (leftover b keys) keys ≡ true
unfolding any all
present b [] = refl
present b (k ∷ keys) = ground (
  arith,
  text_eq_refl k,
  all_mono (leftover b keys) (leftover b (k ∷ keys)) keys (λ x e. ground (arith, e))
      (present b keys),
)

-- Where every deletion returns, nothing is stuck.
stuck-none :
    (b : Backends) (kept : List Text)
    → all (λ k. not (b.deletes k)) kept ≡ true
    → ((k : Text) → b.deletes k ≡ true)
    → kept ≡ []
unfolding all
stuck-none b [] h d = refl
stuck-none b (k ∷ kept) h d = absurd (ground (arith, d k, h))

-- The storage gives out keys that it does not hold yet.
abbrev pub GivesNewKeys : Backends → Storage → Type 0
GivesNewKeys b storage =
    (s p : ℕ) (name : Text) (content : List ℕ) (key : Text)
    → b.save s p name content ≡ some key
    → any (text_eq key) storage ≡ false

module _ (b : Backends) (storage : Storage) (new : GivesNewKeys b storage) where
  save_contents-absent :
      (s p : ℕ) (us : List PaymentVoucherUpload)
      → all (absent storage) (save_contents b s p us).keys ≡ true
  unfolding save_contents all
  save_contents-absent s p [] = refl
  save_contents-absent s p (u ∷ us) =
      let rest = save_contents-absent s p us in
      elim (Option-cases (b.save s p u.file_name u.content)) [
        | inl e ↦ ground (arith, e)
        | inr (key, e) ↦ ground (arith, e, rest, new s p u.file_name u.content key e)
      ]

  module _ (env : Env) (actor : User) (payload : PaymentCreate) (db : Db) where
    store_payment-failed :
        (p : Prepared) {e : Error}
        → (store_payment b env actor payload storage db p).0 ≡ err e
        → IsCleaned b storage (store_payment b env actor payload storage db p).1
    unfolding store_payment
    store_payment-failed p {e} h =
        let saved = save_contents b p.sub_project.id p.phase.id p.uploads in
        let cleaned =
          delete-IsCleaned b storage saved.keys saved.keys
            (save_contents-absent p.sub_project.id p.phase.id p.uploads) (present b saved.keys) in
        elim (Bool-cases saved.complete) [
          | inr n ↦ rw n cleaned
          | inl c ↦ elim (Bool-cases (b.commits (written env actor payload p saved.keys db))) [
            | inl t ↦ ground (arith, c, t, h)
            | inr n ↦ rw c (rw n cleaned)
          ]
        ]

    failed-IsCleaned :
        {e : Error}
        → (create_payment b env actor payload storage db).0 ≡ err e
        → IsCleaned b storage (create_payment b env actor payload storage db).1
    unfolding create_payment all
    failed-IsCleaned {e} h = elim (Result-cases (prepare b actor payload db)) [
      | inr (x, n) ↦ rw n (record { kept = []; rest = sym (append-nil storage); stuck = refl })
      | inl (p, q) ↦
          subst (λ m. IsCleaned b storage (create_prepared b env actor payload storage db m).1)
            (sym q)
            (store_payment-failed p
              (subst (λ m. (create_prepared b env actor payload storage db m).0 ≡ err e) q h))
    ]

    -- Where the storage gives out new keys, a `create_payment` that fails on its checks, on a file name
    -- that the storage refuses, or at the commit leaves in the storage all that was there before, with
    -- nothing after it but contents whose deletion raises. Where every deletion returns, the storage is
    -- as it was.
    pub create_payment_cleans_up :
        {e : Error}
        → (create_payment b env actor payload storage db).0 ≡ err e
        → IsCleaned b storage (create_payment b env actor payload storage db).1
          × (((k : Text) → b.deletes k ≡ true)
              → (create_payment b env actor payload storage db).1 ≡ storage)
    create_payment_cleans_up {e} h =
        let c = failed-IsCleaned h in
        (
          c,
          λ all_deleted.
              c.rest
              ∙ ap (λ kept. storage ++ kept) (stuck-none b c.kept c.stuck all_deleted)
              ∙ append-nil storage,
        )
