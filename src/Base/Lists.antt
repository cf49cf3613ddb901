-- ===== src/Base/Lists.antt =====
-- Tables as lists of rows: lookups, selections, writes by key and stable sorting, with their laws.
use Prim.Native.Nat.{ℕ, suc}
use mathlib.Core.Path.{◌≡◌, refl, subst, sym}
use mathlib.Core.Bool.{Bool, true, false, not, ◌&&◌, ◌||◌}
use mathlib.Core.Option.{Option, none, some}
use mathlib.Core.List.{List, [], ◌∷◌, ◌++◌}
use native.Mathlib.Omega.{arith}
use project_lifecycle_manage.Base.Tests.{◌==◌, if◌then◌else◌, Bool-cases, ==_iff, &&-eq-true}
use mathlib.Core.Logic.{inl, inr}

module _ {ℓ} {A : Type ℓ} where
  abbrev pub length : List A → ℕ
  length [] = 0
  length (x ∷ xs) = suc (length xs)

  -- `next((x for x in xs if p(x)), None)`
  unfoldable pub find? : (A → Bool) → List A → Option A
  find? p [] = none
  find? p (x ∷ xs) = if p x then some x else find? p xs

  -- `{key(x): x for x in xs}.get(k)`: the last row with that key.
  unfoldable pub find_last? : (A → Bool) → List A → Option A
  find_last? p [] = none
  find_last? p (x ∷ xs) = elim (find_last? p xs) [
    | some y ↦ some y
    | none ↦ if p x then some x else none
  ]

  -- `[x for x in xs if p(x)]`
  unfoldable pub filter : (A → Bool) → List A → List A
  filter p [] = []
  filter p (x ∷ xs) = let rest = filter p xs in if p x then x ∷ rest else rest

  unfoldable pub all : (A → Bool) → List A → Bool
  all p [] = true
  all p (x ∷ xs) = p x && all p xs

  unfoldable pub any : (A → Bool) → List A → Bool
  any p [] = false
  any p (x ∷ xs) = p x || any p xs

  -- The rows that `m` selects become `x`: an UPDATE of the row with that key.
  unfoldable pub put : (A → Bool) → A → List A → List A
  put m x [] = []
  put m x (y ∷ ys) = (if m y then x else y) ∷ put m x ys

  -- How many rows pass.
  unfoldable pub count : (A → Bool) → List A → ℕ
  count p [] = 0
  count p (x ∷ xs) = let rest = count p xs in if p x then suc rest else rest

  abbrev pub All {κ} : (A → Type κ) → List A → Type κ
  All P [] = Unit
  All P (x ∷ xs) = P x × All P xs

  unfoldable pub insert_by : (A → A → Bool) → A → List A → List A
  insert_by before x [] = x ∷ []
  insert_by before x (y ∷ ys) =
      let rest = insert_by before x ys in if before x y then x ∷ y ∷ ys else y ∷ rest

  -- A stable sort: `before x y` puts `x`, which stands further left, before `y`.
  unfoldable pub sort_by : (A → A → Bool) → List A → List A
  sort_by before [] = []
  sort_by before (x ∷ xs) = insert_by before x (sort_by before xs)

module _ {ℓ} {A : Type ℓ} (p : A → Bool) where
  pub find?-sound : (xs : List A) {x : A} → find? p xs ≡ some x → p x ≡ true
  unfolding find?
  find?-sound [] h = ground arith
  find?-sound (y ∷ ys) {x} h = ground (arith, find?-sound ys {x = x})

  pub find?-all :
      (q : A → Bool) (xs : List A) {x : A} → find? p xs ≡ some x → all q xs ≡ true → q x ≡ true
  unfolding find? all
  find?-all q [] h k = ground arith
  find?-all q (y ∷ ys) {x} h k = ground (arith, find?-all q ys {x = x})

  pub find?-put :
      (xs : List A) {x : A} (x' : A)
      → find? p xs ≡ some x
      → p x' ≡ true
      → find? p (put p x' xs) ≡ some x'
  unfolding find? put
  find?-put [] x' h k = ground arith
  find?-put (y ∷ ys) {x} x' h k = ground (arith, find?-put ys {x = x} x')

  pub find?-put-any :
      (xs : List A) (x' : A) → any p xs ≡ true → p x' ≡ true → find? p (put p x' xs) ≡ some x'
  unfolding find? put any
  find?-put-any [] x' h k = ground arith
  find?-put-any (y ∷ ys) x' h k = ground (arith, find?-put-any ys x')

  pub any-eq-false : (xs : List A) → any p xs ≡ false → all (λ x. not (p x)) xs ≡ true
  unfolding any all
  any-eq-false [] h = refl
  any-eq-false (y ∷ ys) h = ground (arith, any-eq-false ys)

  pub find?-any :
      (q : A → Bool) (xs : List A) {x : A} → find? p xs ≡ some x → q x ≡ true → any q xs ≡ true
  unfolding find? any
  find?-any q [] h k = ground arith
  find?-any q (y ∷ ys) {x} h k = ground (arith, find?-any q ys {x = x})

  pub find?-none : (xs : List A) → find? p xs ≡ none → any p xs ≡ false
  unfolding find? any
  find?-none [] h = refl
  find?-none (y ∷ ys) h = ground (arith, find?-none ys)

  -- A write keeps what holds of every old row and of the new one.
  pub all-put :
      (m : A → Bool) (x' : A) (xs : List A)
      → all p xs ≡ true
      → p x' ≡ true
      → all p (put m x' xs) ≡ true
  unfolding all put
  all-put m x' [] h k = refl
  all-put m x' (y ∷ ys) h k = ground (arith, all-put m x' ys)

  -- After a write, the rows with its key are the new one.
  pub all-put_self :
      (m : A → Bool) (x' : A) (xs : List A)
      → p x' ≡ true
      → all (λ y. not (m y) || p y) (put m x' xs) ≡ true
  unfolding all put
  all-put_self m x' [] k = refl
  all-put_self m x' (y ∷ ys) k = ground (arith, all-put_self m x' ys)

  pub all-append : (xs ys : List A) → all p (xs ++ ys) ≡ all p xs && all p ys
  unfolding all
  all-append [] ys = refl
  all-append (x ∷ xs) ys = ground (arith, all-append xs ys)

  pub all-append_one :
      (xs : List A) (x : A) → all p xs ≡ true → p x ≡ true → all p (xs ++ x ∷ []) ≡ true
  unfolding all
  all-append_one [] x h k = ground arith
  all-append_one (y ∷ ys) x h k = ground (arith, all-append_one ys x)

  pub any-append : (xs ys : List A) → any p (xs ++ ys) ≡ any p xs || any p ys
  unfolding any
  any-append [] ys = refl
  any-append (x ∷ xs) ys = ground (arith, any-append xs ys)

  pub all-insert_by :
      (before : A → A → Bool) (x : A) (xs : List A)
      → all p (insert_by before x xs) ≡ p x && all p xs
  unfolding all insert_by
  all-insert_by before x [] = refl
  all-insert_by before x (y ∷ ys) = ground (arith, all-insert_by before x ys)

  pub all-sort_by : (before : A → A → Bool) (xs : List A) → all p (sort_by before xs) ≡ all p xs
  unfolding all sort_by
  all-sort_by before [] = refl
  all-sort_by before (x ∷ xs) =
      ground (arith, all-insert_by before x (sort_by before xs), all-sort_by before xs)

  pub all-filter :
      (q : A → Bool) (xs : List A) → all q (filter p xs) ≡ all (λ x. not (p x) || q x) xs
  unfolding all filter
  all-filter q [] = refl
  all-filter q (x ∷ xs) = ground (arith, all-filter q xs)

  -- `[x for x in xs if p(x)]` is empty exactly when no row passes.
  pub filter-eq-nil : (xs : List A) → filter p xs ≡ [] → all (λ x. not (p x)) xs ≡ true
  unfolding filter all
  filter-eq-nil [] h = refl
  filter-eq-nil (x ∷ xs) h = ground (arith, filter-eq-nil xs)

  -- `[x for x in xs if not p(x)]` is empty exactly when all rows pass.
  pub all-filter-not : (xs : List A) → filter (λ x. not (p x)) xs ≡ [] → all p xs ≡ true
  unfolding filter all
  all-filter-not [] h = refl
  all-filter-not (x ∷ xs) h = ground (arith, all-filter-not xs)

  pub filter-not-all : (xs : List A) → all p xs ≡ true → filter (λ x. not (p x)) xs ≡ []
  unfolding filter all
  filter-not-all [] h = refl
  filter-not-all (x ∷ xs) h = ground (arith, filter-not-all xs)

module _ {ℓ} {A : Type ℓ} where
  -- Rows that `n` selects are found as before if the write does not touch them.
  pub find?-put_ne :
      (n m : A → Bool) (x' : A) (xs : List A)
      → ((x : A) → m x ≡ true → n x ≡ false)
      → n x' ≡ false
      → find? n (put m x' xs) ≡ find? n xs
  unfolding find? put
  find?-put_ne n m x' [] d k = refl
  find?-put_ne n m x' (y ∷ ys) d k = ground (arith, d y, find?-put_ne n m x' ys d k)

  pub all_mono :
      (p q : A → Bool) (xs : List A)
      → ((x : A) → p x ≡ true → q x ≡ true)
      → all p xs ≡ true
      → all q xs ≡ true
  unfolding all
  all_mono p q [] i h = refl
  all_mono p q (x ∷ xs) i h = ground (arith, i x, all_mono p q xs i)

module _ {ℓ} {A : Type ℓ} where
  pub all-&& :
      (p q : A → Bool) (xs : List A)
      → all p xs ≡ true
      → all q xs ≡ true
      → all (λ x. p x && q x) xs ≡ true
  unfolding all
  all-&& p q [] h k = refl
  all-&& p q (x ∷ xs) h k = ground (arith, all-&& p q xs)

-- Tables with a primary key.
module _ {ℓ} {A : Type ℓ} (key : A → ℕ) where
  unfoldable pub distinct : List A → Bool
  distinct [] = true
  distinct (x ∷ xs) = all (λ y. not (key y == key x)) xs && distinct xs

  all-put_key :
      (k : ℕ) (x' : A) (xs : List A)
      → all (λ y. not (key y == k)) xs ≡ true
      → all (λ y. not (key y == k)) (put (λ r. key r == key x') x' xs) ≡ true
  unfolding all put
  all-put_key k x' [] h = refl
  all-put_key k x' (y ∷ ys) h = ground (arith, all-put_key k x' ys)

  -- A write by key keeps the keys distinct.
  pub distinct-put :
      (x' : A) (xs : List A)
      → distinct xs ≡ true
      → distinct (put (λ r. key r == key x') x' xs) ≡ true
  unfolding distinct put all
  distinct-put x' [] h = refl
  distinct-put x' (y ∷ ys) h = ground (arith, all-put_key (key y) x' ys, distinct-put x' ys)

  all-absent :
      (q : A → Bool) (k : ℕ) (xs : List A)
      → all (λ y. not (key y == k)) xs ≡ true
      → all (λ y. not (key y == k) || q y) xs ≡ true
  unfolding all
  all-absent q k [] h = refl
  all-absent q k (y ∷ ys) h = ground (arith, all-absent q k ys)

  -- What holds of the row that is found holds of every row with its key.
  pub distinct-all :
      (q : A → Bool) (k : ℕ) (xs : List A) {x : A}
      → distinct xs ≡ true
      → find? (λ r. key r == k) xs ≡ some x
      → q x ≡ true
      → all (λ y. not (key y == k) || q y) xs ≡ true
  unfolding distinct find? all
  distinct-all q k [] d h t = refl
  distinct-all q k (y ∷ ys) {x} d h t = elim (Bool-cases (key y == k)) [
    | inl e ↦
        let rest =
          subst (λ i. all (λ z. not (key z == i) || q z) ys ≡ true) ((==_iff (key y) k).0 e)
            (all-absent q (key y) ys (&&-eq-true _ _ d).0) in
        ground (arith, e, rest)
    | inr n ↦ ground (arith, n, distinct-all q k ys {x = x})
  ]

pub some-injective {ℓ} : {A : Type ℓ} {x y : A} → some x ≡ some y → x ≡ y
some-injective h = cc

module _ {ℓ κ} {A : Type ℓ} where
  -- A write, where the rows it leaves keep theirs.
  pub All-put :
      (P Q : A → Type κ) (m : A → Bool) (x' : A) (xs : List A)
      → All P xs
      → Q x'
      → ((y : A) → m y ≡ false → P y → Q y)
      → All Q (put m x' xs)
  unfolding put
  All-put P Q m x' [] h k f = tt
  All-put P Q m x' (y ∷ ys) h k f = elim (Bool-cases (m y)) [
    | inl e ↦ (subst (λ b. Q (if b then x' else y)) (sym e) k, All-put P Q m x' ys h.1 k f)
    | inr n ↦
        (subst (λ b. Q (if b then x' else y)) (sym n) (f y n h.0), All-put P Q m x' ys h.1 k f)
  ]

  pub All-map : (P Q : A → Type κ) (xs : List A) → All P xs → ((y : A) → P y → Q y) → All Q xs
  All-map P Q [] h f = tt
  All-map P Q (y ∷ ys) h f = (f y h.0, All-map P Q ys h.1 f)

  pub All-find :
      (P : A → Type κ) (m : A → Bool) (xs : List A) {x : A} → All P xs → find? m xs ≡ some x → P x
  unfolding find?
  All-find P m [] h e = ground arith
  All-find P m (y ∷ ys) {x} h e = elim (Bool-cases (m y)) [
    | inl t ↦
        subst P (some-injective (subst (λ b. (if b then some y else find? m ys) ≡ some x) t e)) h.0
    | inr n ↦
        All-find P m ys {x = x} h.1 (subst (λ b. (if b then some y else find? m ys) ≡ some x) n e)
  ]

module _ {ℓ} {A : Type ℓ} (p : A → Bool) where
  pub find?-append : (xs ys : List A) {x : A} → find? p xs ≡ some x → find? p (xs ++ ys) ≡ some x
  unfolding find?
  find?-append [] ys h = ground arith
  find?-append (y ∷ xs) ys {x} h = ground (arith, find?-append xs ys {x = x})

  pub find?-append_none :
      (xs : List A) (x : A) → find? p xs ≡ none → p x ≡ true → find? p (xs ++ x ∷ []) ≡ some x
  unfolding find?
  find?-append_none [] x h k = ground arith
  find?-append_none (y ∷ xs) x h k = ground (arith, find?-append_none xs x)

  pub any-none : (xs : List A) → any p xs ≡ false → find? p xs ≡ none
  unfolding find? any
  any-none [] h = refl
  any-none (y ∷ xs) h = ground (arith, any-none xs)

  -- Without such rows a write does nothing.
  pub put-absent : (x' : A) (xs : List A) → all (λ y. not (p y)) xs ≡ true → put p x' xs ≡ xs
  unfolding put all
  put-absent x' [] h = refl
  put-absent x' (y ∷ ys) h = ground (arith, put-absent x' ys)
