-- ===== src/Prelude/TableLaws.antt =====
-- Laws of the queries on tables.
use mathlib.Core.Path.{ap, subst, sym, ◌≡◌, refl}
use mathlib.Core.Logic.{◌⊎◌, inl, inr}
use mathlib.Core.Bool.{Bool, true, false, not, ◌&&◌, ◌||◌}
use mathlib.Core.Option.{none, some}
use mathlib.Core.List.{List, [], ◌∷◌, ◌++◌, map}
use native.Mathlib.Omega.{arith}
use rogi_collector.Prelude.Tests.{if◌then◌else◌, Bool-cases, leb}
use rogi_collector.Prelude.Tables.{find?, select, update_where, exists?, All, order_by, insert_by}
use rogi_collector.Prelude.Lists.{take, drop}
use Prim.Native.Nat.{ℕ, zero, suc, ◌≤◌}

module _ {ℓ} {A : Type ℓ} where
  -- A row that was found passes the test.
  pub find?-test : (p : A → Bool) (xs : List A) (x : A) → find? p xs ≡ some x → p x ≡ true
  unfolding find?
  find?-test p [] x h = cc
  find?-test p (y ∷ xs) x h = ground (arith, find?-test p xs x)

  pub find?-append_none :
      (p : A → Bool) (xs ys : List A) → find? p xs ≡ none → find? p (xs ++ ys) ≡ find? p ys
  unfolding find?
  find?-append_none p [] ys h = refl
  find?-append_none p (x ∷ xs) ys h = ground (arith, find?-append_none p xs ys)

  pub find?-append_some :
      (p : A → Bool) (xs ys : List A) (x : A) → find? p xs ≡ some x → find? p (xs ++ ys) ≡ some x
  unfolding find?
  find?-append_some p [] ys x h = cc
  find?-append_some p (y ∷ xs) ys x h = ground (arith, find?-append_some p xs ys x)

  -- What is found after an append was there before, or is new.
  pub find?-append_inv :
      (p : A → Bool) (xs : List A) (y x : A)
      → find? p (xs ++ y ∷ []) ≡ some x
      → (find? p xs ≡ some x) ⊎ ((find? p xs ≡ none) × (x ≡ y) × (p y ≡ true))
  unfolding find?
  find?-append_inv p [] y x h = ground arith
  find?-append_inv p (z ∷ xs) y x h = ground (arith, find?-append_inv p xs y x)

  kept :
      (p q : A → Bool) (f : A → A) (z : A)
      → (q z ≡ true → p (f z) ≡ p z)
      → p (if q z then f z else z) ≡ p z
  kept p q f z keep = elim (Bool-cases (q z)) [ inl e ↦ rw e (keep e) | inr e ↦ rw e ]

  -- An update that keeps the tested columns is found where the row was.
  pub find?-update_where_inv :
      (p q : A → Bool) (f : A → A) (xs : List A) (x : A)
      → ((y : A) → q y ≡ true → p (f y) ≡ p y)
      → find? p (update_where q f xs) ≡ some x
      → (y : A) × (find? p xs ≡ some y) × (x ≡ (if q y then f y else y))
  unfolding find? update_where
  find?-update_where_inv p q f [] x keep h = cc
  find?-update_where_inv p q f (z ∷ xs) x keep h =
      let same : p (if q z then f z else z) ≡ p z = kept p q f z (keep z) in
      elim (Bool-cases (p z)) [
        | inl e ↦ (z, ground arith, ground arith)
        | inr e ↦
            let (y, found, is) = find?-update_where_inv p q f xs x keep (ground arith) in
            (y, ground arith, is)
      ]

  pub find?-update_where :
      (p q : A → Bool) (f : A → A) (xs : List A) (y : A)
      → ((z : A) → q z ≡ true → p (f z) ≡ p z)
      → find? p xs ≡ some y
      → find? p (update_where q f xs) ≡ some (if q y then f y else y)
  unfolding find? update_where
  find?-update_where p q f [] y keep h = cc
  find?-update_where p q f (z ∷ xs) y keep h =
      ground (arith, kept p q f z (keep z), find?-update_where p q f xs y keep)

  pub select-append :
      (p : A → Bool) (xs ys : List A) → select p (xs ++ ys) ≡ select p xs ++ select p ys
  unfolding select
  select-append p [] ys = refl
  select-append p (x ∷ xs) ys = ground (arith, select-append p xs ys)

  -- An update of rows that the query neither reads before nor after.
  pub select-update_where_ne :
      (p q : A → Bool) (f : A → A) (xs : List A)
      → ((x : A) → q x ≡ true → (p x ≡ false) × (p (f x) ≡ false))
      → select p (update_where q f xs) ≡ select p xs
  unfolding select update_where
  select-update_where_ne p q f [] h = refl
  select-update_where_ne p q f (x ∷ xs) h = elim (Bool-cases (q x)) [
    | inl e ↦ let g = h x e in ground (arith, select-update_where_ne p q f xs h)
    | inr e ↦ ground (arith, select-update_where_ne p q f xs h)
  ]

  -- A deletion of rows that the query does not read.
  pub select-select_ne :
      (p q : A → Bool) (xs : List A)
      → ((x : A) → p x ≡ true → q x ≡ true)
      → select p (select q xs) ≡ select p xs
  unfolding select
  select-select_ne p q [] h = refl
  select-select_ne p q (x ∷ xs) h = elim (Bool-cases (p x)) [
    | inl e ↦ let k = h x e in ground (arith, select-select_ne p q xs h)
    | inr e ↦ ground (arith, select-select_ne p q xs h)
  ]

  pub select-none : (p : A → Bool) (xs : List A) → exists? p xs ≡ false → select p xs ≡ []
  unfolding select exists?
  select-none p [] h = refl
  select-none p (x ∷ xs) h = ground (arith, select-none p xs)

  pub exists?-weaken :
      (p q : A → Bool) (xs : List A)
      → ((x : A) → p x ≡ true → q x ≡ true)
      → exists? q xs ≡ false
      → exists? p xs ≡ false
  unfolding exists?
  exists?-weaken p q [] h e = refl
  exists?-weaken p q (x ∷ xs) h e = elim (Bool-cases (p x)) [
    | inl k ↦ let m = h x k in ground arith
    | inr k ↦ ground (arith, exists?-weaken p q xs h)
  ]

  -- What holds of no row does not hold of the row that was found.
  pub exists?-find? :
      (p q : A → Bool) (xs : List A) (x : A)
      → exists? q xs ≡ false
      → find? p xs ≡ some x
      → q x ≡ false
  unfolding exists? find?
  exists?-find? p q [] x e h = cc
  exists?-find? p q (y ∷ xs) x e h = elim (Bool-cases (p y)) [
    | inl k ↦ ground arith
    | inr k ↦ exists?-find? p q xs x (ground arith) (ground arith)
  ]

  pub select-append_true :
      (p : A → Bool) (xs : List A) (y : A)
      → p y ≡ true
      → select p (xs ++ y ∷ []) ≡ select p xs ++ y ∷ []
  unfolding select
  select-append_true p [] y h = ground arith
  select-append_true p (x ∷ xs) y h = ground (arith, select-append_true p xs y)

  pub select-append_false :
      (p : A → Bool) (xs : List A) (y : A) → p y ≡ false → select p (xs ++ y ∷ []) ≡ select p xs
  unfolding select
  select-append_false p [] y h = ground arith
  select-append_false p (x ∷ xs) y h = ground (arith, select-append_false p xs y)

  pub select-and :
      (p q : A → Bool) (xs : List A) → select (λ x. p x && q x) xs ≡ select q (select p xs)
  unfolding select
  select-and p q [] = refl
  select-and p q (x ∷ xs) = ground (arith, select-and p q xs)

  pub find?-select :
      (p keep : A → Bool) (xs : List A) (x : A)
      → find? p xs ≡ some x
      → keep x ≡ true
      → find? p (select keep xs) ≡ some x
  unfolding find? select
  find?-select p keep [] x h k = h
  find?-select p keep (y ∷ ys) x h k = elim (Bool-cases (p y)) [
    | inl found ↦
        let is : y ≡ x = ground arith in
        let kept : keep y ≡ true = subst (λ z. keep z ≡ true) (sym is) k in
        rw (kept, found) (ap some is)
    | inr other ↦ elim (Bool-cases (keep y)) [
      | inl kept ↦ rw (kept, other) (find?-select p keep ys x (ground arith) k)
      | inr left ↦ rw left (find?-select p keep ys x (ground arith) k)
    ]
  ]

  pub All-select : (p : A → Bool) (xs : List A) → All (λ x. p x ≡ true) (select p xs)
  unfolding select
  All-select p [] = tt
  All-select p (x ∷ xs) = elim (Bool-cases (p x)) [
    | inl e ↦ rw e (e, All-select p xs)
    | inr e ↦ rw e (All-select p xs)
  ]

  pub All-select_of {κ} :
      (P : A → Type κ) (p : A → Bool) (xs : List A) → All P xs → All P (select p xs)
  unfolding select
  All-select_of P p [] h = tt
  All-select_of P p (x ∷ xs) h = elim (Bool-cases (p x)) [
    | inl e ↦ rw e (h.0, All-select_of P p xs h.1)
    | inr e ↦ rw e (All-select_of P p xs h.1)
  ]

  pub All-take {κ} : (P : A → Type κ) (n : ℕ) (xs : List A) → All P xs → All P (take n xs)
  All-take P zero xs h = tt
  All-take P (suc n) [] h = tt
  All-take P (suc n) (x ∷ xs) h = (h.0, All-take P n xs h.1)

  pub All-map {κ μ} :
      {P : A → Type κ} {Q : A → Type μ} (f : (x : A) → P x → Q x) (xs : List A)
      → All P xs
      → All Q xs
  All-map f [] h = tt
  All-map f (x ∷ xs) h = (f x h.0, All-map f xs h.1)

  pub order_by-cons :
      (key : A → ℕ) (x : A) (xs : List A)
      → order_by key (x ∷ xs) ≡ insert_by key x (order_by key xs)
  unfolding order_by
  order_by-cons key x xs = refl

  pub insert_by-le :
      (key : A → ℕ) (x y : A) (ys : List A) → key x ≤ key y → insert_by key x (y ∷ ys) ≡ x ∷ y ∷ ys
  unfolding insert_by
  insert_by-le key x y ys h = ground arith

  pub find?-head : (p : A → Bool) (x : A) (xs : List A) → p x ≡ true → find? p (x ∷ xs) ≡ some x
  unfolding find?
  find?-head p x xs h = rw h

  pub find?-skip :
      (p : A → Bool) (x : A) (xs : List A) → p x ≡ false → find? p (x ∷ xs) ≡ find? p xs
  unfolding find?
  find?-skip p x xs h = rw h refl

  -- What holds of no row holds of none of those that a query keeps.
  pub exists?-select :
      (p q : A → Bool) (xs : List A) → exists? p xs ≡ false → exists? p (select q xs) ≡ false
  unfolding exists? select
  exists?-select p q [] h = refl
  exists?-select p q (x ∷ xs) h = ground (arith, exists?-select p q xs)

  pub exists?-select-not :
      (p : A → Bool) (xs : List A) → exists? p (select (λ x. not (p x)) xs) ≡ false
  unfolding exists? select
  exists?-select-not p [] = refl
  exists?-select-not p (x ∷ xs) = ground (arith, exists?-select-not p xs)

  pub exists?-append :
      (p : A → Bool) (xs ys : List A) → exists? p (xs ++ ys) ≡ (exists? p xs || exists? p ys)
  unfolding exists?
  exists?-append p [] ys = refl
  exists?-append p (x ∷ xs) ys =
      rw (exists?-append p xs ys) (or_assoc (p x) (exists? p xs) (exists? p ys))
    where
      or_assoc : (a b c : Bool) → (a || (b || c)) ≡ ((a || b) || c)
      or_assoc true b c = refl
      or_assoc false b c = refl

  -- A test that implies another one holds of no row where that finds none.
  pub find?-none-exists? :
      (p q : A → Bool) (xs : List A)
      → ((x : A) → q x ≡ true → p x ≡ true)
      → find? p xs ≡ none
      → exists? q xs ≡ false
  unfolding find? exists?
  find?-none-exists? p q [] implies h = refl
  find?-none-exists? p q (x ∷ xs) implies h = elim (Bool-cases (q x)) [
    | inl e ↦ let i = implies x e in ground arith
    | inr e ↦ ground (arith, find?-none-exists? p q xs implies)
  ]

  pub find?-update_where-none :
      (p q : A → Bool) (f : A → A) (xs : List A)
      → ((x : A) → q x ≡ true → p (f x) ≡ p x)
      → find? p xs ≡ none
      → find? p (update_where q f xs) ≡ none
  unfolding find? update_where
  find?-update_where-none p q f [] keep h = refl
  find?-update_where-none p q f (x ∷ xs) keep h =
      ground (arith, kept p q f x (keep x), find?-update_where-none p q f xs keep)

  pub update_where-snoc :
      (q : A → Bool) (f : A → A) (xs : List A) (x : A)
      → q x ≡ true
      → update_where q f (xs ++ x ∷ []) ≡ update_where q f xs ++ f x ∷ []
  unfolding update_where
  update_where-snoc q f [] x h = rw h refl
  update_where-snoc q f (y ∷ ys) x h = rw (update_where-snoc q f ys x h) refl

  pub exists?-take :
      (p : A → Bool) (n : ℕ) (xs : List A) → exists? p xs ≡ false → exists? p (take n xs) ≡ false
  unfolding exists?
  exists?-take p zero xs h = refl
  exists?-take p (suc n) [] h = refl
  exists?-take p (suc n) (x ∷ xs) h = ground (arith, exists?-take p n xs)

  pub exists?-drop :
      (p : A → Bool) (n : ℕ) (xs : List A) → exists? p xs ≡ false → exists? p (drop n xs) ≡ false
  unfolding exists?
  exists?-drop p zero xs h = h
  exists?-drop p (suc n) [] h = refl
  exists?-drop p (suc n) (x ∷ xs) h = exists?-drop p n xs (ground arith)

  pub exists?-take-drop :
      (p : A → Bool) (n : ℕ) (xs : List A)
      → exists? p xs ≡ (exists? p (take n xs) || exists? p (drop n xs))
  unfolding exists?
  exists?-take-drop p zero xs = refl
  exists?-take-drop p (suc n) [] = refl
  exists?-take-drop p (suc n) (x ∷ xs) = ground (arith, exists?-take-drop p n xs)

  -- A selection that takes what the test holds of.
  pub exists?-select_same :
      (p q : A → Bool) (xs : List A)
      → ((x : A) → p x ≡ true → q x ≡ true)
      → exists? p (select q xs) ≡ exists? p xs
  unfolding exists? select
  exists?-select_same p q [] keep = refl
  exists?-select_same p q (x ∷ xs) keep = elim (Bool-cases (p x)) [
    | inl e ↦ let k = keep x e in rw (k, e) refl
    | inr e ↦ ground (arith, exists?-select_same p q xs keep)
  ]

  pub select-same :
      (p q : A → Bool) (xs : List A) → ((x : A) → p x ≡ q x) → select p xs ≡ select q xs
  unfolding select
  select-same p q [] same = refl
  select-same p q (x ∷ xs) same = rw (same x, select-same p q xs same) refl

  pub All-order_by {κ} :
      (P : A → Type κ) (key : A → ℕ) (xs : List A) → All P xs → All P (order_by key xs)
  unfolding order_by insert_by
  All-order_by P key [] h = tt
  All-order_by P key (x ∷ xs) h = All-insert_by x (order_by key xs) h.0 (All-order_by P key xs h.1)
    where
      All-insert_by : (x : A) (ys : List A) → P x → All P ys → All P (insert_by key x ys)
      All-insert_by x [] h k = (h, tt)
      All-insert_by x (y ∷ ys) h k = elim (Bool-cases (leb (key x) (key y))) [
        | inl e ↦ rw e (h, k)
        | inr e ↦ rw e (k.0, All-insert_by x ys h k.1)
      ]

  pub All-exists? : (p : A → Bool) (xs : List A) → All (λ x. p x ≡ false) xs → exists? p xs ≡ false
  unfolding exists?
  All-exists? p [] h = refl
  All-exists? p (x ∷ xs) h = rw h.0 (All-exists? p xs h.1)

  pub exists?-map {κ} :
      {B : Type κ} (p : B → Bool) (g : A → B) (xs : List A)
      → exists? p (map g xs) ≡ exists? (λ x. p (g x)) xs
  unfolding exists?
  exists?-map p g [] = refl
  exists?-map p g (x ∷ xs) = rw (exists?-map p g xs) refl

  pub exists?-select_never :
      (p q : A → Bool) (xs : List A)
      → ((x : A) → p x ≡ true → q x ≡ false)
      → exists? p (select q xs) ≡ false
  unfolding exists? select
  exists?-select_never p q [] never = refl
  exists?-select_never p q (x ∷ xs) never = elim (Bool-cases (p x)) [
    | inl e ↦ let k = never x e in rw k (exists?-select_never p q xs never)
    | inr e ↦ ground (arith, exists?-select_never p q xs never)
  ]

  pub All-select_apart :
      (q p : A → Bool) (xs : List A)
      → exists? (λ x. q x && p x) xs ≡ false
      → All (λ x. p x ≡ false) (select q xs)
  unfolding exists? select
  All-select_apart q p [] h = tt
  All-select_apart q p (x ∷ xs) h = elim (Bool-cases (q x)) [
    | inl e ↦ rw e (ground arith, All-select_apart q p xs (ground arith))
    | inr e ↦ rw e (All-select_apart q p xs (ground arith))
  ]
