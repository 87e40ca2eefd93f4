-- ===== src/Channels/Laws.antt =====
-- Lemmas on updated tables and on columns whose values are distinct.
use rogi_collector.Prelude.{
  zero, suc, ℕ, ◌≡◌, refl, sym, ◌∙◌, inl, inr, Bool, true, false, List, [], ◌∷◌, ◌++◌, map,
  Bool-cases, exists?-select, exists?-take, exists?-map, take, update_where, exists?, select, All,
  arith,
}

module _ {ℓ κ} {A : Type ℓ} where
  pub map-update_where :
      {B : Type κ} (g : A → B) (q : A → Bool) (f : A → A) (xs : List A)
      → ((x : A) → g (f x) ≡ g x)
      → map g (update_where q f xs) ≡ map g xs
  unfolding update_where
  map-update_where g q f [] keep = refl
  map-update_where g q f (x ∷ xs) keep = elim (Bool-cases (q x)) [
    | inl e ↦ rw (e, keep x, map-update_where g q f xs keep) refl
    | inr e ↦ rw (e, map-update_where g q f xs keep) refl
  ]

  pub map-snoc :
      {B : Type κ} (g : A → B) (xs : List A) (y : A) → map g (xs ++ y ∷ []) ≡ map g xs ++ g y ∷ []
  map-snoc g [] y = refl
  map-snoc g (x ∷ xs) y = rw (map-snoc g xs y) refl

  pub All-update_where :
      (P : A → Type κ) (q : A → Bool) (f : A → A) (xs : List A)
      → ((x : A) → q x ≡ true → P x → P (f x))
      → All P xs
      → All P (update_where q f xs)
  unfolding update_where
  All-update_where P q f [] step h = tt
  All-update_where P q f (x ∷ xs) step h = elim (Bool-cases (q x)) [
    | inl e ↦ rw e (step x e h.0, All-update_where P q f xs step h.1)
    | inr e ↦ rw e (h.0, All-update_where P q f xs step h.1)
  ]

  -- An update to another property.
  pub All-update_where_to :
      (P Q : A → Type κ) (q : A → Bool) (f : A → A) (xs : List A)
      → ((x : A) → q x ≡ true → P x → Q (f x))
      → ((x : A) → q x ≡ false → P x → Q x)
      → All P xs
      → All Q (update_where q f xs)
  unfolding update_where
  All-update_where_to P Q q f [] step stay h = tt
  All-update_where_to P Q q f (x ∷ xs) step stay h = elim (Bool-cases (q x)) [
    | inl e ↦ rw e (step x e h.0, All-update_where_to P Q q f xs step stay h.1)
    | inr e ↦ rw e (stay x e h.0, All-update_where_to P Q q f xs step stay h.1)
  ]

  pub All-snoc : (P : A → Type κ) (xs : List A) (y : A) → All P xs → P y → All P (xs ++ y ∷ [])
  All-snoc P [] y h k = (k, tt)
  All-snoc P (x ∷ xs) y h k = (h.0, All-snoc P xs y h.1 k)

  pub All-zip {μ ν} :
      (P : A → Type κ) (Q : A → Type μ) (R : A → Type ν) (xs : List A)
      → ((x : A) → P x → Q x → R x)
      → All P xs
      → All Q xs
      → All R xs
  All-zip P Q R [] both h k = tt
  All-zip P Q R (x ∷ xs) both h k = (both x h.0 k.0, All-zip P Q R xs both h.1 k.1)

  pub All-none :
      (P : A → Type κ) (p : A → Bool) (xs : List A)
      → ((x : A) → P x → p x ≡ false)
      → All P xs
      → exists? p xs ≡ false
  unfolding exists?
  All-none P p [] fails h = refl
  All-none P p (x ∷ xs) fails h = rw (fails x h.0) (All-none P p xs fails h.1)

module _ {ℓ} {A : Type ℓ} where
  pub update_where-none :
      (q : A → Bool) (f : A → A) (xs : List A) → exists? q xs ≡ false → update_where q f xs ≡ xs
  unfolding exists? update_where
  update_where-none q f [] h = refl
  update_where-none q f (x ∷ xs) h = ground (arith, update_where-none q f xs)

  -- Two tests that agree on the rows.
  pub update_where-same_on :
      (p q : A → Bool) (f : A → A) (xs : List A)
      → All (λ x. p x ≡ q x) xs
      → update_where p f xs ≡ update_where q f xs
  unfolding update_where
  update_where-same_on p q f [] h = refl
  update_where-same_on p q f (x ∷ xs) h = rw (h.0, update_where-same_on p q f xs h.1) refl

  pub exists?-update_where :
      (p q : A → Bool) (f : A → A) (xs : List A)
      → ((x : A) → p (f x) ≡ p x)
      → exists? p (update_where q f xs) ≡ exists? p xs
  unfolding exists? update_where
  exists?-update_where p q f [] keep = refl
  exists?-update_where p q f (x ∷ xs) keep = elim (Bool-cases (q x)) [
    | inl e ↦ rw (e, keep x, exists?-update_where p q f xs keep) refl
    | inr e ↦ rw (e, exists?-update_where p q f xs keep) refl
  ]

  -- A selection that takes what the test holds of.
  pub exists?-select_kept :
      (p q : A → Bool) (xs : List A)
      → ((x : A) → p x ≡ true → q x ≡ true)
      → exists? p xs ≡ true
      → exists? p (select q xs) ≡ true
  unfolding exists? select
  exists?-select_kept p q [] keep h = h
  exists?-select_kept p q (x ∷ xs) keep h = elim (Bool-cases (p x)) [
    | inl e ↦ let k = keep x e in rw k (rw e refl)
    | inr e ↦ ground (arith, exists?-select_kept p q xs keep)
  ]

  -- No two values are the same.
  abbrev pub Distinct : (A → A → Bool) → List A → Type 0
  Distinct same [] = Unit
  Distinct same (x ∷ xs) = (exists? (same x) xs ≡ false) × Distinct same xs

  pub Distinct-snoc :
      (same : A → A → Bool) (xs : List A) (y : A)
      → Distinct same xs
      → exists? (λ x. same x y) xs ≡ false
      → Distinct same (xs ++ y ∷ [])
  unfolding exists?
  Distinct-snoc same [] y h k = (refl, tt)
  Distinct-snoc same (x ∷ xs) y h k =
      (exists?-snoc (same x) xs y h.0 (ground arith), Distinct-snoc same xs y h.1 (ground arith))
    where
      exists?-snoc :
          (p : A → Bool) (xs : List A) (y : A)
          → exists? p xs ≡ false
          → p y ≡ false
          → exists? p (xs ++ y ∷ []) ≡ false
      exists?-snoc p [] y h k = rw k refl
      exists?-snoc p (x ∷ xs) y h k = ground (arith, exists?-snoc p xs y)

  pub exists?-All : (p : A → Bool) (xs : List A) → exists? p xs ≡ false → All (λ x. p x ≡ false) xs
  unfolding exists?
  exists?-All p [] h = tt
  exists?-All p (x ∷ xs) h = (ground arith, exists?-All p xs (ground arith))

  pub Distinct-select :
      (same : A → A → Bool) (q : A → Bool) (xs : List A)
      → Distinct same xs
      → Distinct same (select q xs)
  unfolding select
  Distinct-select same q [] d = tt
  Distinct-select same q (x ∷ xs) d = elim (Bool-cases (q x)) [
    | inl e ↦ rw e (exists?-select (same x) q xs d.0, Distinct-select same q xs d.1)
    | inr e ↦ rw e (Distinct-select same q xs d.1)
  ]

  pub Distinct-take :
      (same : A → A → Bool) (n : ℕ) (xs : List A) → Distinct same xs → Distinct same (take n xs)
  Distinct-take same zero xs d = tt
  Distinct-take same (suc n) [] d = tt
  Distinct-take same (suc n) (x ∷ xs) d =
      (exists?-take (same x) n xs d.0, Distinct-take same n xs d.1)

module _ {ℓ κ} {A : Type ℓ} {B : Type κ} where
  pub Distinct-unmap :
      (same : B → B → Bool) (g : A → B) (xs : List A)
      → Distinct same (map g xs)
      → Distinct (λ a b. same (g a) (g b)) xs
  Distinct-unmap same g [] d = tt
  Distinct-unmap same g (x ∷ xs) d =
      (sym (exists?-map (same (g x)) g xs) ∙ d.0, Distinct-unmap same g xs d.1)

  pub Distinct-map :
      (same : B → B → Bool) (g : A → B) (xs : List A)
      → Distinct (λ a b. same (g a) (g b)) xs
      → Distinct same (map g xs)
  Distinct-map same g [] d = tt
  Distinct-map same g (x ∷ xs) d = (exists?-map (same (g x)) g xs ∙ d.0, Distinct-map same g xs d.1)
