-- ===== src/Assigner/Select.antt =====
-- The choice of a worker (selectWorker of coordinator/internal/assigner.go).
use rogi_collector.Prelude.{
  ◌≡◌, refl, sym, ap, subst, ◌⊎◌, inl, inr, String, true, false, List, [], ◌∷◌, ◌++◌, arith,
  Bool-cases, All,
}
use rogi_collector.Assigner.Model.{Floats, WorkerLoad, load, select_loop, select_worker}

-- `<` of float64: a strict order (a NaN is below nothing and above nothing).
pub record IsOrder {F : Type 0} (fl : Floats F) : Type 0 where
  pub irrefl : (a : F) → fl.lt a a ≡ false
  pub trans : (a b c : F) → fl.lt a b ≡ true → fl.lt b c ≡ true → fl.lt a c ≡ true

module _ {F : Type 0} (fl : Floats F) (threshold : F) where
  -- Overloaded, or no less loaded than `best`.
  abbrev pub Worse : F → String × WorkerLoad F → Type 0
  Worse best e = (fl.ge (load fl e.1) threshold ≡ true) ⊎ (fl.lt (load fl e.1) best ≡ false)

  -- An entry below the threshold and below `bound`, than which none is less loaded.
  abbrev pub Least : F → List (String × WorkerLoad F) → String → Type 0
  Least bound ws id =
      (w : WorkerLoad F) × (before after : List (String × WorkerLoad F)) × (ws
        ≡ before ++ (id, w) ∷ after)
      × (fl.ge (load fl w) threshold ≡ false)
      × (fl.lt (load fl w) bound ≡ true)
      × All (Worse (load fl w)) ws

  -- The previous choice stands, or the result is a least entry.
  abbrev pub Chosen : String → F → List (String × WorkerLoad F) → String → Type 0
  Chosen id best ws r = (r ≡ id) × All (Worse best) ws ⊎ Least best ws r

  module _ (order : IsOrder fl) where
    not_below : (a b c : F) → fl.lt a c ≡ false → fl.lt b c ≡ true → fl.lt a b ≡ false
    not_below a b c h k = elim (Bool-cases (fl.lt a b)) [
      | inl below ↦ absurd (ground (arith, order.trans a b c below k))
      | inr above ↦ above
    ]

    not_back : (a b : F) → fl.lt b a ≡ true → fl.lt a b ≡ false
    not_back a b h = not_below a b a (order.irrefl a) h

    farther :
        (id : String) (bound : F) (e : String × WorkerLoad F) (ws : List (String × WorkerLoad F))
        (m : F)
        → ((w : WorkerLoad F) → fl.lt (load fl w) m ≡ true → Worse (load fl w) e)
        → ((w : WorkerLoad F) → fl.lt (load fl w) m ≡ true → fl.lt (load fl w) bound ≡ true)
        → Least m ws id
        → Least bound (e ∷ ws) id
    farther id bound e ws m worse low (w, before, after, is, fit, below, all) =
        (w, e ∷ before, after, ap (◌∷◌ e) is, fit, low w below, (worse w below, all))

    loop_least :
        (id : String) (best : F) (ws : List (String × WorkerLoad F))
        → Chosen id best ws (select_loop fl threshold id best ws)
    unfolding select_loop
    loop_least id best [] = inl (refl, tt)
    loop_least id best ((k, w) ∷ ws) = elim (Bool-cases (fl.ge (load fl w) threshold)) [
      | inl over ↦
          let step : select_loop fl threshold id best ((k, w) ∷ ws)
              ≡ select_loop fl threshold id best ws =
            ground arith in
          subst (Chosen id best ((k, w) ∷ ws)) (sym step) (elim (loop_least id best ws) [
            | inl (same, all) ↦ inl (same, (inl over, all))
            | inr least ↦
                inr (farther _ best (k, w) ws best (λ v below. inl over) (λ v below. below) least)
          ])
      | inr fit ↦ elim (Bool-cases (fl.lt (load fl w) best)) [
        | inr above ↦
            let step : select_loop fl threshold id best ((k, w) ∷ ws)
                ≡ select_loop fl threshold id best ws =
              ground arith in
            subst (Chosen id best ((k, w) ∷ ws)) (sym step) (elim (loop_least id best ws) [
              | inl (same, all) ↦ inl (same, (inr above, all))
              | inr least ↦ inr (
                  farther _ best (k, w) ws best
                    (λ v below. inr (not_below (load fl w) (load fl v) best above below))
                    (λ v below. below) least)
            ])
        | inl low ↦
            let step : select_loop fl threshold id best ((k, w) ∷ ws)
                ≡ select_loop fl threshold k (load fl w) ws =
              ground arith in
            subst (Chosen id best ((k, w) ∷ ws)) (sym step) (elim (loop_least k (load fl w) ws) [
              | inl (same, all) ↦ inr (
                w,
                [],
                ws,
                ap (λ (i : String). (i, w) ∷ ws) (sym same),
                fit,
                low,
                (inr (order.irrefl (load fl w)), all),
              )
              | inr least ↦ inr (
                  farther _ best (k, w) ws (load fl w)
                    (λ v below. inr (not_back (load fl w) (load fl v) below))
                    (λ v below. order.trans (load fl v) (load fl w) best below low) least)
            ])
      ]
    ]

    -- The chosen worker is one of the entries, below the threshold and not fully loaded, and no
    -- other worker below the threshold is less loaded, in whichever order the entries are visited;
    -- or none is chosen, and every worker is at the threshold or fully loaded. The comparison is a
    -- strict order.
    pub select_worker_least :
        (ws : List (String × WorkerLoad F)) → Chosen "" fl.one ws (select_worker fl threshold ws)
    unfolding select_worker
    select_worker_least ws = loop_least "" fl.one ws
