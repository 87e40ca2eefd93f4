-- ===== src/Discovery/Triggers.antt =====
-- Manual triggers of the discovery loops (TriggerDiscoveryForPlatform of
-- discover/internal/discover.go).
use rogi_collector.Prelude.{
  ◌≡◌, refl, sym, ap, ◌∙◌, String, true, false, Option, some, List, [], ◌∷◌, ◌==◌, select, exists?,
  arith, Bool-cases, eq_iff, inl, inr, All,
}
use mathlib.Core.Bool.{false≢true}
use rogi_collector.Discovery.Emitter.{has}
use rogi_collector.Discovery.Cycle.{starts_loop, loops, triggered, first}

-- If the allowlist leaves a loop to every platform, a trigger for one of them reaches its loop.
pub triggered-loops :
    (allowlist : Option (List (String × List String))) (p : String) (platforms : List String)
    → All (λ q. starts_loop allowlist q ≡ true) platforms
    → has p platforms ≡ true
    → triggered p platforms (loops allowlist platforms) ≡ some p
unfolding triggered loops select exists?
triggered-loops allowlist p [] h found = cc
triggered-loops allowlist p (q ∷ qs) h found = rw h.0 (elim (Bool-cases (q == p)) [
  | inl same ↦ rw same (ap some ((eq_iff q p).0 same))
  | inr other ↦ rw other (triggered-loops allowlist p qs h.1 (ground arith))
])

-- The trigger at a platform's own place takes the first channel that is left.
triggered-here : (p : String) (qs ls : List String) → triggered p (p ∷ qs) ls ≡ first ls
unfolding triggered
triggered-here p qs [] = refl
triggered-here p qs (l ∷ ls) = rw ((eq_iff p p).1 refl) refl

-- If the first platform has no loop because of the allowlist and the second has one, a trigger for
-- the second does not reach it: it goes to the first of the loops after it, or to none.
pub triggered-shifted :
    (allowlist : Option (List (String × List String))) (q p : String) (platforms : List String)
    → starts_loop allowlist q ≡ false
    → starts_loop allowlist p ≡ true
    → triggered p (q ∷ p ∷ platforms) (loops allowlist (q ∷ p ∷ platforms))
      ≡ first (loops allowlist platforms)
unfolding triggered loops select
triggered-shifted allowlist q p platforms skipped started =
    rw (skipped, started)
      (elim (Bool-cases (q == p)) [
        | inl same ↦
            let is : q ≡ p = (eq_iff q p).0 same in
            absurd (false≢true (sym skipped ∙ ap (starts_loop allowlist) is ∙ started))
        | inr other ↦
            rw other (triggered-here p platforms (select (starts_loop allowlist) platforms))
      ])
