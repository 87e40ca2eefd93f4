-- ===== src/Channels/Keys.antt =====
-- The keys that the duplicates of an upsert are found by (shared/store/postgres.go).
use Prim.Native.Char.{Char, code}
use Prim.Native.String.{◌++◌ as ◌^◌}
use text.Mathlib.TextLemmas.{
  append_cancel_left, cons-append, nil-append, head-eq_of_cons-eq, tail-eq_of_cons-eq,
}
use mathlib.Core.Bool.{true≢false}
use rogi_collector.Prelude.{◌≡◌, refl, sym, ap, ◌∙◌, String, Bool, true, false, ◌||◌, arith, nat_eq}

abbrev pub has_colon : String → Bool
has_colon String.[] = false
has_colon (String.◌∷◌ c s) = nat_eq (code c) 58 || has_colon s

colon_cons : (c : String) → (":" ^ c) ≡ String.◌∷◌ ":" c
colon_cons c = cons-append ":" "" c ∙ ap (String.◌∷◌ ":") (nil-append c)

-- A text whose first character is a colon has one.
colon_first :
    (c t q : String) (y : Char)
    → ("" ^ (":" ^ c)) ≡ (String.◌∷◌ y q ^ t)
    → has_colon (String.◌∷◌ y q) ≡ true
colon_first c t q y h =
    let is : String.◌∷◌ ":" c ≡ String.◌∷◌ y (q ^ t) =
      sym (colon_cons c) ∙ (sym (nil-append (":" ^ c)) ∙ (h ∙ cons-append y q t)) in
    rw (sym (head-eq_of_cons-eq is)) refl

-- Keys of platforms without a colon are apart.
pub seen_key-apart :
    (p q c d : String)
    → has_colon p ≡ false
    → has_colon q ≡ false
    → (p ^ (":" ^ c)) ≡ (q ^ (":" ^ d))
    → (p ≡ q) × (c ≡ d)
seen_key-apart String.[] String.[] c d a b h =
    (refl, append_cancel_left ":" c d (sym (nil-append (":" ^ c)) ∙ (h ∙ nil-append (":" ^ d))))
seen_key-apart String.[] (String.◌∷◌ y q) c d a b h =
    absurd (true≢false (sym (colon_first c (":" ^ d) q y h) ∙ b))
seen_key-apart (String.◌∷◌ x p) String.[] c d a b h =
    absurd (true≢false (sym (colon_first d (":" ^ c) p x (sym h)) ∙ a))
seen_key-apart (String.◌∷◌ x p) (String.◌∷◌ y q) c d a b h =
    let is : String.◌∷◌ x (p ^ (":" ^ c)) ≡ String.◌∷◌ y (q ^ (":" ^ d)) =
      sym (cons-append x p (":" ^ c)) ∙ (h ∙ cons-append y q (":" ^ d)) in
    let (same, rest) =
      seen_key-apart p q c d (ground arith) (ground arith) (tail-eq_of_cons-eq is) in
    (rw (head-eq_of_cons-eq is, same) refl, rest)
