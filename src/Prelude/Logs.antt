-- ===== src/Prelude/Logs.antt =====
-- Lists that grow at their end by elements with a property: a log of what a run has added.
use mathlib.Core.Path.{◌≡◌, refl, sym}
use mathlib.Core.List.{List, [], ◌∷◌, ◌++◌, append_assoc, append-nil}
use ya_nfd.Prelude.Lists.{All}

module _ {A : Type 0} (P : A → Type 0) where
  All-append : (xs ys : List A) → All P xs → All P ys → All P (xs ++ ys)
  All-append [] ys h k = k
  All-append (x ∷ xs) ys h k = (h.0, All-append xs ys h.1 k)

  abbrev pub Extends : List A → List A → Type 0
  Extends old new = (added : List A) × (new ≡ old ++ added) × All P added

  pub Extends-refl : (xs : List A) → Extends xs xs
  Extends-refl xs = ([], sym (append-nil xs), tt)

  pub Extends-one : (xs : List A) (x : A) → P x → Extends xs (xs ++ (x ∷ []))
  Extends-one xs x h = (x ∷ [], refl, (h, tt))

  pub Extends-trans : (xs ys zs : List A) → Extends xs ys → Extends ys zs → Extends xs zs
  Extends-trans xs ys zs (a, e, h) (b, k, i) = (a ++ b, rw (k, e, append_assoc), All-append a b h i)
