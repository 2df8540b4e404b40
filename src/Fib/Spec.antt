-- ===== src/Fib/Spec.antt =====
-- Longest-prefix match over an abstract table: a value for every name, some of them blank.
use ya_nfd.Prelude.{
  ℕ, zero, suc, ◌≡◌, refl, Bool, true, false, Option, none, some, List, [], ◌∷◌, length, take,
  if◌then◌else◌, arith,
}
use ya_nfd.Fib.Hops.{NextHop}

module _ {A C : Type 0} (blank : A → Bool) where
  -- The value at the longest prefix of the name where it is not blank, else the value at the root.
  unfoldable pub longest_prefix : (List C → A) → List C → A
  longest_prefix f [] = f []
  longest_prefix f (c ∷ rest) =
      let below = longest_prefix (λ p. f (c ∷ p)) rest in if blank below then f [] else below

  -- The same by a scan down from the prefix of `n` components.
  unfoldable pub scan_prefixes : (List C → A) → List C → ℕ → A
  scan_prefixes f name zero = f []
  scan_prefixes f name (suc n) =
      let below = scan_prefixes f name n in
      if blank (f (take (suc n) name)) then below else f (take (suc n) name)

  scan-cons :
      (f : List C → A) (c : C) (rest : List C) (n : ℕ)
      → scan_prefixes f (c ∷ rest) (suc n) ≡ (
          if blank (scan_prefixes (λ p. f (c ∷ p)) rest n)
          then f []
          else scan_prefixes (λ p. f (c ∷ p)) rest n)
  unfolding scan_prefixes
  scan-cons f c rest zero = refl
  scan-cons f c rest (suc n) = ground (arith, scan-cons f c rest n)

  pub longest_prefix-scan :
      (f : List C → A) (name : List C) → longest_prefix f name ≡ scan_prefixes f name (length name)
  unfolding longest_prefix scan_prefixes
  longest_prefix-scan f [] = refl
  longest_prefix-scan f (c ∷ rest) =
      ground (arith, scan-cons f c rest (length rest), longest_prefix-scan (λ p. f (c ∷ p)) rest)

abbrev pub no_hops : List NextHop → Bool
no_hops [] = true
no_hops (h ∷ hs) = false

abbrev pub no_strategy {ℓ} : {A : Type ℓ} → Option A → Bool
no_strategy none = true
no_strategy (some s) = false

pub no_hops_eq : (h : List NextHop) → no_hops h ≡ true → h ≡ []
no_hops_eq [] e = refl
no_hops_eq (h ∷ hs) e = cc

pub no_strategy_eq : {A : Type 0} (s : Option A) → no_strategy s ≡ true → s ≡ none
no_strategy_eq none e = refl
no_strategy_eq (some x) e = cc
