-- ===== src/Tlv/Subelements.antt =====
-- ndn/tlv/block.go: the operations on a block's subelements, which read their types alone.
pub mod Erasure
mod Tests
use ya_nfd.Prelude.{
  ℕ, zero, suc, ◌+◌, Bool, true, false, Option, none, some, List, [], ◌∷◌, ◌++◌, length, ltb, ◌==◌,
  if◌then◌else◌,
}

-- A block's type, its subelements and its wire, which every change empties.
pub record Parent (E : Type 0) : Type 0 where
  pub tlv_type : ℕ
  pub subelements : List E
  pub wire : List ℕ

module _ {E : Type 0} where
  unfoldable pub set_type : Parent E → ℕ → Parent E
  set_type b t = if b.tlv_type == t then b else record b { tlv_type = t; wire = [] }

  unfoldable pub append : Parent E → E → Parent E
  append b e = record b { subelements = b.subelements ++ (e ∷ []); wire = [] }

  unfoldable pub clear : Parent E → Parent E
  clear b = if ltb 0 (length b.subelements) then record b { subelements = []; wire = [] } else b

  module _ (type_of : E → ℕ) where
    -- The index of the first subelement of a type.
    unfoldable pub index_of : ℕ → List E → Option ℕ
    index_of t [] = none
    index_of t (e ∷ es) =
        let rest : Option ℕ = elim (index_of t es) [ none ↦ none | some i ↦ some (suc i) ] in
        if type_of e == t then some 0 else rest

    unfoldable pub remove_at : ℕ → List E → List E
    remove_at i [] = []
    remove_at zero (e ∷ es) = es
    remove_at (suc i) (e ∷ es) = e ∷ remove_at i es

    -- `Erase`: whether a subelement went, and the block then.
    unfoldable pub erase : Parent E → ℕ → Bool × Parent E
    erase b t = elim (index_of t b.subelements) [
      | none ↦ (false, b)
      | some i ↦ (true, record b { subelements = remove_at i b.subelements; wire = [] })
    ]

    -- `EraseAll` with fuel for its loop.
    unfoldable pub erase_all : ℕ → Parent E → ℕ → ℕ × Parent E
    erase_all zero b t = (0, b)
    erase_all (suc fuel) b t =
        let (again, b') = erase b t in
        let (n, rest) = erase_all fuel b' t in if again then (suc n, rest) else (0, b')

    unfoldable pub find : Parent E → ℕ → Option E
    find b t = find_in b.subelements
      where
        find_in : List E → Option E
        find_in [] = none
        find_in (e ∷ es) = let rest = find_in es in if type_of e == t then some e else rest
