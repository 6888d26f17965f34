-- ===== src/Assoc.antt =====
-- std::map with std::string keys, as the list of its entries in key order.
use Prim.Native.Char.{code}
use Prim.Native.String.{String}
use text.Mathlib.Text.{◌==◌ as str_eq}
use text.Mathlib.TextEquality.{eq_iff}
use dstreamon.Base.{
  ◌≡◌, refl, Bool, true, false, List, [], ◌∷◌, Option, none, some, arith, ltb, ◌==◌, if◌then◌else◌,
}

-- `operator<` of std::string.
pub str_lt : String → String → Bool
str_lt String.[] String.[] = false
str_lt String.[] (String.◌∷◌ d t) = true
str_lt (String.◌∷◌ c s) String.[] = false
str_lt (String.◌∷◌ c s) (String.◌∷◌ d t) =
    let rest = str_lt s t in
    if ltb (code c) (code d) then true else if code c == code d then rest else false

abbrev pub Assoc {ℓ} : Type ℓ → Type ℓ
Assoc V = List (String × V)

module _ {ℓ} {V : Type ℓ} where
  unfoldable pub find : String → Assoc V → Option V
  find k [] = none
  find k ((j, v) ∷ m) = if str_eq j k then some v else find k m

  -- `m[k] = v`
  unfoldable pub put : String → V → Assoc V → Assoc V
  unfolding str_lt
  put k v [] = (k, v) ∷ []
  put k v ((j, w) ∷ m) =
      if str_eq j k
      then (k, v) ∷ m
      else let rest = put k v m in if str_lt k j then (k, v) ∷ (j, w) ∷ m else (j, w) ∷ rest

  -- `m.insert(make_pair(k, v))`: an entry that is there stays.
  unfoldable pub insert : String → V → Assoc V → Assoc V
  unfolding find put
  insert k v m = elim (find k m) [ none ↦ put k v m | some w ↦ m ]

  unfoldable pub erase : String → Assoc V → Assoc V
  erase k [] = []
  erase k ((j, v) ∷ m) = let rest = erase k m in if str_eq j k then rest else (j, v) ∷ rest

  pub find-put :
      (k j : String) (v : V) (m : Assoc V)
      → find j (put k v m) ≡ (if str_eq k j then some v else find j m)
  unfolding find put
  find-put k j v [] = refl
  find-put k j v ((i, w) ∷ m) = ground (arith, eq_iff k j, eq_iff i k, eq_iff i j, find-put k j v m)

  pub find-erase :
      (k j : String) (m : Assoc V) → find j (erase k m) ≡ (if str_eq k j then none else find j m)
  unfolding find erase
  find-erase k j [] = ground arith
  find-erase k j ((i, w) ∷ m) = ground (arith, eq_iff k j, eq_iff i k, eq_iff i j, find-erase k j m)

  pub find-insert :
      (k j : String) (v : V) (m : Assoc V)
      → find k m ≡ none
      → find j (insert k v m) ≡ (if str_eq k j then some v else find j m)
  unfolding insert
  find-insert k j v m e = rw (e, insert) (find-put k j v m)

  pub find_of_eq : (k j : String) (m : Assoc V) → str_eq k j ≡ true → find j m ≡ find k m
  find_of_eq k j m e = rw ((eq_iff k j).0 e)

  pub insert_old : (k : String) (v w : V) (m : Assoc V) → find k m ≡ some w → insert k v m ≡ m
  unfolding insert
  insert_old k v w m e = rw (e, insert)
