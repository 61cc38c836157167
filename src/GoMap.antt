-- ===== src/GoMap.antt =====
-- Go's maps with string keys. A missing key reads as `none`; callers write out what Go's zero value is.
use vyomm.Prelude.{
  ℕ, ◌+◌, String, ◌≡◌, refl, Option, none, some, List, [], ◌∷◌, map, Mem, arith, ◌==◌, eq_iff,
  if◌then◌else◌, Bool-cases, inl, inr,
}
use mathlib.Core.List.{mem-cons_self, mem-cons_of_mem}

pub record GoMap {ℓ} (V : Type ℓ) : Type ℓ where
  pub entries : List (String × V)

module _ {ℓ} {V : Type ℓ} where
  -- The value of the entry with a key.
  unfoldable pub value_at : List (String × V) → String → Option V
  value_at [] key = none
  value_at (entry ∷ rest) key = if key == entry.0 then some entry.1 else value_at rest key

  -- The entry with a key is replaced where it stands; a new one goes to the end.
  unfoldable pub assign : List (String × V) → String → V → List (String × V)
  assign [] key value = (key, value) ∷ []
  assign (entry ∷ rest) key value =
      let kept = entry ∷ assign rest key value in
      if key == entry.0 then (entry.0, value) ∷ rest else kept

  -- `make(map[string]V)`
  unfoldable pub empty : GoMap V
  empty = record { entries = [] }

  -- `v, ok := m[k]`
  unfoldable pub get : GoMap V → String → Option V
  unfolding value_at
  get m k = value_at m.entries k

  -- `m[k] = v`
  unfoldable pub put : GoMap V → String → V → GoMap V
  unfolding assign
  put m k v = record { entries = assign m.entries k v }

  -- The values of a map, in some order; the program ranges over a map in any.
  abbrev pub values : GoMap V → List V
  values m = map (λ e. e.1) m.entries

  value_at-assign :
      (entries : List (String × V)) (key other : String) (value : V)
      → value_at (assign entries key value) other
        ≡ (if key == other then some value else value_at entries other)
  unfolding value_at assign
  value_at-assign [] key other value = ground (arith, eq_iff key other, eq_iff other key)
  value_at-assign (e ∷ rest) key other value = ground (
    arith,
    value_at-assign rest key other value,
    eq_iff other e.0,
    eq_iff key e.0,
    eq_iff key other,
  )

  pub get-put :
      (m : GoMap V) (k j : String) (v : V)
      → get (put m k v) j ≡ (if k == j then some v else get m j)
  unfolding get put
  get-put m k j v = value_at-assign m.entries k j v

  value_at-mem :
      (entries : List (String × V)) (key : String) (v : V)
      → value_at entries key ≡ some v
      → Mem v (map (λ e. e.1) entries)
  unfolding value_at
  value_at-mem [] key v h = cc
  value_at-mem (entry ∷ rest) key v h = elim (Bool-cases (key == entry.0)) [
    | inl e ↦ let same : entry.1 ≡ v = ground arith in rw same mem-cons_self
    | inr e ↦ mem-cons_of_mem entry.1 (value_at-mem rest key v (ground arith))
  ]

  -- A stored value is among the values.
  pub get-mem-values : (m : GoMap V) (k : String) (v : V) → get m k ≡ some v → Mem v (values m)
  unfolding get
  get-mem-values m k v h = value_at-mem m.entries k v h

-- A total over the values of a list of entries.
abbrev pub total {ℓ} : {V : Type ℓ} → (V → ℕ) → List V → ℕ
total weight [] = 0
total weight (v ∷ vs) = weight v + total weight vs

-- The weight of what a key holds.
abbrev pub weight_of {ℓ} : {V : Type ℓ} → (V → ℕ) → Option V → ℕ
weight_of weight none = 0
weight_of weight (some v) = weight v

module _ {ℓ} {V : Type ℓ} (weight : V → ℕ) where
  total-assign :
      (entries : List (String × V)) (key : String) (value : V)
      → total weight (map (λ e. e.1) (assign entries key value))
          + weight_of weight (value_at entries key)
        ≡ total weight (map (λ e. e.1) entries) + weight value
  unfolding assign value_at
  total-assign [] key value = omega arith
  total-assign (entry ∷ rest) key value = ground (arith, total-assign rest key value)

  -- A write adds the weight of the new value and takes away that of the old one.
  pub total-put :
      (m : GoMap V) (key : String) (value : V)
      → total weight (values (put m key value)) + weight_of weight (get m key)
        ≡ total weight (values m) + weight value
  unfolding put get
  total-put m key value = total-assign m.entries key value

pub get-empty {ℓ} : {V : Type ℓ} (k : String) → get (empty {V = V}) k ≡ none
unfolding get empty
get-empty k = refl

pub ruleset map_laws = (get-put, get-empty)
