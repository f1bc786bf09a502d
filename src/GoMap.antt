-- ===== src/GoMap.antt =====
-- Go maps with string keys. A map is the list of its entries in the order in which a `range` runs
-- over them, which Go leaves open: a theorem about every such list holds for every order.
use marketengine.Prelude.{
  String, ◌≡◌, refl, Bool, true, false, Option, none, some, List, [], ◌∷◌, arith, ◌==◌, eq_iff,
  if◌then◌else◌,
}

abbrev pub Map {ℓ} : Type ℓ → Type ℓ
Map V = List (String × V)

module _ {ℓ} {V : Type ℓ} where
  -- v, ok := m[key]
  unfoldable pub lookup : String → Map V → Option V
  lookup key [] = none
  lookup key ((at, v) ∷ rest) = if at == key then some v else lookup key rest

  -- m[key] = x
  unfoldable pub insert : String → V → Map V → Map V
  insert key x [] = (key, x) ∷ []
  insert key x ((at, v) ∷ rest) = if at == key then (key, x) ∷ rest else (at, v) ∷ insert key x rest

  -- A map has each key once.
  abbrev pub IsMap : Map V → Type ℓ
  IsMap [] = Unit
  IsMap ((k, v) ∷ m) = (lookup k m ≡ none) × IsMap m

  abbrev pub or_else : Option V → Option V → Option V
  or_else (some v) o = some v
  or_else none o = o

  abbrev pub has : Option V → Bool
  has (some v) = true
  has none = false

  pub lookup-insert :
      (key other : String) (x : V) (entries : Map V)
      → lookup other (insert key x entries)
        ≡ (if key == other then some x else lookup other entries)
  unfolding lookup insert
  lookup-insert key other x [] = refl
  lookup-insert key other x ((at, v) ∷ rest) =
      let below = lookup-insert key other x rest in
      ground (arith, below, eq_iff key other, eq_iff at key, eq_iff at other)

  pub IsMap-insert : (k : String) (v : V) (m : Map V) → IsMap m → IsMap (insert k v m)
  unfolding lookup insert
  IsMap-insert k v [] h = (refl, tt)
  IsMap-insert k v ((j, w) ∷ m) (h, hs) =
      ground (arith, eq_iff j k, eq_iff k j, lookup-insert k j v m, IsMap-insert k v m hs)

module _ {ℓ κ} {V : Type ℓ} {U : Type κ} (g : String → V → Option U) where
  abbrev put : String → Option U → Map U → Map U
  put k none out = out
  put k (some u) out = insert k u out

  -- for k, v := range m { out[k] = u }, where `g k v` is `none` the round writes nothing
  unfoldable pub collect : Map V → Map U → Map U
  collect [] out = out
  collect ((k, v) ∷ m) out = collect m (put k (g k v) out)

  abbrev pub found : String → Option V → Option U
  found k none = none
  found k (some v) = g k v

  lookup-put :
      (k j : String) (o : Option U) (out : Map U)
      → lookup j (put k o out) ≡ (if k == j then or_else o (lookup j out) else lookup j out)
  lookup-put k j none out = ground arith
  lookup-put k j (some u) out = ground (arith, lookup-insert k j u out)

  IsMap-put : (k : String) (o : Option U) (out : Map U) → IsMap out → IsMap (put k o out)
  IsMap-put k none out h = h
  IsMap-put k (some u) out h = IsMap-insert k u out h

  pub lookup-collect :
      (j : String) (m : Map V) (out : Map U)
      → IsMap m
      → lookup j (collect m out) ≡ or_else (found j (lookup j m)) (lookup j out)
  unfolding collect lookup
  lookup-collect j [] out h = refl
  lookup-collect j ((k, v) ∷ m) out (h, hs) =
      ground
        (arith, eq_iff k j, lookup-put k j (g k v) out, lookup-collect j m (put k (g k v) out) hs)

  pub IsMap-collect : (m : Map V) (out : Map U) → IsMap out → IsMap (collect m out)
  unfolding collect
  IsMap-collect [] out h = h
  IsMap-collect ((k, v) ∷ m) out h = IsMap-collect m (put k (g k v) out) (IsMap-put k (g k v) out h)

  -- The loop into an empty map.
  pub lookup-collect_nil :
      (j : String) (m : Map V) → IsMap m → lookup j (collect m []) ≡ found j (lookup j m)
  unfolding lookup
  lookup-collect_nil j m h = ground (arith, lookup-collect j m [] h)
