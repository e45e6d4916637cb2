-- ===== src/Prelude/Dict.antt =====
-- Python's `dict` with text keys, in insertion order: a write to a present key keeps its place, a
-- new key goes to the end, and a deleted key leaves no entry.
use syllva.Prelude.Tests.{if◌then◌else◌, Bool-cases, Option-cases}
use syllva.Prelude.Texts.{Text, teq, teq_iff, teq_refl}
use Prim.Native.Nat.{ℕ, ◌+◌, ◌≤◌, ◌<◌}
use mathlib.Core.Path.{◌≡◌, refl}
use mathlib.Core.Option.{Option, none, some}
use mathlib.Core.Bool.{Bool, true, false, ◌||◌, ◌&&◌}
use mathlib.Core.Logic.{inl, inr}
use mathlib.Core.List.{List, [], ◌∷◌}
use native.Mathlib.Omega.{arith}

abbrev pub Dict {ℓ} : Type ℓ → Type ℓ
Dict V = List (Text × V)

module _ {ℓ} {V : Type ℓ} where
  unfoldable pub lookup : Text → Dict V → Option V
  lookup k [] = none
  lookup k ((j, v) ∷ d) = if teq j k then some v else lookup k d

  unfoldable pub insert : Text → V → Dict V → Dict V
  insert k v [] = (k, v) ∷ []
  insert k v ((j, w) ∷ d) = if teq j k then (k, v) ∷ d else (j, w) ∷ insert k v d

  unfoldable pub remove : Text → Dict V → Dict V
  remove k [] = []
  remove k ((j, w) ∷ d) = let rest = remove k d in if teq j k then rest else (j, w) ∷ rest

  pub lookup-insert :
      (k j : Text) (v : V) (d : Dict V)
      → lookup j (insert k v d) ≡ (if teq k j then some v else lookup j d)
  unfolding lookup insert
  lookup-insert k j v [] = refl
  lookup-insert k j v ((i, w) ∷ d) =
      ground (arith, teq_iff k j, teq_iff i k, teq_iff i j, lookup-insert k j v d)

  pub lookup-remove :
      (k j : Text) (d : Dict V) → lookup j (remove k d) ≡ (if teq k j then none else lookup j d)
  unfolding lookup remove
  lookup-remove k j [] = ground arith
  lookup-remove k j ((i, w) ∷ d) =
      ground (arith, teq_iff k j, teq_iff i k, teq_iff i j, lookup-remove k j d)

  pub lookup-insert_self : (k : Text) (v : V) (d : Dict V) → lookup k (insert k v d) ≡ some v
  lookup-insert_self k v d = simp (lookup-insert, teq_refl)

pub ruleset dict_laws = (lookup-insert, lookup-remove, teq_refl)

-- A Python dict holds a key once. Its loops and filters are read under this invariant.
module _ {ℓ} {V : Type ℓ} where
  abbrev pub IsUnique : Dict V → Type ℓ
  IsUnique [] = Unit
  IsUnique ((k, v) ∷ d) = (lookup k d ≡ none) × IsUnique d

  -- `{k: v for k, v in d.items() if p(v)}`, or a loop that deletes the entries that fail `p`.
  unfoldable pub keep_values : (V → Bool) → Dict V → Dict V
  keep_values p [] = []
  keep_values p ((k, v) ∷ d) = let rest = keep_values p d in if p v then (k, v) ∷ rest else rest

  abbrev pub keep_if : (V → Bool) → Option V → Option V
  keep_if p none = none
  keep_if p (some v) = if p v then some v else none

  pub lookup-keep_values-none :
      (p : V → Bool) (k : Text) (d : Dict V) → lookup k d ≡ none → lookup k (keep_values p d) ≡ none
  unfolding lookup keep_values
  lookup-keep_values-none p k [] h = refl
  lookup-keep_values-none p k ((j, v) ∷ d) h = ground (arith, lookup-keep_values-none p k d)

  pub lookup-keep_values :
      (p : V → Bool) (k : Text) (d : Dict V)
      → IsUnique d
      → lookup k (keep_values p d) ≡ keep_if p (lookup k d)
  unfolding lookup keep_values
  lookup-keep_values p k [] u = refl
  lookup-keep_values p k ((j, v) ∷ d) u =
      ground (arith, lookup-keep_values p k d, lookup-keep_values-none p k d, teq_iff j k)

  pub keep_values-IsUnique : (p : V → Bool) (d : Dict V) → IsUnique d → IsUnique (keep_values p d)
  unfolding keep_values
  keep_values-IsUnique p [] u = tt
  keep_values-IsUnique p ((j, v) ∷ d) u = elim (Bool-cases (p v)) [
    | inl e ↦ rw e (lookup-keep_values-none p j d u.0, keep_values-IsUnique p d u.1)
    | inr e ↦ rw e (keep_values-IsUnique p d u.1)
  ]

  pub insert-IsUnique : (k : Text) (v : V) (d : Dict V) → IsUnique d → IsUnique (insert k v d)
  unfolding insert lookup
  insert-IsUnique k v [] u = (refl, tt)
  insert-IsUnique k v ((j, w) ∷ d) u = elim (Bool-cases (teq j k)) [
    | inl e ↦ rw e (ground (arith, teq_iff j k), u.1)
    | inr e ↦
        rw e (
          ground (arith, lookup-insert k j v d, teq_iff j k, teq_iff k j),
          insert-IsUnique k v d u.1,
        )
  ]

  pub remove-IsUnique : (k : Text) (d : Dict V) → IsUnique d → IsUnique (remove k d)
  unfolding remove
  remove-IsUnique k [] u = tt
  remove-IsUnique k ((j, w) ∷ d) u = elim (Bool-cases (teq j k)) [
    | inl e ↦ rw e (remove-IsUnique k d u.1)
    | inr e ↦ rw e (ground (arith, lookup-remove k j d), remove-IsUnique k d u.1)
  ]

  -- The keys whose value passes a test, in order.
  unfoldable pub keys_where : (V → Bool) → Dict V → List Text
  keys_where p [] = []
  keys_where p ((k, v) ∷ d) = let rest = keys_where p d in if p v then k ∷ rest else rest

  unfoldable pub any_value : (V → Bool) → Dict V → Bool
  any_value p [] = false
  any_value p ((k, v) ∷ d) = p v || any_value p d

  pub any_value-false :
      (p : V → Bool) (d : Dict V) (k : Text) (v : V)
      → any_value p d ≡ false
      → lookup k d ≡ some v
      → p v ≡ false
  unfolding any_value lookup
  any_value-false p [] k v h e = cc
  any_value-false p ((j, w) ∷ d) k v h e = ground (arith, any_value-false p d k v)

  pub any_value-true :
      (p : V → Bool) (d : Dict V) (k : Text) (v : V)
      → lookup k d ≡ some v
      → p v ≡ true
      → any_value p d ≡ true
  unfolding any_value lookup
  any_value-true p [] k v e h = cc
  any_value-true p ((j, w) ∷ d) k v e h = ground (arith, any_value-true p d k v)

  -- An `UPDATE` of all rows, and the number of rows that pass a test.
  unfoldable pub map_values : (V → V) → Dict V → Dict V
  map_values f [] = []
  map_values f ((k, v) ∷ d) = (k, f v) ∷ map_values f d

  abbrev pub map_some : (V → V) → Option V → Option V
  map_some f none = none
  map_some f (some v) = some (f v)

  pub lookup-map_values :
      (f : V → V) (k : Text) (d : Dict V) → lookup k (map_values f d) ≡ map_some f (lookup k d)
  unfolding lookup map_values
  lookup-map_values f k [] = refl
  lookup-map_values f k ((j, v) ∷ d) = ground (arith, lookup-map_values f k d)

  unfoldable pub count_values : (V → Bool) → Dict V → ℕ
  count_values p [] = 0
  count_values p ((k, v) ∷ d) = let rest = count_values p d in if p v then rest + 1 else rest

  -- An `INSERT` into a table with this primary key; `none` is a violated constraint.
  unfoldable pub insert_new : Text → V → Dict V → Option (Dict V)
  insert_new k v d = elim (lookup k d) [ none ↦ some (insert k v d) | some w ↦ none ]

  pub count-insert :
      (p : V → Bool) (k : Text) (v : V) (d : Dict V)
      → count_values p (insert k v d) ≤ count_values p d + 1
  unfolding count_values insert
  count-insert p k v [] = ground arith
  count-insert p k v ((j, w) ∷ d) = ground (arith, count-insert p k v d)

  pub count-insert_not :
      (p : V → Bool) (k : Text) (v : V) (d : Dict V)
      → p v ≡ false
      → count_values p (insert k v d) ≤ count_values p d
  unfolding count_values insert
  count-insert_not p k v [] h = ground arith
  count-insert_not p k v ((j, w) ∷ d) h = ground (arith, count-insert_not p k v d)

  pub count-remove :
      (p : V → Bool) (k : Text) (d : Dict V) → count_values p (remove k d) ≤ count_values p d
  unfolding count_values remove
  count-remove p k [] = omega arith
  count-remove p k ((j, w) ∷ d) = ground (arith, count-remove p k d)

  pub count-remove_lt :
      (p : V → Bool) (k : Text) (v : V) (d : Dict V)
      → lookup k d ≡ some v
      → p v ≡ true
      → count_values p (remove k d) < count_values p d
  unfolding count_values remove lookup
  count-remove_lt p k v [] e h = ground arith
  count-remove_lt p k v ((j, w) ∷ d) e h =
      ground (arith, count-remove_lt p k v d, count-remove p k d)

  pub count-keep_values :
      (p q : V → Bool) (d : Dict V) → count_values p (keep_values q d) ≤ count_values p d
  unfolding count_values keep_values
  count-keep_values p q [] = omega arith
  count-keep_values p q ((j, w) ∷ d) = ground (arith, count-keep_values p q d)

  pub insert_new_lem :
      (k : Text) (v : V) (d e : Dict V)
      → insert_new k v d ≡ some e
      → (lookup k d ≡ none) × (e ≡ insert k v d)
  unfolding insert_new
  insert_new_lem k v d e h = elim (Option-cases (lookup k d)) [
    | inl n ↦ (n, ground arith)
    | inr (w, n) ↦ absurd (taken w n h)
  ]
    where
      taken : (w : V) → lookup k d ≡ some w → insert_new k v d ≡ some e → ⊥
      taken w n h = ground arith

  -- Every entry passes the test.
  unfoldable pub every_value : (V → Bool) → Dict V → Bool
  every_value p [] = true
  every_value p ((k, v) ∷ d) = p v && every_value p d

  pub every-insert :
      (p : V → Bool) (k : Text) (v : V) (d : Dict V)
      → p v ≡ true
      → every_value p d ≡ true
      → every_value p (insert k v d) ≡ true
  unfolding every_value insert
  every-insert p k v [] e h = ground arith
  every-insert p k v ((j, w) ∷ d) e h = ground (arith, every-insert p k v d)

  pub every-remove :
      (p : V → Bool) (k : Text) (d : Dict V)
      → every_value p d ≡ true
      → every_value p (remove k d) ≡ true
  unfolding every_value remove
  every-remove p k [] h = refl
  every-remove p k ((j, w) ∷ d) h = ground (arith, every-remove p k d)

  pub every-keep_values :
      (p q : V → Bool) (d : Dict V)
      → every_value p d ≡ true
      → every_value p (keep_values q d) ≡ true
  unfolding every_value keep_values
  every-keep_values p q [] h = refl
  every-keep_values p q ((j, w) ∷ d) h = ground (arith, every-keep_values p q d)

  -- A map that keeps the test.
  pub every-map_values :
      (p : V → Bool) (f : V → V) (d : Dict V)
      → ((v : V) → p v ≡ true → p (f v) ≡ true)
      → every_value p d ≡ true
      → every_value p (map_values f d) ≡ true
  unfolding every_value map_values
  every-map_values p f [] g h = refl
  every-map_values p f ((j, w) ∷ d) g h = ground (arith, every-map_values p f d g, g w)

  pub every-lookup :
      (p : V → Bool) (k : Text) (v : V) (d : Dict V)
      → every_value p d ≡ true
      → lookup k d ≡ some v
      → p v ≡ true
  unfolding every_value lookup
  every-lookup p k v [] h e = ground arith
  every-lookup p k v ((j, w) ∷ d) h e = ground (arith, every-lookup p k v d)
