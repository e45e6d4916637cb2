-- ===== src/Gate/Canonical.antt =====
-- Canonical JSON: src/syllva/gate/canonical.py, with the part of `json.dumps` that it calls
-- (`ensure_ascii=False`, `sort_keys=True`, no white space).
use syllva.Prelude.{
  text_lt, ℕ, ◌+◌, ◌/◌, ◌%◌, Text, codes, teq, ◌≡◌, refl, Bool, true, false, Option, none, some, [],
  ◌∷◌, ◌++◌, ltb, ◌==◌, if◌then◌else◌,
}
use syllva.Prelude.Decimal.{decimal}

-- A Python value as `_normalize` tells them apart. `other` is a value of any further type. A
-- negative integer is `neg n` for -(n + 1).
mutual
  pub data Json : Type 0 where
    null : Json
    bool : Bool → Json
    int : ℕ → Json
    neg : ℕ → Json
    float : Json
    str : Text → Json
    dict : Fields → Json
    list : Items → Json
    other : Json

  pub data Items : Type 0 where
    nil : Items
    cons : Json → Items → Items

  -- The keys of a dict are texts here; a dict with another key is `other`, which is refused too.
  pub data Fields : Type 0 where
    end : Fields
    field : Text → Json → Fields → Fields

-- `out[key] = value`
unfoldable pub put_field : Text → Json → Fields → Fields
put_field k v end = field k v end
put_field k v (field j w fs) = if teq j k then field k v fs else field j w (put_field k v fs)

abbrev pub map_json : Option Json → (Json → Json) → Option Json
map_json none f = none
map_json (some v) f = some (f v)

unfoldable mutual
  unfolding put_field

  -- `none` is a `ValueError`: floats and other types are refused.
  pub normalize : (Text → Text) → Json → Option Json
  normalize nfc null = some null
  normalize nfc (bool b) = some (bool b)
  normalize nfc (int n) = some (int n)
  normalize nfc (neg n) = some (neg n)
  normalize nfc float = none
  normalize nfc (str t) = some (str (nfc t))
  normalize nfc (dict fs) = elim (normalize_fields nfc fs end) [
    | none ↦ none
    | some gs ↦ some (dict gs)
  ]
  normalize nfc (list xs) = elim (normalize_items nfc xs) [ none ↦ none | some ys ↦ some (list ys) ]
  normalize nfc other = none

  pub normalize_items : (Text → Text) → Items → Option Items
  normalize_items nfc nil = some nil
  normalize_items nfc (cons x xs) = elim (normalize nfc x) [
    | none ↦ none
    | some y ↦ elim (normalize_items nfc xs) [ none ↦ none | some ys ↦ some (cons y ys) ]
  ]

  pub normalize_fields : (Text → Text) → Fields → Fields → Option Fields
  normalize_fields nfc end out = some out
  normalize_fields nfc (field k v fs) out = elim (normalize nfc v) [
    | none ↦ none
    | some w ↦ normalize_fields nfc fs (put_field (nfc k) w out)
  ]

-- Code point order, by which `sort_keys` sorts.
insert_field : Text → Json → Fields → Fields
insert_field k v end = field k v end
insert_field k v (field j w fs) =
    if text_lt j k then field j w (insert_field k v fs) else field k v (field j w fs)

unfoldable pub sort_fields : Fields → Fields
unfolding insert_field text_lt
sort_fields end = end
sort_fields (field k v fs) = insert_field k v (sort_fields fs)

abbrev hex_digit : ℕ → ℕ
hex_digit n = if ltb n 10 then n + 48 else n + 87

-- The escapes of `json`: the quote, the backslash and the control characters below U+0020.
escape : ℕ → Text
escape c =
    if c == 34
    then 92 ∷ 34 ∷ []
    else if c == 92
    then 92 ∷ 92 ∷ []
    else if c == 10
    then 92 ∷ 110 ∷ []
    else if c == 13
    then 92 ∷ 114 ∷ []
    else if c == 9
    then 92 ∷ 116 ∷ []
    else if c == 12
    then 92 ∷ 102 ∷ []
    else if c == 8
    then 92 ∷ 98 ∷ []
    else if ltb c 32
    then 92 ∷ 117 ∷ 48 ∷ 48 ∷ hex_digit (c / 16) ∷ hex_digit (c % 16) ∷ []
    else c ∷ []

escape_all : Text → Text
escape_all [] = []
escape_all (c ∷ cs) = escape c ++ escape_all cs

unfoldable pub quote : Text → Text
unfolding escape escape_all
quote t = 34 ∷ (escape_all t ++ 34 ∷ [])

abbrev comma : Bool → Text
comma true = []
comma false = 44 ∷ []

unfoldable mutual
  unfolding quote decimal

  -- A dict is printed in the order of its fields: `sort_all` sorts them first.
  pub print : Json → Text
  print null = codes "null"
  print (bool true) = codes "true"
  print (bool false) = codes "false"
  print (int n) = decimal n
  print (neg n) = 45 ∷ decimal (n + 1)
  print float = []
  print (str t) = quote t
  print (dict fs) = 123 ∷ (print_fields true fs ++ 125 ∷ [])
  print (list xs) = 91 ∷ (print_items true xs ++ 93 ∷ [])
  print other = []

  pub print_items : Bool → Items → Text
  print_items first nil = []
  print_items first (cons x xs) = comma first ++ (print x ++ print_items false xs)

  pub print_fields : Bool → Fields → Text
  print_fields first end = []
  print_fields first (field k v fs) =
      comma first ++ (quote k ++ 58 ∷ (print v ++ print_fields false fs))

unfoldable mutual
  unfolding sort_fields

  pub sort_all : Json → Json
  sort_all null = null
  sort_all (bool b) = bool b
  sort_all (int n) = int n
  sort_all (neg n) = neg n
  sort_all float = float
  sort_all (str t) = str t
  sort_all (dict fs) = dict (sort_fields (sort_inside fs))
  sort_all (list xs) = list (sort_items xs)
  sort_all other = other

  pub sort_items : Items → Items
  sort_items nil = nil
  sort_items (cons x xs) = cons (sort_all x) (sort_items xs)

  pub sort_inside : Fields → Fields
  sort_inside end = end
  sort_inside (field k v fs) = field k (sort_all v) (sort_inside fs)

abbrev print_sorted : Option Json → Option Text
print_sorted none = none
print_sorted (some v) = some (print (sort_all v))

-- `dumps`; `none` is the `ValueError` of `_normalize`.
unfoldable pub dumps : (Text → Text) → Json → Option Text
unfolding normalize print sort_all
dumps nfc v = print_sorted (normalize nfc v)

dumps_sorts :
    dumps
      (λ t. t)
      (dict (
        field
          (codes "v")
          (int 1)
          (field (codes "a") (list (cons (neg 0) (cons (str (codes "x\"y")) nil))) end)))
    ≡ some (codes "{\"a\":[-1,\"x\\\"y\"],\"v\":1}")
unfolding dumps teq
dumps_sorts = refl
