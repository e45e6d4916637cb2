-- ===== src/Gate/Expiry.antt =====
-- `_expire` of src/syllva/gate/service.py, record by record and session by session.
use syllva.Prelude.{
  ℕ, ◌+◌, Text, teq, teq_iff, ◌≡◌, refl, false, ◌&&◌, Option, none, some, [], ◌∷◌, arith,
  if◌then◌else◌, Bool-cases, inl, inr,
}
use syllva.Prelude.Dict.{Dict, lookup, insert, IsUnique, any_value, lookup-insert}
use syllva.Gate.{
  NonceRecord, timed_out, finish_record, overdue, outlived, expire_records, expire_cooldown,
  cooldown_time,
}

-- What `_expire` makes of one record.
abbrev pub expire_one : ℕ → NonceRecord → Option NonceRecord
expire_one now r =
    if overdue now r
    then some (finish_record timed_out none r.deadline r)
    else if outlived now r
    then none
    else some r

abbrev pub expire_option : ℕ → Option NonceRecord → Option NonceRecord
expire_option now none = none
expire_option now (some r) = expire_one now r

lookup-expire_records-none :
    (now : ℕ) (k : Text) (d : Dict NonceRecord)
    → lookup k d ≡ none
    → lookup k (expire_records now d) ≡ none
unfolding lookup expire_records
lookup-expire_records-none now k [] h = refl
lookup-expire_records-none now k ((j, r) ∷ d) h = ground (arith, lookup-expire_records-none now k d)

pub lookup-expire_records :
    (now : ℕ) (k : Text) (d : Dict NonceRecord)
    → IsUnique d
    → lookup k (expire_records now d) ≡ expire_option now (lookup k d)
unfolding lookup expire_records
lookup-expire_records now k [] u = refl
lookup-expire_records now k ((j, r) ∷ d) u =
    ground (arith, lookup-expire_records now k d, lookup-expire_records-none now k d, teq_iff j k)

pub expire_records-IsUnique :
    (now : ℕ) (d : Dict NonceRecord) → IsUnique d → IsUnique (expire_records now d)
unfolding expire_records
expire_records-IsUnique now [] u = tt
expire_records-IsUnique now ((k, r) ∷ d) u = elim (Bool-cases (overdue now r)) [
  | inl e ↦ rw e (lookup-expire_records-none now k d u.0, expire_records-IsUnique now d u.1)
  | inr e ↦ rw e (elim (Bool-cases (outlived now r)) [
    | inl f ↦ rw f (expire_records-IsUnique now d u.1)
    | inr f ↦ rw f (lookup-expire_records-none now k d u.0, expire_records-IsUnique now d u.1)
  ])
]

-- A session with no overdue record keeps its cooldown.
pub lookup-expire_cooldown-none :
    (now : ℕ) (sid : Text) (d : Dict NonceRecord) (cd : Dict ℕ)
    → any_value (λ r. teq r.session_id sid && overdue now r) d ≡ false
    → lookup sid (expire_cooldown now d cd) ≡ lookup sid cd
unfolding any_value expire_cooldown
lookup-expire_cooldown-none now sid [] cd h = refl
lookup-expire_cooldown-none now sid ((k, r) ∷ d) cd h = elim (Bool-cases (overdue now r)) [
  | inl e ↦ rw e (
      ground (
        arith,
        lookup-expire_cooldown-none now sid d (insert r.session_id (r.deadline + cooldown_time) cd),
        lookup-insert r.session_id sid (r.deadline + cooldown_time) cd,
        e,
      ))
  | inr e ↦ rw e (lookup-expire_cooldown-none now sid d cd (ground arith))
]
