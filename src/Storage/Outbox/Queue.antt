-- ===== src/Storage/Outbox/Queue.antt =====
-- The outbox as a map from message IDs to messages, and its bound.
use tarion.Base.{
  ◌≤◌, ◌≡◌, refl, sym, subst, inl, inr, true, false, Option, none, some, List, [], ◌∷◌, ◌++◌, arith,
  if◌then◌else◌, Bool-cases, found, length,
}
use tarion.Text.{Text, str_eq, str_eq_iff}
use tarion.Storage.Held.{Held, held}
use tarion.Storage.Outbox.{OutboxItem, max_outbox, replace_item, remove_item, item_of}

-- No two messages have the same ID, and there are at most 500.
abbrev pub AreApart : List OutboxItem → Type 0
AreApart [] = Unit {0}
AreApart (x ∷ xs) = (item_of xs x.id ≡ none) × AreApart xs

abbrev pub IsQueue : Held (List OutboxItem) → Type 0
IsQueue (held xs) = (length xs ≤ max_outbox) × AreApart xs
IsQueue _ = Unit {0}

-- The messages of a file by their ID; none where it cannot be read.
abbrev pub queued : Held (List OutboxItem) → Text → Option OutboxItem
queued (held xs) id = item_of xs id
queued _ id = none

pub item_of-append :
    (xs : List OutboxItem) (y : OutboxItem) (id : Text)
    → item_of xs y.id ≡ none
    → item_of (xs ++ (y ∷ [])) id ≡ (if str_eq y.id id then some y else item_of xs id)
unfolding item_of
item_of-append [] y id h = refl
item_of-append (x ∷ xs) y id h =
    ground
      (arith, item_of-append xs y id, str_eq_iff x.id id, str_eq_iff y.id id, str_eq_iff x.id y.id)

pub append-AreApart :
    (xs : List OutboxItem) (y : OutboxItem)
    → item_of xs y.id ≡ none
    → AreApart xs
    → AreApart (xs ++ (y ∷ []))
unfolding item_of
append-AreApart [] y h u = (refl, tt)
append-AreApart (x ∷ xs) y h u =
    let rest : item_of xs y.id ≡ none = ground (arith, h) in
    (
      ground (arith, h, u.0, item_of-append xs y x.id, str_eq_iff x.id y.id, str_eq_iff y.id x.id),
      append-AreApart xs y rest u.1,
    )

pub item_of-remove_item :
    (xs : List OutboxItem) (id j : Text)
    → AreApart xs
    → item_of (remove_item id xs) j ≡ (if str_eq id j then none else item_of xs j)
unfolding item_of remove_item
item_of-remove_item [] id j u = ground arith
item_of-remove_item (x ∷ xs) id j u =
    let same = str_eq_iff x.id id in
    elim (Bool-cases (str_eq x.id id)) [
      | inl e ↦ rw (e, sym ((str_eq_iff x.id id).0 e)) (ground (arith, u.0, str_eq_iff x.id j))
      | inr e ↦ rw e (
          ground
            (arith, item_of-remove_item xs id j u.1, e, str_eq_iff x.id j, str_eq_iff id j, same))
    ]

pub remove_item-AreApart :
    (xs : List OutboxItem) (id : Text) → AreApart xs → AreApart (remove_item id xs)
unfolding remove_item
remove_item-AreApart [] id u = tt
remove_item-AreApart (x ∷ xs) id u = elim (Bool-cases (str_eq x.id id)) [
  | inl e ↦ rw e u.1
  | inr e ↦
      rw e (ground (arith, item_of-remove_item xs id x.id u.1, u.0), remove_item-AreApart xs id u.1)
]

pub item_of-replace_item :
    (xs : List OutboxItem) (y : OutboxItem) (j : Text)
    → found (item_of xs y.id) ≡ true
    → AreApart xs
    → item_of (replace_item y xs) j ≡ (if str_eq y.id j then some y else item_of xs j)
unfolding item_of replace_item
item_of-replace_item [] y j h u = cc
item_of-replace_item (x ∷ xs) y j h u = elim (Bool-cases (str_eq x.id y.id)) [
  | inl e ↦ rw (e, (str_eq_iff x.id y.id).0 e) (ground arith)
  | inr e ↦ rw e (
      ground (
        arith,
        item_of-replace_item xs y j (rw e at h) u.1,
        e,
        str_eq_iff x.id j,
        str_eq_iff y.id j,
        str_eq_iff x.id y.id,
      ))
]

replace_absent :
    (xs : List OutboxItem) (y : OutboxItem) (j : Text)
    → item_of xs j ≡ none
    → str_eq j y.id ≡ false
    → item_of (replace_item y xs) j ≡ none
unfolding item_of replace_item
replace_absent [] y j h ne = refl
replace_absent (x ∷ xs) y j h ne = ground (
  arith,
  replace_absent xs y j,
  h,
  ne,
  str_eq_iff x.id y.id,
  str_eq_iff y.id j,
  str_eq_iff j y.id,
)

pub replace_item-AreApart :
    (xs : List OutboxItem) (y : OutboxItem) → AreApart xs → AreApart (replace_item y xs)
unfolding replace_item item_of
replace_item-AreApart [] y u = tt
replace_item-AreApart (x ∷ xs) y u = elim (Bool-cases (str_eq x.id y.id)) [
  | inl e ↦ rw e (subst (λ i. item_of xs i ≡ none) ((str_eq_iff x.id y.id).0 e) u.0, u.1)
  | inr e ↦ rw e (replace_absent xs y x.id u.0 e, replace_item-AreApart xs y u.1)
]

pub length-replace_item :
    (xs : List OutboxItem) (y : OutboxItem) → length (replace_item y xs) ≡ length xs
unfolding replace_item
length-replace_item [] y = refl
length-replace_item (x ∷ xs) y = ground (arith, length-replace_item xs y)

pub length-remove_item-le :
    (xs : List OutboxItem) (id : Text) → length (remove_item id xs) ≤ length xs
unfolding remove_item
length-remove_item-le [] id = omega arith
length-remove_item-le (x ∷ xs) id = ground (arith, length-remove_item-le xs id)
