-- ===== src/Storage/Outbox/Changes.antt =====
-- Every operation of the outbox is the operation of a map, or leaves the file as it is.
use tarion.Base.{
  ◌≤◌, ◌≡◌, refl, sym, subst, ◌⊎◌, inl, inr, Bool, true, false, Option, none, some, List, [], ◌∷◌,
  ◌++◌, arith, leb, if◌then◌else◌, Bool-cases, found, length, length-append,
}
use tarion.Text.{Text, str_eq, str_eq_iff}
use tarion.Storage.Held.{
  Held, nothing, bad_json, failing, held, HeldError, of_store, not_json, load_list, save_list,
}
use tarion.Storage.Outbox.{
  OutboxItem, max_outbox, OutboxError, outbox_full, outbox_file, replace_item, remove_item, item_of,
  Saving, outbox_saving, enqueue_loaded, enqueue, update_loaded, update_outbox, remove_loaded,
  remove_outbox,
}
use tarion.Storage.Outbox.Queue.{
  IsQueue, queued, item_of-append, append-AreApart, item_of-remove_item, remove_item-AreApart,
  item_of-replace_item, replace_item-AreApart, length-replace_item, length-remove_item-le,
}

pub data Change : Type 0 where
  added updated : OutboxItem → Change
  removed : Text → Change

unfoldable pub change : Option HeldError → Held (List OutboxItem) → Change → Saving
change saved file (added item) = enqueue saved file item
change saved file (updated item) = update_outbox saved file item
change saved file (removed id) = remove_outbox saved file id

-- What a change means for a map from IDs to messages.
abbrev pub mapped : (Text → Option OutboxItem) → Change → Text → Option OutboxItem
mapped q (added item) j = if str_eq item.id j then some item else q j
mapped q (updated item) j =
    if found (q item.id) then if str_eq item.id j then some item else q j else q j
mapped q (removed id) j = if str_eq id j then none else q j

-- A message that is added has an ID that is not in the outbox.
abbrev pub IsFresh : Held (List OutboxItem) → Change → Type 0
IsFresh file (added item) = queued file item.id ≡ none
IsFresh file (updated item) = Unit {0}
IsFresh file (removed id) = Unit {0}

-- Without an error the messages are those of the map, and with one nothing has changed.
abbrev pub IsChanged : Held (List OutboxItem) → Change → Saving → Type 0
IsChanged file c s =
    IsQueue s.0
    × (((s.1 ≡ none) × ((j : Text) → queued s.0 j ≡ mapped (queued file) c j))
        ⊎ ((e : OutboxError) × ((s.1 ≡ some e) × (s.0 ≡ file))))

outbox_saving-IsChanged :
    (saved : Option HeldError) (file : Held (List OutboxItem)) (c : Change)
    (items : List OutboxItem)
    → IsQueue file
    → IsQueue (held items)
    → ((j : Text) → item_of items j ≡ mapped (queued file) c j)
    → IsChanged file c (outbox_saving saved file items)
unfolding outbox_saving save_list
outbox_saving-IsChanged none file c items old new same = (new, inl (refl, same))
outbox_saving-IsChanged (some e) file c items old new same =
    (old, inr (outbox_file e, (refl, refl)))

not_found : (o : Option OutboxItem) → found o ≡ false → o ≡ none
not_found none h = refl
not_found (some x) h = cc

item_of_absent :
    (xs : List OutboxItem) (id j : Text)
    → found (item_of xs id) ≡ false
    → item_of xs j ≡ (if str_eq id j then none else item_of xs j)
item_of_absent xs id j h = elim (Bool-cases (str_eq id j)) [
  | inl e ↦ rw e (not_found (item_of xs j) (rw (sym ((str_eq_iff id j).0 e)) h))
  | inr e ↦ rw e refl
]

held-IsChanged :
    (saved : Option HeldError) (xs : List OutboxItem) (c : Change)
    → IsQueue (held xs)
    → IsFresh (held xs) c
    → IsChanged (held xs) c (change saved (held xs) c)
unfolding change enqueue enqueue_loaded update_outbox update_loaded remove_outbox remove_loaded
    load_list
held-IsChanged saved xs (added y) q f = elim (Bool-cases (leb max_outbox (length xs))) [
  | inl e ↦ rw e (q, inr (outbox_full, (refl, refl)))
  | inr e ↦
      let room : length (xs ++ (y ∷ [])) ≤ max_outbox =
        ground (arith, length-append xs (y ∷ []), e) in
      rw e (
        outbox_saving-IsChanged saved (held xs) (added y) (xs ++ (y ∷ [])) q
          (room, append-AreApart xs y f q.1) (λ j. item_of-append xs y j f))
]
held-IsChanged saved xs (updated y) q f = elim (Bool-cases (found (item_of xs y.id))) [
  | inl e ↦
      subst
        (λ b.
          IsChanged (held xs) (updated y)
            (if b then outbox_saving saved (held xs) (replace_item y xs) else (held xs, none)))
        (sym e)
        (outbox_saving-IsChanged saved (held xs) (updated y) (replace_item y xs) q
          (ground (arith, length-replace_item xs y, q.0), replace_item-AreApart xs y q.1)
          (λ j. rw e (item_of-replace_item xs y j e q.1)))
  | inr e ↦ rw e (q, inl (refl, λ j. refl))
]
held-IsChanged saved xs (removed id) q f = elim (Bool-cases (found (item_of xs id))) [
  | inl e ↦ rw e (
      outbox_saving-IsChanged saved (held xs) (removed id) (remove_item id xs) q
        (omega (arith, length-remove_item-le xs id, q.0), remove_item-AreApart xs id q.1)
        (λ j. item_of-remove_item xs id j q.1))
  | inr e ↦ rw e (q, inl (refl, λ j. item_of_absent xs id j e))
]

none_if : (b : Bool) → ◌≡◌ {A = Option OutboxItem} none (if b then none else none)
none_if true = refl
none_if false = refl

-- If the outbox has at most 500 messages, with different IDs, and a message that is added has a new
-- ID, then after Enqueue, UpdateOutbox or RemoveOutbox that is so again, and either there is no
-- error and the messages are those of the map from IDs to messages after this change, or there is
-- an error and the file is as it was.
pub change-IsChanged :
    (saved : Option HeldError) (file : Held (List OutboxItem)) (c : Change)
    → IsQueue file
    → IsFresh file c
    → IsChanged file c (change saved file c)
unfolding change enqueue enqueue_loaded update_outbox update_loaded remove_outbox remove_loaded
    load_list item_of
change-IsChanged saved (held xs) c q f = held-IsChanged saved xs c q f
change-IsChanged saved nothing (added y) q f =
    outbox_saving-IsChanged saved nothing (added y) (y ∷ []) tt (omega arith, (refl, tt))
      (λ j. refl)
change-IsChanged saved nothing (updated y) q f = (tt, inl (refl, λ j. refl))
change-IsChanged saved nothing (removed id) q f = (tt, inl (refl, λ j. none_if (str_eq id j)))
change-IsChanged saved bad_json (added y) q f = (tt, inr (outbox_file not_json, (refl, refl)))
change-IsChanged saved bad_json (updated y) q f = (tt, inr (outbox_file not_json, (refl, refl)))
change-IsChanged saved bad_json (removed id) q f = (tt, inr (outbox_file not_json, (refl, refl)))
change-IsChanged saved (failing e) (added y) q f =
    (tt, inr (outbox_file (of_store e), (refl, refl)))
change-IsChanged saved (failing e) (updated y) q f =
    (tt, inr (outbox_file (of_store e), (refl, refl)))
change-IsChanged saved (failing e) (removed id) q f =
    (tt, inr (outbox_file (of_store e), (refl, refl)))
