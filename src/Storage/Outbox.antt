-- ===== src/Storage/Outbox.antt =====
-- internal/storage/outbox.go: messages that could not be delivered yet, in the order of the file.
pub mod Queue
pub mod Changes
pub mod Examples
use tarion.Base.{
  ℕ, Bool, not, Option, none, some, List, [], ◌∷◌, ◌++◌, ltb, leb, if◌then◌else◌, found, length,
  Result, ok, err,
}
use tarion.Base.Sort.{sort}
use tarion.Text.{Text, str_eq}
use tarion.Storage.Held.{Held, HeldError, load_list, save_list}

pub record OutboxItem : Type 0 where
  pub id : Text
  pub to : Text
  pub addr : Text
  pub body : Text
  pub created : ℕ
  pub attempts : ℕ
  pub next_try : ℕ
  pub last_error : Text

abbrev pub max_outbox : ℕ
max_outbox = 500

-- ErrOutboxFull, or an error of the file.
pub data OutboxError : Type 0 where
  outbox_full : OutboxError
  outbox_file : HeldError → OutboxError

abbrev pub has_item_id : Text → OutboxItem → Bool
has_item_id id x = str_eq x.id id

-- The item with an ID changed, and the list without it: the loops stop at the first.
unfoldable pub replace_item : OutboxItem → List OutboxItem → List OutboxItem
replace_item item [] = []
replace_item item (x ∷ xs) =
    let rest = replace_item item xs in if has_item_id item.id x then item ∷ xs else x ∷ rest

unfoldable pub remove_item : Text → List OutboxItem → List OutboxItem
remove_item id [] = []
remove_item id (x ∷ xs) = let rest = remove_item id xs in if has_item_id id x then xs else x ∷ rest

unfoldable pub item_of : List OutboxItem → Text → Option OutboxItem
item_of [] id = none
item_of (x ∷ xs) id = let rest = item_of xs id in if has_item_id id x then some x else rest

abbrev as_outbox_error : Option HeldError → Option OutboxError
as_outbox_error none = none
as_outbox_error (some e) = some (outbox_file e)

abbrev pub Saving : Type 0
Saving = Held (List OutboxItem) × Option OutboxError

outbox_saving : Option HeldError → Held (List OutboxItem) → List OutboxItem → Saving
outbox_saving saved file items = let s = save_list saved file items in (s.0, as_outbox_error s.1)

-- Outbox: the messages, oldest first.
abbrev created_before : OutboxItem → OutboxItem → Bool
created_before x y = ltb x.created y.created

sorted_items : Result HeldError (List OutboxItem) → List OutboxItem × Option HeldError
sorted_items (err e) = ([], some e)
sorted_items (ok items) = (sort created_before items, none)

unfoldable pub queued_items : Held (List OutboxItem) → List OutboxItem × Option HeldError
unfolding sorted_items
queued_items file = sorted_items (load_list file)

enqueue_loaded :
    Option HeldError
    → Held (List OutboxItem)
    → OutboxItem
    → Result HeldError (List OutboxItem)
    → Saving
unfolding outbox_saving
enqueue_loaded saved file item (err e) = (file, some (outbox_file e))
enqueue_loaded saved file item (ok items) =
    if leb max_outbox (length items)
    then (file, some outbox_full)
    else outbox_saving saved file (items ++ (item ∷ []))

-- Enqueue
unfoldable pub enqueue : Option HeldError → Held (List OutboxItem) → OutboxItem → Saving
unfolding enqueue_loaded
enqueue saved file item = enqueue_loaded saved file item (load_list file)

update_loaded :
    Option HeldError
    → Held (List OutboxItem)
    → OutboxItem
    → Result HeldError (List OutboxItem)
    → Saving
unfolding outbox_saving
update_loaded saved file item (err e) = (file, some (outbox_file e))
update_loaded saved file item (ok items) =
    if found (item_of items item.id)
    then outbox_saving saved file (replace_item item items)
    else (file, none)

-- UpdateOutbox
unfoldable pub update_outbox : Option HeldError → Held (List OutboxItem) → OutboxItem → Saving
unfolding update_loaded
update_outbox saved file item = update_loaded saved file item (load_list file)

remove_loaded :
    Option HeldError → Held (List OutboxItem) → Text → Result HeldError (List OutboxItem) → Saving
unfolding outbox_saving
remove_loaded saved file id (err e) = (file, some (outbox_file e))
remove_loaded saved file id (ok items) =
    if found (item_of items id)
    then outbox_saving saved file (remove_item id items)
    else (file, none)

-- RemoveOutbox
unfoldable pub remove_outbox : Option HeldError → Held (List OutboxItem) → Text → Saving
unfolding remove_loaded
remove_outbox saved file id = remove_loaded saved file id (load_list file)
