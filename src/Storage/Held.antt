-- ===== src/Storage/Held.antt =====
-- The JSON files of the client: what a file holds, and how an operation that loads it and saves it
-- ends.
use tarion.Base.{Option, none, some, List, [], Result, ok, err}
use tarion.Storage.{StoreError}

-- No file, a file that readSealed cannot read, one that is not JSON, or the value that it holds.
pub data Held {ℓ} (A : Type ℓ) : Type ℓ where
  nothing bad_json : Held A
  failing : StoreError → Held A
  held : A → Held A

-- An error of readSealed or writeSealed, or of json.Unmarshal.
pub data HeldError : Type 0 where
  of_store : StoreError → HeldError
  not_json : HeldError

-- The list that is loaded; without a file it is empty.
unfoldable pub load_list {ℓ} : {A : Type ℓ} → Held (List A) → Result HeldError (List A)
load_list nothing = ok []
load_list bad_json = err not_json
load_list (failing e) = err (of_store e)
load_list (held xs) = ok xs

-- Saving a list: the error that writing gives, or none.
unfoldable pub save_list {ℓ} :
    {A : Type ℓ} → Option HeldError → Held (List A) → List A → Held (List A) × Option HeldError
save_list (some e) old xs = (old, some e)
save_list none old xs = (held xs, none)
