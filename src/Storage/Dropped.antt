-- ===== src/Storage/Dropped.antt =====
-- internal/storage/dropped.go: the log of messages that will never be delivered.
use tarion.Base.{
  ℕ, ◌-◌, ◌*◌, ◌/◌, Bool, true, false, not, ◌&&◌, Option, none, some, List, [], ◌∷◌, ◌++◌, map, ltb,
  if◌then◌else◌, length, drop, keep, all_by, Result, ok, err,
}
use tarion.Text.{Text, is_empty}
use tarion.Text.Split.{split, join}
use tarion.Text.Trim.{trim_space}
use tarion.Vault.{Crypto}
use tarion.Storage.{
  OnDisk, missing, broken, file, StoreError, cannot_read, cannot_write, kind_dropped, line_to_write,
}
use tarion.Storage.Reseal.{open_lines}
use tarion.Storage.History.{appended}

pub record DroppedMessage : Type 0 where
  pub dropped_at : ℕ
  pub dir : Text
  pub peer : Text
  pub reason : Text
  pub lost_body : Text

abbrev pub dropped_trim_bytes : ℕ
dropped_trim_bytes = 512 * 1024

-- The longest line that the scanner takes is shorter than this.
abbrev pub scan_limit : ℕ
scan_limit = 1024 * 1024

-- readLines, on the bytes of a file.
unfoldable pub trimmed_lines : Text → Result StoreError (List Text)
trimmed_lines bytes =
    let ls = split 10 bytes in
    if all_by (λ l. ltb (length l) scan_limit) ls
    then ok (keep (λ l. not (is_empty l)) (map trim_space ls))
    else err cannot_read

-- Past its limit the file is cut to the newer half of its lines; without a successful reading it stays.
trimmed : Bool → Text → Result StoreError (List Text) → OnDisk × Option StoreError
trimmed written bytes (err e) = (file bytes, none)
trimmed true bytes (ok ls) = (file (join 10 (drop (length ls / 2) ls) ++ (10 ∷ [])), none)
trimmed false bytes (ok ls) = (file bytes, some cannot_write)

trim_log : Bool → OnDisk × Option StoreError → OnDisk × Option StoreError
unfolding trimmed
trim_log written (file bytes, none) =
    if ltb dropped_trim_bytes (length bytes)
    then trimmed written bytes (trimmed_lines bytes)
    else (file bytes, none)
trim_log written r = r

append_dropped : Option ℕ → OnDisk → Result StoreError Text → OnDisk × Option StoreError
append_dropped cut disk (err e) = (disk, some e)
append_dropped cut missing (ok l) = appended cut [] (l ++ (10 ∷ []))
append_dropped cut broken (ok l) = (broken, some cannot_read)
append_dropped cut (file bytes) (ok l) = appended cut bytes (l ++ (10 ∷ []))

-- LogDropped, of an entry's JSON.
unfoldable pub log_dropped :
    Crypto → Option Text → Text → Option ℕ → Bool → Text → OnDisk → OnDisk × Option StoreError
unfolding append_dropped trim_log
log_dropped c key nonce cut written json disk =
    trim_log written (append_dropped cut disk (line_to_write c key nonce kind_dropped json))

-- The entries that are JSON, and of these the last `n`, or all for zero.
unfoldable pub parsed_entries {ℓ} : {A : Type ℓ} → (Text → Option A) → List Text → List A
parsed_entries parse [] = []
parsed_entries parse (l ∷ ls) = elim (parse l) [
  | none ↦ parsed_entries parse ls
  | some d ↦ d ∷ parsed_entries parse ls
]

unfoldable pub last_entries {ℓ} : {A : Type ℓ} → ℕ → List A → List A
last_entries n out = if ltb 0 n && ltb n (length out) then drop (length out - n) out else out

entries :
    (Text → Option DroppedMessage)
    → ℕ
    → Result StoreError (List Text)
    → Result StoreError (List DroppedMessage)
entries parse n (err e) = err e
entries parse n (ok ls) = ok (last_entries n (parsed_entries parse ls))

opened : Crypto → Option Text → Result StoreError (List Text) → Result StoreError (List Text)
opened c key (err e) = err e
opened c key (ok ls) = open_lines c key kind_dropped ls

-- ReadDropped, with `parse` for json.Unmarshal.
unfoldable pub read_dropped :
    Crypto
    → Option Text
    → (Text → Option DroppedMessage)
    → ℕ
    → OnDisk
    → Result StoreError (List DroppedMessage)
unfolding entries opened
read_dropped c key parse n missing = ok []
read_dropped c key parse n broken = err cannot_read
read_dropped c key parse n (file bytes) = entries parse n (opened c key (trimmed_lines bytes))
