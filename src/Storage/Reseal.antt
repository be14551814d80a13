-- ===== src/Storage/Reseal.antt =====
-- Reseal and NeedsSealing of internal/storage/sealed.go. What is drawn and whether a file can be
-- written is given for each place; Reseal stops at the first error and leaves the rest as it is.
use tarion.Base.{
  ℕ, suc, Bool, false, not, ◌&&◌, ◌||◌, Option, none, some, List, [], ◌∷◌, if◌then◌else◌, all_by,
  Result, ok, err,
}
use tarion.Text.{Text, text, is_empty}
use tarion.Text.Lower.{Unicode, to_lower}
use tarion.Text.Search.{has_suffix}
use tarion.Dict.{Dict}
use tarion.Vault.{Crypto, is_sealed, is_sealed_line}
use tarion.Storage.{
  OnDisk, missing, broken, file, StoreError, not_exist, cannot_read, kind_identity, kind_peers,
  kind_outbox, kind_history, kind_dropped, read_sealed, write_sealed, write_bytes, line_to_write,
  line_read,
}
use tarion.Storage.Lines.{raw_lines, body_of}

-- The sealed files: the history folder holds its files by name, less folders.
pub record Files : Type 0 where
  pub identity : OnDisk
  pub peers : OnDisk
  pub outbox : OnDisk
  pub dropped : OnDisk
  pub histories : Dict OnDisk

pub data Place : Type 0 where
  at_identity at_peers at_outbox at_dropped : Place
  at_history : Text → Place

-- The nonces of a place, in the order in which they are drawn, and whether it can be written.
pub record Chances : Type 0 where
  pub nonce : Place → ℕ → Text
  pub can_write : Place → Bool

unfoldable pub rewrite_whole :
    Crypto
    → Option Text
    → Chances
    → Place
    → Text
    → OnDisk
    → Result StoreError Text
    → OnDisk × Option StoreError
rewrite_whole c to d p kind disk (ok bytes) =
    write_sealed c to (d.nonce p 0) (d.can_write p) kind bytes disk
rewrite_whole c to d p kind disk (err not_exist) = (disk, none)
rewrite_whole c to d p kind disk (err e) = (disk, some e)

-- One round of the first loop: a file that is sealed as a whole.
unfoldable pub reseal_whole :
    Crypto
    → Option Text
    → Option Text
    → Chances
    → Place
    → Text
    → OnDisk
    → OnDisk × Option StoreError
unfolding rewrite_whole
reseal_whole c from to d p kind disk =
    rewrite_whole c to d p kind disk (read_sealed c from kind disk)

abbrev pub cons_line :
    Result StoreError Text → Result StoreError (List Text) → Result StoreError (List Text)
cons_line (err e) ls = err e
cons_line (ok l) (err e) = err e
cons_line (ok l) (ok ls) = ok (l ∷ ls)

-- Every line opened, and every line made ready for writing, the first of them with the nonce `n`.
unfoldable pub open_lines : Crypto → Option Text → Text → List Text → Result StoreError (List Text)
open_lines c key kind [] = ok []
open_lines c key kind (l ∷ ls) = cons_line (line_read c key kind l) (open_lines c key kind ls)

unfoldable pub seal_lines :
    Crypto → Option Text → (ℕ → Text) → ℕ → Text → List Text → Result StoreError (List Text)
seal_lines c key nonce n kind [] = ok []
seal_lines c key nonce n kind (l ∷ ls) =
    cons_line (line_to_write c key (nonce n) kind l) (seal_lines c key nonce (suc n) kind ls)

-- The lines of a file, opened.
unfoldable pub lines_of : Crypto → Option Text → Text → OnDisk → Result StoreError (List Text)
lines_of c key kind missing = err not_exist
lines_of c key kind broken = err cannot_read
lines_of c key kind (file bytes) = open_lines c key kind (raw_lines bytes)

abbrev pub body_result : Result StoreError (List Text) → Result StoreError Text
body_result (err e) = err e
body_result (ok ls) = ok (body_of ls)

unfoldable pub rewrite_lines :
    Crypto
    → Option Text
    → Chances
    → Place
    → Text
    → OnDisk
    → Result StoreError (List Text)
    → OnDisk × Option StoreError
rewrite_lines c to d p kind disk (err e) = (disk, some e)
rewrite_lines c to d p kind disk (ok ls) =
    write_bytes (d.can_write p) disk (body_result (seal_lines c to (d.nonce p) 0 kind ls))

-- One round of the second loop: a file of lines.
unfoldable pub reseal_lines :
    Crypto
    → Option Text
    → Option Text
    → Chances
    → Place
    → Text
    → OnDisk
    → OnDisk × Option StoreError
unfolding rewrite_lines
reseal_lines c from to d p kind missing = (missing, none)
reseal_lines c from to d p kind broken = (broken, some cannot_read)
reseal_lines c from to d p kind (file bytes) =
    rewrite_lines c to d p kind (file bytes) (open_lines c from kind (raw_lines bytes))

unfoldable pub is_history_name : Unicode → Text → Bool
is_history_name u name = has_suffix (to_lower u name) (text ".txt")

-- The files of the history folder, until one fails.
unfoldable pub cons_history :
    Text
    → OnDisk × Option StoreError
    → Dict OnDisk
    → Dict OnDisk × Option StoreError
    → Dict OnDisk × Option StoreError
cons_history name (disk, some e) old rest = ((name, disk) ∷ old, some e)
cons_history name (disk, none) old rest = ((name, disk) ∷ rest.0, rest.1)

unfoldable pub reseal_histories :
    Unicode
    → Crypto
    → Option Text
    → Option Text
    → Chances
    → Dict OnDisk
    → Dict OnDisk × Option StoreError
unfolding is_history_name cons_history
reseal_histories u c from to d [] = ([], none)
reseal_histories u c from to d ((name, disk) ∷ fs) =
    let rest = reseal_histories u c from to d fs in
    if is_history_name u name
    then cons_history name (reseal_lines c from to d (at_history name) kind_history disk) fs rest
    else ((name, disk) ∷ rest.0, rest.1)

abbrev pub and_then :
    Files × Option StoreError → (Files → Files × Option StoreError) → Files × Option StoreError
and_then (fs, some e) next = (fs, some e)
and_then (fs, none) next = next fs

abbrev pub placed : (OnDisk → Files) → OnDisk × Option StoreError → Files × Option StoreError
placed put r = (put r.0, r.1)

abbrev placed_histories : Files → Dict OnDisk × Option StoreError → Files × Option StoreError
placed_histories fs r = (record fs { histories = r.0 }, r.1)

module _ (u : Unicode) (c : Crypto) (from to : Option Text) (d : Chances) where
  abbrev pub on_identity : Files → Files × Option StoreError
  on_identity fs =
      placed (λ x. record fs { identity = x })
        (reseal_whole c from to d at_identity kind_identity fs.identity)

  abbrev pub on_peers : Files → Files × Option StoreError
  on_peers fs =
      placed (λ x. record fs { peers = x }) (reseal_whole c from to d at_peers kind_peers fs.peers)

  abbrev pub on_outbox : Files → Files × Option StoreError
  on_outbox fs =
      placed (λ x. record fs { outbox = x })
        (reseal_whole c from to d at_outbox kind_outbox fs.outbox)

  abbrev pub on_dropped : Files → Files × Option StoreError
  on_dropped fs =
      placed (λ x. record fs { dropped = x })
        (reseal_lines c from to d at_dropped kind_dropped fs.dropped)

  abbrev pub on_histories : Files → Files × Option StoreError
  on_histories fs = placed_histories fs (reseal_histories u c from to d fs.histories)

  -- Reseal
  unfoldable pub reseal : Files → Files × Option StoreError
  reseal fs =
      and_then (and_then (and_then (and_then (on_identity fs) on_peers) on_outbox) on_dropped)
        on_histories

whole_plain : OnDisk → Bool
whole_plain missing = false
whole_plain broken = false
whole_plain (file bytes) = not (is_empty bytes) && not (is_sealed bytes)

lines_plain : OnDisk → Bool
lines_plain missing = false
lines_plain broken = false
lines_plain (file bytes) = not (all_by is_sealed_line (raw_lines bytes))

-- NeedsSealing
unfoldable pub needs_sealing : Option Text → Files → Bool
unfolding whole_plain lines_plain
needs_sealing none fs = false
needs_sealing (some key) fs =
    whole_plain fs.identity
    || whole_plain fs.peers
    || whole_plain fs.outbox
    || lines_plain fs.dropped
    || not (all_by (λ h. not (lines_plain h.1)) fs.histories)
