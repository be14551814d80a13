-- ===== src/Access/Bans.antt =====
-- The ban list of server/access.go, a text file that is read again whenever it changed. What a look
-- at the file gives is an argument.
pub mod Listed
use tarion.Base.{
  ℕ, zero, ◌+◌, Bool, true, false, not, ◌&&◌, ◌||◌, Option, none, some, List, [], ◌∷◌, ◌++◌, map,
  ltb, leb, ◌==◌, if◌then◌else◌, length, keep, all_by, Result, ok, err,
}
use mathlib.Core.Option
use tarion.Text.{Text, text, str_eq, is_empty}
use tarion.Text.Lower.{Unicode, to_lower, equal_fold}
use tarion.Text.Search.{has_prefix}
use tarion.Text.Sets.{member, add}
use tarion.Text.Split.{split, join}
use tarion.Text.Trim.{trim_space}
use tarion.Text.Utf8.{runes}
use tarion.Proto.{name_key}

-- The list as last read; `mod_time` is `none` where the source has the zero time.
pub record BanList : Type 0 where
  pub mod_time : Option ℕ
  pub size : ℕ
  pub names : List Text
  pub keys : List Text

-- What `os.Stat`, and then reading, gives: the file's time, its size, and its lines unless it could
-- not be read. `no_path` is an empty path.
pub data BanFile : Type 0 where
  no_path cannot_stat : BanFile
  stat : ℕ → ℕ → Option (List Text) → BanFile

abbrev pub is_key_rune : ℕ → Bool
is_key_rune r = leb b'a' r && leb r b'z' || leb b'2' r && leb r b'7'

abbrev without_spaces : Text → Text
without_spaces = keep (λ b. not (b == b' '))

abbrev pub same_time : Option ℕ → ℕ → Bool
same_time none t = false
same_time (some s) t = s == t

-- A file with other content than the list was read from, with its lines if they could be read.
reread : Option (List Text × List Text) → ℕ → ℕ → BanList → Bool × BanList
reread none t n b = (false, b)
reread (some (names, keys)) t n b =
    (true, record { mod_time = some t; size = n; names = names; keys = keys })

trim_right : ℕ → Text → Text
trim_right c [] = []
trim_right c (b ∷ s) = let rest = trim_right c s in if b == c && is_empty rest then [] else b ∷ rest

pub data EditError : Type 0 where
  bad_entry unreadable cannot_write : EditError

module _ (u : Unicode) where
  -- A peer ID from "abcd efgh ...", or "" for an entry that is not shaped like one.
  unfoldable pub normalize_key : Text → Text
  normalize_key s =
      let k = to_lower u (without_spaces s) in
      if length k == 32 && all_by is_key_rune (runes k) then k else []

  -- One line of the file, added to the names and the keys.
  unfoldable pub read_line : List Text × List Text → Text → List Text × List Text
  read_line (names, keys) line =
      let l = trim_space line in
      let k = normalize_key l in
      if is_empty l || has_prefix l (text "#")
      then (names, keys)
      else (add (name_key u l) names, if is_empty k then keys else add k keys)

  unfoldable pub read_bans : List Text × List Text → List Text → List Text × List Text
  read_bans acc [] = acc
  read_bans acc (l ∷ ls) = read_bans (read_line acc l) ls

  -- refresh reloads the file if it changed, and reports whether it did.
  unfoldable pub refresh : BanFile → BanList → Bool × BanList
  unfolding reread
  refresh no_path b = (false, b)
  refresh cannot_stat b = (
    ltb 0 (length b.names + length b.keys),
    record { mod_time = none; size = 0; names = []; keys = [] },
  )
  refresh (stat t n content) b =
      if same_time b.mod_time t && n == b.size
      then (false, b)
      else reread (Option.map (read_bans ([], [])) content) t n b

  unfoldable pub new_ban_list : BanFile → BanList
  new_ban_list f = (refresh f (record { mod_time = none; size = 0; names = []; keys = [] })).1

  -- Banned, after its refresh.
  unfoldable pub is_banned : BanList → Text → Text → Bool
  is_banned b name peer_id =
      not (is_empty name) && member (name_key u name) b.names
      || not (is_empty peer_id) && member (to_lower u peer_id) b.keys

  unfoldable pub banned : BanFile → BanList → Text → Text → Bool × BanList
  banned f b name peer_id = let b' = (refresh f b).1 in (is_banned b' name peer_id, b')

  -- snapshot: the banned name keys and peer IDs.
  unfoldable pub snapshot : BanFile → BanList → List Text × List Text
  snapshot f b = let b' = (refresh f b).1 in (b'.names, b'.keys)

  -- The loop of editBans: whether a line is the entry, and the lines that stay.
  unfoldable pub edit_lines : Text → Bool → Bool → List Text → List Text → Bool × List Text
  unfolding trim_right
  edit_lines entry is_add seen lines [] = (seen, lines)
  edit_lines entry is_add seen lines (l ∷ ls) =
      let l' = trim_right 13 l in
      let same = equal_fold u (trim_space l') entry in
      let dropped = edit_lines entry is_add true lines ls in
      let kept = edit_lines entry is_add (seen || same) (lines ++ l' ∷ []) ls in
      let skipped = edit_lines entry is_add (seen || same) lines ls in
      if same && not is_add
      then dropped
      else if not (is_empty l') || ltb 0 (length lines)
      then kept
      else skipped

  -- The part of editBans after the file was read: `none` if there is nothing to change, or the new
  -- content of the file.
  unfoldable pub edited : Text → Bool → Text → Option Text
  unfolding trim_right
  edited entry is_add data' =
      let (seen, lines) = edit_lines entry is_add false [] (split 10 (trim_right 10 data')) in
      if is_add && seen || not is_add && not seen
      then none
      else some (join 10 (if is_add then lines ++ entry ∷ [] else lines) ++ 10 ∷ [])

  edit_result : Bool → Option Text → Result EditError Bool × Option Text
  edit_result written none = (ok false, none)
  edit_result written (some content) =
      if written then (ok true, some content) else (err cannot_write, none)

  abbrev has_line_break : Text → Bool
  has_line_break e = not (all_by (λ b. not (b == 10 || b == 13)) e)

  edit_read : Text → Bool → Bool → Option Text → Result EditError Bool × Option Text
  unfolding edit_result
  edit_read entry is_add written none = (err unreadable, none)
  edit_read entry is_add written (some data') = edit_result written (edited entry is_add data')

  -- editBans adds or removes one entry; `content` is what reading the file gave (empty if it does not
  -- exist), and the result has what the file then is, if it is written.
  unfoldable pub edit_bans : Text → Bool → Bool → Option Text → Result EditError Bool × Option Text
  unfolding edit_read
  edit_bans entry is_add written content =
      let e = trim_space entry in
      if is_empty e || has_line_break e
      then (err bad_entry, none)
      else edit_read e is_add written content
