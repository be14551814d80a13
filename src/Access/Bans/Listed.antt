-- ===== src/Access/Bans/Listed.antt =====
-- Which names and keys a ban list bans.
use tarion.Base.{ℕ, ◌≡◌, Bool, false, not, ◌&&◌, ◌||◌, some, List, [], ◌∷◌, arith, ◌==◌, Bool-cases}
use tarion.Text.{Text, text, str_eq, is_empty}
use tarion.Text.Lower.{Unicode, to_lower}
use tarion.Text.Search.{has_prefix}
use tarion.Text.Sets.{member, member-add}
use tarion.Text.Trim.{trim_space}
use tarion.Proto.{name_key}
use tarion.Access.Bans.{
  BanList, stat, same_time, reread, normalize_key, read_line, read_bans, refresh, is_banned, banned,
}

module _ (u : Unicode) where
  -- Whether a line of the file, which is neither empty nor a comment, names the user or their key.
  abbrev pub is_entry : Text → Text → Text → Bool
  is_entry name peer_id line =
      let l = trim_space line in
      not (is_empty l || has_prefix l (text "#"))
      && (not (is_empty name) && str_eq (name_key u l) (name_key u name)
          || not (is_empty peer_id)
            && (not (is_empty (normalize_key u l))
                && str_eq (normalize_key u l) (to_lower u peer_id)))

  abbrev pub has_entry : Text → Text → List Text → Bool
  has_entry name peer_id [] = false
  has_entry name peer_id (l ∷ ls) = is_entry name peer_id l || has_entry name peer_id ls

  abbrev bans : Text → Text → List Text × List Text → Bool
  bans name peer_id (names, keys) =
      not (is_empty name) && member (name_key u name) names
      || not (is_empty peer_id) && member (to_lower u peer_id) keys

  bans-read_line :
      (name peer_id line : Text) (acc : List Text × List Text)
      → bans name peer_id (read_line u acc line)
        ≡ (bans name peer_id acc || is_entry name peer_id line)
  unfolding read_line
  bans-read_line name peer_id line (names, keys) =
      let l = trim_space line in
      ground (
        arith,
        member-add (name_key u l) (name_key u name) names,
        member-add (normalize_key u l) (to_lower u peer_id) keys,
        Bool-cases (is_empty l),
        Bool-cases (has_prefix l (text "#")),
        Bool-cases (is_empty name),
        Bool-cases (is_empty peer_id),
      )

  bans-read_bans :
      (name peer_id : Text) (acc : List Text × List Text) (lines : List Text)
      → bans name peer_id (read_bans u acc lines)
        ≡ (bans name peer_id acc || has_entry name peer_id lines)
  unfolding read_bans
  bans-read_bans name peer_id acc [] = ground arith
  bans-read_bans name peer_id acc (l ∷ ls) =
      ground (
        arith,
        bans-read_bans name peer_id (read_line u acc l) ls,
        bans-read_line name peer_id l acc,
      )

  -- Where the ban file has another time or size than the list was read from, and can be read, a
  -- name and a key are banned exactly if a line of the file, which is neither empty nor a comment,
  -- is that name up to case or is that key.
  pub banned-has_entry :
      (b : BanList) (t size : ℕ) (lines : List Text) (name peer_id : Text)
      → (same_time b.mod_time t && size == b.size) ≡ false
      → (banned u (stat t size (some lines)) b name peer_id).0 ≡ has_entry name peer_id lines
  unfolding banned refresh is_banned reread member
  banned-has_entry b t size lines name peer_id h =
      ground (arith, h, bans-read_bans name peer_id ([], []) lines)
