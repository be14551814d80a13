-- ===== src/Access/Examples.antt =====
-- Bans and invites at concrete inputs.
use tarion.Base.{◌≡◌, refl, true, false, ◌||◌, some, List, [], ◌∷◌, arith, if◌then◌else◌, All}
use tarion.Text.{Text, text, str_eq}
use tarion.Text.Sets.{add, member}
use tarion.Text.Lower.{is_ascii, to_lower, lower_bytes}
use tarion.Text.Utf8.{runes, valid_string}
use tarion.Samples.{ascii_tables}
use tarion.Access.Bans.{BanList, stat, banned}
use tarion.Access.Bans.Listed.{has_entry, banned-has_entry}
use tarion.Text.{IsBytes}
use tarion.Proto.{name_key, valid_username}
use tarion.Access.Deletions.{request, pending}
use tarion.Access.Deletions.Requested.{pending-request}
use tarion.Access.Invites.Codes.{IsUsable, create-IsUsable}
use tarion.Access.Invites.{
  codes_made, bytes, create, create_loop, invite_encoding, base32_group, format_invite,
  normalize_invite, to_upper, consume, restore,
}
use tarion.Access.Invites.Once.{consume-once, consume-restore}

abbrev old_list : BanList
old_list = record { mod_time = some 3; size = 4; names = []; keys = [] }

abbrev ban_lines : List Text
ban_lines = text "# spam" ∷ text " Mallory " ∷ []

banned-has_entry_example :
    (banned ascii_tables (stat 9 20 (some ban_lines)) old_list (text "mallory") (text "k9")).0
    ≡ has_entry ascii_tables (text "mallory") (text "k9") ban_lines
banned-has_entry_example =
    banned-has_entry ascii_tables old_list 9 20 ban_lines (text "mallory") (text "k9") refl

-- `strings.ToUpper` is only asked for strings that are not ASCII.
abbrev unchanged : Text → Text
unchanged s = s

abbrev codes : List Text
codes = text "ABCDEFGH23456723" ∷ text "AAAABBBBCCCCDDDD" ∷ []

was_valid : (consume unchanged codes (text "abcd-efgh-2345-6723")).0 ≡ true
unfolding consume normalize_invite to_upper is_ascii runes member str_eq
was_valid = refl

consume-once_example :
    (consume unchanged
      (consume unchanged codes (text "abcd-efgh-2345-6723")).1
      (text "ABCDEFGH23456723")).0
    ≡ (if str_eq
          (normalize_invite unchanged (text "abcd-efgh-2345-6723"))
          (normalize_invite unchanged (text "ABCDEFGH23456723"))
        then false
        else (consume unchanged codes (text "ABCDEFGH23456723")).0)
consume-once_example =
    consume-once unchanged codes (text "abcd-efgh-2345-6723") (text "ABCDEFGH23456723") was_valid

consume-restore_example :
    (consume unchanged
      (restore unchanged true
        (consume unchanged codes (text "abcd-efgh-2345-6723")).1
        (text "abcd-efgh-2345-6723"))
      (text "ABCDEFGH23456723")).0
    ≡ (consume unchanged codes (text "ABCDEFGH23456723")).0
consume-restore_example =
    consume-restore unchanged codes (text "abcd-efgh-2345-6723") (text "ABCDEFGH23456723") was_valid

abbrev ten_zeros : Text
ten_zeros = 0 ∷ 0 ∷ 0 ∷ 0 ∷ 0 ∷ 0 ∷ 0 ∷ 0 ∷ 0 ∷ 0 ∷ []

abbrev one_code : List Text
one_code = text "AAAA-AAAA-AAAA-AAAA" ∷ []

made_one : create 1 (bytes ten_zeros ∷ []) [] ≡ (codes_made one_code, text "AAAAAAAAAAAAAAAA" ∷ [])
unfolding create create_loop invite_encoding base32_group format_invite add member
made_one = refl

create-IsUsable_example : All (IsUsable unchanged (text "AAAAAAAAAAAAAAAA" ∷ [])) one_code
create-IsUsable_example =
    create-IsUsable unchanged 1 one_code (bytes ten_zeros ∷ []) [] (text "AAAAAAAAAAAAAAAA" ∷ [])
      (refl, tt) made_one

abbrev bob : Text
bob = text "bob"

bob-IsBytes : IsBytes (name_key ascii_tables bob)
unfolding name_key to_lower is_ascii lower_bytes
bob-IsBytes = ground arith

bob_valid : valid_username ascii_tables (name_key ascii_tables bob) ≡ true
unfolding name_key to_lower is_ascii lower_bytes valid_username runes valid_string
bob_valid = refl

pending-request_example :
    member bob (pending ascii_tables (request ascii_tables true [] bob).1)
    ≡ (str_eq (name_key ascii_tables bob) bob || member bob (pending ascii_tables []))
pending-request_example = pending-request ascii_tables [] bob bob bob-IsBytes bob_valid
