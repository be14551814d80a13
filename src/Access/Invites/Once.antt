-- ===== src/Access/Invites/Once.antt =====
-- A code is used up by one registration.
use tarion.Base.{◌≡◌, true, false, List, arith, if◌then◌else◌, Bool-cases}
use tarion.Text.{Text, str_eq, str_eq_iff, is_empty}
use tarion.Text.Sets.{member, remove_name, member-add, member-remove_name}
use tarion.Access.Invites.{normalize_invite, consume, restore}

-- An invite code that was consumed cannot be consumed again, however it is spelled, and every other
-- code can be consumed exactly if it could before.
pub consume-once :
    (map_upper : Text → Text) (dir : List Text) (code other : Text)
    → (consume map_upper dir code).0 ≡ true
    → (consume map_upper (consume map_upper dir code).1 other).0 ≡ (
        if str_eq (normalize_invite map_upper code) (normalize_invite map_upper other)
        then false
        else (consume map_upper dir other).0)
unfolding consume
consume-once map_upper dir code other h =
    let c = normalize_invite map_upper code in
    let d = normalize_invite map_upper other in
    ground
      (arith, h, member-remove_name c d dir, Bool-cases (is_empty d), Bool-cases (member d dir))

-- After a code that was consumed is restored, every code can be consumed exactly if it could
-- before.
pub consume-restore :
    (map_upper : Text → Text) (dir : List Text) (code other : Text)
    → (consume map_upper dir code).0 ≡ true
    → (consume map_upper (restore map_upper true (consume map_upper dir code).1 code) other).0
      ≡ (consume map_upper dir other).0
unfolding consume restore
consume-restore map_upper dir code other h =
    let c = normalize_invite map_upper code in
    let d = normalize_invite map_upper other in
    ground (
      arith,
      h,
      member-add c d (remove_name c dir),
      member-remove_name c d dir,
      str_eq_iff c d,
      Bool-cases (is_empty d),
      Bool-cases (member d dir),
    )
