-- ===== src/Access/PasswordRules.antt =====
-- passwordProblem of server/access.go: why a new password is not acceptable.
use tarion.Base.{
  ℕ, zero, suc, ◌+◌, ◌-◌, ◌&&◌, Option, none, some, List, [], ◌∷◌, ltb, leb, ◌==◌, if◌then◌else◌,
  length,
}
use tarion.Text.{Text}
use tarion.Text.Lower.{Unicode, to_lower}
use tarion.Text.Search.{has_prefix, contains}
use tarion.Text.Utf8.{runes}
use tarion.Text.Clean.{rune_bytes}
use tarion.Proto.{max_password_len}

pub data PasswordProblem : Type 0 where
  too_short : ℕ → PasswordProblem
  too_long has_username repeats : PasswordProblem

-- `strings.Count(s, sub)` for a `sub` that is not empty: occurrences that do not overlap; `skip` bytes
-- belong to the last one found.
unfoldable pub count_sub : Text → ℕ → Text → ℕ
count_sub sub skip [] = 0
count_sub sub (suc skip) (b ∷ s) = count_sub sub skip s
count_sub sub zero (b ∷ s) =
    let here = count_sub sub (length sub - 1) s in
    let later = count_sub sub 0 s in if has_prefix (b ∷ s) sub then 1 + here else later

rest_problem : Unicode → Text → Text → List ℕ → ℕ → Option PasswordProblem
rest_problem u user pass [] min_len = some (too_short min_len)
rest_problem u user pass (r ∷ rs) min_len =
    if ltb (length (r ∷ rs)) min_len
    then some (too_short min_len)
    else if ltb max_password_len (length pass)
    then some too_long
    else if leb 3 (length user) && contains (to_lower u pass) (to_lower u user)
    then some has_username
    else if count_sub (rune_bytes r) 0 pass == length (r ∷ rs)
    then some repeats
    else none

unfoldable pub password_problem : Unicode → Text → Text → ℕ → Option PasswordProblem
unfolding rest_problem
password_problem u user pass min_len = rest_problem u user pass (runes pass) min_len
