-- ===== src/Text/Sets.antt =====
-- `map[string]bool`, a set of strings, and the names of a directory.
use tarion.Base.{
  ◌≡◌, Bool, false, not, ◌&&◌, ◌||◌, List, [], ◌∷◌, arith, if◌then◌else◌, Bool-cases, keep,
}
use tarion.Text.{Text, str_eq, str_eq_iff}

-- set[k]
unfoldable pub member : Text → List Text → Bool
member k [] = false
member k (x ∷ xs) = str_eq x k || member k xs

-- set[k] = true
unfoldable pub add : Text → List Text → List Text
add k xs = if member k xs then xs else k ∷ xs

-- delete(set, k)
unfoldable pub remove_name : Text → List Text → List Text
remove_name k xs = keep (λ x. not (str_eq x k)) xs

pub member-add : (k j : Text) (xs : List Text) → member j (add k xs) ≡ (str_eq k j || member j xs)
unfolding member add
member-add k j xs = ground (arith, str_eq_iff k j, Bool-cases (member k xs))

pub member-remove_name :
    (k j : Text) (xs : List Text) → member j (remove_name k xs) ≡ (not (str_eq k j) && member j xs)
unfolding member remove_name
member-remove_name k j [] = ground arith
member-remove_name k j (x ∷ xs) =
    ground (arith, member-remove_name k j xs, str_eq_iff x k, str_eq_iff x j, str_eq_iff k j)
