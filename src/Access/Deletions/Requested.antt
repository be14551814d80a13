-- ===== src/Access/Deletions/Requested.antt =====
-- A deletion that was requested is pending.
use tarion.Base.{◌≡◌, refl, inl, inr, true, ◌||◌, some, List, [], ◌∷◌, arith, Bool-cases}
use tarion.Text.{Text, str_eq, str_eq_iff, str_eq_refl, IsBytes}
use tarion.Text.Hex.{decode, decode-encode}
use tarion.Text.Lower.{Unicode}
use tarion.Text.Sets.{member, add}
use tarion.Proto.{name_key, valid_username}
use tarion.Access.Deletions.{pending_name, request_file, request, pending}

module _ (u : Unicode) where
  -- A file that is there gives its name.
  member-pending :
      (dir : List Text) (f k : Text)
      → pending_name u (decode f) ≡ some k
      → member f dir ≡ true
      → member k (pending u dir) ≡ true
  unfolding member pending
  member-pending [] f k p m = absurd (ground (arith, m))
  member-pending (g ∷ dir) f k p m = ground (
    arith,
    p,
    m,
    str_eq_iff g f,
    str_eq_refl k,
    member-pending dir f k p,
    Bool-cases (str_eq g f),
  )

  pending-add :
      (dir : List Text) (f k j : Text)
      → pending_name u (decode f) ≡ some k
      → member j (pending u (add f dir)) ≡ (str_eq k j || member j (pending u dir))
  unfolding add pending member
  pending-add dir f k j p = elim (Bool-cases (member f dir)) [
    | inr m ↦ rw (m, pending, p) refl
    | inl m ↦ rw m (ground (arith, str_eq_iff k j, member-pending dir f k p m))
  ]

  -- After a deletion of a name is requested, where the key of the name is a valid username of
  -- bytes, the pending names are that key and those that were pending before.
  pub pending-request :
      (dir : List Text) (name j : Text)
      → IsBytes (name_key u name)
      → valid_username u (name_key u name) ≡ true
      → member j (pending u (request u true dir name).1)
        ≡ (str_eq (name_key u name) j || member j (pending u dir))
  unfolding request
  pending-request dir name j b v =
      pending-add dir (request_file u name) (name_key u name) j
        (rw (decode-encode (name_key u name) b, v) refl)
