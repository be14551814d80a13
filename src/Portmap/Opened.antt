-- ===== src/Portmap/Opened.antt =====
-- What Open returns.
use tarion.Base.{
  ◌≡◌, refl, ◌⊎◌, inl, inr, Bool, true, false, not, Option, none, some, List, [], ◌∷◌, ◌++◌, found,
  All, Result, ok, err,
}
use tarion.Text.{Text}
use tarion.Portmap.{
  NotPublicReason, Mapping, Failures, Opening, public_of, mapped_end, open_mappers, forwarded_but,
}

-- The mapping's address is not known, or public.
abbrev pub is_usable : Mapping → Bool
is_usable m = not (found (public_of m.external_ip))

-- A mapping that is returned is usable and none is removed; with failures at most one was removed.
abbrev pub IsOpened : Opening → Type 0
IsOpened o =
    ((m : Mapping) × ((o.mapping ≡ ok m) × ((is_usable m ≡ true) × (o.removed ≡ []))))
    ⊎ ((fs : Failures) × ((o.mapping ≡ err fs) × All (λ m. is_usable m ≡ false) o.removed))

mapped_end-IsOpened :
    (name : Text) (m : Mapping) (fs : Failures) (r : Option NotPublicReason)
    → public_of m.external_ip ≡ r
    → IsOpened (mapped_end name m fs r)
unfolding mapped_end
mapped_end-IsOpened name m fs none h = inl (m, (refl, (rw h refl, refl)))
mapped_end-IsOpened name m fs (some r) h =
    inr (fs ++ ((name, forwarded_but r) ∷ []), (refl, (rw h refl, tt)))

-- Open returns a mapping whose address is not known or is public, and then it removes none; or it returns
-- what went wrong, and every mapping that it removed has an address that is known and is not public.
pub open_mappers-IsOpened :
    (ms : List (Text × Result Text Mapping)) (fs : Failures) → IsOpened (open_mappers ms fs)
unfolding open_mappers
open_mappers-IsOpened [] fs = inr (fs, (refl, tt))
open_mappers-IsOpened ((name, err problem) ∷ ms) fs = open_mappers-IsOpened ms _
open_mappers-IsOpened ((name, ok m) ∷ ms) fs =
    mapped_end-IsOpened name m fs (public_of m.external_ip) refl
