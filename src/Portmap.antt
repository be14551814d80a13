-- ===== src/Portmap.antt =====
-- internal/portmap: forwarding of a port by the router. What a mapper answers is an argument; texts for the
-- user are the reasons that they give.
pub mod Opened
use tarion.Base.{
  ℕ, ◌/◌, Bool, false, not, ◌&&◌, ◌||◌, Option, none, some, List, [], ◌∷◌, ◌++◌, ◌==◌,
  if◌then◌else◌, length, all_by, Result, ok, err,
}
use tarion.Text.{Text, text, str_eq}
use tarion.Text.Lower.{Unicode, to_lower}
use tarion.Text.Search.{contains}
use tarion.Net.{to4}

pub data NotPublicReason : Type 0 where
  not_reported shared_nat private_address : NotPublicReason

is_zero : Text → Bool
is_zero ip = all_by (λ b. b == 0) ip

-- Tests on the four bytes of an address, and on the sixteen of an IPv6 address.
in_cgnat : Text → Bool
in_cgnat (a ∷ b ∷ c ∷ d ∷ []) = a == 100 && b / 64 == 1
in_cgnat _ = false

is_private4 : ℕ → ℕ → Bool
is_private4 a b = a == 10 || a == 172 && b / 16 == 1 || a == 192 && b == 168

is_local4 : ℕ → ℕ → Bool
is_local4 a b = a == 127 || a == 169 && b == 254

abbrev loopback6 : Text
loopback6 = 0 ∷ 0 ∷ 0 ∷ 0 ∷ 0 ∷ 0 ∷ 0 ∷ 0 ∷ 0 ∷ 0 ∷ 0 ∷ 0 ∷ 0 ∷ 0 ∷ 0 ∷ 1 ∷ []

is_private6 : Text → Bool
is_private6 (a ∷ b ∷ s) =
    length s == 14 && (a / 2 == 0x7E || (a == 0xFE && b / 64 == 2 || str_eq (a ∷ b ∷ s) loopback6))
is_private6 _ = false

is_private : Text → Bool
unfolding is_private4 is_local4 is_private6
is_private (a ∷ b ∷ c ∷ d ∷ []) = is_private4 a b || is_local4 a b
is_private ip = is_private6 ip

-- NotPublic, of the bytes of an address; `[]` is the nil address.
unfoldable pub not_public : Text → Option NotPublicReason
unfolding is_zero in_cgnat is_private
not_public ip =
    let ip4 = to4 ip in
    if is_zero ip4
    then some not_reported
    else if in_cgnat ip4
    then some shared_nat
    else if is_private ip4
    then some private_address
    else none

-- A mapping; without an address the caller fills it in.
pub record Mapping : Type 0 where
  pub method : Text
  pub external_ip : Option Text
  pub external_port : ℕ
  pub internal_port : ℕ
  pub lease : ℕ

-- What went wrong with a method: its own problem, or an address that is not public.
pub data Problem : Type 0 where
  own_problem : Text → Problem
  forwarded_but : NotPublicReason → Problem
  no_lan_address : Problem

abbrev pub Failures : Type 0
Failures = List (Text × Problem)

-- How Open ends: the mapping or the failures, and the mappings that were removed again.
pub record Opening : Type 0 where
  pub mapping : Result Failures Mapping
  pub removed : List Mapping

unfoldable pub public_of : Option Text → Option NotPublicReason
public_of none = none
public_of (some ip) = not_public ip

mapped_end : Text → Mapping → Failures → Option NotPublicReason → Opening
mapped_end name m fs none = record { mapping = ok m; removed = [] }
mapped_end name m fs (some r) = record {
  mapping = err (fs ++ ((name, forwarded_but r) ∷ []));
  removed = m ∷ [];
}

-- The loop of Open, over the mappers by name and what each of them answers.
unfoldable pub open_mappers : List (Text × Result Text Mapping) → Failures → Opening
unfolding mapped_end public_of
open_mappers [] fs = record { mapping = err fs; removed = [] }
open_mappers ((name, err problem) ∷ ms) fs =
    open_mappers ms (fs ++ ((name, own_problem problem) ∷ []))
open_mappers ((name, ok m) ∷ ms) fs = mapped_end name m fs (public_of m.external_ip)

-- Open
unfoldable pub open_port_map : Bool → List (Text × Result Text Mapping) → Opening
open_port_map has_lan ms =
    if has_lan
    then open_mappers ms []
    else record { mapping = err ((text "network", no_lan_address) ∷ []); removed = [] }

-- Renew and Remove: the function that a mapping may have is asked, with what it answers.
unfoldable pub ask_router : Option (Option Text) → Option Text
ask_router none = none
ask_router (some answer) = answer

pub data NatPmpReason : Type 0 where
  no_response turned_off no_internet table_full only_pcp bad_answer : NatPmpReason

-- explainNATPMP, of an error's text; `timed_out` is errTimeout.
unfoldable pub explain_natpmp : Unicode → Bool → Text → NatPmpReason
explain_natpmp u timed_out error =
    let msg = to_lower u error in
    if timed_out || (contains msg (text "timed out") || contains msg (text "timeout"))
    then no_response
    else if contains msg (text "result code 2")
    then turned_off
    else if contains msg (text "result code 3")
    then no_internet
    else if contains msg (text "result code 4")
    then table_full
    else if contains msg (text "version 2")
    then only_pcp
    else bad_answer
