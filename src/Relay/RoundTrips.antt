-- ===== src/Relay/RoundTrips.antt =====
-- What is wrapped, printed or built is read back, and nothing else is.
use tarion.Base.{
  ◌+◌, ◌<◌, ◌≡◌, refl, sym, ap, ◌∙◌, subst, ◌≢◌, ◌↔◌, inl, inr, true, false, none, some, [], ◌∷◌,
  ◌++◌, arith, leb, Bool-cases, length, take, drop, length-append, length-take, take-append,
  drop-append, take-drop, length-drop, drop-drop,
}
use tarion.Text.{Text, str_eq, str_eq_iff, IsBytes}
use tarion.Text.Hex.{decode-encode}
use tarion.Text.Search.{has_prefix-append}
use tarion.Relay.Packets.{
  header_len, magic, wrap, unwrap, parse_id, id_of, id_string, addr_prefix, addr_string, is_addr,
  parse_addr, probe, parse_probe,
}

drop_header : (pkt : Text) → drop 8 (drop 4 pkt) ≡ drop 12 pkt
drop_header pkt = drop-drop 8 4 pkt

pub length-wrap : (id payload : Text) → length (wrap id payload) ≡ 4 + length id + length payload
unfolding wrap
length-wrap id payload = omega (arith, length-append id payload)

unwrap_wrapped :
    (id payload : Text)
    → length id ≡ 8
    → payload ≢ []
    → unwrap (wrap id payload) ≡ some (id, payload)
unfolding unwrap wrap str_eq
unwrap_wrapped id [] h ne = absurd (ne refl)
unwrap_wrapped id (b ∷ p) h ne =
    let t : take 8 (id ++ (b ∷ p)) ≡ id =
      subst (λ n. take n (id ++ (b ∷ p)) ≡ id) h (take-append id (b ∷ p)) in
    let d : drop 8 (id ++ (b ∷ p)) ≡ b ∷ p =
      subst (λ n. drop n (id ++ (b ∷ p)) ≡ b ∷ p) h (drop-append id (b ∷ p)) in
    let long : leb (length (wrap id (b ∷ p))) header_len ≡ false =
      ground (arith, h, length-append id (b ∷ p)) in
    rw (long, t, d) refl

pieces : (pkt : Text) → pkt ≡ take 4 pkt ++ (take 8 (drop 4 pkt) ++ drop 12 pkt)
pieces pkt = sym (
    ap (λ s. take 4 pkt ++ (take 8 (drop 4 pkt) ++ s)) (sym (drop_header pkt))
    ∙ ap (λ s. take 4 pkt ++ s) (take-drop 8 (drop 4 pkt))
    ∙ take-drop 4 pkt)

unwrap_pieces :
    (pkt id payload : Text)
    → unwrap pkt ≡ some (id, payload)
    → (leb (length pkt) header_len ≡ false)
      × (str_eq (take 4 pkt) magic ≡ true)
      × (take 8 (drop 4 pkt) ≡ id)
      × (drop 12 pkt ≡ payload)
unfolding unwrap
unwrap_pieces pkt id payload h = elim (Bool-cases (leb (length pkt) header_len)) [
  | inl e ↦ absurd (ground (arith, rw e at h))
  | inr e ↦ elim (Bool-cases (str_eq (take 4 pkt) magic)) [
    | inl m ↦ let h' = rw (e, m) at h in (e, m, ground (arith, h'), ground (arith, h'))
    | inr m ↦ absurd (ground (arith, rw (e, m) at h))
  ]
]

unwrap_sound :
    (pkt id payload : Text)
    → unwrap pkt ≡ some (id, payload)
    → (length id ≡ 8) × (payload ≢ []) × (pkt ≡ wrap id payload)
unfolding wrap
unwrap_sound pkt id payload h =
    let (long, m, i, p) = unwrap_pieces pkt id payload h in
    let big : 12 < length pkt = ground (arith, long) in
    (
      ap length (sym i) ∙ length-take 8 (drop 4 pkt) ∙ omega (arith, big, length-drop 4 pkt),
      λ e.
          let none_left : length (drop 12 pkt) ≡ 0 = ap length (p ∙ e) in
          absurd (omega (arith, big, none_left, length-drop 12 pkt)),
      pieces pkt ∙ rw ((str_eq_iff (take 4 pkt) magic).0 m, i, p) refl,
    )

-- A packet is unwrapped to a session ID and a payload exactly if the ID has eight bytes, the
-- payload is not empty, and the packet is the payload wrapped with that ID.
pub unwrap-wrap_iff :
    (pkt id payload : Text)
    → (unwrap pkt ≡ some (id, payload))
      ↔ ((length id ≡ 8) × (payload ≢ []) × (pkt ≡ wrap id payload))
unwrap-wrap_iff pkt id payload =
    (unwrap_sound pkt id payload, λ (h, ne, e). ap unwrap e ∙ unwrap_wrapped id payload h ne)

parse_id_string : (id : Text) → IsBytes id → length id ≡ 8 → parse_id (id_string id) ≡ some id
unfolding parse_id id_of
parse_id_string id b h = ground (arith, decode-encode id b, h)

-- The string of a relay address with an ID of eight bytes is parsed as that ID.
pub parse_addr-addr_string :
    (id : Text) → IsBytes id → length id ≡ 8 → parse_addr (addr_string id) ≡ some id
unfolding parse_addr addr_string is_addr
parse_addr-addr_string id b h =
    ground (arith, has_prefix-append addr_prefix (id_string id), parse_id_string id b h)

-- A probe is never taken for a relay packet.
pub unwrap-probe : (nonce : Text) → length nonce ≡ 8 → unwrap (probe nonce) ≡ none
unfolding unwrap probe str_eq
unwrap-probe nonce h = ground (arith, h)

pub parse_probe-probe : (nonce : Text) → length nonce ≡ 8 → parse_probe (probe nonce) ≡ some nonce
unfolding parse_probe probe str_eq
parse_probe-probe nonce h = ground (arith, h)
