-- ===== src/Server/Directory/Probes.antt =====
-- Probes go to the client's own IP.
use tarion.Base.{
  ℕ, ◌≡◌, refl, ap, ◌⊎◌, inl, inr, true, false, not, Option, none, some, List, [], ◌∷◌, ◌++◌,
  if◌then◌else◌, Bool-cases,
}
use tarion.Text.{Text, is_empty}
use tarion.Net.{udp}
use tarion.Limiter.{allow}
use tarion.Relay.Packets.{parse_id, probe}
use tarion.Proto.{probe_off}
use tarion.Proto.Messages.{Request, fail}
use tarion.Server.{Server, Session, Env, World, Effect, sent}
use tarion.Server.Directory.{is_own, probe_to, probe_nonce, send_probe}

module _ (e : Env) where
  -- The effects are those before, and at most one probe to the address that the client advertised.
  abbrev pub ProbesOwn : Server → Session → Text → List Effect → Type 0
  ProbesOwn s sess nonce effects =
      (effects ≡ s.effects)
      ⊎ ((id : Text) × (ip : Text) × (port : ℕ) × (parse_id nonce ≡ some id)
          × (e.resolve_udp sess.public_addr ≡ some (ip, port))
          × (is_own ip sess.udp ≡ true)
          × (effects ≡ s.effects ++ sent (probe id) (udp ip port) ∷ []))

  probe_to-ProbesOwn :
      (w : World) (s t : Server) (sess : Session) (nonce id : Text) (o : Option (Text × ℕ))
      → parse_id nonce ≡ some id
      → e.resolve_udp sess.public_addr ≡ o
      → t.effects ≡ s.effects
      → ProbesOwn s sess nonce (probe_to e w t sess id o).1.effects
  unfolding probe_to
  probe_to-ProbesOwn w s t sess nonce id none p f same = inl same
  probe_to-ProbesOwn w s t sess nonce id (some (ip, port)) p f same =
      elim (Bool-cases (is_own ip sess.udp)) [
        | inr a ↦ inl (rw a same)
        | inl a ↦ elim (Bool-cases w.probe_written) [
          | inr b ↦ inl (rw (a, b) same)
          | inl b ↦ inr (
            id,
            ip,
            port,
            p,
            f,
            a,
            rw (a, b) (ap (λ es. es ++ sent (probe id) (udp ip port) ∷ []) same),
          )
        ]
      ]

  probe_nonce-ProbesOwn :
      (w : World) (s : Server) (sess : Session) (nonce : Text) (o : Option Text)
      → parse_id nonce ≡ o
      → ProbesOwn s sess nonce (probe_nonce e w s sess o).1.effects
  unfolding probe_nonce
  probe_nonce-ProbesOwn w s sess nonce none p = inl refl
  probe_nonce-ProbesOwn w s sess nonce (some id) p = elim (Bool-cases (is_empty sess.public_addr)) [
    | inl a ↦ inl (rw a refl)
    | inr a ↦ elim (Bool-cases (allow s.probe_limit sess.id w.now).0) [
      | inr b ↦ inl (rw (a, b) refl)
      | inl b ↦
          rw (a, b)
            (probe_to-ProbesOwn w s
              (record s { probe_limit = (allow s.probe_limit sess.id w.now).1 }) sess nonce id
              (e.resolve_udp sess.public_addr) p refl refl)
    ]
  ]

  -- A request for a probe makes the server send nothing, or one probe with the nonce of the request
  -- to the address that the advertised address resolves to, which has the IP that the server sees
  -- for the client.
  pub send_probe-ProbesOwn :
      (w : World) (s : Server) (sess : Session) (req : Request)
      → ProbesOwn s sess req.nonce (send_probe e w s sess req).1.effects
  unfolding send_probe
  send_probe-ProbesOwn w s sess req = elim (Bool-cases (is_empty sess.user)) [
    | inl a ↦ inl (rw a refl)
    | inr a ↦
        rw a
          (elim s.has_probe
            as (λ b.
              ProbesOwn s sess req.nonce
                (if not b
                  then (fail probe_off, s)
                  else probe_nonce e w s sess (parse_id req.nonce)).1.effects) [
                    | false ↦ inl refl
                    | true ↦ probe_nonce-ProbesOwn w s sess req.nonce (parse_id req.nonce) refl
                  ])
  ]
