-- ===== src/Server/Connections/Counted.antt =====
-- The counters of connections are the numbers of connections that are open.
use tarion.Base.{
  ℕ, suc, ◌+◌, ◌-◌, ◌≤◌, ◌≡◌, inl, inr, Bool, true, false, ◌||◌, List, [], ◌∷◌, arith, leb,
  if◌then◌else◌, Bool-cases, length, count_by,
}
use tarion.Text.{Text, str_eq, str_eq_iff, str_eq_refl}
use tarion.Text.Sets.{member}
use tarion.Dict.{get, put, get-put, get-delete}
use tarion.Limiter.{Limiter, allow}
use tarion.Server.{Server}
use tarion.Server.Connections.{max_conns, max_conns_per_ip, or_zero, admit, release}

-- What happens to connections: one arrives from an IP at a time, or one from an IP ends.
pub data ConnEvent : Type 0 where
  arrives : Text → ℕ → ConnEvent
  ends : Text → ConnEvent

without_first : Text → List Text → List Text
without_first ip [] = []
without_first ip (x ∷ xs) = let rest = without_first ip xs in if str_eq x ip then xs else x ∷ rest

-- The server, and the IPs of the connections that were admitted and are open. Only an open connection
-- ends.
pub step : Server × List Text → ConnEvent → Server × List Text
unfolding without_first
step (s, live) (arrives ip now) =
    let (admitted, s') = admit s ip now in (s', if admitted then ip ∷ live else live)
step (s, live) (ends ip) =
    if member ip live then (release s ip, without_first ip live) else (s, live)

unfoldable pub run : Server × List Text → List ConnEvent → Server × List Text
unfolding step
run p [] = p
run p (v ∷ vs) = run (step p v) vs

abbrev pub from_ip : Text → List Text → ℕ
from_ip ip = count_by (λ x. str_eq x ip)

pub record IsCounted (s : Server) (live : List Text) : Type 0 where
  pub total : s.active ≡ length live
  pub total_le : length live ≤ max_conns
  pub each : (ip : Text) → or_zero (get s.conns_per_ip ip) ≡ from_ip ip live
  pub each_le : (ip : Text) → from_ip ip live ≤ max_conns_per_ip

length-without_first :
    (ip : Text) (live : List Text)
    → member ip live ≡ true
    → length live ≡ suc (length (without_first ip live))
unfolding member without_first
length-without_first ip [] h = absurd (ground (arith, h))
length-without_first ip (x ∷ xs) h = ground (arith, h, length-without_first ip xs)

count-without_first :
    (ip j : Text) (live : List Text)
    → member ip live ≡ true
    → from_ip j live ≡ (if str_eq ip j then 1 else 0) + from_ip j (without_first ip live)
unfolding member without_first
count-without_first ip j [] h = absurd (ground (arith, h))
count-without_first ip j (x ∷ xs) h =
    ground (arith, h, count-without_first ip j xs, str_eq_iff x ip)

-- The counters alone matter.
same :
    {s : Server} {live : List Text} {l : Limiter}
    → IsCounted s live
    → IsCounted (record s { conn_limit = l }) live
same c = record { total = c.total; total_le = c.total_le; each = c.each; each_le = c.each_le }

abbrev full : Server → Text → Bool
full s ip = leb max_conns s.active || leb max_conns_per_ip (or_zero (get s.conns_per_ip ip))

admitted :
    (s : Server) (live : List Text) (ip : Text) (l : Limiter)
    → full s ip ≡ false
    → IsCounted s live
    → IsCounted
        (record s {
          conn_limit = l;
          active = s.active + 1;
          conns_per_ip = put s.conns_per_ip ip (or_zero (get s.conns_per_ip ip) + 1);
        })
        (ip ∷ live)
admitted s live ip l h c = record {
  total = omega (arith, c.total);
  total_le = ground (arith, h, c.total);
  each = λ j. ground (
    arith,
    c.each ip,
    c.each j,
    str_eq_iff ip j,
    get-put s.conns_per_ip ip j (or_zero (get s.conns_per_ip ip) + 1),
  );
  each_le = λ j. ground (arith, h, c.each ip, c.each_le j, str_eq_iff ip j);
}

admit-IsCounted :
    (s : Server) (live : List Text) (ip : Text) (now : ℕ)
    → IsCounted s live
    → IsCounted (admit s ip now).1 (if (admit s ip now).0 then ip ∷ live else live)
unfolding admit
admit-IsCounted s live ip now c = elim (Bool-cases (allow s.conn_limit ip now).0) [
  | inr a ↦ rw a (same c)
  | inl a ↦ elim (Bool-cases (full s ip)) [
    | inl b ↦ rw (a, b) (same c)
    | inr b ↦ rw (a, b) (admitted s live ip _ b c)
  ]
]

release-IsCounted :
    (s : Server) (live : List Text) (ip : Text)
    → member ip live ≡ true
    → IsCounted s live
    → IsCounted (release s ip) (without_first ip live)
unfolding release
release-IsCounted s live ip m c = record {
  total = omega (arith, c.total, length-without_first ip live m);
  total_le = omega (arith, c.total_le, length-without_first ip live m);
  each = λ j. ground (
    arith,
    c.each ip,
    c.each j,
    count-without_first ip j live m,
    count-without_first ip ip live m,
    str_eq_refl ip,
    str_eq_iff ip j,
    get-put s.conns_per_ip ip j (or_zero (get s.conns_per_ip ip) - 1),
    get-delete s.conns_per_ip ip j,
  );
  each_le = λ j. omega (arith, c.each_le j, count-without_first ip j live m);
}

step-IsCounted :
    (p : Server × List Text) (v : ConnEvent)
    → IsCounted p.0 p.1
    → IsCounted (step p v).0 (step p v).1
unfolding step
step-IsCounted (s, live) (arrives ip now) c = admit-IsCounted s live ip now c
step-IsCounted (s, live) (ends ip) c = elim (Bool-cases (member ip live)) [
  | inl m ↦ rw m (release-IsCounted s live ip m c)
  | inr m ↦ rw m c
]

-- Where the counters agree with the connections that are open, they do so after any arrivals and
-- ends of open connections: the total is the number of open connections and at most 10000, and the
-- count of every IP is the number of its open connections and at most 16.
pub run-IsCounted :
    (p : Server × List Text) (vs : List ConnEvent)
    → IsCounted p.0 p.1
    → IsCounted (run p vs).0 (run p vs).1
unfolding run
run-IsCounted p [] c = c
run-IsCounted p (v ∷ vs) c = run-IsCounted (step p v) vs (step-IsCounted p v c)
