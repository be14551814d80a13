-- ===== src/Limiter/Budget.antt =====
-- Histories of calls and sweeps, and how many tokens they grant.
use tarion.Base.{
  ℕ, ◌+◌, ◌-◌, ◌*◌, ◌≤◌, ◌≡◌, refl, ap, not, ◌&&◌, List, [], ◌∷◌, arith, if◌then◌else◌,
}
use native.Mathlib.Nat.{add-mul}
use tarion.Text.{Text, str_eq, str_eq_iff}
use tarion.Dict.{IsMap, put-IsMap, retain-IsMap}
use tarion.Limiter.{Limiter, cap, bucket_of, refill, allow_n, is_full, sweep}
use tarion.Limiter.Level.{
  level, level-step, level-allow_n, level-sweep, level-le-cap, allow_n-granted,
}

pub data Event : Type 0 where
  call : Text → ℕ → Event
  swept : Event

pub step : Limiter → ℕ → Event → Limiter
step l now (call key n) = (allow_n l key n now).1
step l now swept = sweep l now

-- What one event grants to a key.
spent : Limiter → Text → ℕ → Event → ℕ
spent l j now (call key n) = if str_eq key j && (allow_n l key n now).0 then n else 0
spent l j now swept = 0

-- The tokens that a history grants to a key.
pub granted : Limiter → Text → List (ℕ × Event) → ℕ
unfolding spent
granted l j [] = 0
granted l j ((now, e) ∷ es) = spent l j now e + granted (step l now e) j es

-- The events happen in order, from `s` to `t`: the clock is monotonic.
abbrev pub InOrder : ℕ → List (ℕ × Event) → ℕ → Type 0
InOrder s [] t = s ≤ t
InOrder s ((now, e) ∷ es) t = (s ≤ now) × InOrder now es t

InOrder-le : (s : ℕ) (es : List (ℕ × Event)) (t : ℕ) → InOrder s es t → s ≤ t
InOrder-le s [] t h = h
InOrder-le s ((now, e) ∷ es) t h = omega (arith, InOrder-le now es t h.1)

allow_n-IsMap :
    (l : Limiter) (key : Text) (n now : ℕ) → IsMap l.buckets → IsMap (allow_n l key n now).1.buckets
unfolding allow_n
allow_n-IsMap l key n now u = ground (
  arith,
  put-IsMap l.buckets key (record { tokens = refill l (bucket_of l key now) now; last = now }) u,
  put-IsMap l.buckets key
      (record { tokens = refill l (bucket_of l key now) now - n * l.scale; last = now }) u,
)

pub step-IsMap :
    (l : Limiter) (now : ℕ) (e : Event) → IsMap l.buckets → IsMap (step l now e).buckets
unfolding step sweep
step-IsMap l now (call key n) u = allow_n-IsMap l key n now u
step-IsMap l now swept u = retain-IsMap (λ _ b. not (is_full l now b)) l.buckets u

-- The rates are fixed when a limiter is made.
step-scale : (l : Limiter) (now : ℕ) (e : Event) → (step l now e).scale ≡ l.scale
unfolding step allow_n sweep
step-scale l now (call key n) = ground arith
step-scale l now swept = refl

step-gain : (l : Limiter) (now : ℕ) (e : Event) → (step l now e).gain ≡ l.gain
unfolding step allow_n sweep
step-gain l now (call key n) = ground arith
step-gain l now swept = refl

-- One event keeps the account of a key.
step-spent :
    (l : Limiter) (j : Text) (s now : ℕ) (e : Event)
    → IsMap l.buckets
    → s ≤ now
    → spent l j now e * l.scale + level (step l now e) j now ≤ level l j s + (now - s) * l.gain
unfolding step spent
step-spent l j s now (call key n) u h = ground (
  arith,
  str_eq_iff key j,
  level-allow_n l key j n now now,
  allow_n-granted l key n now,
  level-step l j s now,
)
step-spent l j s now swept u h =
    omega (arith, level-sweep l j now now u (omega arith), level-step l j s now)

elapsed_split : (s now t : ℕ) → s ≤ now → now ≤ t → (now - s) + (t - now) ≡ t - s
elapsed_split s now t h k = omega arith

-- Over any history of calls and sweeps between `s` and `t`, what a key is granted and what it has
-- left come from its level at `s` and from the refill since.
pub granted-le-level :
    (l : Limiter) (j : Text) (s t : ℕ) (es : List (ℕ × Event))
    → IsMap l.buckets
    → InOrder s es t
    → granted l j es * l.scale ≤ level l j s + (t - s) * l.gain
unfolding granted step level
granted-le-level l j s t [] u o = omega arith
granted-le-level l j s t ((now, e) ∷ es) u o =
    let rest = granted-le-level (step l now e) j now t es (step-IsMap l now e u) o.1 in
    omega (
      arith,
      step-spent l j s now e u o.0,
      rw (step-scale l now e, step-gain l now e) at rest,
      add-mul (spent l j now e) (granted (step l now e) j es) l.scale,
      add-mul (now - s) (t - now) l.gain,
      ap (λ x. x * l.gain) (elapsed_split s now t o.0 (InOrder-le now es t o.1)),
    )

-- Over any history of calls and sweeps at times that do not go back, starting with full buckets,
-- the tokens granted to a key are at most the burst plus the rate times the length of the history.
pub granted-le-cap :
    (l : Limiter) (j : Text) (s t : ℕ) (es : List (ℕ × Event))
    → IsMap l.buckets
    → InOrder s es t
    → granted l j es * l.scale ≤ cap l + (t - s) * l.gain
granted-le-cap l j s t es u o = omega (arith, granted-le-level l j s t es u o, level-le-cap l j s)
