-- ===== src/Limiter/Level.antt =====
-- What a limiter promises: one level for each key, which a call takes from, which time refills, and
-- which nothing else moves.
use tarion.Base.{
  ℕ, ◌+◌, ◌-◌, ◌*◌, ◌≤◌, min, ◌≡◌, refl, inl, inr, true, not, arith, leb, if◌then◌else◌,
  Option-cases,
}
use native.Mathlib.Nat.{mul-le-mul_right, add-mul}
use tarion.Text.{Text, str_eq}
use tarion.Dict.{put, get, get-put, get-retain, IsMap, pick}
use tarion.Limiter.{Bucket, Limiter, cap, bucket_of, refill, allow_n, is_full, sweep}

-- The units that a key could take at `now`.
unfoldable pub level : Limiter → Text → ℕ → ℕ
level l key now = refill l (bucket_of l key now) now

elapsed-le :
    (b : Bucket) (gain s t : ℕ) → (t - b.last) * gain ≤ (s - b.last) * gain + (t - s) * gain
elapsed-le b gain s t = omega (
  arith,
  mul-le-mul_right {m = t - b.last} {n = (s - b.last) + (t - s)} gain (omega arith),
  add-mul (s - b.last) (t - s) gain,
)

refill-step : (l : Limiter) (b : Bucket) (s t : ℕ) → refill l b t ≤ refill l b s + (t - s) * l.gain
unfolding refill
refill-step l b s t = ground (arith, elapsed-le b l.gain s t)

refill-full : (l : Limiter) (t : ℕ) → refill l (record { tokens = cap l; last = t }) t ≡ cap l
unfolding refill
refill-full l t = ground arith

pub level-le-cap : (l : Limiter) (key : Text) (now : ℕ) → level l key now ≤ cap l
unfolding level refill
level-le-cap l key now = ground arith

-- Time adds at most `gain` units each nanosecond.
pub level-step :
    (l : Limiter) (key : Text) (s t : ℕ) → level l key t ≤ level l key s + (t - s) * l.gain
unfolding level bucket_of
level-step l key s t = elim (Option-cases (get l.buckets key)) [
  | inl e ↦ rw (e, bucket_of) (omega (arith, refill-full l s, refill-full l t))
  | inr (b, e) ↦ rw (e, bucket_of) (refill-step l b s t)
]

-- A call is granted exactly when the level covers it.
pub allow_n-granted :
    (l : Limiter) (key : Text) (n now : ℕ)
    → (allow_n l key n now).0 ≡ leb (n * l.scale) (level l key now)
unfolding allow_n level
allow_n-granted l key n now = ground arith

-- What a call takes from its key.
abbrev pub taken : Limiter → Text → ℕ → ℕ → ℕ
taken l key n now = if (allow_n l key n now).0 then n * l.scale else 0

refill_of :
    (l : Limiter) (tokens s t : ℕ)
    → refill l (record { tokens = tokens; last = s }) t ≡ min (cap l) (tokens + (t - s) * l.gain)
unfolding refill
refill_of l tokens s t = ground arith

level-put :
    (l : Limiter) (key j : Text) (tokens s t : ℕ)
    → level (record l { buckets = put l.buckets key (record { tokens = tokens; last = s }) }) j t
      ≡ (if str_eq key j then min (cap l) (tokens + (t - s) * l.gain) else level l j t)
unfolding level bucket_of refill
level-put l key j tokens s t =
    ground (arith, get-put l.buckets key j (record { tokens = tokens; last = s }))

allow_n-state :
    (l : Limiter) (key : Text) (n s : ℕ)
    → (allow_n l key n s).1 ≡ record l {
      buckets = put l.buckets key (record { tokens = level l key s - taken l key n s; last = s });
    }
unfolding allow_n level
allow_n-state l key n s = ground arith

pub level-allow_n :
    (l : Limiter) (key j : Text) (n s t : ℕ)
    → level (allow_n l key n s).1 j t ≡ (
        if str_eq key j
        then min (cap l) (level l key s - taken l key n s + (t - s) * l.gain)
        else level l j t)
level-allow_n l key j n s t =
    rw (allow_n-state l key n s) (level-put l key j (level l key s - taken l key n s) s t)

-- A bucket that is full is full ever after, as a missing one is.
refill-is_full :
    (l : Limiter) (b : Bucket) (s t : ℕ) → s ≤ t → is_full l s b ≡ true → refill l b t ≡ cap l
unfolding is_full refill
refill-is_full l b s t h full =
    ground (arith, mul-le-mul_right {m = s - b.last} {n = t - b.last} l.gain (omega arith))

get-sweep :
    (l : Limiter) (key : Text) (s : ℕ)
    → IsMap l.buckets
    → get (sweep l s).buckets key ≡ pick (λ b. not (is_full l s b)) (get l.buckets key)
unfolding sweep
get-sweep l key s u = get-retain (λ _ b. not (is_full l s b)) l.buckets key u

refill-sweep : (l : Limiter) (s t : ℕ) (b : Bucket) → refill (sweep l s) b t ≡ refill l b t
unfolding sweep refill
refill-sweep l s t b = refl

cap-sweep : (l : Limiter) (s : ℕ) → cap (sweep l s) ≡ cap l
unfolding sweep
cap-sweep l s = refl

-- Where the buckets are a map and time does not go back, a sweep changes no key's level at any
-- later time.
pub level-sweep :
    (l : Limiter) (key : Text) (s t : ℕ)
    → IsMap l.buckets
    → s ≤ t
    → level (sweep l s) key t ≡ level l key t
unfolding level bucket_of
level-sweep l key s t u h = elim (Option-cases (get l.buckets key)) [
  | inl e ↦ ground (
    arith,
    get-sweep l key s u,
    refill-sweep l s t (record { tokens = cap l; last = t }),
    cap-sweep l s,
  )
  | inr (b, e) ↦ ground (
    arith,
    get-sweep l key s u,
    refill-sweep l s t b,
    refill-sweep l s t (record { tokens = cap l; last = t }),
    cap-sweep l s,
    refill-is_full l b s t h,
    refill-full l t,
  )
]
