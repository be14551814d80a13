-- ===== src/Limiter.antt =====
-- server/limiter.go: token buckets, one per key. The source counts tokens in floating point and time
-- in nanoseconds of the monotonic clock. Here a token is `scale` units and a nanosecond adds `gain`
-- units, so that every rate of the source is a whole number of units and no value is rounded.
pub mod Level
pub mod Budget
pub mod Examples
use tarion.Base.{ℕ, ◌+◌, ◌-◌, ◌*◌, Bool, true, false, not, none, some, [], ltb, leb, if◌then◌else◌}
use tarion.Text.{Text}
use tarion.Dict.{Dict, get, put, retain}

pub record Bucket : Type 0 where
  pub tokens : ℕ
  pub last : ℕ

pub record Limiter : Type 0 where
  pub scale : ℕ
  pub gain : ℕ
  pub burst : ℕ
  pub buckets : Dict Bucket

-- `every` in nanoseconds: one token each.
pub new_limiter : ℕ → ℕ → Limiter
new_limiter every burst = record { scale = every; gain = 1; burst = burst; buckets = [] }

-- `per_second` bytes in each second, with one second of burst.
pub new_byte_limiter : ℕ → Limiter
new_byte_limiter per_second = record {
  scale = 1_000_000_000;
  gain = per_second;
  burst = per_second;
  buckets = [];
}

-- `l.burst`, in units.
abbrev pub cap : Limiter → ℕ
cap l = l.burst * l.scale

-- The bucket of a key; a key not seen before has a full one.
unfoldable pub bucket_of : Limiter → Text → ℕ → Bucket
bucket_of l key now = elim (get l.buckets key) [
  | none ↦ record { tokens = cap l; last = now }
  | some b ↦ b
]

-- The tokens of a bucket at `now`, capped at the burst.
unfoldable pub refill : Limiter → Bucket → ℕ → ℕ
refill l b now =
    let tokens = b.tokens + (now - b.last) * l.gain in if ltb (cap l) tokens then cap l else tokens

unfoldable pub allow_n : Limiter → Text → ℕ → ℕ → Bool × Limiter
allow_n l key n now =
    let tokens = refill l (bucket_of l key now) now in
    if ltb tokens (n * l.scale)
    then (false, record l { buckets = put l.buckets key (record { tokens = tokens; last = now }) })
    else (
      true,
      record l {
        buckets = put l.buckets key (record { tokens = tokens - n * l.scale; last = now });
      },
    )

unfoldable pub allow : Limiter → Text → ℕ → Bool × Limiter
unfolding allow_n
allow l key now = allow_n l key 1 now

-- A bucket that has refilled completely.
unfoldable pub is_full : Limiter → ℕ → Bucket → Bool
is_full l now b = leb (cap l) (b.tokens + (now - b.last) * l.gain)

-- Buckets that have refilled completely are forgotten.
unfoldable pub sweep : Limiter → ℕ → Limiter
unfolding is_full
sweep l now = record l { buckets = retain (λ _ b. not (is_full l now b)) l.buckets }
