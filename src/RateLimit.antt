-- ===== src/RateLimit.antt =====
-- app/core/ratelimit.py: the sliding-window limiter in front of the key endpoints. The clock's
-- readings are arguments; `hits[0] < now - window` is written without a subtraction. The dictionary
-- of deques is a function, since a `defaultdict` answers every key. The lock makes each call one
-- step, so a run is a list of calls.
pub mod Window
pub mod Exact
mod Samples
use intelli_study_planner_br.Base.{
  ℕ, ◌+◌, Bool, true, false, List, [], ◌∷◌, ◌++◌, Text, Option, none, some, ltb, leb, length,
  if◌then◌else◌, ◌==◌, text_eq,
}

pub record RateLimiter : Type 0 where
  pub limit : ℕ
  pub window : ℕ
  pub hits : Text → List ℕ

pub create : ℕ → ℕ → RateLimiter
create limit window = record { limit = limit; window = window; hits = λ key. [] }

-- `while hits and hits[0] < cutoff: hits.popleft()`
pub expire : ℕ → ℕ → List ℕ → List ℕ
expire window now [] = []
expire window now (t ∷ ts) = if ltb (t + window) now then expire window now ts else t ∷ ts

abbrev update : Text → List ℕ → (Text → List ℕ) → Text → List ℕ
update key ts hits k = if key == k then ts else hits k

pub allow : Text → ℕ → RateLimiter → Bool × RateLimiter
allow key now l =
    let live : List ℕ = expire l.window now (l.hits key) in
    if leb l.limit (length live)
    then (false, record l { hits = update key live l.hits })
    else (true, record l { hits = update key (live ++ now ∷ []) l.hits })

pub reset : Option Text → RateLimiter → RateLimiter
reset none l = record l { hits = λ key. [] }
reset (some key) l = record l { hits = update key [] l.hits }

-- The limiter after a run of calls.
pub run : RateLimiter → List (Text × ℕ) → RateLimiter
run l [] = l
run l ((k, now) ∷ calls) = run (allow k now l).1 calls

-- The times at which the calls of a run were let through for one key.
pub granted : Text → RateLimiter → List (Text × ℕ) → List ℕ
granted key l [] = []
granted key l ((k, now) ∷ calls) =
    let (ok, after) = allow k now l in
    let later : List ℕ = granted key after calls in
    if ok then (if k == key then now ∷ later else later) else later
