-- ===== src/Cache.antt =====
-- src/pii/cache.rs: detections of whole fields, kept in two generations and found again by the exact
-- bytes of the field. The lock is held for the map alone, so a call is a look-up, a detection and an
-- entry; the model runs the three as one step.
pub mod Laws
mod Examples
use llm_proxy_pii_rust.Prelude.{
  ℕ, ◌*◌, Bool, true, false, ◌&&◌, List, [], ◌∷◌, Option, none, some, leb, if◌then◌else◌, length,
  Bytes, bytes_eq, bytes_beq, max,
}
use llm_proxy_pii_rust.Prelude.Maps.{Dict, lookup, insert, remove}
use llm_proxy_pii_rust.Entity.{PiiEntity, DetectError, Outcome, ok, err}
use llm_proxy_pii_rust.Budget.{Budget}
use llm_proxy_pii_rust.Detector.{Detection}

abbrev pub min_cacheable_len : ℕ
min_cacheable_len = 256

abbrev pub max_cacheable_len : ℕ
max_cacheable_len = 131072

pub record Generational : Type 0 where
  pub cap : ℕ
  pub current : Dict Bytes (List PiiEntity)
  pub previous : Dict Bytes (List PiiEntity)

unfoldable pub new : ℕ → Generational
new cap = record { cap = max cap 1; current = []; previous = [] }

-- A full generation becomes the cold one, and a fresh one starts.
unfoldable pub put : Bytes → List PiiEntity → Generational → Generational
unfolding insert bytes_beq
put key val g =
    if leb g.cap (length g.current)
    then record g { previous = g.current; current = insert key val [] }
    else record g { current = insert key val g.current }

-- A hit in the cold generation is put into the current one.
unfoldable pub get : Bytes → Generational → Option (List PiiEntity) × Generational
unfolding lookup remove put bytes_beq
get key g = elim (lookup key g.current) [
  | some v ↦ (some v, g)
  | none ↦ elim (lookup key g.previous) [
    | some v ↦ (some v, put key v (record g { previous = remove key g.previous }))
    | none ↦ (none, g)
  ]
]

unfoldable pub cacheable : Bytes → Bool
cacheable input = leb min_cacheable_len (length input) && leb (length input) max_cacheable_len

abbrev pub Cached : Type 0
Cached = Outcome DetectError (List PiiEntity) × Budget × Generational

-- What was detected is entered. An error never is.
unfoldable pub enter : Bytes → Generational → Outcome DetectError (List PiiEntity) × Budget → Cached
unfolding put
enter input g (err e, b) = (err e, b, g)
enter input g (ok detected, b) = (ok detected, b, put input detected g)

-- A hit answers; a miss detects.
unfoldable pub on_read :
    Detection → Bytes → Budget → Option (List PiiEntity) × Generational → Cached
unfolding enter
on_read inner input b (some v, g) = (ok v, b, g)
on_read inner input b (none, g) = enter input g (inner input b)

-- `CachingDetector::try_detect` round the detector `inner`.
unfoldable pub try_detect : Detection → Bytes → Budget → Generational → Cached
unfolding on_read get cacheable
try_detect inner input b g =
    if cacheable input
    then on_read inner input b (get input g)
    else let (out, b') = inner input b in (out, b', g)
