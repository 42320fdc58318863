-- ===== src/Archives/Ata.antt =====
-- `isAtaReady` and its cache of thirty seconds.
pub mod Recent
use sol_arch.Prelude.{
  ℕ, ◌-◌, String, Bool, true, false, Option, none, some, List, [], ◌∷◌, ltb, truthy, if◌then◌else◌,
}
use sol_arch.Table.{Table, find, put}

pub record AtaStatus : Type 0 where
  pub ready : Bool
  pub timestamp : ℕ

-- `ataStatusCache`
abbrev pub AtaCache : Type 0
AtaCache = Table AtaStatus

abbrev pub cache_lifetime : ℕ
cache_lifetime = 30000

-- The answer of a fresh entry. `now` is the reading of a clock that does not run backwards.
unfoldable pub cached_answer : ℕ → Option AtaStatus → Option Bool
cached_answer now none = none
cached_answer now (some s) = if ltb (now - s.timestamp) cache_lifetime then some s.ready else none

abbrev pub ask_chain : String → Bool → ℕ → AtaCache → Option Bool → Bool × AtaCache
ask_chain address exists later cache (some ready) = (ready, cache)
ask_chain address exists later cache none =
    (exists, put address (record { ready = exists; timestamp = later }) cache)

abbrev pub ask : Bool → (String → Bool) → ℕ → ℕ → AtaCache → Option String → Bool × AtaCache
ask skip exists now later cache none = (false, cache)
ask skip exists now later cache (some address) =
    if skip
    then (true, cache)
    else ask_chain address (exists address) later cache (cached_answer now (find address cache))

-- `isAtaReady`, by the flag `skipAtaVerification`, the chain's answers (`getAccount` returns), the time
-- of the call and the time at which the chain has answered
unfoldable pub is_ata_ready :
    Bool → (String → Bool) → ℕ → ℕ → AtaCache → Option String → Bool × AtaCache
unfolding cached_answer
is_ata_ready skip exists now later cache address = ask skip exists now later cache (truthy address)
