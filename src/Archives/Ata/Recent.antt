-- ===== src/Archives/Ata/Recent.antt =====
-- The cache against what it stands for: the chain, asked at most thirty seconds ago.
use sol_arch.Prelude.{
  ℕ, ◌-◌, ◌<◌, String, ◌≡◌, refl, sym, ap, ◌∙◌, Bool, true, false, Option, none, some, List, [],
  ◌∷◌, ◌⊎◌, inl, inr, arith, eq_iff, ltb, truthy, ◌==◌, Bool-cases, if◌then◌else◌,
}
use sol_arch.Table.{find, put}
use sol_arch.Table.Laws.{find-put}
use sol_arch.Archives.Ata.{
  AtaStatus, AtaCache, cached_answer, ask, ask_chain, is_ata_ready, cache_lifetime,
}

-- An answer of the chain, or the account that `publish` has found or created.
pub record Observation : Type 0 where
  pub address : String
  pub ready : Bool
  pub time : ℕ

abbrev pub Seen : String → AtaStatus → List Observation → Type 0
Seen address s [] = ⊥
Seen address s (o ∷ os) =
    ((o.address ≡ address) × (o.ready ≡ s.ready) × (o.time ≡ s.timestamp)) ⊎ Seen address s os

pub data Call : Type 0 where
  -- `isAtaReady`, with the flag, the chain's answers and the two times
  asked : Bool → (String → Bool) → ℕ → ℕ → Option String → Call
  -- `publish` has seen the account
  found : String → ℕ → Call

-- The cache, and what has been observed so far.
pub record Memory : Type 0 where
  pub cache : AtaCache
  pub observed : List Observation

abbrev pub observing : Option Bool → Observation → List Observation → List Observation
observing (some ready) o os = os
observing none o os = o ∷ os

-- What a call observes: the chain's answer, where the address is not empty and has no fresh entry.
abbrev pub observes : Bool → (String → Bool) → ℕ → ℕ → Memory → Option String → List Observation
observes skip exists now later m none = m.observed
observes skip exists now later m (some address) =
    if skip
    then m.observed
    else observing (cached_answer now (find address m.cache))
        (record { address = address; ready = exists address; time = later }) m.observed

abbrev pub entry : Bool → ℕ → AtaStatus
entry ready time = record { ready = ready; timestamp = time }

unfoldable pub step : Call → Memory → Memory
step (asked skip exists now later address) m = record {
  cache = (is_ata_ready skip exists now later m.cache address).1;
  observed = observes skip exists now later m (truthy address);
}
step (found address now) m = record {
  cache = put address (entry true now) m.cache;
  observed = record { address = address; ready = true; time = now } ∷ m.observed;
}

unfoldable pub remember : List Call → Memory
unfolding step
remember [] = record { cache = []; observed = [] }
remember (c ∷ cs) = step c (remember cs)

-- Every entry of the cache was observed.
pub record Faithful (m : Memory) : Type 0 where
  pub seen :
      (address : String) (s : AtaStatus) → find address m.cache ≡ some s → Seen address s m.observed

some_inj : {A : Type 0} {a b : A} → some a ≡ some b → a ≡ b
some_inj h = cc h

put_seen :
    (m : Memory) (key : String) (ready : Bool) (time : ℕ) (address : String) (s : AtaStatus)
    → Faithful m
    → find address (put key (entry ready time) m.cache) ≡ some s
    → Seen address s (record { address = key; ready = ready; time = time } ∷ m.observed)
put_seen m key ready time address s h e =
    let row = sym (find-put key address (entry ready time) m.cache) ∙ e in
    elim (Bool-cases (key == address)) [
      | inl own ↦
          let same = some_inj (rw (own) at row) in
          inl ((eq_iff key address).0 own, ap (λ x. x.ready) same, ap (λ x. x.timestamp) same)
      | inr other ↦ inr (h.seen address s (rw (other) at row))
    ]

asked-Faithful :
    (o : Option Bool) (address : String) (ready : Bool) (later : ℕ) (m : Memory)
    → Faithful m
    → Faithful (record {
      cache = (ask_chain address ready later m.cache o).1;
      observed = observing o (record { address = address; ready = ready; time = later }) m.observed;
    })
asked-Faithful none address ready later m h = record {
  seen = λ a s e. put_seen m address ready later a s h e;
}
asked-Faithful (some known) address ready later m h = record { seen = h.seen }

called-Faithful :
    (skip : Bool) (exists : String → Bool) (now later : ℕ) (address : Option String) (m : Memory)
    → Faithful m
    → Faithful (record {
      cache = (ask skip exists now later m.cache address).1;
      observed = observes skip exists now later m address;
    })
called-Faithful skip exists now later none m h = record { seen = h.seen }
called-Faithful true exists now later (some address) m h = record { seen = h.seen }
called-Faithful false exists now later (some address) m h =
    asked-Faithful (cached_answer now (find address m.cache)) address (exists address) later m h

step-Faithful : (c : Call) (m : Memory) → Faithful m → Faithful (step c m)
unfolding step is_ata_ready
step-Faithful (asked skip exists now later address) m h =
    called-Faithful skip exists now later (truthy address) m h
step-Faithful (found address now) m h = record {
  seen = λ a s e. put_seen m address true now a s h e;
}

remember-Faithful : (calls : List Call) → Faithful (remember calls)
unfolding remember find
remember-Faithful [] = record { seen = λ address s e. absurd (cc e) }
remember-Faithful (c ∷ cs) = step-Faithful c (remember cs) (remember-Faithful cs)

-- The answer is the chain's, or that of an entry younger than thirty seconds.
answered :
    (m : Memory) (address : String) (ready : Bool) (now later : ℕ) (o : Option AtaStatus)
    → Faithful m
    → find address m.cache ≡ o
    → ((ask_chain address ready later m.cache (cached_answer now o)).0 ≡ ready)
      ⊎ ((s : AtaStatus) × Seen address s m.observed
          × ((ask_chain address ready later m.cache (cached_answer now o)).0 ≡ s.ready)
          × (now - s.timestamp < cache_lifetime))
unfolding cached_answer
answered m address ready now later none h e = inl refl
answered m address ready now later (some s) h e =
    elim (Bool-cases (ltb (now - s.timestamp) cache_lifetime)) [
      | inl fresh ↦ rw (fresh) (inr (s, h.seen address s e, refl, ground (arith, fresh)))
      | inr old ↦ rw (old) (inl refl)
    ]

-- With the cache that any calls of isAtaReady and publish have left, isAtaReady answers of an address what the chain answers
-- now, or what was observed of the same address less than thirty seconds before.
pub is_ata_ready_lem :
    (calls : List Call) (exists : String → Bool) (now later : ℕ) (address : String)
    → truthy (some address) ≡ some address
    → ((is_ata_ready false exists now later (remember calls).cache (some address)).0
        ≡ exists address)
      ⊎ ((s : AtaStatus) × Seen address s (remember calls).observed
          × ((is_ata_ready false exists now later (remember calls).cache (some address)).0
              ≡ s.ready)
          × (now - s.timestamp < cache_lifetime))
unfolding is_ata_ready
is_ata_ready_lem calls exists now later address named =
    let m = remember calls in
    rw (named) (
      answered m address (exists address) now later (find address m.cache) (remember-Faithful calls)
        refl)
