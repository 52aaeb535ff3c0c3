-- ===== src/Metrics/Eviction.antt =====
-- The eager eviction of old samples: what it leaves in a dictionary whose samples are in order of time.
use llm_home_lab.Base.{
  ℕ, ◌+◌, ◌-◌, ◌≤◌, String, ◌≡◌, refl, Bool, true, ◌&&◌, not, List, [], ◌∷◌, ◌++◌, arith, ltb,
  string_eq, nat_eq, inl, inr, count, count-append, All, All-append, Option-cases,
}
use llm_home_lab.Dict.{Dict, lookup, insert, All-lookup}
use llm_home_lab.Metrics.{Sample, evict, samples_of}
use llm_home_lab.Metrics.Snapshot.{evict_all, all_samples}
use llm_home_lab.Metrics.Runs.{Call}

abbrev pub recent : ℕ → ℕ → Sample → Bool
recent window at s = not (ltb window (at - s.at))

-- The requests of a history.
unfoldable pub requested : Call → List Sample
requested (Call.request endpoint status_code latency_ms at) =
    record { status_code = status_code; latency_ms = latency_ms; at = at } ∷ []
requested (Call.failover succeeded at) = []
requested (Call.token_usage host_id prompt_tokens completion_tokens) = []
requested (Call.completion host_id latency_ms prompt_tokens completion_tokens) = []

unfoldable pub requests_in : List Call → List Sample
requests_in [] = []
requests_in (c ∷ cs) = requested c ++ requests_in cs

-- The times of the requests never decrease from `now` to `at`.
unfoldable pub InOrder : ℕ → List Call → ℕ → Type 0
InOrder now [] at = now ≤ at
InOrder now (Call.request endpoint status_code latency_ms t ∷ cs) at = (now ≤ t) × InOrder t cs at
InOrder now (Call.failover succeeded t ∷ cs) at = InOrder now cs at
InOrder now (Call.token_usage host_id prompt_tokens completion_tokens ∷ cs) at = InOrder now cs at
InOrder now (Call.completion host_id latency_ms prompt_tokens completion_tokens ∷ cs) at =
    InOrder now cs at

module _ (p : Sample → Bool) (window at : ℕ) where
  unfoldable pub live : Sample → Bool
  live s = recent window at s && p s

  -- What is evicted at a time is not recent at any later one.
  pub count-evict :
      (t : ℕ) (ss : List Sample)
      → t ≤ at
      → count live (evict (λ s. s.at) window t ss) ≡ count live ss
  unfolding count evict live
  count-evict t [] h = refl
  count-evict t (s ∷ ss) h = ground (arith, count-evict t ss h)

  pub all_samples-insert :
      (k : String) (ss : List Sample) (d : Dict String (List Sample))
      → count p (all_samples (insert k ss d)) + count p (samples_of k d)
        ≡ count p (all_samples d) + count p ss
  unfolding all_samples insert samples_of lookup count
  all_samples-insert k ss [] = ground (arith, count-append p ss [])
  all_samples-insert k ss ((j, old) ∷ d) = ground (
    arith,
    all_samples-insert k ss d,
    count-append p ss (all_samples d),
    count-append p old (all_samples d),
    count-append p old (all_samples (insert k ss d)),
  )

-- Samples whose times never decrease, and none of which is later than `now`.
abbrev pub IsOrdered : ℕ → List Sample → Type 0
IsOrdered now [] = Unit
IsOrdered now (s ∷ ss) = (s.at ≤ now) × All (λ r. s.at ≤ r.at) ss × IsOrdered now ss

pub later-IsOrdered : (now t : ℕ) (ss : List Sample) → now ≤ t → IsOrdered now ss → IsOrdered t ss
later-IsOrdered now t [] h o = tt
later-IsOrdered now t (s ∷ ss) h o = (omega (arith, o.0), o.1, later-IsOrdered now t ss h o.2)

pub append-IsOrdered :
    (now : ℕ) (s : Sample) (ss : List Sample)
    → now ≤ s.at
    → IsOrdered now ss
    → IsOrdered s.at (ss ++ s ∷ [])
append-IsOrdered now s [] h o = (omega arith, tt, tt)
append-IsOrdered now s (r ∷ ss) h o = (
  omega (arith, o.0),
  All-append (λ x. r.at ≤ x.at) ss (s ∷ []) o.1 (omega (arith, o.0), tt),
  append-IsOrdered now s ss h o.2,
)

pub evict-IsOrdered :
    (window t now : ℕ) (ss : List Sample)
    → IsOrdered now ss
    → IsOrdered now (evict (λ s. s.at) window t ss)
unfolding evict
evict-IsOrdered window t now [] o = tt
evict-IsOrdered window t now (s ∷ ss) o = ground (arith, evict-IsOrdered window t now ss o.2)

-- Where a sample is recent, all after it are.
count-recent :
    (p : Sample → Bool) (window at : ℕ) (s : Sample) (ss : List Sample)
    → recent window at s ≡ true
    → All (λ r. s.at ≤ r.at) ss
    → count p ss ≡ count (live p window at) ss
unfolding count live
count-recent p window at s [] h o = refl
count-recent p window at s (r ∷ ss) h o = ground (arith, count-recent p window at s ss h o.1)

count-evicted :
    (p : Sample → Bool) (window at now : ℕ) (ss : List Sample)
    → IsOrdered now ss
    → count p (evict (λ s. s.at) window at ss) ≡ count (live p window at) ss
unfolding count evict live
count-evicted p window at now [] o = refl
count-evicted p window at now (s ∷ ss) o =
    ground (arith, count-evicted p window at now ss o.2, count-recent p window at s ss)

abbrev pub AllOrdered : ℕ → Dict String (List Sample) → Type 0
AllOrdered now = All (λ (e : String × List Sample). IsOrdered now e.1)

pub insert-AllOrdered :
    (now : ℕ) (k : String) (ss : List Sample) (d : Dict String (List Sample))
    → IsOrdered now ss
    → AllOrdered now d
    → AllOrdered now (insert k ss d)
unfolding insert
insert-AllOrdered now k ss [] o a = (o, tt)
insert-AllOrdered now k ss ((j, old) ∷ d) o a = ground (arith, insert-AllOrdered now k ss d o a.1)

pub samples_of-IsOrdered :
    (now : ℕ) (k : String) (d : Dict String (List Sample))
    → AllOrdered now d
    → IsOrdered now (samples_of k d)
unfolding samples_of
samples_of-IsOrdered now k d a = elim (Option-cases (lookup k d)) [
  | inl e ↦ rw (samples_of, e) tt
  | inr (ss, e) ↦
      rw (samples_of, e) (All-lookup (λ (x : String × List Sample). IsOrdered now x.1) k d ss a e)
]

pub count-evict_all :
    (p : Sample → Bool) (window at now : ℕ) (d : Dict String (List Sample))
    → AllOrdered now d
    → count p (all_samples (evict_all window at d)) ≡ count (live p window at) (all_samples d)
unfolding all_samples evict_all count
count-evict_all p window at now [] a = refl
count-evict_all p window at now ((k, ss) ∷ d) a = omega (
  arith,
  count-append p (evict (λ s. s.at) window at ss) (all_samples (evict_all window at d)),
  count-append (live p window at) ss (all_samples d),
  count-evicted p window at now ss a.0,
  count-evict_all p window at now d a.1,
)
