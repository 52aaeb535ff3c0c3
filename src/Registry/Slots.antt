-- ===== src/Registry/Slots.antt =====
-- The slot counts: what a host has in flight is what was acquired and not released, as long as the
-- host stays registered.
use llm_home_lab.Base.{
  ℕ, String, ◌≡◌, ◌≢◌, refl, ◌∙◌, ap, sym, List, [], ◌∷◌, arith, eq_iff, string_eq, ◌==◌,
  if◌then◌else◌, Option-cases, inl, inr, All,
}
use llm_home_lab.Base.Int.{ℤ, pos, negsuc, ◌+ℤ◌, +ℤ_assoc, +ℤ-zero, zero-+ℤ}
use llm_home_lab.Dict.{lookup, lookup-remove, dict_laws}
use llm_home_lab.Registry.{
  HostCapabilities, HostCapacity, HostRegistry, ok, err, key_error, Call, registers, acquires,
  releases, after, add_slots, deregisters, heartbeats, register, acquire_slot, release_slot,
  heartbeat, deregister, in_flight, step, run,
}

-- Acquisitions less releases of a host.
abbrev pub balance : String → List Call → ℤ
balance h [] = pos 0
balance h (acquires i ∷ cs) = (if i == h then pos 1 else pos 0) +ℤ balance h cs
balance h (releases i ∷ cs) = (if i == h then negsuc 0 else pos 0) +ℤ balance h cs
balance h (_ ∷ cs) = balance h cs

abbrev pub Keeps : String → Call → Type 0
Keeps h (deregisters i) = i ≢ h
Keeps h _ = Unit

abbrev delta : String → Call → ℤ
delta h (acquires i) = if i == h then pos 1 else pos 0
delta h (releases i) = if i == h then negsuc 0 else pos 0
delta h _ = pos 0

pub add_slots-in_flight :
    (n : ℤ) (h i : String) (r : HostRegistry) (k : ℤ)
    → in_flight h r ≡ ok k
    → in_flight h (after r (add_slots n i r)) ≡ ok (k +ℤ (if i == h then n else pos 0))
unfolding add_slots in_flight
add_slots-in_flight n h i r k e = elim (Option-cases (lookup i r.hosts_by_id)) [
  | inl f ↦ rw (f, add_slots) (ground (arith, eq_iff i h, +ℤ-zero k))
  | inr (x, f) ↦ rw (f, add_slots) (simp dict_laws (ground (arith, eq_iff i h, +ℤ-zero k)))
]

step-in_flight :
    (h : String) (r : HostRegistry) (c : Call) (k : ℤ)
    → Keeps h c
    → in_flight h r ≡ ok k
    → in_flight h (step r c) ≡ ok (k +ℤ delta h c)
unfolding step acquire_slot release_slot register heartbeat deregister in_flight
step-in_flight h r (acquires i) k s e = add_slots-in_flight (pos 1) h i r k e
step-in_flight h r (releases i) k s e = add_slots-in_flight (negsuc 0) h i r k e
step-in_flight h r (registers i caps limit at) k s e =
    simp dict_laws (ground (arith, eq_iff i h, +ℤ-zero k))
step-in_flight h r (deregisters i) k s e = simp dict_laws (ground (arith, eq_iff i h, +ℤ-zero k))
step-in_flight h r (heartbeats i at) k s e = elim (Option-cases (lookup i r.hosts_by_id)) [
  | inl f ↦ rw (f, heartbeat) (ground (arith, +ℤ-zero k))
  | inr (x, f) ↦ rw (f, heartbeat) (simp dict_laws (ground (arith, eq_iff i h, +ℤ-zero k)))
]

balance-cons :
    (h : String) (c : Call) (cs : List Call) → balance h (c ∷ cs) ≡ delta h c +ℤ balance h cs
balance-cons h (acquires i) cs = refl
balance-cons h (releases i) cs = refl
balance-cons h (registers i caps limit at) cs = sym (zero-+ℤ (balance h cs))
balance-cons h (deregisters i) cs = sym (zero-+ℤ (balance h cs))
balance-cons h (heartbeats i at) cs = sym (zero-+ℤ (balance h cs))

-- Over any calls that do not deregister it, a host's count moves by its acquisitions less its
-- releases; registering it again and heartbeats do not touch the count.
pub in_flight-run :
    (h : String) (r : HostRegistry) (cs : List Call) (k : ℤ)
    → All (Keeps h) cs
    → in_flight h r ≡ ok k
    → in_flight h (run r cs) ≡ ok (k +ℤ balance h cs)
unfolding run
in_flight-run h r [] k s e = e ∙ ap ok (sym (+ℤ-zero k))
in_flight-run h r (c ∷ cs) k s e =
    in_flight-run h (step r c) cs (k +ℤ delta h c) s.1 (step-in_flight h r c k s.0 e)
    ∙ ap ok (+ℤ_assoc k (delta h c) (balance h cs) ∙ ap (◌+ℤ◌ k) (sym (balance-cons h c cs)))

fresh_count :
    (h : String) (r : HostRegistry) (caps : HostCapabilities) (limit : HostCapacity) (at : ℕ)
    → in_flight h (register h caps limit at (deregister h r)) ≡ ok (pos 0)
unfolding register deregister in_flight
fresh_count h r caps limit at = simp dict_laws (ground (arith, eq_iff h h))

gone : (h : String) (r : HostRegistry) → release_slot h (deregister h r) ≡ err (key_error h)
unfolding deregister release_slot add_slots
gone h r = ground (arith, lookup-remove h h r.hosts_by_id, eq_iff h h)

-- A host that is deregistered and registered again while one of its requests runs ends below zero
-- when that request releases its slot; if it is not registered again, the release raises `KeyError`.
pub release_after_deregister :
    (h : String) (r : HostRegistry) (caps : HostCapabilities) (limit : HostCapacity) (at : ℕ)
    → (in_flight h
          (run r (acquires h ∷ deregisters h ∷ registers h caps limit at ∷ releases h ∷ []))
        ≡ ok (negsuc 0))
      × (release_slot h (run r (acquires h ∷ deregisters h ∷ [])) ≡ err (key_error h))
unfolding run step release_slot
release_after_deregister h r caps limit at =
    let left = step (step r (acquires h)) (deregisters h) in
    let back = register h caps limit at left in
    (
      add_slots-in_flight (negsuc 0) h h back (pos 0)
            (fresh_count h (step r (acquires h)) caps limit at)
          ∙ ap ok (ground (arith, eq_iff h h, zero-+ℤ (negsuc 0))),
      gone h (step r (acquires h)),
    )
