-- ===== src/Leases/Path/Origin.antt =====
-- `orchestrator_origin` of src/llm_home_lab/leases/runner.py on the four spellings of a base address.
use Prim.Native.Char.{Char, code}
use llm_home_lab.Base.{
  ℕ, ◌+◌, String, ◌≡◌, refl, ap, ◌∙◌, Bool, true, false, not, ◌&&◌, ◌||◌, inl, inr, arith,
  if◌then◌else◌, ◌==◌, string_eq, eq_iff, nat_beq, Bool-cases,
}
use llm_home_lab.Base.Text.{
  append_text, has_space, has_space-append, strip-plain, has_space-v1, has_space-slash,
}
use llm_home_lab.Leases.Path.{rstrip_slash, drop_suffix, orchestrator_origin}

unfoldable pub last_is_slash : String → Bool
last_is_slash String.[] = false
last_is_slash (String.◌∷◌ c s) =
    let rest = last_is_slash s in if s == "" then nat_beq (code c) 47 else rest

-- Whether a text ends with a suffix, which is not empty.
unfoldable pub ends_with : String → String → Bool
ends_with suffix String.[] = false
ends_with suffix (String.◌∷◌ c s) = String.◌∷◌ c s == suffix || ends_with suffix s

-- No slash, question mark or number sign, which would end the host and its port.
unfoldable pub is_authority : String → Bool
is_authority String.[] = true
is_authority (String.◌∷◌ c s) =
    not (nat_beq (code c) 47 || nat_beq (code c) 63 || nat_beq (code c) 35) && is_authority s

-- A scheme and a host, without spaces, that end neither with a slash nor with `/v1`.
abbrev pub IsOrigin : String → Type 0
IsOrigin o =
    (has_space o ≡ false)
    × (last_is_slash o ≡ false)
    × (ends_with "/v1" o ≡ false)
    × ((scheme host : String) × (o ≡ append_text scheme (append_text "://" host))
        × (is_authority host ≡ true))

-- How a base address is written.
pub data Spelling : Type 0 where
  bare with_slash with_v1 with_v1_slash : Spelling

abbrev pub spelled : Spelling → String → String
spelled bare o = o
spelled with_slash o = append_text o "/"
spelled with_v1 o = append_text o "/v1"
spelled with_v1_slash o = append_text (append_text o "/v1") "/"

size : String → ℕ
size String.[] = 0
size (String.◌∷◌ c s) = 1 + size s

size-append : (s t : String) → size (append_text s t) ≡ size s + size t
unfolding size append_text
size-append String.[] t = omega arith
size-append (String.◌∷◌ c s) t = omega (arith, size-append s t)

longer : (c : Char) (s t : String) → (String.◌∷◌ c (append_text s t) == t) ≡ false
unfolding size
longer c s t = elim (Bool-cases (String.◌∷◌ c (append_text s t) == t)) [
  | inr other ↦ other
  | inl e ↦
      let same = ap size ((eq_iff (String.◌∷◌ c (append_text s t)) t).0 e) in
      absurd (omega (arith, same, size-append s t))
]

rstrip_slash-kept : (s : String) → last_is_slash s ≡ false → rstrip_slash s ≡ s
unfolding rstrip_slash last_is_slash
rstrip_slash-kept String.[] h = refl
rstrip_slash-kept (String.◌∷◌ c s) h = elim (Bool-cases (s == "")) [
  | inl last ↦
      let empty = (eq_iff s "").0 last in
      let other : nat_beq (code c) 47 ≡ false = rw last at h in
      rw (rstrip_slash, other) (ap (String.◌∷◌ c) (rstrip_slash-kept s (rw empty refl)))
  | inr more ↦
      let rest = rstrip_slash-kept s (rw more at h) in
      rw (rstrip_slash, rest, more)
        (elim (Bool-cases (nat_beq (code c) 47)) [
          | inl slash ↦ rw slash refl
          | inr other ↦ rw other refl
        ])
]

rstrip_slash-gone :
    (s t : String) → rstrip_slash t ≡ "" → rstrip_slash (append_text s t) ≡ rstrip_slash s
unfolding rstrip_slash append_text
rstrip_slash-gone String.[] t h = h
rstrip_slash-gone (String.◌∷◌ c s) t h =
    rw (append_text, rstrip_slash, rstrip_slash-gone s t h) refl

filled : (s t : String) → (t == "") ≡ false → (append_text s t == "") ≡ true → ⊥
unfolding append_text
filled String.[] t h e = ground arith
filled (String.◌∷◌ c s) t h e = let same = (eq_iff (String.◌∷◌ c (append_text s t)) "").0 e in cc

last_is_slash-append :
    (s t : String) → (t == "") ≡ false → last_is_slash (append_text s t) ≡ last_is_slash t
unfolding last_is_slash append_text
last_is_slash-append String.[] t h = refl
last_is_slash-append (String.◌∷◌ c s) t h =
    let rest = last_is_slash-append s t h in
    elim (Bool-cases (append_text s t == "")) [
      | inr more ↦ rw (append_text, last_is_slash, more) rest
      | inl e ↦ absurd (filled s t h e)
    ]

drop_suffix-kept : (suffix s : String) → ends_with suffix s ≡ false → drop_suffix suffix s ≡ s
unfolding drop_suffix ends_with
drop_suffix-kept suffix String.[] h = refl
drop_suffix-kept suffix (String.◌∷◌ c s) h = elim (Bool-cases (String.◌∷◌ c s == suffix)) [
  | inl e ↦ absurd (ground (arith, h))
  | inr other ↦
      rw (drop_suffix, other) (ap (String.◌∷◌ c) (drop_suffix-kept suffix s (rw other at h)))
]

drop_suffix-append :
    (suffix s : String)
    → drop_suffix suffix suffix ≡ ""
    → drop_suffix suffix (append_text s suffix) ≡ s
unfolding drop_suffix append_text
drop_suffix-append suffix String.[] h = h
drop_suffix-append suffix (String.◌∷◌ c s) h =
    rw (append_text, drop_suffix, longer c s suffix)
      (ap (String.◌∷◌ c) (drop_suffix-append suffix s h))

v1-slashless : (o : String) → rstrip_slash (append_text o "/v1") ≡ append_text o "/v1"
unfolding last_is_slash
v1-slashless o = rstrip_slash-kept (append_text o "/v1") (last_is_slash-append o "/v1" refl)

-- Every spelling of an origin has this origin.
pub orchestrator_origin-spelled :
    (k : Spelling) (o : String) → IsOrigin o → orchestrator_origin (spelled k o) ≡ o
unfolding orchestrator_origin rstrip_slash drop_suffix
orchestrator_origin-spelled bare o (plain, last, other, _) =
    rw (strip-plain o plain, rstrip_slash-kept o last) (drop_suffix-kept "/v1" o other)
orchestrator_origin-spelled with_slash o (plain, last, other, _) =
    rw
      (
        strip-plain (append_text o "/") (has_space-append o "/" ∙ rw (plain, has_space-slash) refl),
        rstrip_slash-gone o "/" refl,
        rstrip_slash-kept o last,
      )
      (drop_suffix-kept "/v1" o other)
orchestrator_origin-spelled with_v1 o (plain, last, other, _) =
    rw
      (
        strip-plain (append_text o "/v1")
            (has_space-append o "/v1" ∙ rw (plain, has_space-v1) refl),
        v1-slashless o,
      )
      (drop_suffix-append "/v1" o refl)
orchestrator_origin-spelled with_v1_slash o (plain, last, other, _) =
    let versioned = append_text o "/v1" in
    let no_space : has_space versioned ≡ false =
      has_space-append o "/v1" ∙ rw (plain, has_space-v1) refl in
    rw
      (
        strip-plain (append_text versioned "/")
            (has_space-append versioned "/" ∙ rw (no_space, has_space-slash) refl),
        rstrip_slash-gone versioned "/" refl,
        v1-slashless o,
      )
      (drop_suffix-append "/v1" o refl)
