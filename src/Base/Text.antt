-- ===== src/Base/Text.antt =====
-- What the source uses of Python's `str`: the order by code points, and `strip`.
use Prim.Native.Char.{Char, code}
use Prim.Native.String.{String}
use mathlib.Core.Path.{◌≡◌, refl, ap, ◌∙◌}
use mathlib.Core.Bool.{Bool, true, false, ◌&&◌, ◌||◌}
use native.Mathlib.Omega.{arith}
use text.Mathlib.TextEquality.{eq_iff, Char-path}
use mathlib.Core.Logic.{inl, inr}
use llm_home_lab.Base.Tests.{leb, ltb, nat_beq, if◌then◌else◌, ◌==◌, string_eq, Bool-cases}

-- `s <= t`: texts are compared code point by code point.
unfoldable pub str_le : String → String → Bool
str_le String.[] t = true
str_le (String.◌∷◌ c s) String.[] = false
str_le (String.◌∷◌ c s) (String.◌∷◌ d t) =
    ltb (code c) (code d) || nat_beq (code c) (code d) && str_le s t

pub str_le_refl : (s : String) → str_le s s ≡ true
unfolding str_le
str_le_refl String.[] = refl
str_le_refl (String.◌∷◌ c s) = ground (arith, str_le_refl s)

pub str_le_trans : (s t u : String) → str_le s t ≡ true → str_le t u ≡ true → str_le s u ≡ true
unfolding str_le
str_le_trans String.[] t u h k = refl
str_le_trans (String.◌∷◌ c s) String.[] u h k = ground arith
str_le_trans (String.◌∷◌ c s) (String.◌∷◌ d t) String.[] h k = ground arith
str_le_trans (String.◌∷◌ c s) (String.◌∷◌ d t) (String.◌∷◌ b u) h k =
    ground (arith, str_le_trans s t u)

pub str_le_total : (s t : String) → str_le s t ≡ false → str_le t s ≡ true
unfolding str_le
str_le_total String.[] t h = ground arith
str_le_total (String.◌∷◌ c s) String.[] h = refl
str_le_total (String.◌∷◌ c s) (String.◌∷◌ d t) h = ground (arith, str_le_total s t)

-- The code points that `str.isspace` accepts.
unfoldable pub is_space : Char → Bool
is_space ch =
    let c = code ch in
    leb 9 c && leb c 13
    || leb 28 c && leb c 32
    || nat_beq c 133
    || nat_beq c 160
    || nat_beq c 5760
    || leb 8192 c && leb c 8202
    || nat_beq c 8232
    || nat_beq c 8233
    || nat_beq c 8239
    || nat_beq c 8287
    || nat_beq c 12288

lstrip : String → String
lstrip String.[] = String.[]
lstrip (String.◌∷◌ c s) = let rest = lstrip s in if is_space c then rest else String.◌∷◌ c s

rstrip : String → String
rstrip String.[] = String.[]
rstrip (String.◌∷◌ c s) =
    let rest = rstrip s in if is_space c && rest == "" then String.[] else String.◌∷◌ c rest

-- `s.strip()`
unfoldable pub strip : String → String
unfolding is_space lstrip rstrip
strip s = rstrip (lstrip s)

strip_test : strip "  a b \t" ≡ "a b"
unfolding strip
strip_test = refl

-- `s + t`
unfoldable pub append_text : String → String → String
append_text String.[] t = t
append_text (String.◌∷◌ c s) t = String.◌∷◌ c (append_text s t)

-- Whether a text has nothing but spaces.
pub blank : String → Bool
blank String.[] = true
blank (String.◌∷◌ c s) = is_space c && blank s

pub blank-append : (s t : String) → blank (append_text s t) ≡ (blank s && blank t)
unfolding blank append_text
blank-append String.[] t = refl
blank-append (String.◌∷◌ c s) t = ground (arith, blank-append s t)

cons-not_empty : (c : Char) (s : String) → (String.◌∷◌ c s == "") ≡ false
cons-not_empty c s = elim (Bool-cases (String.◌∷◌ c s == "")) [
  | inl e ↦ let same = (eq_iff (String.◌∷◌ c s) "").0 e in absurd (cc)
  | inr e ↦ e
]

rstrip-lstrip : (s : String) → (rstrip (lstrip s) == "") ≡ blank s
unfolding lstrip rstrip blank
rstrip-lstrip String.[] = refl
rstrip-lstrip (String.◌∷◌ c s) = elim (Bool-cases (is_space c)) [
  | inl space ↦ rw (lstrip, space) (rstrip-lstrip s)
  | inr other ↦ rw (lstrip, other, rstrip, other) (cons-not_empty c (rstrip s))
]

-- Stripped to nothing is blank.
pub strip-blank : (s : String) → (strip s == "") ≡ blank s
unfolding strip
strip-blank s = rstrip-lstrip s

pub blank-empty : blank "" ≡ true
unfolding blank
blank-empty = refl

-- `s.startswith(prefix)`
unfoldable pub starts_with : String → String → Bool
starts_with String.[] s = true
starts_with (String.◌∷◌ c prefix) String.[] = false
starts_with (String.◌∷◌ c prefix) (String.◌∷◌ d s) =
    nat_beq (code c) (code d) && starts_with prefix s

-- `s.removeprefix(prefix)`, of a text that starts with it.
unfoldable pub drop_prefix : String → String → String
drop_prefix String.[] s = s
drop_prefix (String.◌∷◌ c prefix) String.[] = ""
drop_prefix (String.◌∷◌ c prefix) (String.◌∷◌ d s) = drop_prefix prefix s

pub append-append :
    (s t u : String) → append_text (append_text s t) u ≡ append_text s (append_text t u)
unfolding append_text
append-append String.[] t u = refl
append-append (String.◌∷◌ c s) t u = ap (String.◌∷◌ c) (append-append s t u)

pub drop_prefix-append : (s t : String) → drop_prefix s (append_text s t) ≡ t
unfolding drop_prefix append_text
drop_prefix-append String.[] t = refl
drop_prefix-append (String.◌∷◌ c s) t = drop_prefix-append s t

pub starts_with-append : (s t : String) → starts_with s (append_text s t) ≡ true
unfolding starts_with append_text
starts_with-append String.[] t = refl
starts_with-append (String.◌∷◌ c s) t = ground (arith, starts_with-append s t)

-- Whether some character is a space.
unfoldable pub has_space : String → Bool
has_space String.[] = false
has_space (String.◌∷◌ c s) = is_space c || has_space s

pub has_space-append : (s t : String) → has_space (append_text s t) ≡ (has_space s || has_space t)
unfolding has_space append_text
has_space-append String.[] t = refl
has_space-append (String.◌∷◌ c s) t = ground (arith, has_space-append s t)

rstrip-plain : (s : String) → has_space s ≡ false → rstrip s ≡ s
unfolding rstrip has_space
rstrip-plain String.[] h = refl
rstrip-plain (String.◌∷◌ c s) h =
    let plain : is_space c ≡ false = ground (arith, h) in
    let rest : has_space s ≡ false = ground (arith, h) in
    rw (rstrip, plain) (ap (String.◌∷◌ c) (rstrip-plain s rest))

lstrip-plain : (s : String) → has_space s ≡ false → lstrip s ≡ s
unfolding lstrip has_space
lstrip-plain String.[] h = refl
lstrip-plain (String.◌∷◌ c s) h =
    let plain : is_space c ≡ false = ground (arith, h) in rw (lstrip, plain) refl

pub strip-plain : (s : String) → has_space s ≡ false → strip s ≡ s
unfolding strip
strip-plain s h = ap rstrip (lstrip-plain s h) ∙ rstrip-plain s h

pub has_space-v1 : has_space "/v1" ≡ false
unfolding has_space is_space
has_space-v1 = refl

pub has_space-slash : has_space "/" ≡ false
unfolding has_space is_space
has_space-slash = refl

-- A text that starts with a prefix is the prefix and a rest.
pub starts_with-split :
    (prefix s : String)
    → starts_with prefix s ≡ true
    → s ≡ append_text prefix (drop_prefix prefix s)
unfolding starts_with append_text drop_prefix
starts_with-split String.[] s h = refl
starts_with-split (String.◌∷◌ c prefix) String.[] h = absurd (cc)
starts_with-split (String.◌∷◌ c prefix) (String.◌∷◌ d s) h =
    let same : code d ≡ code c = ground (arith, h) in
    let rest = starts_with-split prefix s (ground (arith, h)) in
    ap (λ x. String.◌∷◌ x s) (Char-path d c same) ∙ ap (String.◌∷◌ c) rest
