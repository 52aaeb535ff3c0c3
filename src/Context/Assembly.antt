-- ===== src/Context/Assembly.antt =====
-- What `assemble_context` keeps of the messages, and that it fits the budget.
use llm_home_lab.Base.{
  ℕ, ◌+◌, ◌-◌, ◌≤◌, ◌≡◌, refl, ap, sym, ◌∙◌, true, ◌⊎◌, inl, inr, Option, List, [], ◌∷◌, ◌++◌, map,
  arith, ltb, length, length-append, Bool-cases,
}
use llm_home_lab.Base.Int.{ℤ, pos, leb_ℤ, ltb_ℤ, pos_part, neg_part}
use llm_home_lab.State.{Session, Summary}
use llm_home_lab.Context.{
  Message, total_chars, estimate_tokens, summary_message, raw_message, less, reversed, keep_from,
  kept_messages, assemble_context,
}

-- `reversed` of a concatenation, and twice.
reversed-append : (xs ys k : List Message) → reversed (xs ++ ys) k ≡ reversed ys (reversed xs k)
reversed-append [] ys k = refl
reversed-append (x ∷ xs) ys k = reversed-append xs ys (x ∷ k)

reversed-reversed : (xs k j : List Message) → reversed (reversed xs k) j ≡ reversed k (xs ++ j)
reversed-reversed [] k j = refl
reversed-reversed (x ∷ xs) k j = reversed-reversed xs (x ∷ k) j

reversed_onto : (xs ys zs : List Message) → reversed xs (ys ++ zs) ≡ reversed xs ys ++ zs
reversed_onto [] ys zs = refl
reversed_onto (x ∷ xs) ys zs = reversed_onto xs (x ∷ ys) zs

append_empty : (xs : List Message) → xs ++ [] ≡ xs
append_empty [] = refl
append_empty (x ∷ xs) = ap (λ k. x ∷ k) (append_empty xs)

-- The loop takes messages from the front of what it is given.
keep_from-taken :
    (ms kept : List Message) (r : ℤ)
    → (taken : List Message) × (left : List Message) × (ms ≡ taken ++ left)
      × (keep_from ms kept r ≡ reversed taken kept)
unfolding keep_from
keep_from-taken [] kept r = ([], [], refl, refl)
keep_from-taken (m ∷ ms) [] r =
    let (taken, left, split, result) =
      keep_from-taken ms (m ∷ []) (less r (estimate_tokens (m ∷ []))) in
    (m ∷ taken, left, ap (λ k. m ∷ k) split, result)
keep_from-taken (m ∷ ms) (k ∷ ks) r = elim (Bool-cases (ltb_ℤ r (pos (estimate_tokens (m ∷ []))))) [
  | inl over ↦ ([], m ∷ ms, refl, rw over refl)
  | inr fits ↦
      let (taken, left, split, result) =
        keep_from-taken ms (m ∷ k ∷ ks) (less r (estimate_tokens (m ∷ []))) in
      (m ∷ taken, left, ap (λ j. m ∷ j) split, rw fits result)
]

kept-suffix :
    (summary : Option Summary) (raw : List Message) (b : ℤ)
    → (front : List Message) × (raw ≡ front ++ kept_messages summary raw b)
unfolding kept_messages
kept-suffix summary raw b =
    let r = less b (estimate_tokens (summary_message summary)) in
    let (taken, left, split, result) = keep_from-taken (reversed raw []) [] r in
    (
      reversed left [],
      sym (append_empty raw)
          ∙ sym (reversed-reversed raw [] [])
          ∙ ap (λ k. reversed k []) split
          ∙ reversed-append taken left []
          ∙ reversed_onto left [] (reversed taken [])
          ∙ ap (λ k. reversed left [] ++ k) (sym result),
    )

-- The costs one by one, as the loop subtracts them.
abbrev costs : List Message → ℕ
costs [] = 0
costs (m ∷ ms) = estimate_tokens (m ∷ []) + costs ms

total_chars-append :
    (xs ys : List Message) → total_chars (xs ++ ys) ≡ total_chars xs + total_chars ys
total_chars-append [] ys = omega arith
total_chars-append (x ∷ xs) ys = omega (arith, total_chars-append xs ys)

estimate-costs : (ms : List Message) → estimate_tokens ms ≤ costs ms
unfolding estimate_tokens
estimate-costs [] = omega arith
estimate-costs (m ∷ ms) = omega (arith, estimate-costs ms)

estimate-append :
    (xs ys : List Message) → estimate_tokens (xs ++ ys) ≤ estimate_tokens xs + estimate_tokens ys
unfolding estimate_tokens
estimate-append xs ys = omega (arith, total_chars-append xs ys)

-- With a message kept, the loop adds no more than what remains.
keep_from-costs :
    (ms : List Message) (k : Message) (ks : List Message) (r : ℤ)
    → (keep_from ms (k ∷ ks) r ≡ k ∷ ks)
      ⊎ (costs (keep_from ms (k ∷ ks) r) + neg_part r ≤ costs (k ∷ ks) + pos_part r)
unfolding keep_from
keep_from-costs [] k ks r = inl refl
keep_from-costs (m ∷ ms) k ks r = elim (Bool-cases (ltb_ℤ r (pos (estimate_tokens (m ∷ []))))) [
  | inl over ↦ inl (rw over refl)
  | inr fits ↦ inr (
      rw fits (elim (keep_from-costs ms m (k ∷ ks) (less r (estimate_tokens (m ∷ [])))) [
        | inl stopped ↦ rw stopped (ground (arith, fits))
        | inr more ↦ ground (arith, fits, more)
      ]))
]

length-reversed : (xs k : List Message) → length (reversed xs k) ≡ length xs + length k
length-reversed [] k = omega arith
length-reversed (x ∷ xs) k = omega (arith, length-reversed xs (x ∷ k))

keep_from-some :
    (ms : List Message) (r : ℤ)
    → (1 ≤ length ms → 1 ≤ length (keep_from ms [] r))
      × ((length (keep_from ms [] r) ≤ 1) ⊎ (costs (keep_from ms [] r) + neg_part r ≤ pos_part r))
unfolding keep_from
keep_from-some [] r = ((λ h. h), inl (omega arith))
keep_from-some (m ∷ ms) r =
    let r' = less r (estimate_tokens (m ∷ [])) in
    let (taken, left, split, result) = keep_from-taken ms (m ∷ []) r' in
    (
      (λ h. omega (arith, ap (length {A = Message}) result, length-reversed taken (m ∷ []))),
      elim (keep_from-costs ms m [] r') [
        | inl stopped ↦ inl (rw stopped (omega arith))
        | inr more ↦ inr (ground (arith, more))
      ],
    )

-- The assembled messages are the summary's, if there is one, and a last part of the session's, with
-- at least one message if there is any; the number of the dropped ones and the mark of compaction
-- fit, and the whole is within the budget unless a single message or none is kept.
pub assemble_context-fits :
    (session : Session) (b : ℤ)
    → let raw = map raw_message session.messages in
      let r = assemble_context session b in
      (kept : List Message) × (front : List Message) × (raw ≡ front ++ kept)
      × (r.messages ≡ summary_message session.summary ++ kept)
      × (r.dropped_message_count ≡ length front)
      × (r.compacted ≡ ltb 0 (length front))
      × (1 ≤ length raw → 1 ≤ length kept)
      × ((length kept ≤ 1) ⊎ (leb_ℤ (pos (estimate_tokens r.messages)) b ≡ true))
unfolding assemble_context kept_messages
assemble_context-fits session b =
    let head = summary_message session.summary in
    let raw = map raw_message session.messages in
    let kept = kept_messages session.summary raw b in
    let (front, split) = kept-suffix session.summary raw b in
    let (nonempty, fits) = keep_from-some (reversed raw []) (less b (estimate_tokens head)) in
    elim (Bool-cases (leb_ℤ (pos (estimate_tokens (head ++ raw))) b)) [
      | inl whole ↦ (
        raw,
        [],
        refl,
        rw whole refl,
        rw whole refl,
        rw whole refl,
        (λ h. h),
        inr (rw whole whole),
      )
      | inr over ↦
          let dropped : length raw - length kept ≡ length front =
            omega (arith, ap (length {A = Message}) split, length-append front kept) in
          (
            kept,
            front,
            split,
            rw over refl,
            rw over dropped,
            rw over (ap (ltb 0) dropped),
            (λ h. nonempty (omega (arith, h, length-reversed raw []))),
            elim fits [
              | inl one ↦ inl one
              | inr within ↦
                  inr (
                    rw over
                      (ground (arith, within, estimate-append head kept, estimate-costs kept)))
            ],
          )
    ]
