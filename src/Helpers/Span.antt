-- ===== src/Helpers/Span.antt =====
-- The loop of `date_span` in src/quads/helpers/utils.py ends, and yields the dates of the span.
use quads.Base.{
  ℕ, zero, suc, ◌+◌, ◌≡◌, ◌≤◌, ◌<◌, refl, inl, inr, Bool-cases, some, List, [], ◌∷◌, arith, ltb,
  false,
}
use quads.Helpers.{date_span}

-- The dates start at the first, each is one step after the one before and earlier than the end, and the
-- step after the last is not.
abbrev pub IsSpan : ℕ → ℕ → ℕ → List ℕ → Type 0
IsSpan current end delta [] = end ≤ current
IsSpan current end delta (d ∷ dates) =
    (d ≡ current) × (current < end) × IsSpan (current + delta) end delta dates

-- With a step that is not zero the loop ends after at most as many turns as the span is long, and yields
-- the dates from the start on, step by step, that are earlier than the end, and all of them.
pub date_span-IsSpan :
    (fuel current end delta : ℕ)
    → 0 < delta
    → end ≤ current + fuel
    → (dates : List ℕ) × (date_span (suc fuel) current end delta ≡ some dates)
      × IsSpan current end delta dates
unfolding date_span
date_span-IsSpan zero current end delta step enough =
    let over : ltb current end ≡ false = ground arith in ([], rw over refl, ground arith)
date_span-IsSpan (suc fuel) current end delta step enough = elim (Bool-cases (ltb current end)) [
  | inr over ↦ ([], rw over refl, ground arith)
  | inl on ↦
      let (dates, found, span) =
        date_span-IsSpan fuel (current + delta) end delta step (ground arith) in
      (current ∷ dates, rw (on, found) refl, (refl, ground arith, span))
]
