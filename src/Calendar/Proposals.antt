-- ===== src/Calendar/Proposals.antt =====
-- What apps/api/src/lib/calendar-availability.ts proposes.
use ai_phone_plattform.Prelude.{
  ℕ, zero, suc, ◌+◌, ◌*◌, ◌/◌, ◌-◌, ◌%◌, ◌≤◌, ◌<◌, ◌≡◌, ◌↔◌, inl, inr, true, ◌&&◌, some, List, [],
  ◌∷◌, ◌++◌, ltb, leb, length, length-append, arith, All, All-append, Bool-cases, refl, subst, sym,
  ◌==◌, if◌then◌else◌,
}
use mathlib.Core.List.{Memᴰ}
use ai_phone_plattform.Calendar.Slots.{
  Interval, minutes, is_slot_free, ProposeOptions, step_ms, wanted, earliest, first_cursor, limit,
  is_candidate, propose_loop, rounds, propose_free_slots,
}

-- The slot and the interval share a moment.
abbrev pub Clash : ℕ → ℕ → Interval → Type 0
Clash start duration b = (start < b.end) × (b.start < start + minutes duration)

-- A slot is free exactly when it shares no moment with a busy interval.
pub is_slot_free_iff :
    (start duration : ℕ) (busy : List Interval)
    → (is_slot_free start duration busy ≡ true) ↔ All (λ b. ¬ Clash start duration b) busy
unfolding is_slot_free
is_slot_free_iff start duration [] = ground arith
is_slot_free_iff start duration (b ∷ busy) = ground (arith, is_slot_free_iff start duration busy)

cover : (l c s : ℕ) → 0 < s → l < c + suc ((l - c) / s) * s
cover l c s p = grind arith

mod-step : (c s : ℕ) → c % s ≡ 0 → (c + s) % s ≡ 0
mod-step c s h = grind arith

mod-multiple : (q s : ℕ) → (q * s) % s ≡ 0
mod-multiple zero s = grind arith
mod-multiple (suc q) s =
    let e : suc q * s ≡ q * s + s = omega arith in rw e (mod-step (q * s) s (mod-multiple q s))

le-ceil : (e s : ℕ) → 0 < s → e ≤ (e + (s - 1)) / s * s
le-ceil e s p = grind arith

ceil-le : (e d s : ℕ) → 0 < s → e ≤ d → d % s ≡ 0 → (e + (s - 1)) / s * s ≤ d
ceil-le e d s p h k = grind arith

next-multiple : (c d s : ℕ) → 0 < s → c % s ≡ 0 → d % s ≡ 0 → c < d → c + s ≤ d
next-multiple c d s p h k l = grind arith

module _ (o : ProposeOptions) where
  pub record IsProposal (d : ℕ) : Type 0 where
    pub not_early : earliest o ≤ d
    pub in_horizon : d ≤ limit o
    pub on_step : d % step_ms o ≡ 0
    pub within_hours : o.is_within_hours d ≡ true
    pub free : is_slot_free d o.duration_min o.busy ≡ true

  loop-ends :
      (k cursor : ℕ) (out : List ℕ)
      → limit o < cursor + k * step_ms o
      → (ds : List ℕ) × (propose_loop o (suc k) cursor out ≡ some ds)
  unfolding propose_loop
  loop-ends zero cursor out h = (out, ground arith)
  loop-ends (suc k) cursor out h =
      elim (Bool-cases (leb cursor (limit o) && ltb (length out) (wanted o))) [
        | inl more ↦ rw more (
            loop-ends k (cursor + step_ms o)
              (if is_candidate o cursor then out ++ cursor ∷ [] else out) (omega arith))
        | inr done ↦ (out, rw done)
      ]

  -- With a step of at least a minute the search ends: its rounds are enough.
  pub propose_free_slots_total : 0 < step_ms o → (ds : List ℕ) × (propose_free_slots o ≡ some ds)
  unfolding propose_free_slots
  propose_free_slots_total p =
      loop-ends (suc ((limit o - first_cursor o) / step_ms o)) (first_cursor o) []
        (cover (limit o) (first_cursor o) (step_ms o) p)

  proposal :
      (cursor : ℕ) (out : List ℕ)
      → earliest o ≤ cursor
      → cursor % step_ms o ≡ 0
      → (leb cursor (limit o) && ltb (length out) (wanted o)) ≡ true
      → is_candidate o cursor ≡ true
      → IsProposal cursor
  proposal cursor out h m more good = record {
    not_early = h;
    in_horizon = ground arith;
    on_step = m;
    within_hours = ground arith;
    free = ground arith;
  }

  loop-All :
      (fuel cursor : ℕ) (out : List ℕ) {ds : List ℕ}
      → earliest o ≤ cursor
      → cursor % step_ms o ≡ 0
      → All IsProposal out
      → propose_loop o fuel cursor out ≡ some ds
      → All IsProposal ds
  unfolding propose_loop
  loop-All zero cursor out h m a e = cc
  loop-All (suc fuel) cursor out {ds} h m a e =
      elim (Bool-cases (leb cursor (limit o) && ltb (length out) (wanted o))) [
        | inl more ↦ elim (Bool-cases (is_candidate o cursor)) [
          | inl good ↦
              loop-All fuel (cursor + step_ms o) (out ++ cursor ∷ []) (omega arith)
                (mod-step cursor (step_ms o) m)
                (All-append IsProposal out (cursor ∷ []) a (proposal cursor out h m more good, tt))
                (rw (more, good) at e)
          | inr bad ↦
              loop-All fuel (cursor + step_ms o) out (omega arith) (mod-step cursor (step_ms o) m) a
                (rw (more, bad) at e)
        ]
        | inr done ↦ let same : out ≡ ds = ground arith in subst (All IsProposal) same a
      ]

  pub propose_free_slots-IsProposal :
      (ds : List ℕ) → 0 < step_ms o → propose_free_slots o ≡ some ds → All IsProposal ds
  unfolding propose_free_slots
  propose_free_slots-IsProposal ds p e =
      loop-All (rounds o) (first_cursor o) [] (le-ceil (earliest o) (step_ms o) p)
        (mod-multiple _ (step_ms o)) tt e

  loop-length :
      (fuel cursor : ℕ) (out : List ℕ) {ds : List ℕ}
      → length out ≤ wanted o
      → propose_loop o fuel cursor out ≡ some ds
      → length ds ≤ wanted o
  unfolding propose_loop
  loop-length zero cursor out h e = cc
  loop-length (suc fuel) cursor out h e =
      elim (Bool-cases (leb cursor (limit o) && ltb (length out) (wanted o))) [
        | inl more ↦
            let next = if is_candidate o cursor then out ++ cursor ∷ [] else out in
            loop-length fuel (cursor + step_ms o) next
              (ground (arith, length-append out (cursor ∷ []))) (rw more at e)
        | inr done ↦ ground arith
      ]

  Mem-left : (d : ℕ) (out : List ℕ) (c : ℕ) → Memᴰ d out → Memᴰ d (out ++ c ∷ [])
  Mem-left d [] c m = elim m [ ]
  Mem-left d (x ∷ out) c (Memᴰ.head e) = Memᴰ.head e
  Mem-left d (x ∷ out) c (Memᴰ.tail m) = Memᴰ.tail (Mem-left d out c m)

  Mem-last : (out : List ℕ) (c : ℕ) → Memᴰ c (out ++ c ∷ [])
  Mem-last [] c = Memᴰ.head refl
  Mem-last (x ∷ out) c = Memᴰ.tail (Mem-last out c)

  -- What is found stays found.
  loop-keeps :
      (d fuel cursor : ℕ) (out : List ℕ) {ds : List ℕ}
      → Memᴰ d out
      → propose_loop o fuel cursor out ≡ some ds
      → Memᴰ d ds
  unfolding propose_loop
  loop-keeps d zero cursor out m e = cc
  loop-keeps d (suc fuel) cursor out {ds} m e =
      elim (Bool-cases (leb cursor (limit o) && ltb (length out) (wanted o))) [
        | inl more ↦ elim (Bool-cases (is_candidate o cursor)) [
          | inl good ↦
              loop-keeps d fuel (cursor + step_ms o) (out ++ cursor ∷ []) (Mem-left d out cursor m)
                (rw (more, good) at e)
          | inr bad ↦ loop-keeps d fuel (cursor + step_ms o) out m (rw (more, bad) at e)
        ]
        | inr done ↦ let same : out ≡ ds = ground arith in subst (Memᴰ d) same m
      ]

  loop-finds :
      (d fuel cursor : ℕ) (out : List ℕ) {ds : List ℕ}
      → 0 < step_ms o
      → cursor % step_ms o ≡ 0
      → cursor ≤ d
      → IsProposal d
      → propose_loop o fuel cursor out ≡ some ds
      → length ds < wanted o
      → Memᴰ d ds
  unfolding propose_loop
  loop-finds d zero cursor out p m l h e n = cc
  loop-finds d (suc fuel) cursor out {ds} p m l h e n =
      elim (Bool-cases (leb cursor (limit o) && ltb (length out) (wanted o))) [
        | inl more ↦ elim (Bool-cases (cursor == d)) [
          | inl here ↦
              let same : cursor ≡ d = ground arith in
              let good : is_candidate o cursor ≡ true = rw same (ground arith) in
              loop-keeps d fuel (cursor + step_ms o) (out ++ cursor ∷ [])
                (subst (λ c. Memᴰ d (out ++ c ∷ [])) (sym same) (Mem-last out d))
                (rw (more, good) at e)
          | inr later ↦
              let below : cursor < d = ground arith in
              loop-finds d fuel (cursor + step_ms o)
                (if is_candidate o cursor then out ++ cursor ∷ [] else out) p
                (mod-step cursor (step_ms o) m)
                (next-multiple cursor d (step_ms o) p m h.on_step below) h (rw more at e) n
        ]
        | inr done ↦ absurd (ground arith)
      ]

  -- If fewer slots than wanted are proposed, every slot that could be is.
  pub propose_free_slots-complete :
      (ds : List ℕ) (d : ℕ)
      → 0 < step_ms o
      → propose_free_slots o ≡ some ds
      → length ds < wanted o
      → IsProposal d
      → Memᴰ d ds
  unfolding propose_free_slots
  propose_free_slots-complete ds d p e n h =
      loop-finds d (rounds o) (first_cursor o) [] p (mod-multiple _ (step_ms o))
        (ceil-le (earliest o) d (step_ms o) p h.not_early h.on_step) h e n

  -- At most the wanted number of slots is proposed.
  pub length-propose_free_slots :
      (ds : List ℕ) → propose_free_slots o ≡ some ds → length ds ≤ wanted o
  unfolding propose_free_slots
  length-propose_free_slots ds e = loop-length (rounds o) (first_cursor o) [] (omega arith) e
