-- ===== src/Conntrack/Probe.antt =====
-- The probe loop of src/conntrack.c: the order in which it visits the slots, where it stops, and
-- the fuel that it needs, the size of the table.
use pktsnare.Common.{
  ℕ, zero, suc, ◌+◌, ◌-◌, ◌%◌, ◌<◌, ◌≡◌, refl, sym, ap, subst, ◌∙◌, ◌≢◌, inl, inr, Bool, true,
  false, Option, none, some, List, arith, ℕ_discrete, ◌==◌, ==_iff, Bool-cases, Option-cases,
  length, get_elem?, get_elem?-none,
}
use pktsnare.Conntrack.{Entry, probe}
use native.Mathlib.Nat.{add_assoc, mod-eq_of_lt, add-zero}
use mathlib.Core.Option.{some-injective}
use mathlib.Core.Bool.{false≢true}
use native.Mathlib.Decide.{dec_lt}
use pktsnare.Common.Modular.{around-ne, next_mod, full_turn}

-- The loop stops at index `i`, `steps` places behind the start.
pub record Hit (p : Entry → Bool) (es : List Entry) (limit start i : ℕ) (e : Entry) : Type 0 where
  pub steps : ℕ
  pub steps_in : steps < limit
  pub index : i ≡ (start + steps) % limit
  pub at : get_elem? es i ≡ some e
  pub hit : p e ≡ true
  pub before :
      (j : ℕ) (x : Entry) → j < steps → get_elem? es ((start + j) % limit) ≡ some x → p x ≡ false

abbrev pub Misses : (Entry → Bool) → List Entry → ℕ → ℕ → ℕ → Type 0
Misses p es limit start n =
    (j : ℕ) (x : Entry) → j < n → get_elem? es ((start + j) % limit) ≡ some x → p x ≡ false

abbrev pub Probes : (Entry → Bool) → List Entry → ℕ → ℕ → Option (Option ℕ) → Type 0
Probes p es limit start none = ⊥
Probes p es limit start (some none) = Misses p es limit start limit
Probes p es limit start (some (some i)) = (e : Entry) × Hit p es limit start i e

module _ (p : Entry → Bool) (es : List Entry) (limit start : ℕ) (fits : length es ≡ limit) where
  Misses-suc :
      (k : ℕ) (e : Entry)
      → get_elem? es ((start + k) % limit) ≡ some e
      → p e ≡ false
      → Misses p es limit start k
      → Misses p es limit start (k + 1)
  Misses-suc k e at miss before j x h found = elim (ℕ_discrete j k) [
    | yes same ↦
        ap p
          (some-injective x e (sym found ∙ ap (λ m. get_elem? es ((start + m) % limit)) same ∙ at))
        ∙ miss
    | no ne ↦ before j x (omega arith) found
  ]

  -- One round, given what the rounds that are left will find.
  probe_round :
      (fuel k idx : ℕ)
      → start < limit
      → k < limit
      → idx ≡ (start + k) % limit
      → Misses p es limit start k
      → (((idx + 1) % limit ≢ start)
          → Misses p es limit start (k + 1)
          → Probes p es limit start (probe p fuel es limit start ((idx + 1) % limit)))
      → Probes p es limit start (probe p (suc fuel) es limit start idx)
  unfolding probe
  probe_round fuel k idx h room place before rest = elim (Option-cases (get_elem? es idx)) [
    | inl empty ↦ absurd (omega (arith, get_elem?-none es idx empty))
    | inr (e, at) ↦
        let at_k : get_elem? es ((start + k) % limit) ≡ some e = rw (← place) at in
        elim (Bool-cases (p e)) [
          | inl stop ↦
              rw (at, probe)
                (rw (stop, probe)
                  (
                    e,
                    record {
                      steps = k;
                      steps_in = room;
                      index = place;
                      at = at;
                      hit = stop;
                      before = before;
                    },
                  ))
          | inr go_on ↦
              let passed = Misses-suc k e at_k go_on before in
              elim (Bool-cases ((idx + 1) % limit == start)) [
                | inl back ↦
                    rw (at, probe) (rw (go_on, probe) (rw (back, probe) (whole back passed)))
                | inr on ↦
                    rw (at, probe) (rw (go_on, probe) (rw (on, probe) (rest (ground arith) passed)))
              ]
        ]
  ]
    where
      -- The loop is back at the start only after all of the table.
      whole :
          ((idx + 1) % limit == start) ≡ true
          → Misses p es limit start (k + 1)
          → Misses p es limit start limit
      whole back passed j x b found = elim (ℕ_discrete (k + 1) limit) [
        | yes e ↦ passed j x (omega arith) found
        | no ne ↦ absurd (
            around-ne limit start k h (omega arith) (
              ap (λ m. m % limit) (omega arith)
              ∙ sym (next_mod (start + k) limit)
              ∙ ap (λ m. (m + 1) % limit) (sym place)
              ∙ (==_iff _ _).0 back))
      ]

  probe_from :
      (fuel k idx : ℕ)
      → start < limit
      → k + suc fuel ≡ limit
      → idx ≡ (start + k) % limit
      → Misses p es limit start k
      → Probes p es limit start (probe p (suc fuel) es limit start idx)
  probe_from zero k idx h room place before =
      probe_round zero k idx h (omega arith) place before λ away passed. absurd (away (last away))
    where
      last : (idx + 1) % limit ≢ start → (idx + 1) % limit ≡ start
      last away =
          ap (λ m. (m + 1) % limit) place
          ∙ next_mod (start + k) limit
          ∙ ap (λ m. m % limit) turn
          ∙ full_turn limit start h
        where
          turn : start + k + 1 ≡ start + limit
          turn = omega arith
  probe_from (suc fuel) k idx h room place before =
      probe_round (suc fuel) k idx h (omega arith) place before λ away passed.
        probe_from fuel (k + 1) ((idx + 1) % limit) h (omega arith)
          (ap (λ m. (m + 1) % limit) place
            ∙ next_mod (start + k) limit
            ∙ ap (λ m. m % limit) (add_assoc start k 1))
          passed

  -- The loop ends within `limit` rounds, at the first slot where its body returns, or after all.
  pub probe-Probes : start < limit → Probes p es limit start (probe p limit es limit start start)
  probe-Probes h =
      subst (λ m. Probes p es limit start (probe p m es limit start start)) size
        (probe_from (limit - 1) 0 start h (omega arith) here λ j x b found. absurd (omega arith))
    where
      size : suc (limit - 1) ≡ limit
      size = omega arith

      here : start ≡ (start + 0) % limit
      here = sym (mod-eq_of_lt h) ∙ ap (λ m. m % limit) (sym (add-zero start))

  -- The entry `k` places on is in the table.
  entry_at : (k : ℕ) → start < limit → (e : Entry) × (get_elem? es ((start + k) % limit) ≡ some e)
  entry_at k h = elim (Option-cases (get_elem? es ((start + k) % limit))) [
    | inl empty ↦ absurd (omega (arith, get_elem?-none es ((start + k) % limit) empty))
    | inr found ↦ found
  ]

  -- The slot at which the loop stops is the only one that fits `Hit`.
  pub probe-Hit :
      {i : ℕ} {e : Entry}
      → start < limit
      → Hit p es limit start i e
      → probe p limit es limit start start ≡ some (some i)
  probe-Hit {i} {e} h hit = same (probe p limit es limit start start) (probe-Probes h)
    where
      at_steps : get_elem? es ((start + hit.steps) % limit) ≡ some e
      at_steps = rw (← hit.index) hit.at

      clash : p e ≡ false → ⊥
      clash miss = false≢true (sym miss ∙ hit.hit)

      same : (r : Option (Option ℕ)) → Probes p es limit start r → r ≡ some (some i)
      same none f = absurd f
      same (some none) f = absurd (clash (f hit.steps e hit.steps_in at_steps))
      same (some (some j)) (x, other) = elim (dec_lt hit.steps other.steps) [
        | yes less ↦ absurd (clash (other.before hit.steps e less at_steps))
        | no ge ↦ elim (ℕ_discrete hit.steps other.steps) [
          | yes e ↦
              ap (λ k. some (some k))
                (other.index ∙ ap (λ k. (start + k) % limit) (sym e) ∙ sym hit.index)
          | no ne ↦ absurd (
              false≢true (
                sym (hit.before other.steps x (omega arith) (rw (← other.index) other.at))
                ∙ other.hit))
        ]
      ]

  -- A table in which no slot stops the loop is searched in vain.
  pub probe-Misses :
      start < limit → Misses p es limit start limit → probe p limit es limit start start ≡ some none
  probe-Misses h miss = same (probe p limit es limit start start) (probe-Probes h)
    where
      same : (r : Option (Option ℕ)) → Probes p es limit start r → r ≡ some none
      same none f = absurd f
      same (some none) f = refl
      same (some (some j)) (x, other) = absurd (
          false≢true
            (sym (miss other.steps x other.steps_in (rw (← other.index) other.at)) ∙ other.hit))
