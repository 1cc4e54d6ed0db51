-- ===== src/Alarm/Edges.antt =====
-- When the alarms of src/alarm.c go off.
use pktsnare.Common.{
  ℕ, zero, suc, ◌+◌, ◌%◌, ◌^◌, ◌<◌, ◌≡◌, refl, ap, ◌↔◌, Bool, true, not, ◌&&◌, List, [], ◌∷◌, map,
  arith, leb, if◌then◌else◌, length, take,
}
use pktsnare.Common.Filter.{count_if}
use pktsnare.Alarm.{Ctx, Rule, evaluate_rule, evaluate_rules, evaluate, any_rule, any_triggered}

-- One rule along a sequence of rates, and how often the callback would be called.
pub watch : Rule → List ℕ → Rule × ℕ
watch r [] = (r, 0)
watch r (pps ∷ rest) =
    let (r', rises) = evaluate_rule r pps in
    let (last, n) = watch r' rest in (last, if rises then n + 1 else n)

-- The number of rates that reach the threshold and follow one that did not; `was` tells of the
-- rate before the first.
pub rises : ℕ → Bool → List ℕ → ℕ
rises threshold was [] = 0
rises threshold was (pps ∷ rest) =
    let n = rises threshold (leb threshold pps) rest in
    if leb threshold pps && not was then n + 1 else n

-- The last rate, or what was before there was one, tells whether the alarm is on.
pub ends_on : ℕ → Bool → List ℕ → Bool
ends_on threshold was [] = was
ends_on threshold was (pps ∷ rest) = ends_on threshold (leb threshold pps) rest

-- Along any sequence of rates, a rule, its counter below 2^64, is called exactly at the rises past
-- its threshold, its counter adds their number modulo 2^64, and it is on at the end exactly if the
-- last rate reaches the threshold.
pub watch-rises :
    (r : Rule) (rates : List ℕ)
    → r.trigger_count < 2 ^ 64
    → let (last, calls) = watch r rates in
      (calls ≡ rises r.threshold r.triggered rates)
      × (last.trigger_count ≡ (r.trigger_count + rises r.threshold r.triggered rates) % 2 ^ 64)
      × (last.triggered ≡ ends_on r.threshold r.triggered rates)
unfolding watch rises ends_on evaluate_rule
watch-rises r [] h = (refl, omega arith, refl)
watch-rises r (pps ∷ rest) h =
    let r' = (evaluate_rule r pps).0 in
    let ih = watch-rises r' rest (ground arith) in
    (ground (arith, ih.0), ground (arith, ih.1), ih.2)

-- The rules up to the count, each evaluated.
evaluate_rules-map :
    (n : ℕ) (rs : List Rule) (pps : ℕ)
    → take n (evaluate_rules n rs pps).0 ≡ map (λ r. (evaluate_rule r pps).0) (take n rs)
unfolding evaluate_rules
evaluate_rules-map zero rs pps = refl
evaluate_rules-map (suc n) [] pps = refl
evaluate_rules-map (suc n) (r ∷ rs) pps =
    ap (◌∷◌ (evaluate_rule r pps).0) (evaluate_rules-map n rs pps)

any_rule-evaluate :
    (n : ℕ) (rs : List Rule) (pps : ℕ)
    → (any_rule n (evaluate_rules n rs pps).0 ≡ true)
      ↔ (0 < count_if (λ r. leb r.threshold pps) (take n rs))
unfolding any_rule evaluate_rules evaluate_rule
any_rule-evaluate zero rs pps = ground arith
any_rule-evaluate (suc n) [] pps = ground arith
any_rule-evaluate (suc n) (r ∷ rs) pps =
    let ih = any_rule-evaluate n rs pps in ground (arith, ih.0, ih.1)

calls-count :
    (n : ℕ) (rs : List Rule) (pps : ℕ)
    → length (evaluate_rules n rs pps).1
      ≡ count_if (λ r. leb r.threshold pps && not r.triggered) (take n rs)
unfolding evaluate_rules evaluate_rule
calls-count zero rs pps = refl
calls-count (suc n) [] pps = refl
calls-count (suc n) (r ∷ rs) pps = ground (arith, calls-count n rs pps)

-- An evaluation replaces each rule in use by its evaluation, reports an alarm exactly if a rule has
-- a threshold that the rate reaches, and calls the callback once for each of these that was off,
-- or never where none is set.
pub evaluate-any_triggered :
    (c : Ctx) (pps : ℕ)
    → let (c', calls) = evaluate c pps in
      (take c.count c'.rules ≡ map (λ r. (evaluate_rule r pps).0) (take c.count c.rules))
      × ((any_triggered c' ≡ true)
          ↔ (0 < count_if (λ r. leb r.threshold pps) (take c.count c.rules)))
      × (length calls ≡ (
          if c.callback
          then count_if (λ r. leb r.threshold pps && not r.triggered) (take c.count c.rules)
          else 0))
unfolding evaluate any_triggered
evaluate-any_triggered c pps = (
  evaluate_rules-map c.count c.rules pps,
  any_rule-evaluate c.count c.rules pps,
  ground (arith, calls-count c.count c.rules pps),
)
