-- ===== src/Alarm.antt =====
-- src/alarm.c and src/alarm.h: rules that watch the packet rate. The context and the names are
-- there (no NULL), `calloc` is a Boolean argument, and a flag is a Bool. The callback is a function
-- outside this code: `evaluate` returns the calls that it receives, in order, if one is set.
pub mod Edges
mod Tests
use pktsnare.Common.{
  ℕ, zero, suc, ◌+◌, Bool, true, false, not, ◌&&◌, Option, none, some, List, [], ◌∷◌, leb,
  if◌then◌else◌, set, replicate, add64,
}
use pktsnare.Common.Int.{ℤ, pos, leb_ℤ, pos_part, success, failure}

pub data Level : Type 0 where
  info warn crit : Level

-- `alarm_rule_t`
pub record Rule : Type 0 where
  pub name : List ℕ
  pub threshold : ℕ
  pub level : Level
  pub triggered : Bool
  pub trigger_count : ℕ

-- `alarm_ctx_t`; the callback is whether one is set.
pub record Ctx : Type 0 where
  pub rules : List Rule
  pub count : ℕ
  pub capacity : ℕ
  pub callback : Bool

abbrev pub zeroed : Rule
zeroed = record { name = []; threshold = 0; level = info; triggered = false; trigger_count = 0 }

unfoldable pub init : ℤ → Bool → Option Ctx
init capacity allocated =
    if leb_ℤ capacity (pos 0)
    then none
    else if not allocated
    then none
    else some (record {
      rules = replicate (pos_part capacity) zeroed;
      count = 0;
      capacity = pos_part capacity;
      callback = false;
    })

abbrev pub free : Ctx → Ctx
free c = record c { rules = []; count = 0; capacity = 0 }

abbrev pub rule : List ℕ → ℕ → Level → Rule
rule name threshold level = record {
  name = name;
  threshold = threshold;
  level = level;
  triggered = false;
  trigger_count = 0;
}

unfoldable pub add_rule : Ctx → List ℕ → ℕ → Level → ℤ × Ctx
add_rule c name threshold level = if leb c.capacity c.count then (failure, c) else (
  success,
  record c { rules = set c.rules c.count (rule name threshold level); count = c.count + 1 },
)

abbrev pub set_callback : Ctx → Bool → Ctx
set_callback c cb = record c { callback = cb }

-- The body of the loop for one rule: the rule, and whether it has just come on.
unfoldable pub evaluate_rule : Rule → ℕ → Rule × Bool
evaluate_rule r pps =
    let on = leb r.threshold pps in
    let rises = on && not r.triggered in
    (
      record r {
        triggered = on;
        trigger_count = if rises then add64 r.trigger_count 1 else r.trigger_count;
      },
      rises,
    )

-- The loop over the first `n` rules, with the calls of the callback.
unfoldable pub evaluate_rules : ℕ → List Rule → ℕ → List Rule × List (Rule × ℕ)
evaluate_rules zero rs pps = (rs, [])
evaluate_rules (suc n) [] pps = ([], [])
evaluate_rules (suc n) (r ∷ rs) pps =
    let (r', rises) = evaluate_rule r pps in
    let (rs', calls) = evaluate_rules n rs pps in
    (r' ∷ rs', if rises then (r', pps) ∷ calls else calls)

unfoldable pub evaluate : Ctx → ℕ → Ctx × List (Rule × ℕ)
evaluate c pps =
    let (rs, calls) = evaluate_rules c.count c.rules pps in
    (record c { rules = rs }, if c.callback then calls else [])

unfoldable pub any_rule : ℕ → List Rule → Bool
any_rule zero rs = false
any_rule (suc n) [] = false
any_rule (suc n) (r ∷ rs) = if r.triggered then true else any_rule n rs

unfoldable pub any_triggered : Ctx → Bool
any_triggered c = any_rule c.count c.rules
