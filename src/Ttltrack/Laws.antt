-- ===== src/Ttltrack/Laws.antt =====
-- When src/ttltrack.c takes a packet for an anomaly, and what its table says afterwards.
use pktsnare.Common.{
  ℕ, zero, suc, ◌+◌, ◌≤◌, ◌<◌, ◌≡◌, refl, ◌∙◌, ◌↔◌, ◌⊎◌, inl, inr, Bool, true, false, not, ◌&&◌,
  none, List, [], ◌∷◌, arith, leb, ◌==◌, if◌then◌else◌, Bool-cases, Option-cases, length, get_or,
  set, take, All, length-set, add32,
}
use native.Mathlib.Numerals.{add-one}
use pktsnare.Common.Int.{pos}
use pktsnare.Table.Scan.{scan}
use pktsnare.Ttltrack.{
  Table, Entry, zeroed, max_entries, guess_baseline, lookup, is_anomaly, observe, first_sight,
  judge, update, init,
}

-- An entry is flagged exactly if its last packet was more than 10 below its baseline.
abbrev pub IsJudged : Entry → Type 0
IsJudged e = (e.anomaly_flagged ≡ true) ↔ (e.observed_ttl + 10 < e.baseline_ttl)

-- The count fits the array, and the entries in use are judged.
pub record IsValid (t : Table) : Type 0 where
  pub space : length t.entries ≡ max_entries
  pub bounded : t.count ≤ max_entries
  pub judged : All IsJudged (take t.count t.entries)

pub init-judged : IsValid init
unfolding init
init-judged = record { space = refl; bounded = omega arith; judged = tt }

is_anomaly_iff : (e : Entry) (ttl : ℕ) → (is_anomaly e ttl ≡ true) ↔ (ttl + 10 < e.baseline_ttl)
unfolding is_anomaly
is_anomaly_iff e ttl = ground arith

All-take-set :
    (n : ℕ) (xs : List Entry) (i : ℕ) (v : Entry)
    → All IsJudged (take n xs)
    → IsJudged v
    → All IsJudged (take n (set xs i v))
All-take-set zero xs i v h j = tt
All-take-set (suc n) [] i v h j = tt
All-take-set (suc n) (x ∷ xs) zero v h j = (j, h.1)
All-take-set (suc n) (x ∷ xs) (suc i) v h j = (h.0, All-take-set n xs i v h.1 j)

All-take_end :
    (n : ℕ) (xs : List Entry) (v : Entry)
    → n < length xs
    → All IsJudged (take n xs)
    → IsJudged v
    → All IsJudged (take (suc n) (set xs n v))
All-take_end zero [] v l h j = tt
All-take_end zero (x ∷ xs) v l h j = (j, tt)
All-take_end (suc n) [] v l h j = tt
All-take_end (suc n) (x ∷ xs) v l h j = (h.0, All-take_end n xs v (omega arith) h.1 j)

-- The entry that a packet leaves in the slot.
abbrev pub seen : ℕ → ℕ → Entry → Entry
seen now ttl e = record (observe now ttl e) { anomaly_flagged = is_anomaly e ttl }

seen-IsJudged : (now ttl : ℕ) (e : Entry) → IsJudged (seen now ttl e)
seen-IsJudged now ttl e = is_anomaly_iff e ttl

-- The judgement in one equation.
judge_eq :
    (now : ℕ) (t : Table) (i ttl : ℕ) (e : Entry)
    → judge now t i ttl e ≡ (
      if is_anomaly e ttl then pos 1 else pos 0,
      record t {
        entries = set t.entries i (seen now ttl e);
        anomalies_detected =
            if is_anomaly e ttl && not e.anomaly_flagged
            then add32 t.anomalies_detected 1
            else t.anomalies_detected;
      },
    )
unfolding judge is_anomaly
judge_eq now t i ttl e = ground arith

-- Any packet keeps a valid table valid: its 256 slots, a count of at most 256, and each entry in
-- use flagged exactly if its last time to live was more than 10 below its baseline.
pub update-judged :
    (now : ℕ) (t : Table) (src_ip ttl : ℕ) → IsValid t → IsValid (update now t src_ip ttl).1
unfolding update lookup
update-judged now t src_ip ttl v =
    elim (Option-cases (scan (λ e. e.src_ip == src_ip) t.count t.entries)) [
      | inr (i, found) ↦
          rw (found, update, judge_eq now t i ttl (get_or t.entries i zeroed))
            (record {
              space = length-set t.entries i _ ∙ v.space;
              bounded = v.bounded;
              judged =
                  All-take-set t.count t.entries i _ v.judged
                    (seen-IsJudged now ttl (get_or t.entries i zeroed));
            })
      | inl missing ↦ elim (Bool-cases (leb max_entries t.count)) [
        | inl full ↦ rw (missing, update, full) v
        | inr room ↦
            rw
              (
                missing,
                update,
                room,
                judge_eq now (record t { count = t.count + 1 }) t.count ttl
                    (first_sight now src_ip ttl),
              )
              (record {
                space = length-set t.entries t.count _ ∙ v.space;
                bounded = ground arith;
                judged = rw add-one (
                    All-take_end t.count t.entries _ (ground (arith, v.space)) v.judged
                      (seen-IsJudged now ttl (first_sight now src_ip ttl)));
              })
      ]
    ]

first_anomaly :
    (now src_ip ttl : ℕ)
    → ttl < 256
    → (is_anomaly (first_sight now src_ip ttl) ttl ≡ true)
      ↔ ((ttl < 54) ⊎ (((64 < ttl) × (ttl < 118)) ⊎ ((128 < ttl) × (ttl < 245))))
unfolding is_anomaly guess_baseline
first_anomaly now src_ip ttl h = ground arith

-- The first packet of a host, with a time to live of 8 bits, that a table with room for it sees is
-- reported as an anomaly exactly if that is below 54, from 65 to 117, or from 129 to 244: the
-- baseline is guessed from the packet that it then judges.
pub update_first :
    (now : ℕ) (t : Table) (src_ip ttl : ℕ)
    → ttl < 256
    → t.count < max_entries
    → lookup t src_ip ≡ none
    → ((update now t src_ip ttl).0 ≡ pos 1)
      ↔ ((ttl < 54) ⊎ (((64 < ttl) × (ttl < 118)) ⊎ ((128 < ttl) × (ttl < 245))))
unfolding update
update_first now t src_ip ttl h room missing =
    let free : leb max_entries t.count ≡ false = ground arith in
    let a = first_anomaly now src_ip ttl h in
    rw
      (
        missing,
        update,
        free,
        judge_eq now (record t { count = t.count + 1 }) t.count ttl (first_sight now src_ip ttl),
      )
      (flag_iff (is_anomaly (first_sight now src_ip ttl) ttl) a.0 a.1)
  where
    flag_iff :
        {P : Type 0} (b : Bool)
        → (b ≡ true → P)
        → (P → b ≡ true)
        → ((if b then pos 1 else pos 0) ≡ pos 1) ↔ P
    flag_iff true f g = (λ e. f refl, λ p. refl)
    flag_iff false f g = (λ e. absurd (cc e), λ p. absurd (cc (g p)))
