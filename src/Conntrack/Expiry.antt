-- ===== src/Conntrack/Expiry.antt =====
-- What `conntrack_expire` of src/conntrack.c does to the table, and to the lookups after it.
use pktsnare.Common.{
  ℕ, zero, suc, ◌+◌, ◌-◌, ◌%◌, ◌≡◌, refl, ap, ◌∙◌, ◌≢◌, inl, inr, true, false, not, ◌&&◌, Option,
  none, some, List, [], ◌∷◌, map, arith, if◌then◌else◌, Bool-cases, Option-cases, get_elem?, All,
}
use mathlib.Core.Option
use pktsnare.Common.{length-map}
use pktsnare.Common.Filter.{keep, count_if}
use pktsnare.Common.Int.{ℤ}
use pktsnare.Table.Slots.{keep-clear-dead, count_if-clear-dead}
use pktsnare.Conntrack.{
  Ctx, Entry, Key, conn_hash, is_old, close, expire_from, expire, stops_lookup, probe, lookup,
}
use pktsnare.Conntrack.Invariant.{IsValid, is_active, IsPlain}

module _ (now : ℕ) (timeout : ℤ) where
  abbrev pub close_old : Entry → Entry
  close_old e = if is_old now timeout e then close e else e

  expire_from_lem :
      (es : List Entry) (count expired : ℕ)
      → expire_from now timeout es count expired ≡ (
        map close_old es,
        count - count_if (is_old now timeout) es,
        expired + count_if (is_old now timeout) es,
      )
  unfolding expire_from
  expire_from_lem [] count expired = ground arith
  expire_from_lem (e ∷ es) count expired = elim (Bool-cases (is_old now timeout e)) [
    | inl old ↦ rw (old, expire_from_lem es (count - 1) (expired + 1)) (ground arith)
    | inr young ↦ rw (young, expire_from_lem es count expired) refl
  ]

  pub expire-eq :
      (c : Ctx)
      → expire c now timeout ≡ (
        count_if (is_old now timeout) c.entries,
        record c {
          entries = map close_old c.entries;
          count = c.count - count_if (is_old now timeout) c.entries;
        },
      )
  unfolding expire
  expire-eq c = rw (expire_from_lem c.entries c.count 0) (ground arith)

  close_inactive : (e : Entry) → is_active (close e) ≡ false
  close_inactive e = ground arith

  old_active : (e : Entry) → is_old now timeout e ≡ true → is_active e ≡ true
  old_active e h = ground arith

  seen_of_old : (e : Entry) → is_old now timeout e ≡ true → e.first_seen ≢ 0
  seen_of_old e h z = ground arith

  close_old-IsPlain : (e : Entry) → IsPlain e → IsPlain (close_old e)
  close_old-IsPlain e p = elim (Bool-cases (is_old now timeout e)) [
    | inl old ↦ rw old (λ z. absurd (seen_of_old e old z))
    | inr young ↦ rw young p
  ]

  map-IsPlain : (es : List Entry) → All IsPlain es → All IsPlain (map close_old es)
  map-IsPlain [] h = tt
  map-IsPlain (e ∷ es) h = (close_old-IsPlain e h.0, map-IsPlain es h.1)

  -- On a valid table, `conntrack_expire` returns the number of open connections that have been
  -- idle for `timeout` seconds. It closes them, `count` falls by their number, the other open
  -- connections stay as they are and in order, and the table stays valid.
  pub expire-connections :
      (c : Ctx)
      → IsValid c
      → let (expired, c') = expire c now timeout in
        (expired ≡ count_if (is_old now timeout) c.entries)
        × (c'.count + expired ≡ c.count)
        × (keep is_active c'.entries
            ≡ keep (λ e. is_active e && not (is_old now timeout e)) c.entries)
        × IsValid c'
  expire-connections c v = rw (expire-eq c) (
    refl,
    omega (arith, v.counted, split),
    keep-clear-dead (is_old now timeout) close is_active close_inactive c.entries,
    record {
      space = length-map close_old c.entries ∙ v.space;
      nonempty = v.nonempty;
      counted = omega (arith, v.counted, split);
      plain = map-IsPlain c.entries v.plain;
    },
  )
    where
      split :
          count_if is_active (map close_old c.entries) + count_if (is_old now timeout) c.entries
          ≡ count_if is_active c.entries
      split =
          count_if-clear-dead (is_old now timeout) close is_active close_inactive old_active
            c.entries

  get_elem?-map :
      (es : List Entry) (i : ℕ)
      → get_elem? (map close_old es) i ≡ Option.map close_old (get_elem? es i)
  get_elem?-map [] i = refl
  get_elem?-map (e ∷ es) zero = refl
  get_elem?-map (e ∷ es) (suc i) = get_elem?-map es i

  stops_close_old : (key : Key) (e : Entry) → stops_lookup key (close_old e) ≡ stops_lookup key e
  stops_close_old key e = elim (Bool-cases (is_old now timeout e)) [
    | inl old ↦ rw old
    | inr young ↦ rw young
  ]

  probe-map :
      (key : Key) (fuel : ℕ) (es : List Entry) (limit start idx : ℕ)
      → probe (stops_lookup key) fuel (map close_old es) limit start idx
        ≡ probe (stops_lookup key) fuel es limit start idx
  unfolding probe
  probe-map key zero es limit start idx = refl
  probe-map key (suc fuel) es limit start idx = elim (Option-cases (get_elem? es idx)) [
    | inl empty ↦ rw (get_elem?-map es idx, probe) (rw (empty, probe) refl)
    | inr (e, at) ↦ ground (
      arith,
      at,
      get_elem?-map es idx,
      stops_close_old key e,
      probe-map key fuel es limit start ((idx + 1) % limit),
    )
  ]

  -- Expiry hides nothing from a lookup: it finds what it found before, closed where that was idle.
  pub lookup-expire :
      (c : Ctx) (key : Key)
      → lookup (expire c now timeout).1 key ≡ Option.map (Option.map close_old) (lookup c key)
  unfolding lookup
  lookup-expire c key =
      rw (expire-eq c) (by_slot (probe (stops_lookup key) c.limit c.entries c.limit home home) refl)
    where
      home : ℕ
      home = conn_hash key c.limit

      c' : Ctx
      c' = record c {
        entries = map close_old c.entries;
        count = c.count - count_if (is_old now timeout) c.entries;
      }

      by_slot :
          (r : Option (Option ℕ))
          → probe (stops_lookup key) c.limit c.entries c.limit home home ≡ r
          → lookup c' key ≡ Option.map (Option.map close_old) (lookup c key)
      by_slot none q =
          rw (probe-map key c.limit c.entries c.limit home home, lookup) (rw (q, lookup) refl)
      by_slot (some none) q =
          rw (probe-map key c.limit c.entries c.limit home home, lookup) (rw (q, lookup) refl)
      by_slot (some (some i)) q =
          rw (probe-map key c.limit c.entries c.limit home home, lookup)
            (rw (q, lookup) (ap some (get_elem?-map c.entries i)))

  -- A connection that a lookup finds and that was idle is still returned after it expired, marked
  -- closed.
  pub lookup-expired :
      (c : Ctx) (key : Key) (e : Entry)
      → lookup c key ≡ some (some e)
      → is_old now timeout e ≡ true
      → lookup (expire c now timeout).1 key ≡ some (some (close e))
  lookup-expired c key e found old = lookup-expire c key ∙ rw (found, old) refl
