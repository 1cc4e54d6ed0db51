-- ===== src/Conntrack/Found.antt =====
-- What a client of src/conntrack.c sees of an update: what a lookup finds afterwards, and when an
-- update fails.
use pktsnare.Common.{
  ℕ, ◌+◌, ◌%◌, ◌<◌, ◌≡◌, refl, sym, ap, subst, ◌∙◌, ◌≢◌, ◌↔◌, inl, inr, Bool, true, false, some,
  arith, Bool-cases, get_elem?, set, All, length-set, get_elem?-some, get_elem?-set_self,
  get_elem?-set_ne, All-get_elem?, All-of_get_elem?,
}
use mathlib.Core.Option.{some-injective}
use pktsnare.Common.Int.{success, failure}
use pktsnare.Common.Modular.{place_of, places-ne}
use pktsnare.Conntrack.{
  Ctx, Entry, Key, is_closed, is_empty, conn_hash, key_eq, stops_update, stops_lookup, opened,
  touched, update_at, update, lookup,
}
use pktsnare.Conntrack.Probe.{Hit, Misses, probe-Hit, probe-Misses}
use pktsnare.Conntrack.Invariant.{
  IsValid, is_active, IsPlain, conn_hash-lt, is_closed-touched, update-cases, is_empty-not_active,
}

key_eq_refl : (k : Key) → key_eq k k ≡ true
unfolding key_eq
key_eq_refl k = ground arith

key_eq_sound : (a b : Key) → key_eq a b ≡ true → a ≡ b
unfolding key_eq
key_eq_sound a b h = ground arith

update_at-ne :
    (c : Ctx) (key : Key) (pkt_len : ℕ) (is_reverse : Bool) (now i : ℕ) (e : Entry)
    → (update_at c key pkt_len is_reverse now i e).0 ≢ failure
unfolding update_at
update_at-ne c key pkt_len is_reverse now i e = ground arith

-- The slots that refuse a key: open connections of other keys.
abbrev pub IsOther : Key → Entry → Type 0
IsOther key e = (is_active e ≡ true) × (key_eq e.key key ≡ false)

module _ (c : Ctx) (key : Key) (v : IsValid c) where
  abbrev home : ℕ
  home = conn_hash key c.limit

  home_in : home < c.limit
  home_in = conn_hash-lt key c.limit v.nonempty

  -- A slot that did not stop an update does not stop a lookup.
  stops_lookup_miss : (x : Entry) → stops_update key x ≡ false → stops_lookup key x ≡ false
  stops_lookup_miss x h = ground arith

  -- A lookup finds the entry that was written where an update stopped.
  lookup_at :
      (i : ℕ) (e e' : Entry) (n : ℕ)
      → Hit (stops_update key) c.entries c.limit home i e
      → stops_lookup key e' ≡ true
      → lookup (record c { entries = set c.entries i e'; count = n }) key ≡ some (some e')
  unfolding lookup
  lookup_at i e e' n h good =
      rw
        (
          probe-Hit (stops_lookup key) (set c.entries i e') c.limit home
              (length-set c.entries i e' ∙ v.space) home_in written,
          lookup,
        )
        (ap some written.at)
    where
      written : Hit (stops_lookup key) (set c.entries i e') c.limit home i e'
      written = record {
        steps = h.steps;
        steps_in = h.steps_in;
        index = h.index;
        at = get_elem?-set_self c.entries i e' (get_elem?-some c.entries i h.at);
        hit = good;
        before = λ j x b found.
            stops_lookup_miss x
              (h.before j x b (sym (get_elem?-set_ne c.entries e' (apart j b)) ∙ found));
      }
        where
          apart : (j : ℕ) → j < h.steps → i ≢ (home + j) % c.limit
          apart j b e = places-ne c.limit home j h.steps home_in b h.steps_in (sym h.index ∙ e)

  abbrev FoundAt : ℕ → Ctx → Type 0
  FoundAt now c' =
      (e : Entry) × (lookup c' key ≡ some (some e))
      × (e.key ≡ key)
      × (e.last_seen ≡ now)
      × (is_closed e.state ≡ false)

  -- Where the update stopped in an empty slot, and where it stopped at the key's own entry.
  opened_found :
      (pkt_len : ℕ) (is_reverse : Bool) (now i : ℕ) (e : Entry)
      → 0 < now
      → Hit (stops_update key) c.entries c.limit home i e
      → FoundAt now (record c {
        entries = set c.entries i (opened key pkt_len is_reverse now);
        count = c.count + 1;
      })
  opened_found pkt_len is_reverse now i e h hit = (
    opened key pkt_len is_reverse now,
    lookup_at i e (opened key pkt_len is_reverse now) (c.count + 1) hit
        (ground (arith, key_eq_refl key)),
    refl,
    refl,
    refl,
  )

  touched_found :
      (pkt_len : ℕ) (is_reverse : Bool) (now i : ℕ) (e : Entry)
      → is_empty e ≡ false
      → Hit (stops_update key) c.entries c.limit home i e
      → FoundAt now (record c { entries = set c.entries i (touched pkt_len is_reverse now e) })
  touched_found pkt_len is_reverse now i e used hit =
      let same : key_eq e.key key ≡ true = ground (arith, hit.hit) in
      let plain : IsPlain e = All-get_elem? IsPlain c.entries i v.plain hit.at in
      (
        touched pkt_len is_reverse now e,
        lookup_at i e (touched pkt_len is_reverse now e) c.count hit
            (ground (arith, same, is_empty-not_active e plain)),
        key_eq_sound e.key key same,
        refl,
        sym (is_closed-touched e.state) ∙ open_entry e used,
      )
    where
      open_entry : (e : Entry) → is_empty e ≡ false → is_closed e.state ≡ false
      open_entry e used = ground arith

  update_at_found :
      (pkt_len : ℕ) (is_reverse : Bool) (now i : ℕ) (e : Entry)
      → 0 < now
      → Hit (stops_update key) c.entries c.limit home i e
      → FoundAt now (update_at c key pkt_len is_reverse now i e).1
  unfolding update_at
  update_at_found pkt_len is_reverse now i e h hit = elim (Bool-cases (is_empty e)) [
    | inl empty ↦ rw empty (opened_found pkt_len is_reverse now i e h hit)
    | inr used ↦ rw used (touched_found pkt_len is_reverse now i e used hit)
  ]

  -- After an update of a valid table that succeeds at a time other than 0, a lookup of the key
  -- returns an open connection of that key, seen at the time of the update.
  pub lookup-update :
      (pkt_len : ℕ) (is_reverse : Bool) (now : ℕ) {c' : Ctx}
      → 0 < now
      → update c key pkt_len is_reverse now ≡ some (success, c')
      → (e : Entry) × (lookup c' key ≡ some (some e))
        × (e.key ≡ key)
        × (e.last_seen ≡ now)
        × (is_closed e.state ≡ false)
  lookup-update pkt_len is_reverse now {c'} h u =
      elim (update-cases c key pkt_len is_reverse now v) [
        | inl (full, _) ↦ absurd (cc)
        | inr (i, e, hit, stop) ↦
            subst (FoundAt now) (ap (λ x. x.1) (some-injective _ _ (sym stop ∙ u)))
              (update_at_found pkt_len is_reverse now i e h hit)
      ]

  IsOther-stops : (e : Entry) → IsPlain e → stops_update key e ≡ false → IsOther key e
  IsOther-stops e p s = ground (arith, is_empty-not_active e p)

  stops_other : (e : Entry) → IsPlain e → IsOther key e → stops_update key e ≡ false
  stops_other e p o = ground (arith, is_empty-not_active e p, o.0, o.1)

  IsPlain-at : (i : ℕ) {e : Entry} → get_elem? c.entries i ≡ some e → IsPlain e
  IsPlain-at i at = All-get_elem? IsPlain c.entries i v.plain at

  -- An update of a valid table is refused, and leaves the table as it was, exactly where every
  -- slot holds an open connection of another key.
  pub update-full :
      (pkt_len : ℕ) (is_reverse : Bool) (now : ℕ)
      → (update c key pkt_len is_reverse now ≡ some (failure, c)) ↔ All (IsOther key) c.entries
  unfolding update
  update-full pkt_len is_reverse now = (refused, full)
    where
      refused :
          update c key pkt_len is_reverse now ≡ some (failure, c) → All (IsOther key) c.entries
      refused u = elim (update-cases c key pkt_len is_reverse now v) [
        | inl (_, miss) ↦ All-of_get_elem? (IsOther key) c.entries λ i e at.
            let place = place_of c.limit home i home_in (below i at) in
            IsOther-stops e (IsPlain-at i at)
              (miss place.0 e place.1 (ap (get_elem? c.entries) place.2 ∙ at))
        | inr (i, e, hit, stop) ↦
            absurd (update_at_status i e (ap (λ x. x.0) (some-injective _ _ (sym stop ∙ u))))
      ]
        where
          below : (i : ℕ) {e : Entry} → get_elem? c.entries i ≡ some e → i < c.limit
          below i at = omega (arith, get_elem?-some c.entries i at, v.space)

          update_at_status :
              (i : ℕ) (e : Entry) → (update_at c key pkt_len is_reverse now i e).0 ≢ failure
          update_at_status i e = update_at-ne c key pkt_len is_reverse now i e

      full : All (IsOther key) c.entries → update c key pkt_len is_reverse now ≡ some (failure, c)
      full others =
          rw (probe-Misses (stops_update key) c.entries c.limit home v.space home_in missed, update)
            refl
        where
          missed : Misses (stops_update key) c.entries c.limit home c.limit
          missed j e b at =
              stops_other e (IsPlain-at ((home + j) % c.limit) at)
                (All-get_elem? (IsOther key) c.entries ((home + j) % c.limit) others at)
