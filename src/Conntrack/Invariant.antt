-- ===== src/Conntrack/Invariant.antt =====
-- The invariant of the table of src/conntrack.c: its size, and what `count` counts.
use pktsnare.Common.{
  ℕ, zero, suc, ◌+◌, ◌<◌, ◌≡◌, refl, sym, ap, subst, ◌∙◌, ◌⊎◌, inl, inr, Bool, true, false, not,
  ◌&&◌, ◌||◌, Option, none, some, arith, ◌==◌, if◌then◌else◌, Bool-cases, length, get_elem?,
  replicate, All, length-set, length-replicate, All-get_elem?, All-set, All-replicate,
}
use mathlib.Core.Option.{some-injective}
use pktsnare.Common.Filter.{count_if}
use pktsnare.Common.Int.{ℤ, pos, pos_part, leb_ℤ, failure}
use pktsnare.Table.Slots.{count_if-set_new, count_if-set_same}
use pktsnare.Conntrack.{
  Ctx, Entry, Key, State, new, max_entries, established, closing, closed, zeroed, conn_hash, is_new,
  is_closed, is_empty, init, probe, stops_update, opened, touched, update_at, update,
}
use pktsnare.Conntrack.Probe.{Hit, Misses, Probes, probe-Probes}

-- A connection that was seen and is not closed
abbrev pub is_active : Entry → Bool
is_active e = not (e.first_seen == 0) && not (is_closed e.state)

-- A slot that was never used is new.
abbrev pub IsPlain : Entry → Type 0
IsPlain e = e.first_seen ≡ 0 → is_new e.state ≡ true

pub record IsValid (c : Ctx) : Type 0 where
  pub space : length c.entries ≡ c.limit
  pub nonempty : 0 < c.limit
  pub counted : c.count ≡ count_if is_active c.entries
  pub plain : All IsPlain c.entries

pub conn_hash-lt : (key : Key) (limit : ℕ) → 0 < limit → conn_hash key limit < limit
unfolding conn_hash
conn_hash-lt key limit h = omega arith

pub is_empty-not_active : (e : Entry) → IsPlain e → is_empty e ≡ not (is_active e)
is_empty-not_active e h = by_state e.state e.first_seen h
  where
    by_state :
        (s : State) (f : ℕ)
        → (f ≡ 0 → is_new s ≡ true)
        → (is_closed s || is_new s && f == 0) ≡ not (not (f == 0) && not (is_closed s))
    by_state new f g = ground arith
    by_state established f g = ground (arith, g)
    by_state closing f g = ground (arith, g)
    by_state closed f g = ground arith

none_active : (n : ℕ) → count_if is_active (replicate n zeroed) ≡ 0
none_active zero = refl
none_active (suc n) = none_active n

fresh-IsValid :
    (n : ℕ) → 0 < n → IsValid (record { entries = replicate n zeroed; limit = n; count = 0 })
fresh-IsValid n h = record {
  space = length-replicate n zeroed;
  nonempty = h;
  counted = sym (none_active n);
  plain = All-replicate IsPlain n zeroed (λ e. refl);
}

-- A fresh table is valid and empty, whatever size was asked for.
pub init-IsValid :
    (limit : ℤ) (a b : Bool) {c : Ctx} → init limit a b ≡ some c → IsValid c × (c.count ≡ 0)
unfolding init
init-IsValid limit a b {c} e = elim (Bool-cases (a && b)) [
  | inl ok ↦
      subst (λ x. IsValid x × (x.count ≡ 0)) (some-injective _ _ (rw ok at e))
        (fresh-IsValid size size_pos, refl)
  | inr fail ↦ absurd (cc (rw fail at e))
]
  where
    size : ℕ
    size = if leb_ℤ limit (pos 0) then max_entries else pos_part limit

    size_pos : 0 < size
    size_pos = ground arith

pub is_closed-touched : (s : State) → is_closed s ≡ is_closed (if is_new s then established else s)
is_closed-touched new = refl
is_closed-touched established = refl
is_closed-touched closing = refl
is_closed-touched closed = refl

seen : (e : Entry) → is_empty e ≡ false → is_new e.state ≡ true → e.first_seen ≡ 0 → ⊥
seen e used fresh z = ground arith

module _ (c : Ctx) (key : Key) (pkt_len : ℕ) (is_reverse : Bool) (now : ℕ) (v : IsValid c) where
  abbrev start : ℕ
  start = conn_hash key c.limit

  -- The loop of `conntrack_update` always ends: in a slot, or after all of the table.
  pub update-cases :
      ((update c key pkt_len is_reverse now ≡ some (failure, c))
        × Misses (stops_update key) c.entries c.limit start c.limit)
      ⊎ ((i : ℕ) × (e : Entry) × Hit (stops_update key) c.entries c.limit start i e
          × (update c key pkt_len is_reverse now
              ≡ some (update_at c key pkt_len is_reverse now i e)))
  unfolding update
  update-cases = cases (probe (stops_update key) c.limit c.entries c.limit start start) refl (
      probe-Probes (stops_update key) c.entries c.limit start v.space
        (conn_hash-lt key c.limit v.nonempty))
    where
      cases :
          (r : Option (Option ℕ))
          → probe (stops_update key) c.limit c.entries c.limit start start ≡ r
          → Probes (stops_update key) c.entries c.limit start r
          → ((update c key pkt_len is_reverse now ≡ some (failure, c))
              × Misses (stops_update key) c.entries c.limit start c.limit)
            ⊎ ((i : ℕ) × (e : Entry) × Hit (stops_update key) c.entries c.limit start i e
                × (update c key pkt_len is_reverse now
                    ≡ some (update_at c key pkt_len is_reverse now i e)))
      cases none q f = absurd f
      cases (some none) q f = inl (rw (q, update), f)
      cases (some (some i)) q (e, hit) = inr (i, e, hit, rw (q, update) (rw (hit.at, update)))

  IsPlain-at : (i : ℕ) (e : Entry) → get_elem? c.entries i ≡ some e → IsPlain e
  IsPlain-at i e at = All-get_elem? IsPlain c.entries i v.plain at

  update_at-IsValid :
      (i : ℕ) (e : Entry)
      → 0 < now
      → get_elem? c.entries i ≡ some e
      → IsValid (update_at c key pkt_len is_reverse now i e).1
  unfolding update_at
  update_at-IsValid i e h at = elim (Bool-cases (is_empty e)) [
    | inl empty ↦ rw empty (record {
      space = length-set c.entries i _ ∙ v.space;
      nonempty = v.nonempty;
      counted =
          ap (λ n. n + 1) v.counted
          ∙ sym (
              count_if-set_new is_active c.entries i (opened key pkt_len is_reverse now) at
                (ground (arith, is_empty-not_active e (IsPlain-at i e at))) (ground arith));
      plain =
          All-set IsPlain c.entries i (opened key pkt_len is_reverse now) v.plain
            (λ z. absurd (omega arith));
    })
    | inr used ↦ rw used (record {
      space = length-set c.entries i _ ∙ v.space;
      nonempty = v.nonempty;
      counted =
          v.counted
          ∙ sym (
              count_if-set_same is_active c.entries i (touched pkt_len is_reverse now e) at
                (ap (λ b. not (e.first_seen == 0) && not b) (is_closed-touched e.state)));
      plain =
          All-set IsPlain c.entries i (touched pkt_len is_reverse now e) v.plain
            (λ z. absurd (seen e used (IsPlain-at i e at z) z));
    })
  ]

  -- At a time other than 0, an update of a valid table always returns, and leaves a valid table:
  -- its slots, the count of the open connections, and no time 0 in a slot that is in use.
  pub update-IsValid :
      0 < now → (out : ℤ × Ctx) × (update c key pkt_len is_reverse now ≡ some out) × IsValid out.1
  update-IsValid h = elim update-cases [
    | inl (e, _) ↦ ((failure, c), e, v)
    | inr (i, e, hit, u) ↦
        (update_at c key pkt_len is_reverse now i e, u, update_at-IsValid i e h hit.at)
  ]
