-- ===== src/Dissect/Safety.antt =====
-- What `dissect_packet` of src/dissect.c reads, and where the payload lies that it reports.
use pktsnare.Common.{
  ℕ, ◌+◌, ◌-◌, ◌*◌, ◌/◌, ◌%◌, ◌^◌, ◌≤◌, ◌≡◌, refl, ◌∙◌, ◌⊎◌, inl, inr, false, ◌&&◌, Option, none,
  some, List, arith, ltb, leb, ◌==◌, Bool-cases, length, get_or,
}
use pktsnare.Common.Int.{ℤ, success, failure}
use pktsnare.Common.Reads.{◌>>=◌, byte, span, Returns, Returns-bind, byte-Returns, span-Returns}
use pktsnare.Dissect.{
  PacketInfo, blank, parse_ethernet, parse_ipv4, parse_tcp, parse_udp, parse_transport,
  dissect_ipv4, dissect_payload, dissect_packet,
}

-- The payload, if there is one, lies between the headers and the end of the packet.
abbrev pub PayloadFits : ℕ → PacketInfo → Type 0
PayloadFits len info =
    (info.payload_len ≡ 0)
    ⊎ ((off : ℕ) × (info.payload ≡ some off) × (off + info.payload_len ≤ len))

module _ (packet : List ℕ) (len : ℕ) (fits : len ≤ length packet) where
  parse_ethernet-Returns :
      (out : PacketInfo)
      → 14 ≤ len
      → Returns
          (parse_ethernet packet len out)
          λ r. (r.0 ≡ success) × (r.1.payload_len ≡ out.payload_len)
  unfolding parse_ethernet
  parse_ethernet-Returns out h =
      let enough : ltb len 14 ≡ false = ground arith in
      rw enough (
        Returns-bind (span packet 0 6) _ (span-Returns packet 0 6 (omega arith)) λ dst _.
          Returns-bind (span packet 6 6) _ (span-Returns packet 6 6 (omega arith)) λ src _.
            Returns-bind (byte packet 12) _ (byte-Returns packet 12 (omega arith)) λ hi _.
              Returns-bind (byte packet 13) _ (byte-Returns packet 13 (omega arith))
                λ lo _. (_, refl, (refl, refl)))

  -- The header's length is at most the bytes that there are.
  abbrev HeaderFits : ℕ → PacketInfo → Option ℕ × PacketInfo → Type 0
  HeaderFits n out r = (r.1.payload_len ≡ out.payload_len) × ((k : ℕ) → r.0 ≡ some k → k ≤ n)

  parse_ipv4-Returns :
      (off n : ℕ) (out : PacketInfo)
      → off + n ≤ len
      → Returns (parse_ipv4 packet off n out) (HeaderFits n out)
  unfolding parse_ipv4
  parse_ipv4-Returns off n out h = elim (Bool-cases (ltb n 20)) [
    | inl short ↦ rw short ((none, out), refl, (refl, λ k e. absurd (cc e)))
    | inr enough ↦ rw enough (
        Returns-bind (byte packet off) _ (byte-Returns packet off (ground arith)) λ first _.
          elim (Bool-cases (ltb n (first % 16 * 4))) [
            | inl long ↦ rw long ((none, out), refl, (refl, λ k e. absurd (cc e)))
            | inr inside ↦ rw inside (
                Returns-bind (byte packet (off + 8)) _
                  (byte-Returns packet (off + 8) (ground arith))
                  λ ttl _.
                    Returns-bind (byte packet (off + 9)) _
                      (byte-Returns packet (off + 9) (ground arith))
                      λ proto _.
                        Returns-bind (byte packet (off + 2)) _
                          (byte-Returns packet (off + 2) (ground arith))
                          λ hi _.
                            Returns-bind (byte packet (off + 3)) _
                              (byte-Returns packet (off + 3) (ground arith))
                              λ lo _.
                                Returns-bind (span packet (off + 12) 4) _
                                  (span-Returns packet (off + 12) 4 (ground arith))
                                  λ src _.
                                    Returns-bind (span packet (off + 16) 4) _
                                      (span-Returns packet (off + 16) 4 (ground arith))
                                      λ dst _. (_, refl, (refl, λ k e. ground arith)))
          ])
  ]

  abbrev Parsed : ℕ → Option PacketInfo → Type 0
  Parsed bound r = Returns r (PayloadFits bound)

  parse_tcp-Parsed :
      (off n : ℕ) (out : PacketInfo)
      → off + n ≤ len
      → 20 ≤ n
      → Parsed len (parse_tcp packet off n out)
  unfolding parse_tcp
  parse_tcp-Parsed off n out h b =
      Returns-bind (span packet off 14) _ (span-Returns packet off 14 (omega arith)) λ header _.
        let doff = get_or header 12 0 / 16 * 4 % 2 ^ 8 in
        elim (Bool-cases (ltb doff n)) [
          | inl inside ↦ (_, refl, inr (off + doff, refl, rw inside (ground arith)))
          | inr past ↦ (_, refl, inl (rw past refl))
        ]

  parse_udp-Parsed :
      (off n : ℕ) (out : PacketInfo)
      → off + n ≤ len
      → 8 ≤ n
      → Parsed len (parse_udp packet off n out)
  unfolding parse_udp
  parse_udp-Parsed off n out h b =
      Returns-bind (span packet off 6) _ (span-Returns packet off 6 (omega arith))
        λ header _. (_, refl, inr (off + 8, refl, ground arith))

  parse_transport-Parsed :
      (off n proto : ℕ) (out : PacketInfo)
      → off + n ≤ len
      → out.payload_len ≡ 0
      → Parsed len (parse_transport packet off n proto out)
  unfolding parse_transport
  parse_transport-Parsed off n proto out h z = elim (Bool-cases (proto == 6 && leb 20 n)) [
    | inl is_tcp ↦ rw is_tcp (parse_tcp-Parsed off n out h (ground arith))
    | inr not_tcp ↦ elim (Bool-cases (proto == 17 && leb 8 n)) [
      | inl is_udp ↦ rw (not_tcp, is_udp) (parse_udp-Parsed off n out h (ground arith))
      | inr not_udp ↦ elim (Bool-cases (proto == 1)) [
        | inl is_icmp ↦ rw (not_tcp, not_udp, is_icmp) (_, refl, inl z)
        | inr other ↦ rw (not_tcp, not_udp, other) (_, refl, inl z)
      ]
    ]
  ]

  abbrev Dissected : Option (ℤ × PacketInfo) → Type 0
  Dissected r = Returns r (λ x. PayloadFits len x.1)

  dissect_ipv4-Dissected :
      (out : PacketInfo) → 14 ≤ len → out.payload_len ≡ 0 → Dissected (dissect_ipv4 packet len out)
  unfolding dissect_ipv4
  dissect_ipv4-Dissected out h z =
      Returns-bind (parse_ipv4 packet 14 (len - 14) out) _
        (parse_ipv4-Returns 14 (len - 14) out (omega arith)) after
    where
      after :
          (r : Option ℕ × PacketInfo)
          → HeaderFits (len - 14) out r
          → Dissected (elim (r.0) [
            | none ↦ some (failure, r.1)
            | some n ↦ parse_transport packet (14 + n) (len - 14 - n) r.1.ip.proto r.1 >>= λ info.
                some (success, info)
          ])
      after (none, info) f = ((failure, info), refl, inl (f.0 ∙ z))
      after (some n, info) f =
          let b : n ≤ len - 14 = f.1 n refl in
          Returns-bind (parse_transport packet (14 + n) (len - 14 - n) info.ip.proto info) _
            (parse_transport-Parsed (14 + n) (len - 14 - n) info.ip.proto info (omega arith)
              (f.0 ∙ z))
            λ t p. ((success, t), refl, p)

  dissect_payload-Dissected :
      (out : PacketInfo)
      → 14 ≤ len
      → out.payload_len ≡ 0
      → Dissected (dissect_payload packet len out)
  unfolding dissect_payload
  dissect_payload-Dissected out h z = elim (Bool-cases (out.eth.ethertype == 0x0800)) [
    | inl ip4 ↦ rw ip4 (dissect_ipv4-Dissected out h z)
    | inr a ↦ elim (Bool-cases (out.eth.ethertype == 0x0806)) [
      | inl is_arp ↦ rw (a, is_arp) (_, refl, inl z)
      | inr b ↦ elim (Bool-cases (out.eth.ethertype == 0x86DD)) [
        | inl ip6 ↦ rw (a, b, ip6) (_, refl, inl z)
        | inr c ↦ rw (a, b, c) (_, refl, inl z)
      ]
    ]
  ]

-- Whatever the bytes are, `dissect_packet` of a buffer that holds `len` bytes, with an output that
-- has no payload yet, returns without a read past the end, and a payload that it reports as not
-- empty lies inside the `len` bytes.
pub dissect_packet-Returns :
    (packet : List ℕ) (len : ℕ) (out : PacketInfo)
    → len ≤ length packet
    → out.payload_len ≡ 0
    → Returns (dissect_packet packet len out) (λ x. PayloadFits len x.1)
unfolding dissect_packet
dissect_packet-Returns packet len out fits z = elim (Bool-cases (ltb len 14)) [
  | inl short ↦ rw short ((failure, out), refl, inl z)
  | inr enough ↦ rw enough (
      Returns-bind (parse_ethernet packet len blank) _
        (parse_ethernet-Returns packet len fits blank (ground arith))
        λ r f. rw (f.0) (dissect_payload-Dissected packet len fits r.1 (ground arith) (f.1)))
]
