-- ===== src/Filter/Match.antt =====
-- Which packets a filter of src/filter.c lets pass that was made from a text.
use pktsnare.Common.{
  ℕ, ◌≤◌, ◌≡◌, ◌≢◌, ◌↔◌, Bool, true, ◌&&◌, ◌||◌, Option, none, some, List, [], ◌∷◌, arith, ◌==◌,
  length, set, All,
}
use pktsnare.Filter.{Proto, Ctx, Packet, proto_eq, init, parse, success, port_of, matches}
use pktsnare.Filter.Parse.{
  IsClause, parse-text, text, both_hosts, apply_all, Clause, only_tcp, only_udp, only_icmp,
  src_port, dst_port, src_host, dst_host,
}

-- A protocol, or any, and hosts and ports for each direction, which may be left open.
pub record Query : Type 0 where
  pub proto : Proto
  pub src_host : Option (List ℕ)
  pub dst_host : Option (List ℕ)
  pub src_port : Option (List ℕ)
  pub dst_port : Option (List ℕ)

abbrev given : (List ℕ → Clause) → Option (List ℕ) → List Clause → List Clause
given f none ks = ks
given f (some a) ks = f a ∷ ks

abbrev proto_clause : Proto → List Clause → List Clause
proto_clause Proto.any ks = ks
proto_clause Proto.tcp ks = only_tcp ∷ ks
proto_clause Proto.udp ks = only_udp ∷ ks
proto_clause Proto.icmp ks = only_icmp ∷ ks

abbrev pub clauses : Query → List Clause
clauses q = proto_clause q.proto (
    given src_host q.src_host
      (given dst_host q.dst_host (given src_port q.src_port (given dst_port q.dst_port []))))

-- Nothing is asked for, or 0, or the packet's value.
abbrev meets_value : (List ℕ → ℕ) → Option (List ℕ) → ℕ → Bool
meets_value value none actual = true
meets_value value (some a) actual = value a == 0 || value a == actual

abbrev pub meets : (List ℕ → ℕ) → Query → Packet → Bool
meets inet q p =
    (proto_eq q.proto Proto.any || proto_eq q.proto p.proto)
    && (meets_value inet q.src_host p.src_ip
        && (meets_value inet q.dst_host p.dst_ip
            && (meets_value port_of q.src_port p.src_port
                && meets_value port_of q.dst_port p.dst_port)))

module _ (inet : List ℕ → ℕ) where
  -- The context that the clauses make.
  abbrev ctx_of : Query → Ctx
  ctx_of q = apply_all inet (clauses q) init

  matches-ctx_of : (q : Query) (p : Packet) → matches (ctx_of q) p ≡ meets inet q p
  unfolding matches
  matches-ctx_of q p = ground arith

  -- A filter of src/filter.c whose text asks for a protocol, hosts and ports in this order, some of
  -- them left open, each argument a word without blanks and one space between two words, is parsed
  -- with success where the text has at most 255 characters, and lets a packet pass exactly if it has
  -- each value that is asked for and is not 0.
  pub matches-parse :
      (q : Query) (p : Packet)
      → All IsClause (clauses q)
      → length (text (clauses q)) ≤ 255
      → (f : Ctx) × (parse inet init (text (clauses q)) ≡ some (success, f))
        × (matches f p ≡ meets inet q p)
  matches-parse q p h fits = (ctx_of q, parse-text inet (clauses q) init h fits, matches-ctx_of q p)

  -- A filter of src/filter.c whose text is `host` and a word without blanks, at most 255 characters
  -- together, of which `inet_addr` makes an address other than 0, is parsed with success and lets
  -- exactly those packets pass that have the address as their source and as their destination at once.
  pub matches-host :
      (a : List ℕ) (p : Packet)
      → IsClause (both_hosts a)
      → length (text (both_hosts a ∷ [])) ≤ 255
      → inet a ≢ 0
      → (f : Ctx) × (parse inet init (text (both_hosts a ∷ [])) ≡ some (success, f))
        × ((matches f p ≡ true) ↔ ((p.src_ip ≡ inet a) × (p.dst_ip ≡ inet a)))
  unfolding matches
  matches-host a p h fits set = (
    apply_all inet (both_hosts a ∷ []) init,
    parse-text inet (both_hosts a ∷ []) init (h, tt) fits,
    ground arith,
  )
