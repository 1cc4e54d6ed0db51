-- ===== src/Filter/Tests.antt =====
-- Runs of the model of src/filter.c, and its theorems at concrete inputs.
use pktsnare.Common.{ℕ, ◌≡◌, refl, ◌↔◌, true, none, some, List, [], ◌∷◌, arith, length}
use mathlib.Core.Option
use pktsnare.Common.Int
use pktsnare.Common.Int.{ℤ, pos, success, failure}
use pktsnare.Common.Text.{codes, atoi, signed_value, digits_value}
use pktsnare.Filter.{
  Proto, Ctx, Packet, init, keyword, words_from, round, parse_words, parse, matches,
}
use pktsnare.Filter.Parse.{Clause, only_tcp, either_port, both_hosts, text, parse_total}
use pktsnare.Filter.Match.{Query, clauses, meets, matches-parse, matches-host}

-- Addresses by their length, in the place of `inet_addr`.
abbrev inet : List ℕ → ℕ
inet a = length a

abbrev query : Query
query = record {
  proto = Proto.tcp;
  src_host = none;
  dst_host = none;
  src_port = none;
  dst_port = some (codes "80");
}

abbrev web : Packet
web = record { proto = Proto.tcp; src_ip = 1; dst_ip = 2; src_port = 9; dst_port = 80 }

abbrev asked : List Clause
asked = only_tcp ∷ either_port (codes "443") ∷ []

atoi_run : (atoi (codes " -12x") ≡ Int.negsuc 11) × (atoi (codes "0443") ≡ pos 443)
unfolding atoi signed_value digits_value
atoi_run = (refl, refl)

-- An argument is missing.
parse_run : Option.map {B = ℤ} (λ r. r.0) (parse inet init (codes "udp  src\tport")) ≡ some failure
unfolding parse words_from parse_words round keyword
parse_run = refl

text_run : text asked ≡ codes "tcp port 443"
text_run = refl

parse_total_example : (out : ℤ × Ctx) × (parse inet init (codes "tcp port") ≡ some out)
parse_total_example = parse_total inet init (codes "tcp port")

matches-parse_example :
    (f : Ctx) × (parse inet init (text (clauses query)) ≡ some (success, f))
    × (matches f web ≡ meets inet query web)
matches-parse_example = matches-parse inet query web (ground arith) (omega arith)

matches-host_example :
    (f : Ctx) × (parse inet init (text (both_hosts (codes "h") ∷ [])) ≡ some (success, f))
    × ((matches f web ≡ true) ↔ ((web.src_ip ≡ 1) × (web.dst_ip ≡ 1)))
matches-host_example = matches-host inet (codes "h") web (ground arith) (omega arith) (omega arith)
