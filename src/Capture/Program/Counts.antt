-- ===== src/Capture/Program/Counts.antt =====
-- What src/main.c makes of its options, and how many packets it captures.
use pktsnare.Common.{
  ℕ, ◌+◌, ◌≤◌, ◌<◌, ◌≡◌, refl, inl, inr, Bool, true, false, not, ◌&&◌, ◌||◌, Option, none, some,
  List, [], ◌∷◌, ◌++◌, arith, ltb, if◌then◌else◌, Bool-cases, All,
}
use pktsnare.Common.Int.{ℤ, pos, ltb_ℤ, leb_ℤ}
use pktsnare.Common.Text.{atoi}
use pktsnare.Capture.Program.{
  Opt, iface, count, snaplen, filter, verbose, help, bad, Config, defaults, captured, parse, Round,
  capture, run, main, is_zero,
}

-- An option other than `-h` that `getopt` knows
abbrev pub is_plain : Opt → Bool
is_plain help = false
is_plain bad = false
is_plain _ = true

abbrev pub IsPlain : Opt → Type 0
IsPlain o = is_plain o ≡ true

-- What an option says of each variable
abbrev iface_of : Opt → Option (Option (List ℕ))
iface_of (iface a) = some (some a)
iface_of _ = none

abbrev filter_of : Opt → Option (Option (List ℕ))
filter_of (filter a) = some (some a)
filter_of _ = none

abbrev count_of : Opt → Option ℤ
count_of (count a) = some (atoi a)
count_of _ = none

abbrev snaplen_of : Opt → Option ℤ
snaplen_of (snaplen a) = some (atoi a)
snaplen_of _ = none

abbrev verbose_of : Opt → Option Bool
verbose_of verbose = some true
verbose_of _ = none

abbrev or_keep : {A : Type 0} → Option A → A → A
or_keep none d = d
or_keep (some x) d = x

-- The last option that says something, or the default
abbrev last_of : {A : Type 0} → (Opt → Option A) → A → List Opt → A
last_of f d [] = d
last_of f d (o ∷ os) = last_of f (or_keep (f o) d) os

abbrev pub asked : Config → List Opt → Config
asked c os = record {
  iface = last_of iface_of c.iface os;
  filter = last_of filter_of c.filter os;
  count = last_of count_of c.count os;
  snaplen = last_of snaplen_of c.snaplen os;
  verbose = last_of verbose_of c.verbose os;
}

-- Each variable has the value of the last option for it.
pub parse-asked : (c : Config) (os : List Opt) → All IsPlain os → parse c os ≡ inr (asked c os)
unfolding parse
parse-asked c [] h = refl
parse-asked c (iface a ∷ os) h = parse-asked (record c { iface = some a }) os h.1
parse-asked c (count a ∷ os) h = parse-asked (record c { count = atoi a }) os h.1
parse-asked c (snaplen a ∷ os) h = parse-asked (record c { snaplen = atoi a }) os h.1
parse-asked c (filter a ∷ os) h = parse-asked (record c { filter = some a }) os h.1
parse-asked c (verbose ∷ os) h = parse-asked (record c { verbose = true }) os h.1
parse-asked c (help ∷ os) h = absurd (cc (h.0))
parse-asked c (bad ∷ os) h = absurd (cc (h.0))

-- The program goes on in this round.
abbrev pub IsCalm : Round → Type 0
IsCalm (running, ret) = (running ≡ true) × (ltb_ℤ ret (pos 0) ≡ false)

-- The packets that `capture_next` has captured in these rounds
abbrev pub hits : List Round → ℕ
hits [] = 0
hits ((running, ret) ∷ rs) = if ltb_ℤ (pos 0) ret then 1 + hits rs else hits rs

-- The round ends the loop.
abbrev pub is_last : Round → Bool
is_last (running, ret) = not running || ltb_ℤ ret (pos 0)

capture-hits :
    (limit done : ℕ) (rs : List Round)
    → 0 < limit
    → done ≤ limit
    → All IsCalm rs
    → limit ≤ done + hits rs
    → capture (pos limit) done rs ≡ some limit
unfolding capture
capture-hits limit done [] p d h e = ground arith
capture-hits limit done ((running, ret) ∷ rs) p d h e = elim (Bool-cases (ltb done limit)) [
  | inr full ↦ ground arith
  | inl room ↦ elim (Bool-cases (ltb_ℤ (pos 0) ret)) [
    | inl hit ↦
        let ih = capture-hits limit (done + 1) rs p (ground arith) h.1 (ground arith) in
        ground (arith, ih, h.0.0, h.0.1)
    | inr miss ↦
        let ih = capture-hits limit done rs p d h.1 (ground arith) in
        ground (arith, ih, h.0.0, h.0.1)
  ]
]

capture-unlimited :
    (limit : ℤ) (done : ℕ) (rs after : List Round) (r : Round)
    → is_zero limit ≡ true
    → All IsCalm rs
    → is_last r ≡ true
    → capture limit done (rs ++ (r ∷ after)) ≡ some (done + hits rs)
unfolding capture
capture-unlimited limit done [] after (running, ret) z h e = ground arith
capture-unlimited limit done ((running, ret) ∷ rs) after r z h e =
    elim (Bool-cases (ltb_ℤ (pos 0) ret)) [
      | inl hit ↦
          let ih = capture-unlimited limit (done + 1) rs after r z h.1 e in
          ground (arith, ih, h.0.0, h.0.1)
      | inr miss ↦
          let ih = capture-unlimited limit done rs after r z h.1 e in
          ground (arith, ih, h.0.0, h.0.1)
    ]

-- `main` of src/main.c with options that `getopt` knows, without `-h`, where the last snapshot length
-- is from 64 to 65535, the last count is more than 0, there is a handle, no signal comes and
-- `capture_next` does not fail in the rounds, and captures at least that count of packets in them: it
-- ends, with exactly the count captured and each variable from the last option for it.
pub main-count :
    (os : List Opt) (rs : List Round) (limit : ℕ)
    → All IsPlain os
    → (asked defaults os).count ≡ pos limit
    → 0 < limit
    → leb_ℤ (pos 64) (asked defaults os).snaplen && leb_ℤ (asked defaults os).snaplen (pos 65535)
      ≡ true
    → All IsCalm rs
    → limit ≤ hits rs
    → main os true rs ≡ some (captured (asked defaults os) limit)
unfolding main run
main-count os rs limit plain c more s calm enough =
    rw (parse-asked defaults os plain, main)
      (let range : ltb_ℤ (asked defaults os).snaplen (pos 64)
              || ltb_ℤ (pos 65535) (asked defaults os).snaplen
            ≡ false =
          ground arith in
        rw range (rw (c, capture-hits limit 0 rs more (omega arith) calm (omega arith)) refl))

-- `main` with such options whose last count is 0: it runs until a signal comes or `capture_next`
-- fails, and ends with every packet captured that came before.
pub main-unlimited :
    (os : List Opt) (rs after : List Round) (r : Round)
    → All IsPlain os
    → (asked defaults os).count ≡ pos 0
    → leb_ℤ (pos 64) (asked defaults os).snaplen && leb_ℤ (asked defaults os).snaplen (pos 65535)
      ≡ true
    → All IsCalm rs
    → is_last r ≡ true
    → main os true (rs ++ (r ∷ after)) ≡ some (captured (asked defaults os) (hits rs))
unfolding main run
main-unlimited os rs after r plain c s calm e =
    rw (parse-asked defaults os plain, main)
      (let range : ltb_ℤ (asked defaults os).snaplen (pos 64)
              || ltb_ℤ (pos 65535) (asked defaults os).snaplen
            ≡ false =
          ground arith in
        rw range (rw (c, capture-unlimited (pos 0) 0 rs after r refl calm e) (ground arith)))
