-- ===== src/Timestamp/Format.antt =====
-- The texts of src/timestamp.c.
use pktsnare.Common.{
  ℕ, zero, suc, ◌+◌, ◌-◌, ◌*◌, ◌/◌, ◌%◌, ◌^◌, ◌≤◌, ◌<◌, ◌≡◌, refl, sym, ap, ◌∙◌, true, false,
  Option, some, List, [], ◌∷◌, ◌++◌, arith, ltb, length, drop, length-append, take_all,
}
use mathlib.Core.List.{append-nil, append_assoc}
use pktsnare.Common.Slices.{drop-length-append}
use pktsnare.Common.Text.{digits_value, is_digit}
use pktsnare.Timestamp.{Tm, digits, width, padded, time_text, format}

length-digits : (w n : ℕ) → length (digits w n) ≡ w
unfolding digits
length-digits zero n = refl
length-digits (suc w) n =
    omega
      (arith, length-append (digits w (n / 10)) ((b'0' + n % 10) ∷ []), length-digits w (n / 10))

pow_suc : (w : ℕ) → 10 ^ suc w ≡ 10 * 10 ^ w
pow_suc w = omega arith

digits_value-cons :
    (acc d : ℕ) (rest : List ℕ)
    → d < 10
    → digits_value acc ((b'0' + d) ∷ rest) ≡ digits_value (acc * 10 + d) rest
unfolding digits_value
digits_value-cons acc d rest h =
    let ok : is_digit (b'0' + d) ≡ true = ground arith in
    rw ok (ap (λ (m : ℕ). digits_value (acc * 10 + m) rest) (omega arith))

digits_value-end :
    (acc c : ℕ) (rest : List ℕ) → is_digit c ≡ false → digits_value acc (c ∷ rest) ≡ acc
unfolding digits_value
digits_value-end acc c rest e = rw e refl

-- The value of the digits, with what comes behind them
digits_value-digits :
    (w n acc : ℕ) (rest : List ℕ)
    → n < 10 ^ w
    → digits_value acc (digits w n ++ rest) ≡ digits_value (acc * 10 ^ w + n) rest
unfolding digits
digits_value-digits zero n acc rest h = ap (λ (m : ℕ). digits_value m rest) (omega arith)
digits_value-digits (suc w) n acc rest h =
    rw (append_assoc (digits w (n / 10)) ((b'0' + n % 10) ∷ []) rest) (
      digits_value-digits w (n / 10) acc ((b'0' + n % 10) ∷ rest) (omega (arith, pow_suc w))
      ∙ (digits_value-cons (acc * 10 ^ w + n / 10) (n % 10) rest (omega arith)
          ∙ ap (λ (m : ℕ). digits_value m rest)
              (omega (arith, ap (λ (m : ℕ). acc * m) (pow_suc w)))))

padded-digits : (w n : ℕ) → n < 10 ^ w → padded w n ≡ digits w n
unfolding width
padded-digits w n h = let fits : ltb n (10 ^ w) ≡ true = ground arith in rw fits refl

-- A number, and what is behind it up to the first character that is no digit
digits_value-number :
    (w n c : ℕ) (rest : List ℕ)
    → n < 10 ^ w
    → is_digit c ≡ false
    → digits_value 0 (digits w n ++ (c ∷ rest)) ≡ n
digits_value-number w n c rest h e =
    digits_value-digits w n 0 (c ∷ rest) h
    ∙ (digits_value-end (0 * 10 ^ w + n) c rest e ∙ omega arith)

digits_value-last : (w n : ℕ) → n < 10 ^ w → digits_value 0 (digits w n) ≡ n
unfolding digits_value
digits_value-last w n h =
    ap (digits_value 0) (sym (append-nil (digits w n)))
    ∙ (digits_value-digits w n 0 [] h ∙ omega arith)

next_field : (n c : ℕ) (rest : List ℕ) → drop 3 (digits 2 n ++ (c ∷ rest)) ≡ rest
next_field n c rest =
    drop-length-append (digits 2 n) (c ∷ rest) 3 1 (omega (arith, length-digits 2 n))

length-time_text :
    (tm : Tm) (us : ℕ)
    → tm.hour < 100
    → tm.min < 100
    → tm.sec < 100
    → us < 1000000
    → length (time_text tm us) ≡ 15
length-time_text tm us h m s u =
    rw
      (
        padded-digits 2 tm.hour h,
        padded-digits 2 tm.min m,
        padded-digits 2 tm.sec s,
        padded-digits 6 us u,
      )
      (omega (
        arith,
        length-append (digits 2 tm.hour)
            (b':' ∷ (digits 2 tm.min ++ (b':' ∷ (digits 2 tm.sec ++ (b'.' ∷ digits 6 us))))),
        length-append (digits 2 tm.min) (b':' ∷ (digits 2 tm.sec ++ (b'.' ∷ digits 6 us))),
        length-append (digits 2 tm.sec) (b'.' ∷ digits 6 us),
        length-digits 2 tm.hour,
        length-digits 2 tm.min,
        length-digits 2 tm.sec,
        length-digits 6 us,
      ))

-- The text with its digits as they are
abbrev plain : Tm → ℕ → List ℕ
plain tm us =
    digits 2 tm.hour
    ++ (b':' ∷ (digits 2 tm.min ++ (b':' ∷ (digits 2 tm.sec ++ (b'.' ∷ digits 6 us)))))

fields :
    (tm : Tm) (us : ℕ)
    → tm.hour < 100
    → tm.min < 100
    → tm.sec < 100
    → us < 1000000
    → (digits_value 0 (plain tm us) ≡ tm.hour)
      × (digits_value 0 (drop 3 (plain tm us)) ≡ tm.min)
      × (digits_value 0 (drop 3 (drop 3 (plain tm us))) ≡ tm.sec)
      × (digits_value 0 (drop 3 (drop 3 (drop 3 (plain tm us)))) ≡ us)
fields tm us h m s u =
    let tail3 = digits 6 us in
    let tail2 = digits 2 tm.sec ++ (b'.' ∷ tail3) in
    let tail1 = digits 2 tm.min ++ (b':' ∷ tail2) in
    let one = next_field tm.hour b':' tail1 in
    let two = ap (drop 3) one ∙ next_field tm.min b':' tail2 in
    let three = ap (drop 3) two ∙ next_field tm.sec b'.' tail3 in
    (
      digits_value-number 2 tm.hour b':' tail1 h refl,
      ap (digits_value 0) one ∙ digits_value-number 2 tm.min b':' tail2 m refl,
      ap (digits_value 0) two ∙ digits_value-number 2 tm.sec b'.' tail3 s refl,
      ap (digits_value 0) three ∙ digits_value-last 6 us u,
    )

-- `ts_format` of src/timestamp.c without a flag, in a buffer of at least 16 characters, where
-- `gmtime_r` gives a time with hours, minutes and seconds of two digits: a text of 15 characters from
-- which the hours, the minutes, the seconds and the microseconds are read back.
pub format_lem :
    (gmtime : ℕ → Option Tm) (ts ref len : ℕ) (tm : Tm)
    → gmtime (ts / 1000000) ≡ some tm
    → tm.hour < 100
    → tm.min < 100
    → tm.sec < 100
    → 16 ≤ len
    → (s : List ℕ) × (format gmtime ts ref false false false len ≡ some s)
      × (length s ≡ 15)
      × (digits_value 0 s ≡ tm.hour)
      × (digits_value 0 (drop 3 s) ≡ tm.min)
      × (digits_value 0 (drop 3 (drop 3 s)) ≡ tm.sec)
      × (digits_value 0 (drop 3 (drop 3 (drop 3 s))) ≡ ts % 1000000)
unfolding format
format_lem gmtime ts ref len tm e h m s l =
    let us = ts % 1000000 in
    let u : us < 1000000 = omega arith in
    let size = length-time_text tm us h m s u in
    (
      time_text tm us,
      (let long : ltb len 2 ≡ false = ground arith in
          rw (long, e, take_all (time_text tm us) (len - 1) (omega (arith, size))) refl),
      size,
      rw
          (
            padded-digits 2 tm.hour h,
            padded-digits 2 tm.min m,
            padded-digits 2 tm.sec s,
            padded-digits 6 us u,
          )
          (fields tm us h m s u).0,
      rw
          (
            padded-digits 2 tm.hour h,
            padded-digits 2 tm.min m,
            padded-digits 2 tm.sec s,
            padded-digits 6 us u,
          )
          (fields tm us h m s u).1,
      rw
          (
            padded-digits 2 tm.hour h,
            padded-digits 2 tm.min m,
            padded-digits 2 tm.sec s,
            padded-digits 6 us u,
          )
          (fields tm us h m s u).2,
      rw
          (
            padded-digits 2 tm.hour h,
            padded-digits 2 tm.min m,
            padded-digits 2 tm.sec s,
            padded-digits 6 us u,
          )
          (fields tm us h m s u).3,
    )
