-- ===== src/NetUtil/Urls.antt =====
-- Which addresses of a tracker are read, and as what.
use new_thinbt.Common.{
  ℕ, ◌%◌, ◌≤◌, ◌<◌, min, ◌≡◌, ◌≢◌, refl, ap, subst, ◌∙◌, inl, inr, false, ◌||◌, Option, none, some,
  List, [], ◌∷◌, ◌++◌, ◌>>=◌, All, All-append, ltb, ◌==◌, Bool-cases, Option-cases, arith, u16_mod,
}
use new_thinbt.Common.Text.{codes, strip_prefix, decimal}
use new_thinbt.Common.Decimal.{
  EndsNumber, digits-All, strip_sign-skip-decimal, unsigned_value-decimal,
}
use new_thinbt.NetUtil.{
  TrackerUrl, ℤ, pos, saturated, converted, signed_long, strtol, c_str, to_host_end, named_host,
  host_of, valid_port, port_of, with_port, parse_tracker_url,
}

-- Bytes that a host written without brackets consists of.
abbrev pub IsHostByte : ℕ → Type 0
IsHostByte c = (c ≢ 0) × (c ≢ 58) × (c ≢ 47) × (c ≢ 91)

eq_ne : (a b : ℕ) → a ≢ b → (a == b) ≡ false
eq_ne a b ne = ground (arith, ne)

c_str-free : (text : List ℕ) → All (λ c. c ≢ 0) text → c_str text ≡ text
unfolding c_str
c_str-free [] free = refl
c_str-free (c ∷ text) free = rw (c_str, eq_ne c 0 free.0) (ap (λ t. c ∷ t) (c_str-free text free.1))

host_free : (host : List ℕ) → All IsHostByte host → All (λ c. c ≢ 0) host
host_free [] all = tt
host_free (c ∷ host) all = (all.0.0, host_free host all.1)

to_host_end-host :
    (host rest : List ℕ)
    → All IsHostByte host
    → to_host_end (host ++ (58 ∷ rest)) ≡ (host, 58 ∷ rest)
unfolding to_host_end
to_host_end-host [] rest all = refl
to_host_end-host (c ∷ host) rest all =
    let inside : (c == 58 || c == 47) ≡ false = ground (arith, all.0) in
    rw (to_host_end, inside, to_host_end-host host rest all.1) refl

strtol-decimal :
    (n : ℕ) (rest : List ℕ)
    → n ≤ 65535
    → EndsNumber rest
    → strtol (decimal n ++ rest) ≡ some (pos n)
unfolding strtol signed_long converted saturated
strtol-decimal n rest le ends =
    let small : min n 9223372036854775807 ≡ n = omega arith in
    ap signed_long (strip_sign-skip-decimal n rest)
    ∙ ap (converted false) (unsigned_value-decimal n rest ends)
    ∙ ap (λ (k : ℕ). some (pos k)) small

valid_port-in : (n : ℕ) → 1 ≤ n → n ≤ 65535 → valid_port (pos n) ≡ some n
unfolding valid_port
valid_port-in n low high =
    let inside : (ltb n 1 || ltb 65535 n) ≡ false = ground arith in
    let same : n % u16_mod ≡ n = omega arith in rw (valid_port, inside, same) refl

-- The address of a tracker with a host, a port and what may follow it.
abbrev pub tracker_url : List ℕ → ℕ → List ℕ → List ℕ
tracker_url host port rest = codes "thinbt://" ++ (host ++ (58 ∷ (decimal port ++ rest)))

url_free :
    (host : List ℕ) (port : ℕ) (rest : List ℕ)
    → All IsHostByte host
    → All (λ c. c ≢ 0) rest
    → All (λ c. c ≢ 0) (tracker_url host port rest)
unfolding decimal
url_free host port rest all free =
    let nonzero : (a : ℕ) → 0 < a → a ≢ 0 = λ a lt e. omega (arith, lt, e) in
    All-append (λ (c : ℕ). c ≢ 0) (codes "thinbt://") (host ++ (58 ∷ (decimal port ++ rest)))
      (
        nonzero 116 (omega arith),
        (
          nonzero 104 (omega arith),
          (
            nonzero 105 (omega arith),
            (
              nonzero 110 (omega arith),
              (
                nonzero 98 (omega arith),
                (
                  nonzero 116 (omega arith),
                  (
                    nonzero 58 (omega arith),
                    (nonzero 47 (omega arith), (nonzero 47 (omega arith), tt)),
                  ),
                ),
              ),
            ),
          ),
        ),
      )
      (All-append (λ (c : ℕ). c ≢ 0) host (58 ∷ (decimal port ++ rest)) (host_free host all)
        (
          nonzero 58 (omega arith),
          All-append (λ (c : ℕ). c ≢ 0) (decimal port) rest
              (digits-All (λ c. c ≢ 0) (λ d lt e. omega arith) port port (omega arith)) free,
        ))

host_of-host :
    (host rest : List ℕ)
    → host ≢ []
    → All IsHostByte host
    → host_of (host ++ (58 ∷ rest)) ≡ some (host, 58 ∷ rest)
unfolding host_of named_host
host_of-host [] rest ne all = absurd (ne refl)
host_of-host (c ∷ host) rest ne all =
    rw (host_of, eq_ne c 91 all.0.3, to_host_end-host (c ∷ host) rest all) refl

-- A host without brackets and a port between 1 and 65535 are read back from the address of the
-- tracker, whatever follows the port and does not start with a digit.
pub parse_tracker_url-tracker_url :
    (host : List ℕ) (port : ℕ) (rest : List ℕ)
    → host ≢ []
    → All IsHostByte host
    → 1 ≤ port
    → port ≤ 65535
    → All (λ c. c ≢ 0) rest
    → EndsNumber rest
    → parse_tracker_url (tracker_url host port rest) ≡ some (record { host = host; port = port })
unfolding parse_tracker_url with_port port_of strip_prefix
parse_tracker_url-tracker_url host port rest ne all low high free ends =
    let url : List ℕ = tracker_url host port rest in
    ap (λ text. strip_prefix (codes "thinbt://") text >>= (λ t. host_of t >>= with_port))
      (c_str-free url (url_free host port rest all free))
    ∙ ap (λ found. found >>= with_port) (host_of-host host (decimal port ++ rest) ne all)
    ∙ rw (with_port, port_of, strtol-decimal port rest high ends, valid_port-in port low high) refl

valid_port-bounds : (i : ℤ) (n : ℕ) → valid_port i ≡ some n → (1 ≤ n) × (n ≤ 65535)
unfolding valid_port
valid_port-bounds i n e = ground (arith, e)

port_or : Option TrackerUrl → ℕ
port_or none = 0
port_or (some url) = url.port

port_of-bounds : (text : List ℕ) (n : ℕ) → port_of text ≡ some n → (1 ≤ n) × (n ≤ 65535)
unfolding port_of
port_of-bounds [] n e = cc
port_of-bounds (c ∷ text) n e = elim (Bool-cases (c == 58)) [
  | inr other ↦ let e' : none ≡ some n = rw (port_of, other) at e in cc
  | inl colon ↦ elim (Option-cases (strtol text)) [
    | inl none_read ↦ let e' : none ≡ some n = rw (port_of, colon, none_read) at e in cc
    | inr (i, read) ↦ valid_port-bounds i n (rw (port_of, colon, read) at e)
  ]
]

with_port-bounds :
    (found : List ℕ × List ℕ) (url : TrackerUrl)
    → with_port found ≡ some url
    → (1 ≤ url.port) × (url.port ≤ 65535)
unfolding with_port port_or
with_port-bounds (host, text) url e = elim (Option-cases (port_of text)) [
  | inl none_read ↦ let e' : none ≡ some url = rw (with_port, none_read) at e in cc
  | inr (n, read) ↦
      let e' : some (record { host = host; port = n }) ≡ some url = rw (with_port, read) at e in
      let same : n ≡ url.port = ap port_or (e') in
      subst (λ (k : ℕ). (1 ≤ k) × (k ≤ 65535)) same (port_of-bounds text n read)
]

-- A port that is read from an address lies between 1 and 65535, whatever the text.
pub parse_tracker_url-bounds :
    (text : List ℕ) (url : TrackerUrl)
    → parse_tracker_url text ≡ some url
    → (1 ≤ url.port) × (url.port ≤ 65535)
unfolding parse_tracker_url
parse_tracker_url-bounds text url e =
    elim (Option-cases (strip_prefix (codes "thinbt://") (c_str text))) [
      | inl missing ↦ let e' : none ≡ some url = rw missing at e in cc
      | inr (rest, stripped) ↦ elim (Option-cases (host_of rest)) [
        | inl missing ↦ let e' : none ≡ some url = rw (stripped, missing) at e in cc
        | inr (found, read) ↦ with_port-bounds found url (rw (stripped, read) at e)
      ]
    ]
