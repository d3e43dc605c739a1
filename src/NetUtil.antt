-- ===== src/NetUtil.antt =====
-- src/common/net_util.cpp: the address of a tracker. A text is the list of its bytes.
pub mod Urls
mod Examples
use new_thinbt.Common.{
  ℕ, suc, zero, ◌+◌, ◌-◌, ◌%◌, min, Bool, true, false, ◌||◌, Option, none, some, List, [], ◌∷◌,
  ◌++◌, ◌>>=◌, ltb, leb, if◌then◌else◌, ◌==◌, u16_mod,
}
use new_thinbt.Common.Text.{codes, strip_prefix, skip_space, strip_sign, unsigned_value}

pub record TrackerUrl : Type 0 where
  pub host : List ℕ
  pub port : ℕ

-- A `long`.
pub data ℤ : Type 0 where
  pos : ℕ → ℤ
  negsuc : ℕ → ℤ

-- LONG_MAX
abbrev long_max : ℕ
long_max = 9223372036854775807

-- strtol saturates.
unfoldable pub saturated : Bool → ℕ → ℤ
saturated false n = pos (min n long_max)
saturated true zero = pos 0
saturated true (suc n) = negsuc (min n long_max)

unfoldable pub converted : Bool → Option ℕ → Option ℤ
unfolding saturated
converted minus none = none
converted minus (some n) = some (saturated minus n)

-- strtol with base 10; nothing where it converts nothing and sets `end` to the start.
unfoldable pub signed_long : Bool × List ℕ → Option ℤ
unfolding unsigned_value converted
signed_long (minus, text) = converted minus (unsigned_value text)

unfoldable pub strtol : List ℕ → Option ℤ
unfolding skip_space strip_sign signed_long
strtol text = signed_long (strip_sign (skip_space text))

-- url.c_str() as strchr and strlen read it: it ends before the first NUL.
unfoldable pub c_str : List ℕ → List ℕ
c_str [] = []
c_str (c ∷ text) = if c == 0 then [] else c ∷ c_str text

-- strchr(p, ']'): what stands before the bracket and what follows it.
unfoldable pub to_bracket : List ℕ → Option (List ℕ × List ℕ)
to_bracket [] = none
to_bracket (c ∷ text) =
    if c == 93
    then some ([], text)
    else elim (to_bracket text) [ none ↦ none | some found ↦ some (c ∷ found.0, found.1) ]

-- The text up to the next ':' or '/', and what follows from there.
unfoldable pub to_host_end : List ℕ → List ℕ × List ℕ
to_host_end [] = ([], [])
to_host_end (c ∷ text) = elim (c == 58 || c == 47) [
  | true ↦ ([], c ∷ text)
  | false ↦ let found = to_host_end text in (c ∷ found.0, found.1)
]

-- Without the brackets of an IPv6 address an empty host is refused.
unfoldable pub named_host : List ℕ × List ℕ → Option (List ℕ × List ℕ)
named_host ([], text) = none
named_host (c ∷ host, text) = some (c ∷ host, text)

unfoldable pub host_of : List ℕ → Option (List ℕ × List ℕ)
unfolding to_bracket to_host_end named_host
host_of [] = none
host_of (c ∷ text) = if c == 91 then to_bracket text else named_host (to_host_end (c ∷ text))

unfoldable pub valid_port : ℤ → Option ℕ
valid_port (negsuc n) = none
valid_port (pos n) = if ltb n 1 || ltb 65535 n then none else some (n % u16_mod)

unfoldable pub port_of : List ℕ → Option ℕ
unfolding strtol valid_port
port_of [] = none
port_of (c ∷ text) = if c == 58 then strtol text >>= valid_port else none

unfoldable pub with_port : List ℕ × List ℕ → Option TrackerUrl
unfolding port_of
with_port (host, text) = elim (port_of text) [
  | none ↦ none
  | some port ↦ some (record { host = host; port = port })
]

unfoldable pub parse_tracker_url : List ℕ → Option TrackerUrl
unfolding strip_prefix c_str host_of with_port
parse_tracker_url url = do
  text ← strip_prefix (codes "thinbt://") (c_str url)
  found ← host_of text
  with_port found
