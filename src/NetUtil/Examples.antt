-- ===== src/NetUtil/Examples.antt =====
-- The theorems on the addresses of trackers at one address, and tests.
use new_thinbt.Common.{ℕ, ◌≡◌, ◌≢◌, ◌≤◌, refl, none, some, List, [], All, arith}
use new_thinbt.Common.Text.{codes, is_digit}
use new_thinbt.Common.Decimal.{EndsNumber}
use new_thinbt.NetUtil.{parse_tracker_url}
use new_thinbt.NetUtil.Urls.{
  IsHostByte, tracker_url, parse_tracker_url-tracker_url, parse_tracker_url-bounds,
}

host_byte : (c : ℕ) → 91 ≤ c → c ≢ 91 → IsHostByte c
host_byte c le ne = ((λ e. omega arith), (λ e. omega arith), (λ e. omega arith), ne)

abbrev host : List ℕ
host = codes "lan"

host-IsHost : All IsHostByte host
host-IsHost = (
  host_byte 108 (omega arith) (λ e. omega arith),
  (
    host_byte 97 (omega arith) (λ e. omega arith),
    (host_byte 110 (omega arith) (λ e. omega arith), tt),
  ),
)

slash_ends : EndsNumber (codes "/")
unfolding EndsNumber is_digit
slash_ends = refl

host_filled : host ≢ []
host_filled e = cc

parse_tracker_url-tracker_url_example :
    parse_tracker_url (tracker_url host 6969 (codes "/"))
    ≡ some (record { host = host; port = 6969 })
parse_tracker_url-tracker_url_example =
    parse_tracker_url-tracker_url host 6969 (codes "/") host_filled host-IsHost (omega arith)
      (omega arith) ((λ e. omega arith), tt) slash_ends

-- An empty host is taken in brackets only; what follows the digits of the port is not looked at.
empty_host : parse_tracker_url (codes "thinbt://:80") ≡ none
unfolding parse_tracker_url
empty_host = refl

empty_brackets : parse_tracker_url (codes "thinbt://[]:80") ≡ some (record { host = []; port = 80 })
unfolding parse_tracker_url
empty_brackets = refl

loose_port :
    parse_tracker_url (codes "thinbt://lan: +80x") ≡ some (record { host = host; port = 80 })
unfolding parse_tracker_url
loose_port = refl

parse_tracker_url-bounds_example : (1 ≤ 80) × (80 ≤ 65535)
parse_tracker_url-bounds_example =
    parse_tracker_url-bounds (codes "thinbt://[]:80") (record { host = []; port = 80 })
      empty_brackets

large_port : parse_tracker_url (codes "thinbt://lan:65536") ≡ none
unfolding parse_tracker_url
large_port = refl
