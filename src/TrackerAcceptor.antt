-- ===== src/TrackerAcceptor.antt =====
-- src/daemon/tracker_acceptor.cpp: a line that a client sends to the tracker, and the answer. A text
-- is the list of its bytes.
pub mod Requests
mod Examples
use new_thinbt.Common.{
  ℕ, ◌+◌, ◌%◌, Bool, true, false, ◌&&◌, ◌||◌, Option, none, some, List, [], ◌∷◌, ◌++◌, ◌>>=◌, ltb,
  leb, if◌then◌else◌, ◌==◌, u16_mod, u32_mod,
}
use new_thinbt.Common.Bytes.{bytes_eq}
use new_thinbt.Common.Text.{
  codes, after, before, is_digit, decimal, Stoull, value, invalid_argument, out_of_range, stoull,
}
use new_thinbt.TrackerServer.{TrackerPeerEntry, Swarms, is_endpoint, announce}

-- '"' + key + '"'
abbrev pub quoted : List ℕ → List ℕ
quoted key = 34 ∷ (key ++ (34 ∷ []))

unfoldable pub found_string : Option (List ℕ) → List ℕ
found_string none = []
found_string (some text) = text

-- A position that std::string::find answers is the text from there on.
unfoldable pub json_extract_string : List ℕ → List ℕ → List ℕ
unfolding after before found_string
json_extract_string obj key = found_string do
  from_key ← after (quoted key) obj
  from_colon ← after (58 ∷ []) from_key
  from_quote ← after (34 ∷ []) from_colon
  before 34 from_quote

-- The loop that skips spaces and tabs.
unfoldable pub skip_blanks : List ℕ → List ℕ
skip_blanks [] = []
skip_blanks (c ∷ text) = elim (c == 32 || c == 9) [ true ↦ skip_blanks text | false ↦ c ∷ text ]

-- The loop over digits and minus signs.
unfoldable pub number_token : List ℕ → List ℕ
unfolding is_digit
number_token [] = []
number_token (c ∷ text) = elim (is_digit c || (c == 45)) [
  | true ↦ c ∷ number_token text
  | false ↦ []
]

unfoldable pub token_value : List ℕ → Stoull
unfolding stoull
token_value [] = value 0
token_value (c ∷ token) = stoull (c ∷ token)

unfoldable pub found_number : Option (List ℕ) → Stoull
unfolding skip_blanks number_token token_value
found_number none = value 0
found_number (some text) = token_value (number_token (skip_blanks text))

unfoldable pub json_extract_int : List ℕ → List ℕ → Stoull
unfolding after found_number
json_extract_int obj key =
    found_number do from_key ← after (quoted key) obj; after (58 ∷ []) from_key

abbrev pub missing_info_hash : List ℕ
missing_info_hash = codes "{\"error\":\"missing info_hash\"}\n"

-- One peer of the response.
unfoldable pub peer_text : TrackerPeerEntry → List ℕ
unfolding decimal
peer_text p =
    codes "{\"ip\":\""
    ++ (p.ip
        ++ (codes "\",\"port\":"
            ++ (decimal p.port ++ (codes ",\"flags\":" ++ (decimal p.flags ++ codes "}")))))

-- The loop over the peers, which leaves out the endpoint that asks.
unfoldable pub peers_text : List ℕ → ℕ → Bool → List TrackerPeerEntry → List ℕ
unfolding is_endpoint peer_text
peers_text ip port first [] = []
peers_text ip port first (p ∷ peers) = elim (is_endpoint ip port p) [
  | true ↦ peers_text ip port first peers
  | false ↦ (if first then [] else codes ",") ++ (peer_text p ++ peers_text ip port false peers)
]

unfoldable pub response_text : List ℕ → ℕ → List TrackerPeerEntry → List ℕ
unfolding peers_text
response_text ip port peers =
    codes "{\"interval\":30,\"peers\":[" ++ (peers_text ip port true peers ++ codes "]}\n")

-- What the handler of a line comes to: an exception of std::stoull, which nothing catches, or the
-- swarms and the text that is written back.
pub data Outcome : Type 0 where
  thrown : Stoull → Outcome
  replied : Swarms → List ℕ → Outcome

-- The empty string for an endpoint that is not known.
unfoldable pub answer :
    (List TrackerPeerEntry → List TrackerPeerEntry) → Swarms → List ℕ → ℕ → ℕ → List ℕ → ℕ → Outcome
unfolding announce response_text
answer sort swarms [] peer_port speed_mbps peer_ip now = replied swarms missing_info_hash
answer sort swarms (h ∷ hash) peer_port speed_mbps peer_ip now =
    let (swarms', peers) = announce sort swarms (h ∷ hash) peer_ip peer_port speed_mbps now in
    replied swarms' (response_text peer_ip peer_port peers)

-- The speed is read after the port.
unfoldable pub with_numbers : (ℕ → ℕ → Outcome) → Stoull → Stoull → Outcome
with_numbers k (value port) (value speed) = k (port % u16_mod) (speed % u32_mod)
with_numbers k (value port) invalid_argument = thrown invalid_argument
with_numbers k (value port) out_of_range = thrown out_of_range
with_numbers k invalid_argument speed = thrown invalid_argument
with_numbers k out_of_range speed = thrown out_of_range

-- The handler of a line that was read.
unfoldable pub handle_client :
    (List TrackerPeerEntry → List TrackerPeerEntry) → Swarms → List ℕ → List ℕ → ℕ → Outcome
unfolding json_extract_string json_extract_int answer with_numbers
handle_client sort swarms request peer_ip now =
    with_numbers
      (λ port speed.
        answer sort swarms (json_extract_string request (codes "info_hash")) port speed peer_ip now)
      (json_extract_int request (codes "port")) (json_extract_int request (codes "speed_mbps"))
