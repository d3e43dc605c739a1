-- ===== src/TrackerAcceptor/Examples.antt =====
-- The theorems of the acceptor at two lines, and tests.
use new_thinbt.Common.{ℕ, ◌≡◌, refl, inl, inr, List, [], All, arith}
use new_thinbt.Common.Text.{codes, is_digit, digits_value, out_of_range}
use new_thinbt.TrackerServer.{announce}
use new_thinbt.TrackerClient.{request_text}
use new_thinbt.TrackerAcceptor.{answer, replied, thrown, missing_info_hash, handle_client}
use new_thinbt.TrackerAcceptor.Requests.{
  IsHex, IsDigits, line, handle_client-request_text, handle_client-thrown,
}

abbrev hash : List ℕ
hash = codes "0a"

hash-IsHex : All IsHex hash
hash-IsHex = (inl (omega arith, omega arith), (inr (omega arith, omega arith), tt))

handle_client-request_text_example :
    handle_client (λ ps. ps) [] (request_text hash 6881 1000) (codes "10.0.0.5") 7
    ≡ answer (λ ps. ps) [] hash 6881 1000 (codes "10.0.0.5") 7
handle_client-request_text_example =
    handle_client-request_text (λ ps. ps) [] hash 6881 1000 (codes "10.0.0.5") 7 hash-IsHex
      (omega arith) (omega arith)

-- 2^64
abbrev long_port : List ℕ
long_port = codes "18446744073709551616"

long_port-IsDigits : IsDigits long_port
unfolding is_digit
long_port-IsDigits = (
  refl,
  (
    refl,
    (
      refl,
      (
        refl,
        (
          refl,
          (
            refl,
            (
              refl,
              (
                refl,
                (
                  refl,
                  (
                    refl,
                    (
                      refl,
                      (refl, (refl, (refl, (refl, (refl, (refl, (refl, (refl, (refl, tt))))))))),
                    ),
                  ),
                ),
              ),
            ),
          ),
        ),
      ),
    ),
  ),
)

long_port_value : digits_value 0 long_port ≡ 18446744073709551616
unfolding digits_value
long_port_value = refl

handle_client-thrown_example :
    handle_client (λ ps. ps) [] (line hash long_port (codes "5")) (codes "10.0.0.5") 7
    ≡ thrown out_of_range
handle_client-thrown_example =
    handle_client-thrown (λ ps. ps) [] hash long_port (codes "5") (codes "10.0.0.5") 7 hash-IsHex
      long_port-IsDigits (omega (arith, long_port_value))

-- A line without an info-hash, and the answer to the first client of a swarm.
no_hash :
    handle_client (λ ps. ps) [] (codes "{\"port\":1}\n") (codes "10.0.0.5") 7
    ≡ replied [] missing_info_hash
unfolding handle_client
no_hash = refl

first_client :
    answer (λ ps. ps) [] hash 6881 1000 (codes "10.0.0.5") 7
    ≡ replied
        (announce (λ ps. ps) [] hash (codes "10.0.0.5") 6881 1000 7).0
        (codes "{\"interval\":30,\"peers\":[]}\n")
unfolding answer announce
first_client = refl
