-- ===== src/Pubsub/Subscriber/Requests.antt =====
-- What is typed at the subscriber reaches the server: subscriber_funs.cpp against server.cpp.
use teme_pcom_anul_2_sem.Prelude.{
  ℕ, ℤ, pos, negsuc, ℕ_discrete, ap, NotIn, strtok-word, strtok_last, ◌-◌, ◌≡◌, ◌≢◌, ◌≤◌, ◌<◌, refl,
  List, [], ◌∷◌, ◌++◌, Text, codes, some, arith, length, replicate, strtok, strtol, take-append,
  length-append, length-replicate, append_assoc, append-nil, get_or-append, replicate_more,
}
use teme_pcom_anul_2_sem.Pubsub.Message.{
  FromTcp, topic_len, unsubscribe_type, subscribe_type, zero_filled, from_tcp_bytes, from_tcp_of,
  tcp_topic, from_tcp_size,
}
use teme_pcom_anul_2_sem.Pubsub.Server.State.{ok}
use teme_pcom_anul_2_sem.Pubsub.Server.Loop.{request_of}
use teme_pcom_anul_2_sem.Pubsub.Server.Limits.{NoNul, c_string-NoNul}
use teme_pcom_anul_2_sem.Pubsub.Subscriber.Decode.{transmit}
use teme_pcom_anul_2_sem.Pubsub.Subscriber.Commands.{
  request, booled, send_subscription, remove_subscription, behind_command,
}

request_of_lem :
    (type sf : ℕ) (topic : List ℕ)
    → length topic ≡ topic_len
    → request_of (from_tcp_bytes (record { type = type; topic = topic; sf = sf }))
      ≡ ok (record { type = type; topic = topic; sf = sf })
unfolding request_of from_tcp_bytes from_tcp_of zero_filled
request_of_lem type sf topic h =
    let whole : length (topic ++ sf ∷ []) ≡ 51 = omega (arith, length-append topic (sf ∷ [])) in
    let fields = topic ++ sf ∷ [] in
    ground (
      arith,
      whole,
      append-nil fields,
      take-append topic (sf ∷ []) topic_len (omega arith),
      get_or-append topic (sf ∷ []) 50 0 (omega arith),
    )

-- The object of a request has all of its fields, so the server reads back the same request.
pub request_of-from_tcp_bytes :
    (type sf : ℕ) (topic : Text)
    → length topic ≤ topic_len
    → request_of (from_tcp_bytes (request type topic sf)) ≡ ok (request type topic sf)
unfolding request zero_filled
request_of-from_tcp_bytes type sf topic h = request_of_lem type sf (zero_filled topic_len topic) (
    omega (
      arith,
      length-append topic (replicate (topic_len - length topic) 0),
      length-replicate {A = ℕ} (topic_len - length topic) 0,
    ))

length-from_tcp_bytes :
    (type sf : ℕ) (topic : Text)
    → length topic ≤ topic_len
    → length (from_tcp_bytes (request type topic sf)) ≡ from_tcp_size
unfolding from_tcp_bytes request zero_filled
length-from_tcp_bytes type sf topic h =
    let n = topic_len - length topic in
    let pad : List ℕ = replicate n 0 in
    omega (
      arith,
      length-append (topic ++ pad) (sf ∷ []),
      length-append topic pad,
      length-replicate {A = ℕ} n 0,
    )

pub tcp_topic-request :
    (type sf : ℕ) (topic : Text)
    → NoNul topic
    → length topic < topic_len
    → tcp_topic (request type topic sf) ≡ some topic
unfolding tcp_topic request zero_filled
tcp_topic-request type sf topic h short =
    let n = topic_len - length topic in
    let pad : List ℕ = replicate (n - 1) 0 in
    rw (
      replicate_more {A = ℕ} n 0 (omega arith),
      append_assoc topic (0 ∷ pad) (sf ∷ []),
      c_string-NoNul topic (pad ++ sf ∷ []) h,
    )

-- What the server reads from the bytes of a request: its type, its topic and its flag.
pub record Reads (frame : List ℕ) (type : ℕ) (topic : Text) (sf : ℕ) : Type 0 where
  pub msg : FromTcp
  pub parsed : request_of frame ≡ ok msg
  pub kind : msg.type ≡ type
  pub named : tcp_topic msg ≡ some topic
  pub flag : msg.sf ≡ sf
  pub size : length frame ≡ from_tcp_size

request-Reads :
    (type sf : ℕ) (topic : Text)
    → NoNul topic
    → length topic < topic_len
    → Reads (from_tcp_bytes (request type topic sf)) type topic sf
unfolding request
request-Reads type sf topic h short = record {
  msg = request type topic sf;
  parsed = request_of-from_tcp_bytes type sf topic (omega arith);
  kind = refl;
  named = tcp_topic-request type sf topic h short;
  flag = refl;
  size = length-from_tcp_bytes type sf topic (omega arith);
}

booled_set : (z : ℤ) → z ≡ pos 1 → booled z ≡ 1
booled_set (pos n) h = ground (arith, ap (λ (y : ℤ). booled y) h)
booled_set (negsuc n) h = absurd (cc h)

booled_clear : (z : ℤ) → z ≢ pos 1 → booled z ≡ 0
booled_clear (pos n) h = elim (ℕ_discrete n 1) [
  | yes one ↦ absurd (h (ap (λ m. pos m) one))
  | no other ↦ ground arith
]
booled_clear (negsuc n) h = refl

-- A typed subscription to a topic of fewer than 50 characters, without spaces and NULs, and a flag
-- is sent as one request; the server's handling of that frame reads the same topic, the type
-- SUBSCRIBE, and the flag 1 if strtol of the typed flag is 1 and 0 otherwise.
pub send_subscription-request :
    (topic sf : Text)
    → NotIn 32 topic
    → NotIn 32 sf
    → topic ≢ []
    → sf ≢ []
    → NoNul topic
    → length topic < topic_len
    → (frame : List ℕ) × (flag : ℕ) × (send_subscription (codes "subscribe " ++ topic ++ 32 ∷ sf)
        ≡ transmit frame ∷ [])
      × Reads frame subscribe_type topic flag
      × (strtol sf ≡ pos 1 → flag ≡ 1)
      × (strtol sf ≢ pos 1 → flag ≡ 0)
unfolding send_subscription behind_command strtok
send_subscription-request topic sf t s tn sn nul short = (
  from_tcp_bytes (request subscribe_type topic (booled (strtol sf))),
  booled (strtol sf),
  ground (arith, strtok-word 32 topic sf t tn, strtok_last 32 sf s sn),
  request-Reads subscribe_type (booled (strtol sf)) topic nul short,
  booled_set (strtol sf),
  booled_clear (strtol sf),
)

-- A typed withdrawal from a topic of fewer than 50 characters, without spaces and NULs, is sent as
-- one request, in which the server reads the same topic, the type UNSUBSCRIBE and the flag 0.
remove_subscription-request :
    (topic : Text)
    → NotIn 32 topic
    → topic ≢ []
    → NoNul topic
    → length topic < topic_len
    → (frame : List ℕ) × (remove_subscription (codes "unsubscribe " ++ topic) ≡ transmit frame ∷ [])
      × Reads frame unsubscribe_type topic 0
unfolding remove_subscription behind_command strtok
remove_subscription-request topic t n nul short = (
  from_tcp_bytes (request unsubscribe_type topic 0),
  ground (arith, strtok_last 32 topic t n),
  request-Reads unsubscribe_type 0 topic nul short,
)
