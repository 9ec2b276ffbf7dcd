-- ===== src/Webclient/Requests.antt =====
-- Tema-3-PCom/requests.cpp: the texts of the requests, and how a request is sent. The host and the
-- port are the constants of client.h, which every call passes.
use teme_pcom_anul_2_sem.Prelude.{
  ℕ, Bool, List, [], ◌∷◌, ◌++◌, Text, text_discrete, codes, Option, none, some, ite, ltb,
  if◌then◌else◌, length, to_string, before, ℤ, pos, negsuc,
}
use teme_pcom_anul_2_sem.Webclient.Server.{Result, ok, endless, Read, send_to_server}

-- What the client does: it prints, writes bytes to a descriptor, and closes one.
pub data Action : Type 0 where
  say : Text → Action
  say_error : Text → Action
  transmit : ℕ → List ℕ → Action
  close : ℕ → Action

-- The members of an `ordered_json` of the forms.
pub data Field : Type 0 where
  text : Text → Field
  number : ℕ → Field

abbrev pub Members : Type 0
Members = List (Text × Field)

-- The JSON library.
pub record Json : Type 1 where
  pub Value : Type 0
  pub parse : Text → Option Value
  pub contains : Value → Text → Bool
  pub member : Value → Text → Value
  pub text_of : Value → Option Text
  pub is_array : Value → Bool
  pub dump : Value → Text
  pub dump_indented : ℕ → Value → Text
  pub dump_members : Members → Text

-- What `open_connection` meets.
pub data Opening : Type 0 where
  no_socket refused : Opening
  opened : ℕ → Opening

-- What the system does for one command: the connection, what each `write` takes, what each `read`
-- of a descriptor gives, and a bound on the calls of `write`.
pub record World : Type 0 where
  pub opening : Opening
  pub grant : ℕ → Option ℕ
  pub reads : ℕ → List Read
  pub fuel : ℕ

abbrev pub crlf : Text
crlf = 13 ∷ 10 ∷ []

abbrev pub host : Text
host = codes "34.241.4.235"

-- `compute_string`: a line is added to the message.
abbrev pub compute_string : Text → Text → Text
compute_string message line = message ++ (line ++ crlf)

unfoldable pub post_cookies : Text → List Text → Text
post_cookies message [] = message
post_cookies message (c ∷ cs) = post_cookies (compute_string message (codes "Cookie: " ++ c)) cs

abbrev pub last : Text → List Text → Text
last c [] = c
last c (d ∷ ds) = last d ds

-- The cookie that is equal to the last one ends with a semicolon.
abbrev pub cookie_line : Text → Text → Text
cookie_line back c = codes "Cookie: " ++ (c ++ ite (text_discrete c back) (codes "; ") [])

unfoldable pub add_cookies : Text → List Text → Text → Text
add_cookies back [] message = message
add_cookies back (c ∷ cs) message =
    add_cookies back cs (compute_string message (cookie_line back c))

unfoldable pub cookies_of : List Text → Text → Text
unfolding add_cookies
cookies_of [] message = message
cookies_of (c ∷ cs) message = add_cookies (last c cs) (c ∷ cs) message

abbrev pub add_auth : Text → Text → Text
add_auth [] message = message
add_auth (a ∷ as') message = compute_string message (codes "Authorization: " ++ (a ∷ as'))

-- `compute_post_request`, with the text of the JSON.
unfoldable pub compute_post_request : Text → Text → List Text → Text → Text → Text
unfolding to_string post_cookies
compute_post_request url content_type cookies json auth =
    let request_line = compute_string [] (codes "POST " ++ (url ++ codes " HTTP/1.1")) in
    let with_host = compute_string request_line (codes "Host: " ++ host) in
    let with_type = compute_string with_host (codes "Content-Type: " ++ content_type) in
    let with_length =
      compute_string with_type (codes "Content-Length: " ++ to_string (length json)) in
    add_auth auth (post_cookies with_length cookies) ++ (crlf ++ json)

-- `compute_get_request` and `compute_delete_request` with their method.
unfoldable pub compute_bare_request : Text → Text → List Text → Text → Text
unfolding cookies_of
compute_bare_request method url cookies auth =
    let request_line = compute_string [] (method ++ (32 ∷ url ++ codes " HTTP/1.1")) in
    let with_host = compute_string request_line (codes "Host: " ++ host) in
    add_auth auth (cookies_of cookies with_host) ++ crlf

unfoldable pub compute_get_request : Text → List Text → Text → Text
unfolding compute_bare_request
compute_get_request url cookies auth = compute_bare_request (codes "GET") url cookies auth

unfoldable pub compute_delete_request : Text → List Text → Text → Text
unfolding compute_bare_request
compute_delete_request url cookies auth = compute_bare_request (codes "DELETE") url cookies auth

abbrev pub exit_failure : ℤ
exit_failure = pos 1

abbrev pub exit_success : ℤ
exit_success = pos 0

-- `send_request`: the C string of the request is sent. The size that `send_to_server` returns is
-- never negative.
unfoldable pub send_request : World → Text → Result (ℤ × List Action)
unfolding send_to_server
send_request w request =
    let unreachable = say (codes "Error: Could not connect to server") in
    elim w.opening [
      | no_socket ↦ ok (exit_failure, say (codes "Error opening socket") ∷ unreachable ∷ [])
      | refused ↦
          ok (exit_failure, say_error (codes "Error connecting to server") ∷ unreachable ∷ [])
      | opened fd ↦ elim (send_to_server w.fuel w.grant (before 0 request)) [
        | none ↦ endless
        | some (size, bytes) ↦
            if ltb size 0
            then ok (exit_failure, say (codes "Error: Could not send request to server") ∷ [])
            else ok (pos fd, transmit fd bytes ∷ [])
      ]
    ]

-- `requester`: the flag chooses the method.
unfoldable pub requester :
    Json → World → Text → List Text → Text → Text → Members → Result (ℤ × List Action)
unfolding send_request compute_post_request compute_get_request compute_delete_request
requester j w url cookies flag auth json =
    ite (text_discrete flag (codes "POST"))
      (send_request w
        (compute_post_request url (codes "application/json") cookies (j.dump_members json) auth))
      (ite (text_discrete flag (codes "GET"))
        (send_request w (compute_get_request url cookies auth))
        (ite (text_discrete flag (codes "DELETE"))
          (send_request w (compute_delete_request url cookies auth))
          (ok (negsuc 0, say (codes "UNKNOWN FLAG FOR REQUESTER") ∷ []))))
