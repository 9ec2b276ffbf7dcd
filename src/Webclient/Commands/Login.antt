-- ===== src/Webclient/Commands/Login.antt =====
-- A login, the entry into the library and a logout of commands.cpp, with the requests that they
-- send.
use teme_pcom_anul_2_sem.Prelude.{
  ℕ, ite, to_string, suc, ◌≡◌, ◌≢◌, ◌<◌, refl, ◌∙◌, true, false, List, [], ◌∷◌, ◌++◌, Text,
  text_discrete, codes, some, none, arith, length, pos, before, before-NotIn, NotIn,
}
use teme_pcom_anul_2_sem.Webclient.Server.{Result, ok, ◌>>=◌, recv_from_server}
use teme_pcom_anul_2_sem.Webclient.Server.Framing.{send_to_server_lem}
use teme_pcom_anul_2_sem.Webclient.Requests.{
  Action, transmit, close, Json, World, opened, exit_success, requester, send_request,
  compute_get_request, crlf,
}
use teme_pcom_anul_2_sem.Webclient.Responses.{
  Session, Handled, extract_json_response, entrance_response_handler, basic_json_handler,
}
use teme_pcom_anul_2_sem.Webclient.Forms.{Cin, read_user}
use teme_pcom_anul_2_sem.Webclient.Commands.{
  behind, exchange, command_caller, enter_library, logout, enter_library_url, logout_url, closed,
  no_response, leaving, closed_if_answered,
}

-- The server is reached on `fd`, takes requests shorter than the fuel, and answers `response`.
pub record Answers (w : World) (fd : ℕ) (response : Text) : Type 0 where
  pub reached : w.opening ≡ opened fd
  pub takes : (i : ℕ) → (k : ℕ) × (w.grant i ≡ some (suc k))
  pub answered : recv_from_server (w.reads fd) ≡ ok (response ++ 0 ∷ [])
  pub plain : NotIn 0 response
  pub nonempty : response ≢ []

-- A request without a NUL is sent whole.
send_request_lem :
    (w : World) (fd : ℕ) (response request : Text)
    → Answers w fd response
    → length (before 0 request) < w.fuel
    → send_request w request ≡ ok (pos fd, transmit fd (before 0 request) ∷ [])
unfolding send_request
send_request_lem w fd response request a enough =
    ground (arith, a.reached, send_to_server_lem w.fuel w.grant (before 0 request) a.takes enough)

exchange_lem :
    (w : World) (s : Session) (c : Cin) (actions : List Action) (fd : ℕ) (response : Text)
    (closing : Text → List Action) (handle : Text → Result Handled)
    → Answers w fd response
    → exchange w s c actions (pos fd) closing handle
      ≡ (handle response >>= behind (actions ++ closing response) c)
unfolding exchange
exchange_lem w s c actions fd response closing handle a =
    rw (a.answered, before-NotIn 0 response [] a.plain) refl

module _ (j : Json) (w : World) where
  pub requester_get :
      (url : Text) (cookies : List Text) (auth : Text)
      → requester j w url cookies (codes "GET") auth []
        ≡ send_request w (compute_get_request url cookies auth)
  unfolding requester text_discrete
  requester_get url cookies auth = refl

  call_enter_library :
      (s : Session) (c : Cin)
      → command_caller j w (codes "enter_library") s c ≡ enter_library j w s c
  unfolding command_caller text_discrete
  call_enter_library s c = refl

  call_logout : (s : Session) (c : Cin) → command_caller j w (codes "logout") s c ≡ logout j w s c
  unfolding command_caller text_discrete
  call_logout s c = refl

no_response_lem :
    (s : Session) (r : Text) (handle : Text → Result Handled)
    → r ≢ []
    → no_response s r handle ≡ handle r
no_response_lem s [] handle h = absurd (h refl)
no_response_lem s (b ∷ bs) handle h = refl

closed_if_answered_lem :
    (fd : ℕ) (r : Text) → r ≢ [] → closed_if_answered (pos fd) r ≡ close fd ∷ []
closed_if_answered_lem fd [] h = absurd (h refl)
closed_if_answered_lem fd (b ∷ bs) h = refl

-- The text of what is typed for a login.
abbrev pub login_json : Json → Cin → Text
login_json j c = j.dump_members (read_user c).0

-- The request for a login with what is read from the input.
abbrev pub login_request : Json → Cin → Text
login_request j c =
    codes "POST /api/v1/tema/auth/login HTTP/1.1"
    ++ (crlf
        ++ (codes "Host: 34.241.4.235"
            ++ (crlf
                ++ (codes "Content-Type: application/json"
                    ++ (crlf
                        ++ (codes "Content-Length: "
                            ++ ((to_string (length (login_json j c)) ++ crlf)
                                ++ (crlf ++ login_json j c))))))))

-- The request that enters the library with a cookie.
abbrev pub enter_request : Text → Text
enter_request cookie =
    codes "GET /api/v1/tema/library/access HTTP/1.1"
    ++ (crlf
        ++ (codes "Host: 34.241.4.235"
            ++ (crlf ++ (codes "Cookie: " ++ (((cookie ++ codes "; ") ++ crlf) ++ crlf)))))

compute_get_request-enter :
    (cookie : Text) → compute_get_request enter_library_url (cookie ∷ []) [] ≡ enter_request cookie
unfolding compute_get_request
compute_get_request-enter cookie =
    let semicolon : ite (text_discrete cookie cookie) (codes "; ") [] ≡ codes "; " = ground arith in
    rw semicolon refl

-- The entry of a connected client sends a GET request whose text has its cookie in the one Cookie
-- line; a response whose JSON has a token stores that token and changes nothing else of the
-- session.
pub enter :
    (j : Json) (w : World) (s : Session) (c : Cin) (fd : ℕ) (response text token : Text)
    (value : j.Value)
    → s.is_connected ≡ true
    → Answers w fd response
    → length (before 0 (enter_request s.login_cookie)) < w.fuel
    → extract_json_response response ≡ some text
    → j.parse text ≡ some value
    → j.contains value (codes "token") ≡ true
    → j.text_of (j.member value (codes "token")) ≡ some token
    → command_caller j w (codes "enter_library") s c
      ≡ ok (record {
        status = exit_success;
        session = record s { jwt_token = token };
        cin = c;
        actions = transmit fd (before 0 (enter_request s.login_cookie)) ∷ close fd ∷ [];
      })
unfolding enter_library entrance_response_handler
enter j w s c fd response text token value inside a enough body parsed has named =
    let request = enter_request s.login_cookie in
    let handle : Text → Result Handled = λ r. entrance_response_handler j r s in
    call_enter_library j w s c
    ∙ ground (
      arith,
      requester_get j w enter_library_url (s.login_cookie ∷ []) [],
      compute_get_request-enter s.login_cookie,
      send_request_lem w fd response request a enough,
      exchange_lem w s c (transmit fd (before 0 request) ∷ []) fd response (closed (pos fd))
          (λ r. no_response s r handle) a,
      no_response_lem s response handle a.nonempty,
    )

-- A logout of a connected client that is answered without JSON sends one GET request with the
-- cookie and ends the connection of the session, but leaves the token and the cookie in it.
logout_keeps_token :
    (j : Json) (w : World) (s : Session) (c : Cin) (fd : ℕ) (response text : Text)
    → s.is_connected ≡ true
    → Answers w fd response
    → length (before 0 (compute_get_request logout_url (s.login_cookie ∷ []) [])) < w.fuel
    → extract_json_response response ≡ some text
    → j.parse text ≡ none
    → command_caller j w (codes "logout") s c
      ≡ ok (record {
        status = exit_success;
        session = record s { is_connected = false };
        cin = c;
        actions =
            transmit fd (before 0 (compute_get_request logout_url (s.login_cookie ∷ []) []))
            ∷ close fd
            ∷ [];
      })
unfolding logout basic_json_handler
logout_keeps_token j w s c fd response text inside a enough body bare =
    let request = compute_get_request logout_url (s.login_cookie ∷ []) [] in
    let handle : Text → Result Handled = λ r. basic_json_handler j r s >>= (λ h. ok (leaving h)) in
    call_logout j w s c
    ∙ ground (
      arith,
      requester_get j w logout_url (s.login_cookie ∷ []) [],
      send_request_lem w fd response request a enough,
      exchange_lem w s c (transmit fd (before 0 request) ∷ []) fd response
          (closed_if_answered (pos fd)) (λ r. no_response s r handle) a,
      no_response_lem s response handle a.nonempty,
      closed_if_answered_lem fd response a.nonempty,
    )
