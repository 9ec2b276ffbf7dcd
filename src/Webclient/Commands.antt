-- ===== src/Webclient/Commands.antt =====
-- Tema-3-PCom/commands.cpp and client.cpp: the commands, and one round of the loop of `main`.
pub mod Access
pub mod Login
pub mod Unreachable
pub mod Examples
use teme_pcom_anul_2_sem.Prelude.{
  ℕ, ◌-◌, Bool, true, false, not, ◌&&◌, List, [], ◌∷◌, ◌++◌, Text, text_discrete, codes, Option,
  none, some, ite, ◌==◌, if◌then◌else◌, length, before, ℤ, pos, negsuc,
}
use teme_pcom_anul_2_sem.Webclient.Server.{Result, ok, ◌>>=◌, recv_from_server}
use teme_pcom_anul_2_sem.Webclient.Requests.{
  Action, say, close, Json, Members, World, exit_failure, exit_success, requester,
}
use teme_pcom_anul_2_sem.Webclient.Responses.{
  Session, Handled, failing, auth_response_handler, entrance_response_handler, summary_handler,
  details_handler, basic_json_handler,
}
use teme_pcom_anul_2_sem.Webclient.Forms.{Cin, read_word, read_user, read_book}

abbrev pub api : Text
api = codes "/api/v1/tema/"

abbrev pub register_url : Text
register_url = api ++ codes "auth/register"

abbrev pub login_url : Text
login_url = api ++ codes "auth/login"

abbrev pub enter_library_url : Text
enter_library_url = api ++ codes "library/access"

abbrev pub summary_info_url : Text
summary_info_url = api ++ codes "library/books"

abbrev pub id_needed : Text
id_needed = api ++ codes "library/books/"

abbrev pub add_book_url : Text
add_book_url = api ++ codes "library/books"

abbrev pub logout_url : Text
logout_url = api ++ codes "auth/logout"

-- What a command leaves: the returned status, the session, the input and what was done.
pub record Done : Type 0 where
  pub status : ℤ
  pub session : Session
  pub cin : Cin
  pub actions : List Action

abbrev pub refuse : Session → Cin → Text → Result Done
refuse s c line =
    ok (record { status = exit_failure; session = s; cin = c; actions = say line ∷ [] })

-- What a handler leaves, behind what was done before.
abbrev pub behind : List Action → Cin → Handled → Result Done
behind actions c h =
    ok (record { status = h.status; session = h.session; cin = c; actions = actions ++ h.said })

-- `strlen(response) == 0`, where that is checked.
abbrev pub no_response : Session → Text → (Text → Result Handled) → Result Handled
no_response s [] handle = ok (failing s (codes "Error: No response from server"))
no_response s (b ∷ bs) handle = handle (b ∷ bs)

-- After `requester`: a negative descriptor fails; otherwise the response is read from it, the
-- descriptor is closed and the response handled. Logging out without a response leaves the
-- descriptor open.
unfoldable pub exchange :
    World
    → Session
    → Cin
    → List Action
    → ℤ
    → (Text → List Action)
    → (Text → Result Handled)
    → Result Done
unfolding recv_from_server
exchange w s c actions (negsuc n) closing handle =
    ok (record { status = exit_failure; session = s; cin = c; actions = actions })
exchange w s c actions (pos fd) closing handle = do
  bytes ← recv_from_server (w.reads fd)
  h ← handle (before 0 bytes)
  behind (actions ++ closing (before 0 bytes)) c h

abbrev pub closed : ℤ → Text → List Action
closed (pos fd) response = close fd ∷ []
closed (negsuc n) response = []

abbrev pub closed_if_answered : ℤ → Text → List Action
closed_if_answered sockfd [] = []
closed_if_answered sockfd (b ∷ bs) = closed sockfd (b ∷ bs)

abbrev pub bearer : Session → Text
bearer s = codes "Bearer " ++ s.jwt_token

-- `jwt_token.empty()`
abbrev pub is_empty : Text → Bool
is_empty [] = true
is_empty (c ∷ cs) = false

abbrev pub no_access : Text
no_access = codes "You don't have access to the library."

-- The session is left if the handler succeeds.
abbrev pub leaving : Handled → Handled
leaving h = elim h.status [
  | pos n ↦ if n == 0 then record h { session = record h.session { is_connected = false } } else h
  | negsuc n ↦ h
]

abbrev pub kill_client : ℤ
kill_client = negsuc 1

pub data Turn : Type 0 where
  finished : List Action → Turn
  waiting : Session → Cin → List Action → Turn

-- The line after a command that did not end the client.
abbrev pub verdict : Text → ℤ → Action
verdict command (pos n) = say (
    codes "The command: "
    ++ (command ++ (if n == 0 then codes " was successful!" else codes " was unsuccessful!")))
verdict command (negsuc n) = say (codes "The command: " ++ (command ++ codes " was unsuccessful!"))

module _ (j : Json) (w : World) where
  unfoldable pub auth_post : Bool → Session → Cin → Result Done
  unfolding exchange requester read_user auth_response_handler
  auth_post auth_type s c =
      let (user_data, c') = read_user c in
      if auth_type && s.is_connected
      then refuse s c (codes "You are already logged in, please logout first")
      else (do
        (sockfd, done) ←
            requester j w (if auth_type then login_url else register_url) [] (codes "POST") []
              user_data
        exchange w s c' done sockfd (closed sockfd)
            (λ response. no_response s response (λ r. ok (auth_response_handler j auth_type r s))))

  unfoldable pub enter_library : Session → Cin → Result Done
  unfolding exchange requester entrance_response_handler
  enter_library s c =
      if not s.is_connected
      then refuse s c (codes "You are not logged in, please login first")
      else (do
        (sockfd, done) ← requester j w enter_library_url (s.login_cookie ∷ []) (codes "GET") [] []
        exchange w s c done sockfd (closed sockfd)
            (λ response. no_response s response (λ r. entrance_response_handler j r s)))

  unfoldable pub get_summary_info : Session → Cin → Result Done
  unfolding exchange requester summary_handler
  get_summary_info s c = if is_empty s.jwt_token then refuse s c no_access else (do
    (sockfd, done) ← requester j w summary_info_url [] (codes "GET") (bearer s) []
    exchange w s c done sockfd (closed sockfd)
        (λ response. no_response s response (λ r. summary_handler j r s)))

  unfoldable pub get_details : Session → Cin → Result Done
  unfolding exchange requester details_handler read_word
  get_details s c =
      let (id, c') = read_word c in
      if is_empty s.jwt_token then refuse s c no_access else (do
        (sockfd, done) ← requester j w (id_needed ++ id) [] (codes "GET") (bearer s) []
        exchange w s c' done sockfd (closed sockfd) (λ response. details_handler j response s))

  unfoldable pub add_book : Session → Cin → Result Done
  unfolding exchange requester basic_json_handler read_book
  add_book s c =
      let (json, c') = read_book c in
      if is_empty s.jwt_token then refuse s c no_access else (do
        (sockfd, done) ← requester j w add_book_url [] (codes "POST") (bearer s) json
        exchange w s c' done sockfd (closed sockfd) (λ response. basic_json_handler j response s))

  unfoldable pub delete_book : Session → Cin → Result Done
  unfolding exchange requester basic_json_handler read_word
  delete_book s c =
      let (id, c') = read_word c in
      if is_empty s.jwt_token then refuse s c no_access else (do
        (sockfd, done) ← requester j w (id_needed ++ id) [] (codes "DELETE") (bearer s) []
        exchange w s c' done sockfd (closed sockfd) (λ response. basic_json_handler j response s))

  unfoldable pub logout : Session → Cin → Result Done
  unfolding exchange requester basic_json_handler
  logout s c = if not s.is_connected then refuse s c (codes "You are not logged in.") else (do
    (sockfd, done) ← requester j w logout_url (s.login_cookie ∷ []) (codes "GET") [] []
    exchange w s c done sockfd (closed_if_answered sockfd) (λ response.
        no_response s response (λ r. basic_json_handler j r s >>= (λ h. ok (leaving h)))))

  -- `command_caller`: the search of the table of commands.
  unfoldable pub command_caller : Text → Session → Cin → Result Done
  unfolding auth_post enter_library get_summary_info get_details add_book delete_book logout
  command_caller command s c =
      ite (text_discrete command (codes "exit"))
        (ok (record { status = kill_client; session = s; cin = c; actions = [] }))
        (ite (text_discrete command (codes "register")) (auth_post false s c) (
          ite (text_discrete command (codes "login")) (auth_post true s c) (
            ite (text_discrete command (codes "enter_library")) (enter_library s c) (
              ite (text_discrete command (codes "get_books")) (get_summary_info s c) (
                ite (text_discrete command (codes "get_book")) (get_details s c) (
                  ite (text_discrete command (codes "add_book")) (add_book s c) (
                    ite (text_discrete command (codes "delete_book")) (delete_book s c) (
                      ite (text_discrete command (codes "logout")) (logout s c)
                        (refuse s c (codes "Unknown command: " ++ command))))))))))

  -- One round of the loop of `main`.
  unfoldable pub turn : Session → Cin → Result Turn
  unfolding command_caller read_word
  turn s c =
      let (command, c') = read_word c in
      command_caller command s c' >>= (λ d. elim d.status [
        | negsuc n ↦
            if n == 1
            then ok (finished (say (codes "Waiting for command") ∷ d.actions))
            else ok (
                waiting d.session d.cin
                  (say (codes "Waiting for command") ∷ d.actions ++ verdict command d.status ∷ []))
        | pos n ↦ ok (
            waiting d.session d.cin
              (say (codes "Waiting for command") ∷ d.actions ++ verdict command d.status ∷ []))
      ])
