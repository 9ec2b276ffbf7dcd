-- ===== src/Webclient/Commands/Examples.antt =====
-- The library's client at concrete inputs: a login, the entry, a logout, and a server that cannot
-- be reached.
use teme_pcom_anul_2_sem.Prelude.{
  ◌≡◌, refl, true, false, [], ◌∷◌, ◌++◌, Text, text_discrete, codes, some, none, arith, is_some,
  strstr, before, strtol_in,
}
use teme_pcom_anul_2_sem.Webclient.Buffer.{
  Buffer, buffer_init, buffer_add, buffer_find, buffer_find_insensitive, size_max,
}
use teme_pcom_anul_2_sem.Webclient.Buffer.Search.{IsFound, buffer_find-IsFound}
use teme_pcom_anul_2_sem.Webclient.Server.{ok, chunk, failed, recv_from_server, send_to_server}
use teme_pcom_anul_2_sem.Webclient.Server.Framing.{
  Announces, recv_from_server-framed, recv_from_server-split_header, send_to_server_lem,
}
use teme_pcom_anul_2_sem.Webclient.Requests.{
  transmit, close, Json, World, opened, refused, exit_success, crlf,
}
use teme_pcom_anul_2_sem.Webclient.Responses.{Session, extract_json_response}
use teme_pcom_anul_2_sem.Webclient.Responses.Cookie.{with_cookie, logged_in}
use teme_pcom_anul_2_sem.Webclient.Forms.{Cin, read_book}
use teme_pcom_anul_2_sem.Webclient.Commands.{Done, command_caller}
use teme_pcom_anul_2_sem.Webclient.Commands.Login.{Answers, enter_request, enter}

abbrev hello : Buffer
hello = record { bytes = some (codes "say hello"); size = 9 }

finds_hello : buffer_find_insensitive hello (codes "HELLO") ≡ 4
unfolding buffer_find_insensitive
finds_hello = refl

buffer_find-IsFound_example :
    IsFound (codes "say hello") (codes "l") (buffer_find hello (codes "l"))
buffer_find-IsFound_example = buffer_find-IsFound hello (codes "l") refl

abbrev header : Text
header = codes "HTTP/1.1 200 OK" ++ (crlf ++ (codes "Content-Length: 5" ++ (crlf ++ crlf)))

header-Announces : Announces header 34 5
unfolding buffer_find buffer_find_insensitive buffer_add buffer_init strtol_in
header-Announces = record { some_bytes = λ e. cc; ends = refl; announced = refl }

recv_from_server-framed_example :
    recv_from_server (chunk header ∷ chunk (codes "he") ∷ chunk (codes "llo") ∷ failed ∷ [])
    ≡ ok ((header ++ codes "hello") ++ 0 ∷ [])
recv_from_server-framed_example =
    recv_from_server-framed header (codes "he" ∷ codes "llo" ∷ []) (failed ∷ []) 34 5
      header-Announces ((λ e. cc), ((λ e. cc), tt)) (omega arith) refl

abbrev half : Text
half = codes "HTTP/1.1 200 OK" ++ (crlf ++ codes "Date: today")

half-Announces : Announces half size_max 0
unfolding buffer_find buffer_find_insensitive buffer_add buffer_init strtol_in
half-Announces = record { some_bytes = λ e. cc; ends = refl; announced = refl }

recv_from_server-split_header_example :
    recv_from_server (chunk half ∷ chunk header ∷ []) ≡ ok (half ++ 0 ∷ [])
recv_from_server-split_header_example =
    recv_from_server-split_header half (chunk header ∷ []) half-Announces (omega arith)

send_to_server_lem_example :
    send_to_server 9 (λ i. some 3) (codes "GET /") ≡ some (5, codes "GET /")
send_to_server_lem_example =
    send_to_server_lem 9 (λ i. some 3) (codes "GET /") (λ i. (2, refl)) (omega arith)

-- A parser that takes what begins with a brace for JSON.
abbrev toy : Json
toy = record {
  Value = Text;
  parse = λ t. strstr t (codes "{");
  contains = λ v k. is_some (strstr v k);
  member = λ v k. v;
  text_of = λ v. some (codes "tok");
  is_array = λ v. false;
  dump = λ v. v;
  dump_indented = λ n v. v;
  dump_members = λ ms. codes "{}";
}

abbrev world : Text → World
world response = record {
  opening = opened 5;
  grant = λ i. some 8;
  reads = λ fd. chunk response ∷ [];
  fuel = 999;
}

abbrev outside : Session
outside = record { login_cookie = []; jwt_token = []; is_connected = false }

abbrev inside : Session
inside = record { login_cookie = codes "a=b"; jwt_token = codes "tok"; is_connected = true }

abbrev keyboard : Cin
keyboard = record { words = codes "ann" ∷ codes "pw" ∷ []; failed = false }

-- A book whose page count is not a number makes every later read fail.
bad_page_count :
    (read_book (record {
      words = codes "t" ∷ codes "a" ∷ codes "g" ∷ codes "many" ∷ codes "p" ∷ [];
      failed = false;
    })).1.failed
    ≡ true
unfolding read_book
bad_page_count = refl

abbrev pre : Text
pre = codes "HTTP/1.1 200 OK" ++ crlf

abbrev after_cookie : Text
after_cookie = codes " x" ++ (crlf ++ (codes "Content-Length: 2" ++ (crlf ++ (crlf ++ codes "ok"))))

abbrev login_response : Text
login_response = with_cookie pre (codes "a=b") after_cookie

abbrev token_response : Text
token_response =
    codes "HTTP/1.1 200 OK"
    ++ (crlf ++ (codes "Content-Length: 8" ++ (crlf ++ (crlf ++ codes "{token:}"))))

token_response-Answers : Answers (world token_response) 5 token_response
unfolding recv_from_server strtol_in
token_response-Answers = record {
  reached = refl;
  takes = λ i. (7, refl);
  answered = refl;
  plain = ground arith;
  nonempty = λ e. cc;
}

enter_example :
    command_caller toy
      (world token_response)
      (codes "enter_library")
      (logged_in outside (codes "a=b"))
      keyboard
    ≡ ok (record {
      status = exit_success;
      session = inside;
      cin = keyboard;
      actions = transmit 5 (before 0 (enter_request (codes "a=b"))) ∷ close 5 ∷ [];
    })
unfolding extract_json_response strstr
enter_example =
    enter toy (world token_response) (logged_in outside (codes "a=b")) keyboard 5 token_response
      (crlf ++ (crlf ++ codes "{token:}")) (codes "tok") (codes "{token:}") refl
      token_response-Answers (omega arith) refl refl refl refl

abbrev bare_response : Text
bare_response =
    codes "HTTP/1.1 200 OK"
    ++ (crlf ++ (codes "Content-Length: 2" ++ (crlf ++ (crlf ++ codes "ok"))))

bare_response-Answers : Answers (world bare_response) 5 bare_response
unfolding recv_from_server strtol_in
bare_response-Answers = record {
  reached = refl;
  takes = λ i. (7, refl);
  answered = refl;
  plain = ground arith;
  nonempty = λ e. cc;
}

abbrev cut_off : World
cut_off = record { opening = refused; grant = λ i. none; reads = λ fd. []; fuel = 9 }

cut_off_books : (d : Done) × (command_caller toy cut_off (codes "add_book") inside keyboard ≡ ok d)
unfolding command_caller text_discrete
cut_off_books = (_, refl)
