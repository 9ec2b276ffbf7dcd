-- ===== src/Webclient/Commands/Access.antt =====
-- The commands of commands.cpp for the books, and the session that they leave.
use teme_pcom_anul_2_sem.Prelude.{
  ℕ, ◌≡◌, refl, Bool, true, false, List, [], ◌∷◌, ◌++◌, Text, text_discrete, codes, arith, pos,
  negsuc, ◌∙◌, ℤ, before, sym, if◌then◌else◌,
}
use teme_pcom_anul_2_sem.Webclient.Server.{
  Result, ok, overrun, endless, uncaught, ◌>>=◌, recv_from_server,
}
use teme_pcom_anul_2_sem.Webclient.Requests.{Action, Json, World}
use teme_pcom_anul_2_sem.Webclient.Responses.{
  Session, Handled, summary_handler, details_handler, basic_json_handler,
}
use teme_pcom_anul_2_sem.Webclient.Forms.{Cin}
use teme_pcom_anul_2_sem.Webclient.Commands.{
  Done, refuse, no_access, command_caller, get_summary_info, get_details, add_book, delete_book,
  exchange, behind, is_empty, closed, no_response,
}

-- The commands for the books.
pub data IsBooks : Text → Type 0 where
  gets_books : IsBooks (codes "get_books")
  gets_book : IsBooks (codes "get_book")
  adds_book : IsBooks (codes "add_book")
  deletes_book : IsBooks (codes "delete_book")

module _ (j : Json) (w : World) (s : Session) (c : Cin) where
  pub call_get_books : command_caller j w (codes "get_books") s c ≡ get_summary_info j w s c
  unfolding command_caller text_discrete
  call_get_books = refl

  call_get_book : command_caller j w (codes "get_book") s c ≡ get_details j w s c
  unfolding command_caller text_discrete
  call_get_book = refl

  call_add_book : command_caller j w (codes "add_book") s c ≡ add_book j w s c
  unfolding command_caller text_discrete
  call_add_book = refl

  call_delete_book : command_caller j w (codes "delete_book") s c ≡ delete_book j w s c
  unfolding command_caller text_discrete
  call_delete_book = refl

behind-keeps :
    (s : Session) (actions : List Action) (c : Cin) (o : Result Handled)
    → ((h : Handled) → o ≡ ok h → h.session ≡ s)
    → (d : Done) → (o >>= behind actions c) ≡ ok d
    → d.session ≡ s
behind-keeps s actions c (ok h) same d e = ground (arith, same h refl)
behind-keeps s actions c overrun same d e = absurd (ground arith)
behind-keeps s actions c endless same d e = absurd (ground arith)
behind-keeps s actions c uncaught same d e = absurd (ground arith)

after-exchange :
    (s : Session) (c : Cin) (actions : List Action) (closing : Text → List Action)
    (handle : Text → Result Handled) (o : Result (List ℕ))
    → ((r : Text) (h : Handled) → handle r ≡ ok h → h.session ≡ s)
    → (d : Done)
    → (o >>= (λ bytes. handle (before 0 bytes) >>= behind (actions ++ closing (before 0 bytes)) c))
      ≡ ok d
    → d.session ≡ s
after-exchange s c actions closing handle (ok bytes) same d e =
    behind-keeps s (actions ++ closing (before 0 bytes)) c (handle (before 0 bytes))
      (same (before 0 bytes)) d e
after-exchange s c actions closing handle overrun same d e = absurd (ground arith)
after-exchange s c actions closing handle endless same d e = absurd (ground arith)
after-exchange s c actions closing handle uncaught same d e = absurd (ground arith)

-- An exchange whose handler keeps the session keeps it.
exchange-keeps :
    (w : World) (s : Session) (c : Cin) (actions : List Action) (fd : ℤ)
    (closing : Text → List Action) (handle : Text → Result Handled)
    → ((r : Text) (h : Handled) → handle r ≡ ok h → h.session ≡ s)
    → (d : Done) → exchange w s c actions fd closing handle ≡ ok d
    → d.session ≡ s
unfolding exchange
exchange-keeps w s c actions (negsuc n) closing handle same d e = ground arith
exchange-keeps w s c actions (pos fd) closing handle same d e =
    after-exchange s c actions closing handle (recv_from_server (w.reads fd)) same d e

module _ (j : Json) (s : Session) where
  summary_handler-keeps : (r : Text) (h : Handled) → summary_handler j r s ≡ ok h → h.session ≡ s
  unfolding summary_handler
  summary_handler-keeps r h e = ground arith

  details_handler-keeps : (r : Text) (h : Handled) → details_handler j r s ≡ ok h → h.session ≡ s
  unfolding details_handler
  details_handler-keeps r h e = ground arith

  basic_json_handler-keeps :
      (r : Text) (h : Handled) → basic_json_handler j r s ≡ ok h → h.session ≡ s
  unfolding basic_json_handler
  basic_json_handler-keeps r h e = ground arith

no_response-keeps :
    (s : Session) (handle : Text → Result Handled)
    → ((r : Text) (h : Handled) → handle r ≡ ok h → h.session ≡ s)
    → (r : Text) (h : Handled) → no_response s r handle ≡ ok h
    → h.session ≡ s
no_response-keeps s handle same [] h e = ground arith
no_response-keeps s handle same (b ∷ bs) h e = same (b ∷ bs) h e

-- A request, and then an exchange that keeps the session.
requested-keeps :
    (w : World) (s : Session) (c : Cin) (closing : ℤ → Text → List Action)
    (handle : Text → Result Handled) (o : Result (ℤ × List Action))
    → ((r : Text) (h : Handled) → handle r ≡ ok h → h.session ≡ s)
    → (d : Done) → (o >>= (λ sent. exchange w s c sent.1 sent.0 (closing sent.0) handle)) ≡ ok d
    → d.session ≡ s
requested-keeps w s c closing handle (ok (fd, actions)) same d e =
    exchange-keeps w s c actions fd (closing fd) handle same d e
requested-keeps w s c closing handle overrun same d e = absurd (ground arith)
requested-keeps w s c closing handle endless same d e = absurd (ground arith)
requested-keeps w s c closing handle uncaught same d e = absurd (ground arith)

guarded-keeps :
    (b : Bool) (s : Session) (c : Cin) (line : Text) (o : Result Done) (d : Done)
    → (if b then refuse s c line else o) ≡ ok d
    → (o ≡ ok d → d.session ≡ s)
    → d.session ≡ s
guarded-keeps true s c line o d e rest = ground arith
guarded-keeps false s c line o d e rest = rest e

module _ (j : Json) (w : World) (s : Session) (c : Cin) (d : Done) where
  get_summary_info-keeps : get_summary_info j w s c ≡ ok d → d.session ≡ s
  unfolding get_summary_info
  get_summary_info-keeps e = guarded-keeps (is_empty s.jwt_token) s c no_access _ d e (
      requested-keeps w s c closed (λ r. no_response s r (λ t. summary_handler j t s)) _
        (no_response-keeps s (λ t. summary_handler j t s) (summary_handler-keeps j s)) d)

  get_details-keeps : get_details j w s c ≡ ok d → d.session ≡ s
  unfolding get_details
  get_details-keeps e =
      guarded-keeps (is_empty s.jwt_token) s c no_access _ d e
        (requested-keeps w s _ closed (λ r. details_handler j r s) _ (details_handler-keeps j s) d)

  add_book-keeps : add_book j w s c ≡ ok d → d.session ≡ s
  unfolding add_book
  add_book-keeps e = guarded-keeps (is_empty s.jwt_token) s c no_access _ d e (
      requested-keeps w s _ closed (λ r. basic_json_handler j r s) _ (basic_json_handler-keeps j s)
        d)

  delete_book-keeps : delete_book j w s c ≡ ok d → d.session ≡ s
  unfolding delete_book
  delete_book-keeps e = guarded-keeps (is_empty s.jwt_token) s c no_access _ d e (
      requested-keeps w s _ closed (λ r. basic_json_handler j r s) _ (basic_json_handler-keeps j s)
        d)

-- Each of the four commands for the books leaves the session as it was whenever it returns,
-- whatever the server answers.
command_caller-keeps :
    (j : Json) (w : World) (command : Text) (s : Session) (c : Cin) (d : Done)
    → IsBooks command
    → command_caller j w command s c ≡ ok d
    → d.session ≡ s
command_caller-keeps j w command s c d gets_books e =
    get_summary_info-keeps j w s c d (sym (call_get_books j w s c) ∙ e)
command_caller-keeps j w command s c d gets_book e =
    get_details-keeps j w s c d (sym (call_get_book j w s c) ∙ e)
command_caller-keeps j w command s c d adds_book e =
    add_book-keeps j w s c d (sym (call_add_book j w s c) ∙ e)
command_caller-keeps j w command s c d deletes_book e =
    delete_book-keeps j w s c d (sym (call_delete_book j w s c) ∙ e)
