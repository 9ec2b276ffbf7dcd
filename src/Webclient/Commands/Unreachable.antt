-- ===== src/Webclient/Commands/Unreachable.antt =====
-- What commands.cpp does when the server cannot be reached: `send_request` of requests.cpp returns
-- EXIT_FAILURE, which is the descriptor of the standard output.
use teme_pcom_anul_2_sem.Prelude.{◌≡◌, ◌≢◌, ◌∙◌, refl, [], ◌∷◌, Text, codes, arith, false}
use teme_pcom_anul_2_sem.Webclient.Server.{ok}
use teme_pcom_anul_2_sem.Webclient.Requests.{
  say, say_error, close, Json, World, refused, exit_failure,
}
use teme_pcom_anul_2_sem.Webclient.Responses.{Session}
use teme_pcom_anul_2_sem.Webclient.Forms.{Cin}
use teme_pcom_anul_2_sem.Webclient.Commands.{
  command_caller, get_summary_info, is_empty, bearer, summary_info_url,
}
use teme_pcom_anul_2_sem.Webclient.Commands.Access.{call_get_books}
use teme_pcom_anul_2_sem.Webclient.Commands.Login.{requester_get}

is_empty-false : (t : Text) → t ≢ [] → is_empty t ≡ false
is_empty-false [] h = absurd (h refl)
is_empty-false (c ∷ cs) h = refl

-- If the server refuses the connection and nothing is read from descriptor 1, get_books of a
-- client with a token reads a response from descriptor 1 and closes it, and then reports that
-- there is no response.
unreachable_closes_stdout :
    (j : Json) (w : World) (s : Session) (c : Cin)
    → w.opening ≡ refused
    → w.reads 1 ≡ []
    → s.jwt_token ≢ []
    → command_caller j w (codes "get_books") s c
      ≡ ok (record {
        status = exit_failure;
        session = s;
        cin = c;
        actions =
            say_error (codes "Error connecting to server")
            ∷ say (codes "Error: Could not connect to server")
            ∷ close 1
            ∷ say (codes "Error: No response from server")
            ∷ [];
      })
unfolding get_summary_info
unreachable_closes_stdout j w s c away silent token =
    call_get_books j w s c
    ∙ ground
        (arith, is_empty-false s.jwt_token token, requester_get j w summary_info_url [] (bearer s))
