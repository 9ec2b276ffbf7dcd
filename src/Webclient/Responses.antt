-- ===== src/Webclient/Responses.antt =====
-- Tema-3-PCom/response_handlers.cpp: what each response does to the session, and what is printed.
pub mod Cookie
use teme_pcom_anul_2_sem.Prelude.{
  ℕ, ◌-◌, Bool, true, false, not, ◌&&◌, List, [], ◌∷◌, ◌++◌, Text, codes, Option, none, some,
  if◌then◌else◌, length, take, drop, ℤ, strstr,
}
use teme_pcom_anul_2_sem.Webclient.Server.{Result, ok, uncaught, ◌>>=◌}
use teme_pcom_anul_2_sem.Webclient.Requests.{Action, say, Json, crlf, exit_failure, exit_success}

-- The variables of `main` that the commands change.
pub record Session : Type 0 where
  pub login_cookie : Text
  pub jwt_token : Text
  pub is_connected : Bool

-- What a handler leaves: the returned status, the session and what it prints.
pub record Handled : Type 0 where
  pub status : ℤ
  pub session : Session
  pub said : List Action

abbrev pub failing : Session → Text → Handled
failing s line = record { status = exit_failure; session = s; said = say line ∷ [] }

abbrev pub succeeding : Session → List Action → Handled
succeeding s said = record { status = exit_success; session = s; said = said }

unfoldable pub login_cookie_handler : Text → Session → Handled
unfolding strstr
login_cookie_handler response s = elim (strstr response (codes "Set-Cookie: ")) [
  | none ↦ failing s (codes "Login failed.")
  | some start ↦ elim (strstr start (codes ";")) [
    | none ↦ failing s (codes "Login failed.")
    | some end ↦
        succeeding
          (record s {
            login_cookie = take (length start - length end - 12) (drop 12 start);
            is_connected = true;
          })
          []
  ]
]

unfoldable pub extract_json_response : Text → Option Text
unfolding strstr
extract_json_response response = strstr response (crlf ++ crlf)

module _ (j : Json) where
  -- `auth_type` is true for LOGIN and false for REGISTER.
  unfoldable pub auth_response_handler : Bool → Text → Session → Handled
  unfolding extract_json_response login_cookie_handler
  auth_response_handler auth_type response s = elim (extract_json_response response) [
    | none ↦ failing s (codes "Respones extracting failed")
    | some text ↦ elim (j.parse text) [
      | none ↦ if auth_type then login_cookie_handler response s else succeeding s []
      | some value ↦
          if j.contains value (codes "error") && not auth_type
          then failing s (codes "The username is already taken")
          else if j.contains value (codes "error") && auth_type
          then failing s (codes "Wrong username or password")
          else succeeding s []
    ]
  ]

  -- The handlers of the JSON responses begin with `extract_json_response` and `parse_json`.
  abbrev pub with_json : Text → Session → (j.Value → Result Handled) → Result Handled
  with_json response s handle = elim (extract_json_response response) [
    | none ↦ ok (failing s (codes "Respones extracting failed"))
    | some text ↦ elim (j.parse text) [
      | none ↦ ok (failing s (codes "Invalid JSON from server. Please try again"))
      | some value ↦ handle value
    ]
  ]

  -- A token that is no string is a `type_error`, which nobody catches.
  unfoldable pub entrance_response_handler : Text → Session → Result Handled
  unfolding extract_json_response
  entrance_response_handler response s = with_json response s (λ value.
      if j.contains value (codes "token")
      then elim (j.text_of (j.member value (codes "token"))) [
        | none ↦ uncaught
        | some token ↦ ok (succeeding (record s { jwt_token = token }) [])
      ]
      else ok (failing s (codes "Invalid credentials")))

  unfoldable pub summary_handler : Text → Session → Result Handled
  unfolding extract_json_response
  summary_handler response s = with_json response s (λ value.
      if j.is_array value
      then ok (succeeding s (say (j.dump_indented 4 value) ∷ []))
      else if j.contains value (codes "error")
      then ok (failing s (codes "Token error!"))
      else ok (record { status = exit_failure; session = s; said = [] }))

  unfoldable pub details_handler : Text → Session → Result Handled
  unfolding extract_json_response
  details_handler response s = with_json response s (λ value.
      if j.contains value (codes "error")
      then ok (failing s (j.dump (j.member value (codes "error"))))
      else ok (succeeding s (say (j.dump_indented 4 value) ∷ [])))

  -- A response without JSON is a success.
  unfoldable pub basic_json_handler : Text → Session → Result Handled
  unfolding extract_json_response
  basic_json_handler response s = elim (extract_json_response response) [
    | none ↦ ok (failing s (codes "Respones extracting failed"))
    | some text ↦ elim (j.parse text) [
      | none ↦ ok (succeeding s [])
      | some value ↦
          if j.contains value (codes "error")
          then ok (failing s (j.dump (j.member value (codes "error"))))
          else ok (succeeding s [])
    ]
  ]
