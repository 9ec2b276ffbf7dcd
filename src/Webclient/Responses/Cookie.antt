-- ===== src/Webclient/Responses/Cookie.antt =====
-- What response_handlers.cpp takes from a response: the cookie between its two marks.
use teme_pcom_anul_2_sem.Prelude.{
  ◌≡◌, refl, [], ◌∷◌, ◌++◌, Text, codes, true, arith, length, NotIn, NotIn-append, NotIn-NoStart,
  NoStart, strstr_first, starts_with-append, length-append, take-append,
}
use teme_pcom_anul_2_sem.Webclient.Responses.{Session, succeeding, login_cookie_handler}

abbrev pub cookie_mark : Text
cookie_mark = codes "Set-Cookie: "

-- A response with a cookie that ends with a semicolon.
abbrev pub with_cookie : Text → Text → Text → Text
with_cookie pre cookie rest = pre ++ (cookie_mark ++ (cookie ++ 59 ∷ rest))

-- The session after a login.
abbrev pub logged_in : Session → Text → Session
logged_in s cookie = record s { login_cookie = cookie; is_connected = true }

pub login_cookie_handler_lem :
    (pre cookie rest : Text) (s : Session)
    → NoStart cookie_mark pre (cookie_mark ++ (cookie ++ 59 ∷ rest))
    → NotIn 59 cookie
    → login_cookie_handler (with_cookie pre cookie rest) s ≡ succeeding (logged_in s cookie) []
unfolding login_cookie_handler
login_cookie_handler_lem pre cookie rest s first plain =
    let start = cookie_mark ++ (cookie ++ 59 ∷ rest) in
    let marked : NotIn 59 (cookie_mark ++ cookie) =
      NotIn-append 59 cookie_mark cookie (ground arith) plain in
    ground (
      arith,
      strstr_first cookie_mark pre start first
          (starts_with-append cookie_mark (cookie ++ 59 ∷ rest)),
      strstr_first (59 ∷ []) (cookie_mark ++ cookie) (59 ∷ rest)
          (NotIn-NoStart 59 (cookie_mark ++ cookie) (59 ∷ rest) marked) refl,
      length-append cookie (59 ∷ rest),
      take-append cookie (59 ∷ rest) (length cookie) refl,
    )
