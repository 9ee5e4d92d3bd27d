-- ===== src/Xui/Session.antt =====
-- The requests of `XuiClient` (xui/client.py): signing in, the retries, and what counts as an error.
--
-- The connection (httpx) is a parameter: what it answers to a request, in whatever state the panel
-- is. What a redirect makes `client.request` send besides (follow_redirects=True) belongs to that one
-- answer. The pauses between two attempts, and opening and closing the connection, are left out.
pub mod Budget
pub mod Retries
use resellerbot.Prelude.{
  ℕ, zero, suc, ◌+◌, Bool, true, false, not, ◌&&◌, ◌||◌, Option, none, some, List, [], ◌∷◌, ◌++◌,
  ◌==◌, leb, ltb, if◌then◌else◌,
}
use resellerbot.Prelude.Int.{ℤ}
use resellerbot.Prelude.Text.{Text, codes}
use resellerbot.Errors.{
  Exec, ⊤, pure, raise, gets, modify, ◌>>=◌, ◌>>◌, raise_if, or_raise, when, Error, Result, ok, err,
  xui_error, http_error, json_error, attribute_error, missing_credentials, no_csrf, unauthorized,
  forbidden, empty_response, request_failed, panel_message, is_xui_error,
}
use resellerbot.Json.{
  Value, null, bool, int, text, arr, obj, Fields, end, field, get, get_or, truthy, or_else, text_of,
  find_field,
}

-- `content`, decoded, is `none` if it is no JSON.
pub record Response : Type 0 where
  pub status_code : ℕ
  pub is_empty : Bool
  pub is_json : Bool
  pub content : Option Value
  pub raw : Text

pub data Method : Type 0 where
  get_method post_method : Method

-- A request with its JSON body and the CSRF token of its headers.
pub record Request : Type 0 where
  pub method : Method
  pub path : Text
  pub body : Value
  pub csrf_token : Option Value

-- The arguments of `XuiClient(…)` that its requests depend on.
pub record Config : Type 0 where
  pub api_token : Option Text
  pub username : Option Text
  pub password : Option Text
  pub max_retries : ℕ
  pub sub_public_url : Option Text
  pub auto_vision_flow : Bool
  pub auto_reseller_group : Bool

-- The connection: `none` is an `httpx.HTTPError`.
pub record Connection : Type 1 where
  pub Server : Type 0
  pub send : Request → Server → Option Response × Server

-- `_csrf_token`, the panel, `int(time.time() * 1000)`, and how many random ids were drawn.
pub record Link (Server : Type 0) : Type 0 where
  pub csrf_token : Option Value
  pub server : Server
  pub now_ms : ℤ
  pub drawn : ℕ

-- `bool(s)` of an optional text.
abbrev pub is_given : Option Text → Bool
is_given none = false
is_given (some []) = false
is_given (some (_ ∷ _)) = true

-- `r.is_success`
abbrev pub is_success : Response → Bool
is_success r = leb 200 r.status_code && ltb r.status_code 300

abbrev pub kept : Value → Option Value
kept v = if truthy v then some v else none

-- `data.get`, which only a dictionary has.
abbrev pub as_dict : {S : Type 0} → Value → Exec S Fields
as_dict (obj fs) s = (ok fs, s)
as_dict null s = (err attribute_error, s)
as_dict _ s = (err attribute_error, s)

-- The token in the answer of `/csrf-token`, and what is kept of it.
abbrev pub token_in : Fields → Value
token_in answer = or_else (get (codes "obj") answer) (get (codes "token") answer)

abbrev pub keep_token : {Server : Type 0} → Fields → Link Server → Link Server
keep_token answer s = record s { csrf_token = kept (token_in answer) }

abbrev pub drop_token : {Server : Type 0} → Link Server → Link Server
drop_token s = record s { csrf_token = none }

-- The error of a refused login.
abbrev pub login_error : Fields → Error
login_error body =
    xui_error (panel_message (text_of (get_or (codes "msg") (text (codes "Login failed")) body)))

module _ (connection : Connection) (config : Config) where
  open connection use {Server, send}
  open config use {api_token, username, password, max_retries}

  -- `_csrf_headers`
  abbrev pub csrf_headers : Link Server → Option Value
  csrf_headers s = if is_given api_token then none else s.csrf_token

  unfoldable pub call :
      (Link Server → Option Value) → Method → Text → Value → Exec (Link Server) Response
  call headers method path body s =
      let (answer, server) =
        send (record { method = method; path = path; body = body; csrf_token = headers s })
          s.server in
      (elim answer [ none ↦ err http_error | some r ↦ ok r ], record s { server = server })

  abbrev or_nothing : Option Text → Text
  or_nothing none = []
  or_nothing (some s) = s

  -- The form that is sent to sign in.
  abbrev pub credentials : Value
  credentials = obj (
      field (codes "username") (text (or_nothing username))
        (field (codes "password") (text (or_nothing password)) end))

  -- `ensure_authenticated` without an API token.
  unfoldable pub sign_in : Exec (Link Server) ⊤
  sign_in = do
    raise_if (not (is_given username && is_given password)) (xui_error missing_credentials)
    r ← call (λ _. none) get_method (codes "/csrf-token") null
    raise_if (not (is_success r)) http_error
    content ← or_raise r.content json_error
    answer ← as_dict content
    modify (keep_token answer)
    raise_if (not (truthy (token_in answer))) (xui_error no_csrf)
    r2 ← call csrf_headers post_method (codes "/login") credentials
    content2 ← or_raise r2.content json_error
    body ← as_dict content2
    raise_if (not (truthy (get (codes "success") body))) (login_error body)

  unfoldable pub ensure_authenticated : Exec (Link Server) ⊤
  unfolding sign_in
  ensure_authenticated = when (not (is_given api_token)) sign_in

  -- `data.get("success") is False`
  abbrev pub reports_failure : Value → Option Text
  reports_failure (obj fs) = elim (get (codes "success") fs) [
    | bool b ↦
        (if b
          then none
          else some (text_of (get_or (codes "msg") (text (codes "Panel API error")) fs)))
    | null ↦ none
    | int _ ↦ none
    | text _ ↦ none
    | arr _ ↦ none
    | obj _ ↦ none
  ]
  reports_failure null = none
  reports_failure _ = none

  -- What an answer that is no JSON becomes.
  abbrev raw_answer : Response → Value
  raw_answer r =
      obj (field (codes "success") (bool (is_success r)) (field (codes "raw") (text r.raw) end))

  abbrev pub answer_of : Response → Option Value
  answer_of r = if r.is_json then r.content else some (raw_answer r)

  abbrev pub refused : Value → Exec (Link Server) Value
  refused v = elim (reports_failure v) [
    | none ↦ pure v
    | some msg ↦ raise (xui_error (panel_message msg))
  ]

  -- The `try` block of one attempt. An empty answer is tried again like an error.
  unfoldable pub attempt : Method → Text → Value → Exec (Link Server) Value
  attempt method path body = do
    r ← call csrf_headers method path body
    when (r.status_code == 401) do
      when (not (is_given api_token)) do modify drop_token; ensure_authenticated
      raise (xui_error unauthorized)
    raise_if (r.status_code == 403) (xui_error forbidden)
    raise_if r.is_empty (xui_error empty_response)
    v ← or_raise (answer_of r) json_error
    refused v

  -- `except (httpx.HTTPError, XuiError)`
  abbrev pub is_retried : Error → Bool
  is_retried http_error = true
  is_retried e = is_xui_error e

  -- The attempts that are left.
  unfoldable pub attempts : ℕ → Method → Text → Value → Exec (Link Server) Value
  attempts zero method path body s = (err (xui_error request_failed), s)
  attempts (suc n) method path body s =
      let (r, s') = attempt method path body s in
      elim r [
        | ok v ↦ (ok v, s')
        | err e ↦ elim (is_retried e && ltb 0 n) [
          | true ↦ attempts n method path body s'
          | false ↦ (err e, s')
        ]
      ]

  -- `_request`
  unfoldable pub request : Method → Text → Value → Exec (Link Server) Value
  request method path body = do ensure_authenticated; attempts max_retries method path body
