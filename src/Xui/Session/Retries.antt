-- ===== src/Xui/Session/Retries.antt =====
-- The retries of `_request` (xui/client.py), with an API token.
use resellerbot.Prelude.{
  ℕ, suc, ◌+◌, ◌-◌, ◌<◌, ◌≡◌, refl, ap, ◌∙◌, true, false, ◌&&◌, ◌==◌, Option, none, some, ltb,
  arith,
}
use resellerbot.Prelude.Text.{Text}
use resellerbot.Errors.{ok, err, Error, http_error, ◌>>=◌, ◌>>◌}
use resellerbot.Json.{Value}
use resellerbot.Xui.Session.{
  Connection, Config, Link, Request, Response, Method, is_given, csrf_headers, call,
  ensure_authenticated, attempt, attempts, request, is_retried, refused, reports_failure, answer_of,
}

-- The connection fails so many times in a row on a request.
pub data Outage (connection : Connection) (r : Request)
    : ℕ → connection.Server → connection.Server → Type 0 where
  over : {s : connection.Server} → Outage connection r 0 s s
  down :
      {k : ℕ} {s s' s'' : connection.Server}
      → connection.send r s ≡ (none, s')
      → Outage connection r k s' s''
      → Outage connection r (suc k) s s''

-- A response that `_request` returns as a value.
pub record IsAnswer (connection : Connection) (config : Config) (r : Response) (v : Value)
    : Type 0 where
  pub authorized : (r.status_code == 401) ≡ false
  pub allowed : (r.status_code == 403) ≡ false
  pub non_empty : r.is_empty ≡ false
  pub decoded : answer_of connection config r ≡ some v
  pub accepted : reports_failure connection config v ≡ none

-- The request that carries an API token, and so no CSRF token.
abbrev pub bare : Method → Text → Value → Request
bare method path body = record { method = method; path = path; body = body; csrf_token = none }

module _ (connection : Connection) (config : Config) (method : Method) (path : Text) (body : Value)
    (token : is_given config.api_token ≡ true) where
  open connection use {Server, send}

  call_sent :
      (s : Link Server) (s' : Server) (answer : Option Response)
      → send (bare method path body) s.server ≡ (answer, s')
      → call connection config (csrf_headers connection config) method path body s
        ≡ (elim answer [ none ↦ err http_error | some r ↦ ok r ], record s { server = s' })
  unfolding call
  call_sent s s' answer h =
      rw token (
        ap (λ p. (elim p.0 [ none ↦ err http_error | some r ↦ ok r ], record s { server = p.1 })) h)

  attempt_down :
      (s : Link Server) (s' : Server)
      → send (bare method path body) s.server ≡ (none, s')
      → attempt connection config method path body s ≡ (err http_error, record s { server = s' })
  unfolding attempt
  attempt_down s s' h = rw (attempt, ◌>>=◌, call_sent s s' none h, call_sent s s' none h) refl

  refused_not :
      (v : Value) (s : Link Server)
      → reports_failure connection config v ≡ none
      → refused connection config v s ≡ (ok v, s)
  refused_not v s h = rw (refused, h) refl

  attempt_answer :
      (s : Link Server) (s' : Server) (r : Response) (v : Value)
      → send (bare method path body) s.server ≡ (some r, s')
      → IsAnswer connection config r v
      → attempt connection config method path body s ≡ (ok v, record s { server = s' })
  unfolding attempt
  attempt_answer s s' r v h a =
      rw
        (
          attempt,
          ◌>>=◌,
          call_sent s s' (some r) h,
          ◌>>◌,
          a.authorized,
          a.allowed,
          a.non_empty,
          a.decoded,
          call_sent s s' (some r) h,
          a.authorized,
          a.allowed,
          a.non_empty,
          a.decoded,
        )
        (refused_not v (record s { server = s' }) a.accepted)

  ltb-suc : (n : ℕ) → ltb 0 (suc n) ≡ true
  ltb-suc n = ground arith

  attempts_again :
      (n : ℕ) (s s' : Link Server) (e : Error)
      → attempt connection config method path body s ≡ (err e, s')
      → (is_retried connection config e && ltb 0 n) ≡ true
      → attempts connection config (suc n) method path body s
        ≡ attempts connection config n method path body s'
  unfolding attempts
  attempts_again n s s' e h again = rw (attempts, h, again, h) refl

  -- An attempt that is not the last one, while the connection is down.
  attempts_step :
      (n : ℕ) (l : Link Server) (s s' : Server)
      → send (bare method path body) s ≡ (none, s')
      → attempts connection config (suc (suc n)) method path body (record l { server = s })
        ≡ attempts connection config (suc n) method path body (record l { server = s' })
  attempts_step n l s s' h =
      attempts_again (suc n) _ _ http_error (attempt_down (record l { server = s }) s' h)
        (ltb-suc n)

  -- The attempts that an outage takes.
  attempts_down :
      (k n m : ℕ) (l : Link Server) (s s' : Server)
      → Outage connection (bare method path body) k s s'
      → m ≡ k + suc n
      → attempts connection config m method path body (record l { server = s })
        ≡ attempts connection config (suc n) method path body (record l { server = s' })
  attempts_down k n m l s s' over e =
      ap (λ i. attempts connection config i method path body (record l { server = s }))
        (omega (arith, e))
  attempts_down k n m l s s' (down {k = j} {s' = t} h o) e =
      ap (λ i. attempts connection config i method path body (record l { server = s }))
        (omega (arith, e))
      ∙ attempts_step (j + n) l s t h
      ∙ attempts_down j n (suc (j + n)) l t s' o (omega arith)

  attempts_answer :
      (n : ℕ) (l : Link Server) (s s' : Server) (r : Response) (v : Value)
      → send (bare method path body) s ≡ (some r, s')
      → IsAnswer connection config r v
      → attempts connection config (suc n) method path body (record l { server = s })
        ≡ (ok v, record l { server = s' })
  unfolding attempts
  attempts_answer n l s s' r v h a =
      rw
        (
          attempts,
          attempt_answer (record l { server = s }) s' r v h a,
          attempt_answer (record l { server = s }) s' r v h a,
        )
        refl

  attempts_exhausted :
      (l : Link Server) (s s' : Server)
      → send (bare method path body) s ≡ (none, s')
      → attempts connection config 1 method path body (record l { server = s })
        ≡ (err http_error, record l { server = s' })
  unfolding attempts
  attempts_exhausted l s s' h =
      rw
        (
          attempts,
          attempt_down (record l { server = s }) s' h,
          attempt_down (record l { server = s }) s' h,
        )
        refl

  request-attempts :
      (s : Link Server)
      → request connection config method path body s
        ≡ attempts connection config config.max_retries method path body s
  unfolding request ensure_authenticated
  request-attempts s = rw (◌>>=◌, token, ◌>>=◌, token) refl

  -- With an API token, a request outlasts an outage: if the connection fails fewer times in a row
  -- than `max_retries` and then brings a response that is an answer, `_request` returns that
  -- answer, and nothing of the client but the panel's state has changed.
  pub request_recovers :
      (k : ℕ) (s : Link Server) (up after : Server) (r : Response) (v : Value)
      → Outage connection (bare method path body) k s.server up
      → k < config.max_retries
      → send (bare method path body) up ≡ (some r, after)
      → IsAnswer connection config r v
      → request connection config method path body s ≡ (ok v, record s { server = after })
  request_recovers k s up after r v outage below h answer =
      request-attempts s
      ∙ attempts_down k (config.max_retries - suc k) config.max_retries s s.server up outage
          (omega (arith, below))
      ∙ attempts_answer (config.max_retries - suc k) s up after r v h answer

  -- With an API token, an outage that lasts for `max_retries` requests, of which there is at least
  -- one, makes `_request` raise the connection's error after the last of them.
  pub request_gives_up :
      (k : ℕ) (s : Link Server) (last after : Server)
      → Outage connection (bare method path body) k s.server last
      → config.max_retries ≡ suc k
      → send (bare method path body) last ≡ (none, after)
      → request connection config method path body s ≡ (err http_error, record s { server = after })
  request_gives_up k s last after outage e h =
      request-attempts s
      ∙ attempts_down k 0 config.max_retries s s.server last outage (omega (arith, e))
      ∙ attempts_exhausted s last after h
