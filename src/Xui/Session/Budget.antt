-- ===== src/Xui/Session/Budget.antt =====
-- How many requests one call of `_request` (xui/client.py) sends.
use resellerbot.Prelude.{
  ℕ, zero, suc, ◌+◌, ◌*◌, ◌≤◌, ◌≡◌, refl, sym, inl, inr, Bool, true, false, not, ◌&&◌, ◌==◌, Option,
  none, some, ltb, if◌then◌else◌, arith,
}
use native.Mathlib.Nat.{suc-mul}
use resellerbot.Prelude.Text.{Text, codes}
use resellerbot.Errors.{
  Exec, ⊤, Error, panel_message, unauthorized, forbidden, empty_response, pure, raise, modify,
  raise_if, or_raise, when, Result-cases, xui_error, missing_credentials, http_error, json_error,
  no_csrf, ◌>>=◌, ◌>>◌,
}
use resellerbot.Json.{Value, null, bool, int, text, arr, obj, get, truthy}
use resellerbot.Xui.Session.{
  Connection, Config, Link, Request, Method, is_given, as_dict, csrf_headers, credentials, token_in,
  keep_token, login_error, is_success, get_method, post_method, call, sign_in, ensure_authenticated,
  attempt, attempts, request, is_retried, refused, reports_failure, answer_of, drop_token,
}

-- The requests of one call, at most.
abbrev pub budget : Config → ℕ
budget config = if is_given config.api_token then config.max_retries else 2 + config.max_retries * 3

module _ (connection : Connection) (config : Config) (cost : connection.Server → ℕ)
    (grows : (r : Request) (s : connection.Server)
      → cost (connection.send r s).1 ≤ suc (cost s)) where
  open connection use {Server, send}

  -- No more than so many requests.
  record Costs {A : Type 0} (n : ℕ) (m : Exec (Link Server) A) : Type 0 where
    pub at_most : (s : Link Server) → cost (m s).1.server ≤ n + cost s.server

  Costs->>= :
      {A B : Type 0} (a b : ℕ) (m : Exec (Link Server) A) (k : A → Exec (Link Server) B)
      → Costs a m
      → ((x : A) → Costs b (k x))
      → Costs (a + b) (m >>= k)
  Costs->>= a b m k c d = record {
    at_most = λ s. elim (Result-cases (m s).0) [
      | inl (x, h) ↦
          rw (◌>>=◌, h) (let below = (d x).at_most (m s).1 in omega (arith, c.at_most s, below))
      | inr (e, h) ↦ rw (◌>>=◌, h) (omega (arith, c.at_most s))
    ];
  }

  Costs-weaken : {A : Type 0} (a b : ℕ) (m : Exec (Link Server) A) → a ≤ b → Costs a m → Costs b m
  Costs-weaken a b m h c = record {
    at_most = λ s. let below = c.at_most s in omega (arith, h, below);
  }

  Costs->> :
      {A B : Type 0} (a b : ℕ) (m : Exec (Link Server) A) (k : Exec (Link Server) B)
      → Costs a m
      → Costs b k
      → Costs (a + b) (m >> k)
  Costs->> a b m k c d = Costs->>= a b m (λ _. k) c (λ _. d)

  -- A step that sends nothing.
  abbrev Free : {A : Type 0} → Exec (Link Server) A → Type 0
  Free m = (s : Link Server) → (m s).1.server ≡ s.server

  Costs-Free : {A : Type 0} (n : ℕ) (m : Exec (Link Server) A) → Free m → Costs n m
  Costs-Free n m free = record { at_most = λ s. rw (free s) (omega arith) }

  Costs-raise_if : (b : Bool) (e : Error) → Costs 0 (raise_if b e)
  Costs-raise_if true e = record { at_most = λ s. omega arith }
  Costs-raise_if false e = record { at_most = λ s. omega arith }

  Costs-or_raise : {A : Type 0} (v : Option A) (e : Error) → Costs 0 (or_raise v e)
  Costs-or_raise none e = record { at_most = λ s. omega arith }
  Costs-or_raise (some _) e = record { at_most = λ s. omega arith }

  Costs-as_dict : (v : Value) → Costs 0 (as_dict v)
  Costs-as_dict (obj fs) = record { at_most = λ s. omega arith }
  Costs-as_dict null = record { at_most = λ s. omega arith }
  Costs-as_dict (bool b) = record { at_most = λ s. omega arith }
  Costs-as_dict (int b) = record { at_most = λ s. omega arith }
  Costs-as_dict (text b) = record { at_most = λ s. omega arith }
  Costs-as_dict (arr b) = record { at_most = λ s. omega arith }

  Costs-when : (n : ℕ) (b : Bool) (m : Exec (Link Server) ⊤) → Costs n m → Costs n (when b m)
  Costs-when n true m c = record { at_most = λ s. c.at_most s }
  Costs-when n false m c = record { at_most = λ s. omega arith }

  Costs-call :
      (headers : Link Server → Option Value) (method : Method) (path : Text) (body : Value)
      → Costs 1 (call connection config headers method path body)
  unfolding call
  Costs-call headers method path body = record {
    at_most = λ s.
        let one =
          grows (record { method = method; path = path; body = body; csrf_token = headers s })
            s.server in
        omega (arith, one);
  }

  Costs-when-not :
      (b : Bool) (m : Exec (Link Server) ⊤)
      → Costs 2 m
      → Costs (if b then 0 else 2) (when (not b) m)
  Costs-when-not true m c = record { at_most = λ s. omega arith }
  Costs-when-not false m c = record { at_most = λ s. c.at_most s }

  Costs-sign_in : Costs 2 (sign_in connection config)
  unfolding sign_in
  Costs-sign_in =
      Costs->> 0 2 _ _
        (Costs-raise_if (not (is_given config.username && is_given config.password))
          (xui_error missing_credentials))
        (Costs->>= 1 1 _ _ (Costs-call (λ _. none) get_method (codes "/csrf-token") null) (λ r.
          Costs->> 0 1 _ _ (Costs-raise_if (not (is_success r)) http_error) (
            Costs->>= 0 1 _ _ (Costs-or_raise r.content json_error) (λ content.
              Costs->>= 0 1 _ _ (Costs-as_dict content) (λ answer.
                Costs->> 0 1 _ _ (Costs-Free 0 (modify (keep_token answer)) (λ _. refl)) (
                  Costs->> 0 1 _ _
                    (Costs-raise_if (not (truthy (token_in answer))) (xui_error no_csrf))
                    (Costs->>= 1 0 _ _
                      (Costs-call (csrf_headers connection config) post_method (codes "/login")
                        (credentials connection config))
                      (λ r2. Costs->>= 0 0 _ _ (Costs-or_raise r2.content json_error) (λ content2.
                        Costs->>= 0 0 _ _ (Costs-as_dict content2) (λ body.
                          Costs-raise_if (not (truthy (get (codes "success") body)))
                            (login_error body)))))))))))

  Costs-ensure_authenticated :
      Costs (if is_given config.api_token then 0 else 2) (ensure_authenticated connection config)
  unfolding ensure_authenticated
  Costs-ensure_authenticated = Costs-when-not (is_given config.api_token) _ Costs-sign_in

  Costs-refused : (v : Value) → Costs 0 (refused connection config v)
  Costs-refused v =
      elim (reports_failure connection config v)
        as (λ f.
          Costs 0 (elim f [ none ↦ pure v | some msg ↦ raise (xui_error (panel_message msg)) ])) [
            | none ↦ Costs-Free 0 (pure v) (λ _. refl)
            | some msg ↦ Costs-Free 0 (raise (xui_error (panel_message msg))) (λ _. refl)
          ]

  -- The requests of signing in, at most, if that is needed at all.
  abbrev login_cost : ℕ
  login_cost = if is_given config.api_token then 0 else 2

  sign_in_again : Exec (Link Server) ⊤
  sign_in_again = modify drop_token >> ensure_authenticated connection config

  Costs-sign_in_again : Costs login_cost (when (not (is_given config.api_token)) sign_in_again)
  unfolding sign_in_again ensure_authenticated
  Costs-sign_in_again = Costs-when-not (is_given config.api_token) _ (
      Costs->> 0 2 _ _ (Costs-Free 0 (modify drop_token) (λ _. refl))
        (Costs-when 2 (not (is_given config.api_token)) _ Costs-sign_in))

  Costs-attempt :
      (method : Method) (path : Text) (body : Value)
      → Costs (1 + login_cost) (attempt connection config method path body)
  unfolding attempt sign_in_again
  Costs-attempt method path body =
      Costs-weaken (1 + (login_cost + 0 + 0)) (1 + login_cost) _ (omega arith) (
        Costs->>= 1 (login_cost + 0 + 0) _ _
          (Costs-call (csrf_headers connection config) method path body)
          (λ r.
            Costs->> (login_cost + 0) 0 _ _
              (Costs-when (login_cost + 0) (r.status_code == 401) _ (
                Costs->> login_cost 0 _ _ Costs-sign_in_again
                  (Costs-Free 0 (raise (xui_error unauthorized)) (λ _. refl))))
              (Costs->> 0 0 _ _ (Costs-raise_if (r.status_code == 403) (xui_error forbidden)) (
                Costs->> 0 0 _ _ (Costs-raise_if r.is_empty (xui_error empty_response)) (
                  Costs->>= 0 0 _ _ (Costs-or_raise (answer_of connection config r) json_error)
                    (λ v. Costs-refused v))))))

  retry_room : (n c a b d : ℕ) → b ≤ c + a → d ≤ n * c + b → d ≤ suc n * c + a
  retry_room n c a b d h k = rw (suc-mul n c) (omega (arith, h, k))

  Costs-attempts :
      (n : ℕ) (method : Method) (path : Text) (body : Value)
      → Costs (n * (1 + login_cost)) (attempts connection config n method path body)
  unfolding attempts
  Costs-attempts zero method path body = record { at_most = λ s. omega arith }
  Costs-attempts (suc n) method path body = record {
    at_most = λ s.
        let first = (Costs-attempt method path body).at_most s in
        elim (Result-cases (attempt connection config method path body s).0) [
          | inl (v, h) ↦ rw (attempts, h) (omega (arith, first))
          | inr (e, h) ↦
              elim (is_retried connection config e && ltb 0 n)
                  as (λ b.
                    is_retried connection config e && ltb 0 n ≡ b
                    → cost (attempts connection config (suc n) method path body s).1.server
                      ≤ suc n * (1 + login_cost) + cost s.server) [
                        | true ↦ λ g.
                            rw (attempts, h, g)
                              (let rest =
                                  (Costs-attempts n method path body).at_most
                                    (attempt connection config method path body s).1 in
                                retry_room n (1 + login_cost) _ _ _ first rest)
                        | false ↦ λ g. rw (attempts, h, g) (omega (arith, first))
                      ]
                refl
        ];
  }

  Costs-request :
      (method : Method) (path : Text) (body : Value)
      → Costs
          (login_cost + config.max_retries * (1 + login_cost))
          (request connection config method path body)
  unfolding request
  Costs-request method path body =
      Costs->> login_cost (config.max_retries * (1 + login_cost)) _ _ Costs-ensure_authenticated
        (Costs-attempts config.max_retries method path body)

-- The budget, as what signing in and each attempt cost.
budget-split :
    (b : Bool) (n : ℕ)
    → (if b then 0 else 2) + n * (1 + (if b then 0 else 2)) ≡ (if b then n else 2 + n * 3)
budget-split true n = omega arith
budget-split false n = omega arith

-- Whatever the panel answers, a call of `_request` comes to an end and calls `client.request` of
-- httpx no more often than its budget: `max_retries` with an API token, and otherwise two calls to
-- sign in and three for each attempt, which may sign in again. `cost` is any measure that such a
-- call raises by at most one.
pub request_bounded :
    (connection : Connection) (config : Config) (cost : connection.Server → ℕ)
    (grows : (r : Request) (s : connection.Server) → cost (connection.send r s).1 ≤ suc (cost s))
    (method : Method) (path : Text) (body : Value) (s : Link connection.Server)
    → cost (request connection config method path body s).1.server ≤ budget config + cost s.server
request_bounded connection config cost grows method path body s =
    rw (sym (budget-split (is_given config.api_token) config.max_retries))
      ((Costs-request connection config cost grows method path body).at_most s)
