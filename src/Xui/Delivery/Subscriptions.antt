-- ===== src/Xui/Delivery/Subscriptions.antt =====
-- The subscription links that `get_client_delivery` (xui/client.py) returns.
use resellerbot.Prelude.{
  ℕ, suc, ◌≤◌, ◌≡◌, refl, false≢true, subst, sym, ap, ◌∙◌, inl, inr, Bool, true, false, Option,
  none, some, List, [], ◌∷◌, ◌++◌, Bool-cases, Option-cases, if◌then◌else◌, arith,
}
use resellerbot.Prelude.Int.{ℤ}
use resellerbot.Prelude.Text.{Text, text_eq, member}
use resellerbot.Errors.{
  Exec, Result, ok, err, Error, Result-cases, pure, checks, is_xui_error, except_xui, ◌>>=◌,
}
use resellerbot.Json.{Value}
use resellerbot.Xui.Client.{add_new}
use resellerbot.Xui.Links.{VlessConfig}
use resellerbot.Xui.Links.Once.{occurrences, same_member, one_text}
use resellerbot.Xui.Session.{Connection, Config, Link}
use resellerbot.Xui.Delivery.{
  ClientDelivery, get_links, get_sub_links, patched, enriched, known_sub_id, resolved_sub_id,
  public_links, subscription_links_of, get_client_delivery,
}

absent : (l : Text) (ls : List Text) → member l ls ≡ false → occurrences l ls ≡ 0
absent l [] h = refl
absent l (s ∷ ls) h = elim (Bool-cases (text_eq l s)) [
  | inl e ↦ absurd (false≢true (sym (rw e at h)))
  | inr e ↦ rw e (absent l ls (rw e at h))
]

suc-if : (b : Bool) (n : ℕ) → suc (if b then suc n else n) ≡ (if b then suc (suc n) else suc n)
suc-if true n = refl
suc-if false n = refl

occurrences-last :
    (l x : Text) (ls : List Text)
    → occurrences l (ls ++ x ∷ [])
      ≡ (if text_eq l x then suc (occurrences l ls) else occurrences l ls)
occurrences-last l x [] = refl
occurrences-last l x (s ∷ ls) = elim (Bool-cases (text_eq l s)) [
  | inl e ↦ rw e (ap suc (occurrences-last l x ls) ∙ suc-if (text_eq l x) (occurrences l ls))
  | inr e ↦ rw e (occurrences-last l x ls)
]

-- A list in which a text stands once at most.
abbrev Once : Text → List Text → Type 0
Once l ls = occurrences l ls ≤ 1

Once-last : (l x : Text) (ls : List Text) → member x ls ≡ false → Once l ls → Once l (ls ++ x ∷ [])
Once-last l x ls h once = elim (Bool-cases (text_eq l x)) [
  | inl e ↦
      rw (occurrences-last l x ls, e, absent l ls (same_member l x ls false e h)) (omega arith)
  | inr e ↦ rw (occurrences-last l x ls, e) once
]

Once-add_new : (l : Text) (links ls : List Text) → Once l links → Once l (add_new links ls)
Once-add_new l links [] once = once
Once-add_new l links (x ∷ ls) once = elim (Bool-cases (member x links)) [
  | inl h ↦ rw (add_new, h) (Once-add_new l links ls once)
  | inr h ↦ rw (add_new, h) (Once-add_new l (links ++ x ∷ []) ls (Once-last l x links h once))
]

-- What a result is, if it is one.
abbrev Holds : {A : Type 0} → (A → Type 0) → Result A → Type 0
Holds P (ok a) = P a
Holds P (err e) = Unit

module _ {S A B : Type 0} (P : B → Type 0) where
  Holds->>= :
      (m : Exec S A) (k : A → Exec S B) (s : S)
      → ((a : A) (s' : S) → Holds P (k a s').0)
      → Holds P ((m >>= k) s).0
  Holds->>= m k s h = elim (Result-cases (m s).0) [
    | inl (a, e) ↦ rw (◌>>=◌, e) (h a (m s).1)
    | inr (x, e) ↦ rw (◌>>=◌, e) tt
  ]

  Holds-then :
      (Q : A → Type 0) (m : Exec S A) (k : A → Exec S B) (s : S)
      → Holds Q (m s).0
      → ((a : A) (s' : S) → Q a → Holds P (k a s').0)
      → Holds P ((m >>= k) s).0
  Holds-then Q m k s q h = elim (Result-cases (m s).0) [
    | inl (a, e) ↦ rw (◌>>=◌, e) (h a (m s).1 (rw e at q))
    | inr (x, e) ↦ rw (◌>>=◌, e) tt
  ]

caught :
    {A : Type 0} (P : A → Type 0) (b : Bool) (a : A) (e : Error)
    → P a
    → Holds P (if b then ok a else err e)
caught P true a e h = h
caught P false a e h = tt

Holds-except_xui :
    {S A : Type 0} (P : A → Type 0) (m : Exec S A) (a : A) (s : S)
    → Holds P (m s).0
    → P a
    → Holds P (except_xui m a s).0
Holds-except_xui P m a s h p = elim (Result-cases (m s).0) [
  | inl (b, e) ↦ rw (except_xui, e) (rw e at h)
  | inr (x, e) ↦ rw (except_xui, e) (caught P (is_xui_error x) a x p)
]

module _ (connection : Connection) (config : Config) (loads : Text → Option Value) (ids : ℕ → Text)
    (l : Text) where
  open connection use {Server}

  public-Once : (sub_id : Text) → Once l (public_links connection config loads ids sub_id)
  public-Once sub_id =
      elim (Option-cases (known_sub_id connection config loads ids config.sub_public_url)) [
        | inl e ↦ rw (public_links, e) (omega arith)
        | inr (base, e) ↦ rw (public_links, e) (one_text l _)
      ]

  subscription_links-Once :
      (found : Option Text) (s : Link Server)
      → Holds (Once l) (subscription_links_of connection config loads ids found s).0
  subscription_links-Once none s = omega arith
  subscription_links-Once (some sub_id) s =
      let add : List Text → Exec (Link Server) (List Text) =
        λ api. pure (add_new (public_links connection config loads ids sub_id) api) in
      Holds-except_xui (Once l) (get_sub_links connection config loads ids sub_id >>= add)
        (public_links connection config loads ids sub_id) s
        (Holds->>= (Once l) (get_sub_links connection config loads ids sub_id) add s (λ api s'.
          Once-add_new l (public_links connection config loads ids sub_id) api
            (public-Once sub_id)))
        (public-Once sub_id)

  abbrev GivesOnce : ClientDelivery → Type 0
  GivesOnce d = Once l d.subscription_links

  delivery-Once :
      (email : Text) (sub_id : Option Text) (total_bytes : ℤ) (s : Link Server)
      → Holds GivesOnce
          (get_client_delivery connection config loads ids email sub_id total_bytes s).0
  unfolding get_client_delivery
  delivery-Once email sub_id total_bytes s =
      let give : List VlessConfig → List Text → Exec (Link Server) ClientDelivery =
        λ vless links. pure (record { vless_configs = vless; subscription_links = links }) in
      let subscribe : List VlessConfig → Option Text → Exec (Link Server) ClientDelivery =
        λ vless found. subscription_links_of connection config loads ids found >>= give vless in
      let resolve : List VlessConfig → Exec (Link Server) ClientDelivery = λ vless.
        resolved_sub_id connection config loads ids email
          (known_sub_id connection config loads ids sub_id)
        >>= subscribe vless in
      let enrich : List VlessConfig → Exec (Link Server) ClientDelivery =
        λ configs. enriched connection config loads ids configs >>= resolve in
      let patch : List VlessConfig → Exec (Link Server) ClientDelivery = λ found.
        checks (λ _. patched connection config loads ids email total_bytes found) >>= enrich in
      Holds->>= GivesOnce (get_links connection config loads ids email) patch s (λ found s1.
        Holds->>= GivesOnce
          (checks (λ _. patched connection config loads ids email total_bytes found)) enrich s1
          (λ configs s2.
            Holds->>= GivesOnce (enriched connection config loads ids configs) resolve s2
              (λ vless s3.
                Holds->>= GivesOnce
                  (resolved_sub_id connection config loads ids email
                    (known_sub_id connection config loads ids sub_id))
                  (subscribe vless) s3
                  (λ resolved s4.
                    Holds-then GivesOnce (Once l)
                      (subscription_links_of connection config loads ids resolved) (give vless) s4
                      (subscription_links-Once resolved s4) (λ links s5 once. once)))))

  -- No link stands twice among the subscription links of a delivery, whatever the panel answers.
  pub get_client_delivery-once :
      (email : Text) (sub_id : Option Text) (total_bytes : ℤ) (s : Link Server) (d : ClientDelivery)
      → (get_client_delivery connection config loads ids email sub_id total_bytes s).0 ≡ ok d
      → occurrences l d.subscription_links ≤ 1
  get_client_delivery-once email sub_id total_bytes s d h =
      subst (Holds GivesOnce) h (delivery-Once email sub_id total_bytes s)
