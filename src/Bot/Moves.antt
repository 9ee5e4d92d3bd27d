-- ===== src/Bot/Moves.antt =====
-- What a conversation may do, step by step: the abstract state machine of the handlers of
-- bot/handlers/reseller.py, for the user who talks to the bot.
--
-- The FSM state only becomes one whose data is there, and the database only changes by a method of
-- ResellerService on the user's own row.
pub mod Rules
pub mod Senders
pub mod Calls
pub mod Browsing
pub mod Changing
pub mod Resizing
pub mod Points
pub mod Creating
pub mod Confirming
pub mod Created
use resellerbot.Prelude.{ℕ, ◌≡◌, refl, Bool, true, false, Option, none, some, List, [], ◌∷◌}
use resellerbot.Prelude.Int.{ℤ}
use resellerbot.Prelude.Text.{Text}
use resellerbot.Models.{Db, Reseller, Float, AnyFloat, finite}
use resellerbot.Volume.{is_volume_too_low, is_any_too_low}
use resellerbot.Panel.{XuiClient, World}
use resellerbot.RateLimit.{Hits}
use resellerbot.Registry.{Site}
use resellerbot.Service.{
  create_service, delete_service, add_service_traffic, remove_service_traffic,
  update_service_expiry,
}
use resellerbot.History.{IsCurrent, world}
use resellerbot.Bot.Chat.{
  State, create_pick_panel, create_volume, create_expiry, create_client_name, create_confirm, Data,
  no_data, Chat,
}
use resellerbot.Bot.Said.{Said}

abbrev pub HasPanel : Data → Type 0
HasPanel d = (p : ℕ) × (d.panel_id ≡ some p)

-- A volume that is not below 20 GB; nan and the infinity are not.
abbrev pub HasVolume : Data → Type 0
HasVolume d = (v : AnyFloat) × (d.volume_gb ≡ some v) × (is_any_too_low v ≡ false)

abbrev pub HasName : Data → Type 0
HasName d = (c : ℕ) × (s : Text) × (d.client_suffix ≡ some (c ∷ s))

-- The data that a state of the creation relies on is there.
abbrev pub IsReady : Option State → Data → Type 0
IsReady (some create_volume) d = HasPanel d
IsReady (some create_expiry) d = HasPanel d × HasVolume d
IsReady (some create_client_name) d = HasPanel d × HasVolume d
IsReady (some create_confirm) d = HasPanel d × HasVolume d × HasName d
IsReady none d = Unit
IsReady (some _) d = Unit

-- A method of ResellerService on the user's own row, whatever the panel answers.
pub data Serves (user : ℕ) (db db' : Db) : Type 1 where
  create :
      (xui : XuiClient) (p : xui.State) (now : ℤ) (r : Reseller) (volume : Float) (days : ℤ)
      (ids : Option (List ℕ)) (suffix : Text) (panel_id : ℕ)
      → r.telegram_id ≡ user
      → IsCurrent r db
      → db' ≡ (create_service xui r volume days ids suffix panel_id (world xui db p now)).1.db
      → Serves user db db'
  delete :
      (xui : XuiClient) (p : xui.State) (now : ℤ) (limit : Float) (r : Reseller) (email : Text)
      → r.telegram_id ≡ user
      → IsCurrent r db
      → db' ≡ (delete_service xui limit r email (world xui db p now)).1.db
      → Serves user db db'
  grow :
      (xui : XuiClient) (p : xui.State) (now : ℤ) (r : Reseller) (email : Text) (volume : Float)
      → r.telegram_id ≡ user
      → IsCurrent r db
      → db' ≡ (add_service_traffic xui r email volume (world xui db p now)).1.db
      → Serves user db db'
  shrink :
      (xui : XuiClient) (p : xui.State) (now : ℤ) (r : Reseller) (email : Text) (volume : Float)
      → r.telegram_id ≡ user
      → IsCurrent r db
      → db' ≡ (remove_service_traffic xui r email volume (world xui db p now)).1.db
      → Serves user db db'
  extend :
      (xui : XuiClient) (p : xui.State) (now : ℤ) (r : Reseller) (email : Text)
      (add_days expiry_ms : Option ℤ)
      → r.telegram_id ≡ user
      → IsCurrent r db
      → db' ≡ (update_service_expiry xui r email add_days expiry_ms (world xui db p now)).1.db
      → Serves user db db'
  -- A method that writes nothing.
  look : db' ≡ db → Serves user db db'

pub data Move (user : ℕ) (c : Chat) : Chat → Type 1 where
  spoken : (x : Said) → Move user c (record c { said = x ∷ c.said })
  counted : (h : Hits) → Move user c (record c { hits = h })
  served : (s : Site) → Serves user c.site.db s.db → Move user c (record c { site = s })
  ended : Move user c (record c { state = none; form = no_data })
  -- The state becomes one that the data is ready for.
  advanced : (st : Option State) → IsReady st c.form → Move user c (record c { state = st })
  panel_picked :
      (p : ℕ) (name : Option Text)
      → Move user c (record c { form = record c.form { panel_id = some p; template_name = name } })
  volume_given :
      (v : AnyFloat)
      → is_any_too_low v ≡ false
      → Move user c (record c { form = record c.form { volume_gb = some v } })
  template_picked :
      (p : ℕ) (v : Float) (days : ℤ) (name : Text)
      → is_volume_too_low v ≡ false
      → Move user c (record c {
        form = record c.form {
          panel_id = some p;
          volume_gb = some (finite v);
          expiry_days = some days;
          template_name = some name;
        };
      })
  days_given :
      (days : ℤ) → Move user c (record c { form = record c.form { expiry_days = some days } })
  named :
      (suffix : Text)
      → c.state ≡ some create_client_name
      → Move user c (record c { form = record c.form { client_suffix = some suffix } })
  previewed :
      (email : Text)
      → Move user c (record c { form = record c.form { email_preview = some email } })
  locked : (b : Bool) → Move user c (record c { form = record c.form { create_locked = b } })
  addressed :
      (email : Text) → Move user c (record c { form = record c.form { email = some email } })
  searched :
      (q : Option Text)
      → Move user c (record c { form = record c.form { service_search_query = q } })
  -- The email and the volume of a change of traffic, with a state outside the creation.
  traffic_asked :
      (email : Text) (v : AnyFloat) (st : State)
      → ((d : Data) → IsReady (some st) d)
      → Move user c (record c {
        form = record c.form { email = some email; volume_gb = some v };
        state = some st;
      })

pub data Moves (user : ℕ) (c : Chat) : Chat → Type 1 where
  here : Moves user c c
  next : {d e : Chat} → Moves user c d → Move user d e → Moves user c e

pub Moves-trans : {user : ℕ} {c d e : Chat} → Moves user c d → Moves user d e → Moves user c e
Moves-trans m here = m
Moves-trans m (next n s) = next (Moves-trans m n) s

pub once : {user : ℕ} {c d : Chat} → Move user c d → Moves user c d
once s = next here s

abbrev pub IsReadyChat : Chat → Type 0
IsReadyChat c = IsReady c.state c.form

-- Data that has what `d` has is ready where `d` is.
IsReady-more :
    (st : Option State) (d d' : Data)
    → (HasPanel d → HasPanel d')
    → (HasVolume d → HasVolume d')
    → (HasName d → HasName d')
    → IsReady st d
    → IsReady st d'
IsReady-more (some create_volume) d d' p v n h = p h
IsReady-more (some create_expiry) d d' p v n h = (p h.0, v h.1)
IsReady-more (some create_client_name) d d' p v n h = (p h.0, v h.1)
IsReady-more (some create_confirm) d d' p v n h = (p h.0, v h.1, n h.2)
IsReady-more none d d' p v n h = tt
IsReady-more (some _) d d' p v n h = tt

pub Move-IsReady : {user : ℕ} {c d : Chat} → Move user c d → IsReadyChat c → IsReadyChat d
Move-IsReady (spoken x) h = h
Move-IsReady (counted x) h = h
Move-IsReady (served s m) h = h
Move-IsReady ended h = tt
Move-IsReady (advanced st r) h = r
Move-IsReady {c} (panel_picked p name) h =
    IsReady-more c.state c.form (record c.form { panel_id = some p; template_name = name })
      (λ _. (p, refl)) (λ v. v) (λ n. n) h
Move-IsReady {c} (volume_given v low) h =
    IsReady-more c.state c.form (record c.form { volume_gb = some v }) (λ p. p)
      (λ _. (v, refl, low)) (λ n. n) h
Move-IsReady {c} (template_picked p v days name low) h =
    IsReady-more c.state c.form
      (record c.form {
        panel_id = some p;
        volume_gb = some (finite v);
        expiry_days = some days;
        template_name = some name;
      })
      (λ _. (p, refl)) (λ _. (finite v, refl, low)) (λ n. n) h
Move-IsReady {c} (days_given days) h =
    IsReady-more c.state c.form (record c.form { expiry_days = some days }) (λ p. p) (λ v. v)
      (λ n. n) h
Move-IsReady {c} (named suffix e) h = rw e (rw e at h)
Move-IsReady {c} (previewed email) h =
    IsReady-more c.state c.form (record c.form { email_preview = some email }) (λ p. p) (λ v. v)
      (λ n. n) h
Move-IsReady {c} (locked b) h =
    IsReady-more c.state c.form (record c.form { create_locked = b }) (λ p. p) (λ v. v) (λ n. n) h
Move-IsReady {c} (addressed email) h =
    IsReady-more c.state c.form (record c.form { email = some email }) (λ p. p) (λ v. v) (λ n. n) h
Move-IsReady {c} (searched q) h =
    IsReady-more c.state c.form (record c.form { service_search_query = q }) (λ p. p) (λ v. v)
      (λ n. n) h
Move-IsReady (traffic_asked email v st r) h = r _

pub Moves-IsReady : {user : ℕ} {c d : Chat} → Moves user c d → IsReadyChat c → IsReadyChat d
Moves-IsReady here h = h
Moves-IsReady (next m s) h = Move-IsReady s (Moves-IsReady m h)
