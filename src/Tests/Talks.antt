-- ===== src/Tests/Talks.antt =====
-- Conversations with the bot.
use resellerbot.Prelude.{ℕ, ◌≡◌, refl, true, Option, none, some, if◌then◌else◌, List, [], ◌∷◌}
use resellerbot.Prelude.Int.{pos, negsuc, ◌≤ℤ◌}
use resellerbot.Prelude.Text.{Text, codes, strip, text_eq}
use resellerbot.Models.{Float, AnyFloat, finite, nan}
use resellerbot.Volume.{whole_gb, is_non_positive, is_volume_too_low}
use resellerbot.Json.{int_of_text}
use resellerbot.Repository.Resellers
use resellerbot.Repository.Usage.{active_bytes}
use resellerbot.Bot.Chat.{
  create_volume, create_expiry, create_confirm, no_data, Chat, Update, Host, ◌>>=◌, or_stop, pure,
  stop_if, update_data, modify, set_state, say, stop,
}
use resellerbot.Bot.Said.{answered, expiry_prompt, invalid_input}
use resellerbot.Bot.Create.{process_volume}
use resellerbot.Bot.Confirm.{confirm_create}
use resellerbot.Bot.Browse.Pages.Cover.{pages_from, pages_cover}
use resellerbot.Bot.Moves.{IsReadyChat, Moves}
use resellerbot.Bot.Routing.{Labels, Event, message, callback, dispatch, message_routes, in_state}
use resellerbot.Bot.Routing.Steps.{dispatch-Moves}
use resellerbot.Bot.Routing.Runs.{Run, Run-IsReady, conversation_within_quota}
use resellerbot.Bot.Routing.Confirmed.{confirm_create_unwritten}
use resellerbot.Tests.Sample.{db, panel, xui, ali}
use resellerbot.Tests.Accounts.{accounts}

abbrev whole : Text → Option AnyFloat
whole s = elim (int_of_text s) [
  | none ↦ (if text_eq s (codes "nan") then some nan else none)
  | some (pos n) ↦ some (finite (whole_gb n))
  | some (negsuc _) ↦ none
]

-- Volumes are whole numbers or nan, and no text is a date.
abbrev host : Host
host = record {
  net = record { connect = λ _. xui; remembered = λ _. 0 };
  to_float = whole;
  minus = λ a b. a;
  bytes_to_gb = λ n. record { mantissa = n; scale = 30 };
  end_of_day_ms = λ _. none;
  token_hex = codes "0a1b2c3d";
  window = 60;
  create_rate_limit = 5;
  quota_refund_max_traffic_gb = whole_gb 1;
  injected = none;
}

abbrev labels : Labels
labels = record {
  account_status = codes "status";
  create_service = codes "create";
  my_services = codes "services";
}

abbrev opened : Chat
opened = record {
  site = record { db = db; loaded = panel ∷ []; now_ms = pos 0 };
  hits = λ _. [];
  time = 100;
  state = none;
  form = no_data;
  said = [];
}

abbrev update : Text → Update
update s = record { from_user = some 7; has_message = true; payload = s }

abbrev says : Text → Event
says s = message (update s)

abbrev presses : Text → Event
presses s = callback (update s)

abbrev talk : List Event → Chat → Chat
talk [] c = c
talk (e ∷ es) c = talk es (dispatch host labels e c)

-- A whole creation, up to the confirmation.
abbrev creation : List Event
creation = says (codes "create") ∷ says (codes "25") ∷ says (codes "30") ∷ says (codes "shop") ∷ []

dispatch-Moves_example : Moves 7 opened (dispatch host labels (says (codes "create")) opened)
dispatch-Moves_example = dispatch-Moves 7 host labels (says (codes "create")) opened refl tt

ran : Run host labels 7 opened (talk creation opened)
ran = Run.event (says (codes "shop")) refl (
    Run.event (says (codes "30")) refl
      (Run.event (says (codes "25")) refl (Run.event (says (codes "create")) refl Run.start)))

Run-IsReady_example : IsReadyChat (talk creation opened)
Run-IsReady_example = Run-IsReady host labels 7 opened tt (talk creation opened) ran

abbrev confirming : Chat
confirming = record opened {
  state = some create_confirm;
  form = record no_data {
    panel_id = some 1;
    volume_gb = some (finite (whole_gb 25));
    expiry_days = some (pos 30);
    client_suffix = some (codes "shop");
    email_preview = some (codes "ali-client-shop");
  };
}

-- The volume that is stored is nan.
abbrev confirming_nan : Chat
confirming_nan = record confirming { form = record confirming.form { volume_gb = some nan } }

no_finite : ¬ ((f : Float) × (confirming_nan.form.volume_gb ≡ some (finite f)))
no_finite (f, e) = cc

confirm_create_unwritten_example :
    (confirm_create host (update (codes "create:confirm")) confirming_nan).1.site.db ≡ db
confirm_create_unwritten_example =
    confirm_create_unwritten host (update (codes "create:confirm")) confirming_nan no_finite

abbrev ten : List ℕ
ten = 1 ∷ 2 ∷ 3 ∷ 4 ∷ 5 ∷ 6 ∷ 7 ∷ 8 ∷ 9 ∷ 10 ∷ []

pages_cover_example : pages_from 0 2 ten ≡ ten
pages_cover_example = pages_cover ten

abbrev asking_volume : Chat
asking_volume = record opened {
  state = some create_volume;
  form = record no_data { panel_id = some 1 };
}

-- 25 GB is accepted, and the days are asked for.
accepted_volume :
    (process_volume host (update (codes "25")) asking_volume).1 ≡ record asking_volume {
      state = some create_expiry;
      form = record no_data { panel_id = some 1; volume_gb = some (finite (whole_gb 25)) };
      said = answered expiry_prompt ∷ [];
    }
unfolding process_volume ◌>>=◌ or_stop int_of_text strip pure stop_if is_non_positive
    is_volume_too_low update_data modify set_state say
accepted_volume = refl

given_volume :
    Run host labels 7 asking_volume (dispatch host labels (says (codes "25")) asking_volume)
given_volume = Run.event (says (codes "25")) refl Run.start

ali_after :
    Resellers.get 7 (dispatch host labels (says (codes "25")) asking_volume).site.db ≡ some ali
unfolding dispatch message_routes in_state text_eq process_volume ◌>>=◌ or_stop int_of_text strip
    pure stop_if is_non_positive is_volume_too_low update_data modify set_state say
ali_after = refl

conversation_within_quota_example :
    (active_bytes 7 (dispatch host labels (says (codes "25")) asking_volume).site.db
      ≤ℤ ali.lifetime_allocated_bytes)
    × (ali.lifetime_allocated_bytes ≤ℤ ali.quota_bytes)
conversation_within_quota_example =
    conversation_within_quota host labels 7 asking_volume (1, refl) accounts
      (dispatch host labels (says (codes "25")) asking_volume) given_volume 7 ali ali_after

-- The text nan is accepted.
accepted_nan :
    (process_volume host (update (codes "nan")) asking_volume).1.form.volume_gb ≡ some nan
unfolding process_volume ◌>>=◌ or_stop int_of_text strip pure stop_if is_non_positive
    is_volume_too_low update_data modify set_state say text_eq
accepted_nan = refl

-- The menu's button is taken for a volume.
menu_taken_for_volume :
    (dispatch host labels (says (codes "services")) asking_volume).said
    ≡ answered invalid_input ∷ []
unfolding dispatch message_routes in_state text_eq process_volume ◌>>=◌ or_stop int_of_text strip
    say modify stop
menu_taken_for_volume = refl
