-- ===== src/Tests/Calls.antt =====
-- The broadcast and the resolution of a service, run on the sample database.
use resellerbot.Prelude.{◌≡◌, refl, true, false, [], ◌∷◌}
use resellerbot.Prelude.Int.{pos}
use resellerbot.Prelude.Text.{text_eq}
use resellerbot.Errors.{ok}
use resellerbot.Models.{Reseller}
use resellerbot.Registry.{Site, xui_for_record}
use resellerbot.Broadcast.{Sending, accepted, forbidden}
use resellerbot.ServiceResolve.{ServiceContext, IsOwned, resolve_service, resolve_service-IsOwned}
use resellerbot.Tests.Sample.{db, ali, panel, service}

abbrev site : Site
site = record { db = db; loaded = panel ∷ []; now_ms = pos 0 }

-- Inactive resellers have blocked the bot.
abbrev send : Reseller → Sending
send r = elim r.is_active [ true ↦ accepted | false ↦ forbidden ]

abbrev found : ServiceContext
found = record { reseller = ali; client = service; xui = panel }

resolved : (resolve_service 7 service.email site).0 ≡ ok found
unfolding resolve_service xui_for_record text_eq
resolved = refl

resolve_service-IsOwned_example : IsOwned 7 service.email found
resolve_service-IsOwned_example = resolve_service-IsOwned 7 service.email site found resolved
