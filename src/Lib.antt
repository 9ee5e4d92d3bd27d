-- ===== src/Lib.antt =====
-- Reseller Bot: a Telegram bot that sells services of 3x-ui panels. An admin gives each reseller a
-- quota of traffic and panels to use; a reseller makes services (clients of a panel) out of that
-- quota; a guest buys one by sending a receipt that an admin approves.
--
-- The parts, and the files that model them:
-- - db/models.py: Models, the rows as records and the database as lists of rows.
-- - db/repository.py: Inbounds (the checks of inbound lists) and Repository, with a module for each
--   repository class: Resellers and Usage (ResellerRepository), Assignments
--   (ResellerPanelRepository), Clients (ClientRepository), Alerts (UsageAlertRepository), Panels,
--   Templates, Plans, Orders and GuestConfig.
-- - services/quota.py, services/client_volume.py and gb_to_bytes of xui/client.py: Quota and Volume.
-- - services/reseller_labels.py: Labels.
-- - services/reseller_service.py: Service, over the interface Panel.XuiClient, which lists what the
--   services use of xui/client.py. Its proofs are in Service/Creation, Deletion and Resizing, about
--   the accounts that Service/Accounts defines.
-- - services/reseller_edit.py: ResellerEdit. services/reseller_panel_edit.py and
--   services/set_panel.py: PanelEdit and SetPanel.
-- - services/panel_registry.py and services/panel_resolve.py: Registry.
-- - services/usage_alerts.py: UsageAlerts.
-- - services/guest_sales.py and the decisions of bot/handlers/admin_guest_orders.py: GuestSales.
-- - bot/middlewares/auth.py: RateLimit. bot/utils/service_resolve.py: ServiceResolve.
-- - services/broadcast.py: Broadcast.
-- - xui/client.py: Xui.Session (signing in, the retries of a request), Xui.Calls and Xui.Delivery
--   (the methods of XuiClient), Xui.Payload, Xui.Links and Xui.Client (what they make of the
--   answers). Xui.Flow is xui/inbound_flow.py and Xui.Fragment xui/link_fragment.py. Xui.Interface
--   makes the client that Service uses, a Panel.XuiClient, out of these and of the counters of
--   bot/utils/format_traffic.py.
-- - bot/utils/panel_url.py: PanelUrl. services/panel_edit.py: PanelSettings.
-- - services/updater.py: Updater, with Versions, Archive (the paths of a release) and Pending (the
--   upload that waits for the next start; installing it is a parameter).
--   services/github_release.py: Updater.Release.
-- - bot/handlers/reseller.py with bot/states.py: Bot. Bot.Chat is the FSM context and the handlers'
--   control flow, Bot.Said what the bot says, Bot.Create and Bot.Confirm make a service, Bot.Browse
--   lists, searches and shows services (Bot.Browse.Pages: service_list_kb of bot/keyboards/common.py),
--   Bot.Services, Bot.Expiry, Bot.Traffic and Bot.Edit change one, and Bot.Routing is the router.
--   Bot.Moves is the abstract conversation, and its child modules are the handlers' proofs.
-- - Json and Url: the values of a JSON answer, and what the source uses of urllib.parse (urlsplit,
--   urlunsplit, quote, unquote, with the UTF-8 decoder that unquote needs).
-- - History: any sequence of the calls of services/reseller_service.py that make, delete, resize or extend
--   a service and of the quota edits of services/reseller_edit.py, by anyone and on any panel.
-- Prelude and Errors hold what they share; Tests runs the definitions on small inputs.
--
-- How the code is modelled:
-- - A method is a function of the same name. One that writes or raises is a coroutine
--   `Exec S A = S -> Result A x S` of Errors: the state comes back beside an exception too, since what
--   was committed before a raise stays. The methods commit each write at once, so a database is what
--   is committed.
-- - A method that the source leaves by `return None` for a missing row returns an Option. An exception
--   is a constructor of Error; messages are left out, the reason is kept.
-- - `int` is an integer of Prelude.Int; ids and times of rows are natural numbers. A volume in GB is a
--   finite float, which is a mantissa over a power of two; `gb_to_bytes` is exact on it, short of the
--   largest floats. What `float` makes of a reseller's text may also be nan or an infinity
--   (Models.AnyFloat), which the methods of Service.AnyVolume refuse where `int` raises; the volumes
--   that an admin types are finite. The percentage of an alert is rounded from the exact quotient, which is the
--   float's while byte counts are below 2 ^ 44.
-- - A JSON column is the list it encodes. An ORDER BY that leaves a tie, and a query without one,
--   show rows in order of insertion. A new key is one more than the largest, as SQLite's is.
-- - The row object that a method of ResellerService gets is the session's, so that it shows what was
--   written since (Service.tracked). The theorems on the services suppose that it is the database's
--   row, as the handlers make it.
-- - A panel is any XuiClient: the theorems hold whatever it answers or raises, and whatever it
--   remembers. Registry.Network gives each panel row its client.
-- - Deleting a reseller row that others refer to is SQLAlchemy's session.delete, an argument of
--   Repository.Resellers.delete.
-- - Time is an argument or a field of the state, never read by a definition.
-- - The connection of an XuiClient (httpx) is a parameter: it answers a request, or fails, in a state
--   of the panel that the request may change. So are the decoder of JSON texts, the random ids and
--   the network of a connection test. A request is one call of `client.request`, whatever redirects it
--   follows. The pauses between two attempts are left out.
-- - A JSON number is an integer, and a dictionary a list of fields in the order of the text. `repr` of
--   a text is taken as the text in single quotes. Of urlsplit, the tests on a host in brackets and on
--   characters that Unicode normalisation changes are left out.
--
-- - A handler is a function of the chat (the FSM state and data, the database, the registry, what was
--   said); it may return early or raise, and what it wrote until then stays. One update is handled at
--   a time: that two updates of a user may overlap at an `await` is left out, and so are the errors of
--   the Telegram API. `float` of a text, the difference and rounding of floats, strptime with the local
--   time zone and secrets.token_hex are parameters (Bot.Chat.Host), and so are the menu's labels.
--
-- Every function is total: the loops are recursions on the list they run over or on the attempts that
-- are left, and no fuel is used but for the digits of a number (Labels.decimal), where n + 1 steps are
-- enough for n.
--
-- What is not modelled: the conversations of the admin and of guests (the other files of
-- bot/handlers), which call the services in the same way; the keyboards, but for the list of services,
-- and the wording of messages; backups, the installation of an update and the schema migrations, which
-- are files, processes and network; start-up and configuration.
pub mod Prelude
pub mod Errors
pub mod Models
pub mod Inbounds
pub mod Repository
pub mod Volume
pub mod Quota
pub mod Labels
pub mod Json
pub mod Url
pub mod Panel
pub mod Service
pub mod ResellerEdit
pub mod History
pub mod Registry
pub mod UsageAlerts
pub mod PanelUrl
pub mod PanelSettings
pub mod Updater
pub mod Xui
pub mod GuestSales
pub mod RateLimit
pub mod PanelEdit
pub mod SetPanel
pub mod Bot
pub mod Broadcast
pub mod ServiceResolve
mod Tests
