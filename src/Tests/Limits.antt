-- ===== src/Tests/Limits.antt =====
-- The rate limit, and the default panel of a reseller, run on small inputs.
use resellerbot.Prelude.{
  ℕ, ◌≡◌, ◌≤◌, ◌<◌, length, order_by, refl, false, true, none, some, List, [], ◌∷◌, arith,
  count_where,
}
use resellerbot.Errors.{ok, err, panel_unavailable, not_assigned}
use resellerbot.Models.{Db}
use resellerbot.Registry.{Site, xui_for_reseller}
use resellerbot.RateLimit.{check}
use resellerbot.RateLimit.Window.{Run, start, call, in_window, logged, accepted_within_limit}
use resellerbot.Repository.Usage.{client_count_on_panel}
use resellerbot.Repository.Assignments
use resellerbot.Repository.Resellers
use resellerbot.PanelEdit.{apply_remove_panel_assignment, apply_set_default_panel, edited}
use resellerbot.PanelEdit.Removal.{remove_default_locks_out}
use resellerbot.SetPanel.{apply_reseller_panel, SetPanelResult}
use resellerbot.SetPanel.Default.{moved, apply_reseller_panel-IsAssigned}
use resellerbot.Tests.Sample.{db, panel, sara}
use resellerbot.Models.{ResellerPanel}
use resellerbot.Prelude.Int.{pos}

-- Two calls of user 5 within a minute, of which the limit 1 lets one pass; one of user 6 between,
-- with the limit 2.
abbrev log : List ℕ
log =
    logged 2 60 5 1 5 20 (check 2 60 6 15 (check 1 60 5 10 (λ _. [])).1).1
      (logged 2 60 5 2 6 15 (check 1 60 5 10 (λ _. [])).1 (logged 2 60 5 1 5 10 (λ _. []) []))

run : Run 2 60 5 (check 1 60 5 20 (check 2 60 6 15 (check 1 60 5 10 (λ _. [])).1).1).1 20 log
run =
    call 1 5 20 (omega arith)
      (call 2 6 15 (omega arith) (call 1 5 10 (omega arith) start (omega arith)) (omega arith))
      (omega arith)

one_passed : log ≡ 10 ∷ []
unfolding check
one_passed = refl

accepted_within_limit_example : count_where (in_window 2 60 5 25) log ≤ 2
accepted_within_limit_example = accepted_within_limit 2 60 5 (omega arith) run 25

abbrev sara_on : ℕ → ResellerPanel
sara_on panel_id = record {
  reseller_tg_id = 8;
  panel_id = panel_id;
  quota_bytes = pos 0;
  lifetime_allocated_bytes = pos 0;
  allowed_inbound_ids = 3 ∷ [];
  attach_inbound_ids = none;
  max_clients = some (pos 4);
  is_active = true;
}

abbrev two_panels : Db
two_panels = record db {
  panels = panel ∷ record panel { id = 2 } ∷ [];
  assignments = sara_on 1 ∷ sara_on 2 ∷ [];
}

abbrev site : Site
site = record { db = two_panels; loaded = []; now_ms = pos 0 }

unused : client_count_on_panel 8 1 two_panels ≡ 0
unfolding client_count_on_panel
unused = refl

several : 1 < length (Assignments.list_for_reseller 8 false two_panels)
unfolding Assignments.list_for_reseller order_by
several = omega arith

remove_default_locks_out_example :
    ((apply_remove_panel_assignment 8 1 two_panels).0 ≡ ok (edited (sara_on 1) panel))
    × (Resellers.get 8 (apply_remove_panel_assignment 8 1 two_panels).1 ≡ some sara)
    × ((xui_for_reseller sara
          (record site { db = (apply_remove_panel_assignment 8 1 two_panels).1 })).0
        ≡ err (panel_unavailable 1 not_assigned))
remove_default_locks_out_example =
    remove_default_locks_out sara (sara_on 1) panel site refl refl refl unused several

abbrev changed : SetPanelResult
changed = record {
  reseller = moved sara 2 (sara_on 2);
  panel = record panel { id = 2 };
  unchanged = false;
}

change : (apply_reseller_panel 8 2 two_panels).0 ≡ ok changed
unfolding apply_reseller_panel apply_set_default_panel
change = refl

apply_reseller_panel-IsAssigned_example :
    (a : ResellerPanel) × (Assignments.get 8 2 two_panels ≡ some a)
    × (Resellers.get 8 (apply_reseller_panel 8 2 two_panels).1 ≡ some (moved sara 2 a))
apply_reseller_panel-IsAssigned_example =
    apply_reseller_panel-IsAssigned sara 2 two_panels changed refl change refl
