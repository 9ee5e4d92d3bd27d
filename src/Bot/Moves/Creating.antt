-- ===== src/Bot/Moves/Creating.antt =====
-- The dialog that makes a service, up to its name: a state is entered when its data is there.
use resellerbot.Prelude.{ℕ, ◌≡◌, refl, Bool, true, false, none, some}
use resellerbot.Models.{Reseller, AnyFloat, finite}
use resellerbot.Volume.{is_any_too_low}
use resellerbot.Bot.Chat.{
  create_volume, create_expiry, create_client_name, Chat, Update, Host, Handler, ◌>>=◌, ◌>>◌, pure,
  gets, modify, say, update_data, set_state, when, if_true, run,
}
use resellerbot.Bot.Said.{Said, markup_removed}
use resellerbot.Bot.Create.{
  accessible_panel_ids, create_panel_options, continue_create_flow, prompt_pick_panel_or_continue,
  prompt_client_name, account_status, start_create, restart_create, create_manual, pick_panel,
  create_from_template, process_volume, process_expiry, cancel_create,
}
use resellerbot.Bot.Moves.{
  HasPanel, HasVolume, Moves, Moves-trans, once, spoken, advanced, panel_picked, volume_given,
  template_picked, days_given, look,
}
use resellerbot.Bot.Moves.Rules.{
  Keeps, keeps, >>=-at, >>=-Keeps, run-Keeps, finish-Keeps, clear-Keeps, say-Keeps,
}
use resellerbot.Bot.Moves.Calls.{db-accessible_panel_ids}
use resellerbot.Bot.Moves.Points.{or_stop-at, stop_if-at, gets-at, if_none-at, user_of-at}

module _ {user : ℕ} where
  accessible-Keeps : (r : Reseller) → Keeps user (run (accessible_panel_ids r))
  accessible-Keeps r = run-Keeps _ λ s. look (db-accessible_panel_ids r s)

  -- The volume is asked for once the panel is stored.
  volume_asked-Keeps :
      {A : Type 0} (p : ℕ) (k : Unit → Handler A)
      → ((a : Unit) → Keeps user (k a))
      → Keeps user (
          set_state (some create_volume) >>= λ _.
          (update_data (λ d. record d { panel_id = some p; template_name = none }) >>= k))
  unfolding ◌>>=◌ update_data set_state modify
  volume_asked-Keeps p k h = record {
    moves = λ c.
        let picked : Chat = record c {
          form = record c.form { panel_id = some p; template_name = none };
        } in
        Moves-trans (once (panel_picked p none)) (
          Moves-trans (once (advanced (some create_volume) (p, refl)))
            ((h tt).moves (record picked { state = some create_volume })));
  }

  module _ (host : Host) where
    continue_create_flow-Keeps : (p : ℕ) (b : Bool) → Keeps user (continue_create_flow host p b)
    unfolding continue_create_flow ◌>>=◌ update_data set_state modify gets say if_true
    continue_create_flow-Keeps p true = record {
      moves = λ c. Moves-trans (once (panel_picked p c.form.template_name)) (once (spoken _));
    }
    continue_create_flow-Keeps p false = record {
      moves = λ c.
          Moves-trans (once (panel_picked p c.form.template_name))
            (Moves-trans (once (advanced (some create_volume) (p, refl))) (once (spoken _)));
    }

    create_panel_options-Keeps : (r : Reseller) → Keeps user (create_panel_options host r)
    unfolding create_panel_options
    create_panel_options-Keeps r = search (accessible-Keeps, keeps) depth 12

    prompt_pick_panel-Keeps : (r : Reseller) → Keeps user (prompt_pick_panel_or_continue host r)
    unfolding prompt_pick_panel_or_continue
    prompt_pick_panel-Keeps r =
        search (create_panel_options-Keeps, continue_create_flow-Keeps, keeps) depth 14

    module _ (u : Update) where
      pub account_status-Keeps : Keeps user (account_status host u)
      unfolding account_status
      account_status-Keeps = search keeps depth 12

      pub start_create-Keeps : Keeps user (start_create host u)
      unfolding start_create
      start_create-Keeps = search (prompt_pick_panel-Keeps, keeps) depth 14

      restart_create-Keeps : (r : Reseller) → Keeps user (restart_create host u r)
      unfolding restart_create
      restart_create-Keeps r = search (prompt_pick_panel-Keeps, keeps) depth 14

      pub create_manual-Keeps : Keeps user (create_manual host u)
      unfolding create_manual
      create_manual-Keeps = search (restart_create-Keeps, volume_asked-Keeps, keeps) depth 14

      pub pick_panel-Keeps : Keeps user (pick_panel host u)
      unfolding pick_panel
      pick_panel-Keeps = search (accessible-Keeps, continue_create_flow-Keeps, keeps) depth 16

      pub cancel_create-Keeps : Keeps user (cancel_create host u)
      unfolding cancel_create
      cancel_create-Keeps = search keeps depth 12

    pub prompt_client_name-at :
        (r : Reseller) (c : Chat)
        → HasPanel c.form × HasVolume c.form
        → Moves user c (prompt_client_name host r c).1
    unfolding prompt_client_name ◌>>=◌ set_state modify say
    prompt_client_name-at r c h =
        Moves-trans (once (advanced (some create_client_name) h)) (once (spoken _))

    -- The rest of `create_from_template`, from data that has a panel and a volume.
    name_asked-at :
        (u : Update) (r : Reseller) (x : Said) (c : Chat)
        → HasPanel c.form × HasVolume c.form
        → Moves user c
            ((when u.has_message (prompt_client_name host r >> say markup_removed) >>= λ _. say x)
              c).1
    unfolding when pure
    name_asked-at u r x c h = >>=-at _ _ c (by_message u.has_message) (λ a e. (say-Keeps x).moves _)
      where
        by_message :
            (b : Bool) → Moves user c (when b (prompt_client_name host r >> say markup_removed) c).1
        by_message false = Moves.here
        by_message true =
            >>=-at _ _ c (prompt_client_name-at r c h) (λ a e. (say-Keeps markup_removed).moves _)

    pub create_from_template-Keeps : (u : Update) → Keeps user (create_from_template host u)
    unfolding create_from_template update_data modify
    create_from_template-Keeps u = record {
      moves = λ c. user_of-at c u _ λ n. gets-at c _ _ (
          or_stop-at c _ _ _ λ r _. gets-at c _ _ (
            or_stop-at c _ _ _ λ t _. gets-at c _ _ (
              or_stop-at c _ _ _ λ tpl _. stop_if-at c _ _ _ λ low.
                if_none-at c _ _ _ ((restart_create-Keeps u r).moves c) λ p _.
                  >>=-at _ _ c (once (template_picked p tpl.volume_gb tpl.expiry_days tpl.name low))
                    (λ a e.
                      name_asked-at u r _ _ ((p, refl), (finite tpl.volume_gb, refl, low))))));
    }

    volume_stored-at :
        (v : AnyFloat) (x : Said) (c : Chat)
        → HasPanel c.form
        → is_any_too_low v ≡ false
        → Moves user c
            ((update_data (λ d. record d { volume_gb = some v }) >>= λ _.
                (set_state (some create_expiry) >>= λ _. say x))
              c).1
    unfolding update_data set_state modify ◌>>=◌ say
    volume_stored-at v x c h low =
        Moves-trans (once (volume_given v low))
          (Moves-trans (once (advanced (some create_expiry) (h, (v, refl, low)))) (once (spoken x)))

    -- In the state of its filter, with the data that the state relies on.
    pub process_volume-at :
        (u : Update) (c : Chat) → HasPanel c.form → Moves user c (process_volume host u c).1
    unfolding process_volume
    process_volume-at u c h =
        or_stop-at c _ _ _
          λ v _. stop_if-at c _ _ _ λ _. stop_if-at c _ _ _ λ low. volume_stored-at v _ c h low

    pub process_expiry-at :
        (u : Update) (c : Chat)
        → HasPanel c.form × HasVolume c.form
        → Moves user c (process_expiry host u c).1
    unfolding process_expiry update_data modify
    process_expiry-at u c h = or_stop-at c _ _ _ λ days _. stop_if-at c _ _ _ λ _.
        user_of-at c u _ λ n. gets-at c _ _ (
          if_none-at c _ _ _ ((>>=-Keeps _ _ clear-Keeps (λ _. finish-Keeps _)).moves c)
            λ r _. >>=-at _ _ c (once (days_given days)) (λ a e. prompt_client_name-at r _ h))
