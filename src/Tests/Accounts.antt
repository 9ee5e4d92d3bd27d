-- ===== src/Tests/Accounts.antt =====
-- The theorems on the accounts at the sample database.
use resellerbot.Prelude.{ℕ, ◌≡◌, refl, none, some, arith, find}
use resellerbot.Prelude.Int.{pos, ◌≤ℤ◌, ◌+ℤ◌, ◌-ℤ◌}
use resellerbot.Prelude.Text.{codes, text_eq}
use resellerbot.Models.{Db, Reseller}
use resellerbot.Repository.Resellers
use resellerbot.Repository.Usage.{active_bytes, client_count_on_panel}
use resellerbot.Service.{
  create_service, delete_service, add_service_traffic, remove_service_traffic,
}
use resellerbot.Service.Accounts.{IsAccounted}
use resellerbot.Service.Creation.{create_service-IsAccounted}
use resellerbot.Service.Deletion.{delete_service-IsAccounted}
use resellerbot.Service.Resizing.{
  add_service_traffic-IsAccounted, remove_service_traffic-IsAccounted,
}
use resellerbot.History.{Reach, world, here, next, create, quota_never_exceeded}
use resellerbot.Repository.Clients.Active.{active}
use resellerbot.Volume.{gb_to_bytes, whole_gb, is_volume_too_low}
use resellerbot.Quota.{validate_create, check_inbounds, is_full}
use resellerbot.Inbounds.{resolve_attach_inbound_ids_for_assignment}
use resellerbot.Labels.{build_client_email, decimal}
use resellerbot.Repository.Clients
use resellerbot.ResellerEdit.{apply_quota}
use resellerbot.ResellerEdit.Quotas.{IsQuotaSet, apply_quota-IsQuotaSet}
use resellerbot.Service.{check_create, store_service}
use resellerbot.PanelEdit.{apply_panel_quota}
use resellerbot.PanelEdit.Pool.{apply_panel_quota_unchecked}
use resellerbot.Tests.Sample.{ali_on_panel, panel, db, ali, xui, start, service}

held_at :
    (t : ℕ) (r : Reseller)
    → find (Resellers.is_reseller t) db.resellers ≡ some r
    → active t db.clients ≤ℤ r.lifetime_allocated_bytes
unfolding ◌+ℤ◌
held_at t r h = ground arith

charged_at :
    (t : ℕ) (r : Reseller)
    → find (Resellers.is_reseller t) db.resellers ≡ some r
    → r.lifetime_allocated_bytes ≤ℤ r.quota_bytes
charged_at t r h = ground arith

pub accounts : IsAccounted db.clients db.resellers
accounts = record {
  unique = (tt, tt);
  sizes = (omega arith, tt);
  held = held_at;
  charged = charged_at;
}

create_service-IsAccounted_example :
    let db' = (create_service xui ali (whole_gb 25) (pos 30) none (codes "new") 1 start).1.db in
    IsAccounted db'.clients db'.resellers
create_service-IsAccounted_example =
    create_service-IsAccounted xui ali (whole_gb 25) (pos 30) none (codes "new") 1 start accounts
      refl

delete_service-IsAccounted_example :
    let db' = (delete_service xui (whole_gb 1) ali service.email start).1.db in
    IsAccounted db'.clients db'.resellers
delete_service-IsAccounted_example =
    delete_service-IsAccounted xui (whole_gb 1) ali service.email start accounts refl

add_service_traffic-IsAccounted_example :
    let db' = (add_service_traffic xui ali service.email (whole_gb 10) start).1.db in
    IsAccounted db'.clients db'.resellers
add_service_traffic-IsAccounted_example =
    add_service_traffic-IsAccounted xui ali service.email (whole_gb 10) start accounts refl

remove_service_traffic-IsAccounted_example :
    let db' = (remove_service_traffic xui ali service.email (whole_gb 10) start).1.db in
    IsAccounted db'.clients db'.resellers
remove_service_traffic-IsAccounted_example =
    remove_service_traffic-IsAccounted xui ali service.email (whole_gb 10) start accounts refl

-- The reseller makes a service of 25 GB.
abbrev served : Db
served =
    (create_service xui ali (whole_gb 25) (pos 0) none (codes "new") 1
      (world xui db 0 (pos 5))).1.db

served-Reach : Reach db served
served-Reach =
    next here (create xui 0 (pos 5) ali (whole_gb 25) (pos 0) none (codes "new") 1 refl refl)

abbrev charged_more : Reseller
charged_more = record ali { lifetime_allocated_bytes = pos 69793218560 }

served_row : Resellers.get 7 served ≡ some charged_more
unfolding create_service check_create store_service validate_create check_inbounds
    resolve_attach_inbound_ids_for_assignment is_volume_too_low gb_to_bytes is_full
    client_count_on_panel ◌-ℤ◌ ◌+ℤ◌ build_client_email decimal Clients.email_exists text_eq
    Clients.add Resellers.add_lifetime_allocated Resellers.sync_primary_panel_assignment
served_row = refl

quota_never_exceeded_example :
    (active_bytes 7 served ≤ℤ charged_more.lifetime_allocated_bytes)
    × (charged_more.lifetime_allocated_bytes ≤ℤ charged_more.quota_bytes)
quota_never_exceeded_example =
    quota_never_exceeded db served accounts served-Reach 7 charged_more served_row

apply_quota-IsQuotaSet_example : IsQuotaSet 7 (whole_gb 60) db (apply_quota 7 (whole_gb 60) db)
apply_quota-IsQuotaSet_example = apply_quota-IsQuotaSet 7 (whole_gb 60) db

apply_panel_quota_unchecked_example :
    Resellers.get 7 (apply_panel_quota 7 1 (whole_gb 1) db).1
    ≡ some (record ali { quota_bytes = gb_to_bytes (whole_gb 1) })
unfolding gb_to_bytes
apply_panel_quota_unchecked_example =
    apply_panel_quota_unchecked ali ali_on_panel panel (whole_gb 1) db refl refl refl
