-- ===== src/Poller/Tests.antt =====
-- The poller over two lists.
use kube_headroom.Prelude.{
  ◌≡◌, refl, true, false, ◌⊎◌, none, some, List, [], ◌∷◌, String, if◌then◌else◌, arith,
}
use kube_headroom.Prelude.Text.{contains, str_eq}
use kube_headroom.Kube.{GoMap}
use kube_headroom.Eligibility.Vpa.{Vpa}
use kube_headroom.Poller.{
  Poller, new_poller, refresh, listed, absent, for_namespace, changed, gone, notify,
}
use kube_headroom.Poller.Lister.{Item, Page, Answer, page, list, listing}
use kube_headroom.Poller.Lister.Pages.{last, more, items_of, Viewed, refresh-Pages}
use kube_headroom.Poller.Changes.{refresh-for_namespace}

abbrev vpa : Vpa
vpa = record {
  name = "web";
  target_kind = "Deployment";
  target_name = "web";
  update_mode = "Recreate";
  policies = [];
}

abbrev shop_vpas : GoMap (List Vpa)
shop_vpas = ("shop", vpa ∷ []) ∷ []

abbrev first_poll : Poller
first_poll = record { by_ns = shop_vpas; synced = true; state = "served" }

-- The same list again tells of nothing, and an absent API of what was there.
told_of :
    ((refresh (listed shop_vpas) first_poll).1 ≡ []) × ((refresh absent first_poll).1 ≡ "shop" ∷ [])
unfolding refresh notify changed gone
told_of = (refl, refl)

refresh-for_namespace_example :
    (for_namespace (refresh (listed shop_vpas) new_poller).0 "shop"
      ≡ for_namespace new_poller "shop")
    ⊎ (contains "shop" (refresh (listed shop_vpas) new_poller).1 ≡ true)
refresh-for_namespace_example = refresh-for_namespace (listed shop_vpas) new_poller "shop"

-- Two pages of one item each.
abbrev item : String → Item
item ns = record {
  namespace = ns;
  name = "web";
  spec = some (record {
    target_kind = "Deployment";
    target_name = "web";
    update_mode = "Recreate";
    container_policies = [];
  });
}

abbrev first_page : Page
first_page = record { items = item "shop" ∷ []; continue_token = "next" }

abbrev last_page : Page
last_page = record { items = item "blog" ∷ item "shop" ∷ []; continue_token = "" }

abbrev server : String → Answer
server token = page (if str_eq token "" then first_page else last_page)

refresh-Pages_example :
    Viewed none
      (items_of (first_page ∷ last_page ∷ []))
      first_poll
      (refresh (listing false (list server 3)) first_poll).0
      "shop"
refresh-Pages_example =
    refresh-Pages server (first_page ∷ last_page ∷ []) none 3 first_poll "shop"
      (more refl refl (last refl refl)) (omega arith)
