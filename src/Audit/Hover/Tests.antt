-- ===== src/Audit/Hover/Tests.antt =====
-- Cards of an actor whom the page knows nothing about, and of a resource that is out of reach.
use ha_cluster.Base.{Option, String, [], false, none, refl, some, true, ◌∷◌, ◌≡◌}
use ha_cluster.Audit.Hover.{actor_hover_card, target_hover_card}

abbrev untold : String → Option String
untold t = none

unknown_actor :
    (actor_hover_card untold "u-1" none (some "ann") [] none []).rows
    ≡ ("最近登录", "近期日志中未见登录") ∷ ("最近操作", "暂无") ∷ ("名下服务器", "近期未操作服务器") ∷ []
unfolding actor_hover_card
unknown_actor = refl

out_of_reach : (target_hover_card untold "workspace" "w-1" "box" false [] none none).denied ≡ true
unfolding target_hover_card
out_of_reach = refl
