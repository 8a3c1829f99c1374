-- ===== src/Nav/Agent/Tests.antt =====
-- The prompt of a reply is copied, or not.
use ha_cluster.Base.{String, Value, [], false, refl, str, to_text, true, ◌∷◌, ◌≡◌}
use ha_cluster.Session.Handler.{one_field}
use ha_cluster.Workspace.Sample.{js}
use ha_cluster.Nav.Agent.{Agent, copy_prompt}

abbrev same : String → String
same s = s

abbrev agent : Agent
agent = record { clipboard = "old" ∷ []; toasts = []; rotate_open = false }

abbrev meta : Value
meta = one_field "prompt" (str "install")

copied_prompt : (copy_prompt js same true true meta agent).clipboard ≡ "install" ∷ "old" ∷ []
unfolding copy_prompt to_text
copied_prompt = refl

uncopied_prompt : (copy_prompt js same false true meta agent).clipboard ≡ "old" ∷ []
unfolding copy_prompt to_text
uncopied_prompt = refl
