-- ===== src/Directory/Actions.antt =====
-- Which dialog on a user is open: `UserRowActions` and `UserActionDialogs` of
-- web/src/pages/users/actions.tsx and their use in web/src/pages/Users.tsx.
use ha_cluster.Base.{
  Bool, List, Option, String, false, find, if◌then◌else◌, is_some, none, some, true, ◌==◌, ◌∷◌,
}
use ha_cluster.Session.Handler.{Toast, failure}
use ha_cluster.Directory.UserDialogs.{PlatformUser}

pub data ActionKind : Type 0 where
  configure reset delete add suspend : ActionKind

pub record Dialogs : Type 0 where
  pub action_user : Option PlatformUser
  pub action : Option ActionKind

-- A button of a row, which rests for the signed-in user's own account.
unfoldable pub on_action : (is_self : Bool) → ActionKind → PlatformUser → Dialogs → Dialogs
on_action is_self kind target s =
    if is_self then s else record { action_user = some target; action = some kind }

abbrev by_id : List PlatformUser → PlatformUser → PlatformUser
by_id users u = elim (find (λ x. x.id == u.id) users) [ none ↦ u | some fresh ↦ fresh ]

-- The `user` of the dialogs: the listed one of the same identifier, or the one that was clicked.
unfoldable pub dialogs_user : List PlatformUser → Dialogs → Option PlatformUser
dialogs_user users s = elim s.action_user [ none ↦ none | some u ↦ some (by_id users u) ]

-- `onActionChange`: `next_user` is absent where the call leaves it out.
unfoldable pub on_action_change :
    Option ActionKind → (next_user : Option (Option PlatformUser)) → Dialogs → Dialogs
on_action_change next next_user s =
    let kept : Option PlatformUser = elim next_user [ none ↦ s.action_user | some u ↦ u ] in
    record { action = next; action_user = if is_some next then kept else none }

abbrev pub is_kind : ActionKind → Option ActionKind → Bool
is_kind configure (some configure) = true
is_kind reset (some reset) = true
is_kind delete (some delete) = true
is_kind add (some add) = true
is_kind suspend (some suspend) = true
is_kind _ _ = false

-- The `user` of one dialog; a dialog without a user is closed.
unfoldable pub dialog_user : List PlatformUser → ActionKind → Dialogs → Option PlatformUser
unfolding dialogs_user
dialog_user users kind s = if is_kind kind s.action then dialogs_user users s else none

-- `onOpenChange` of a dialog.
unfoldable pub on_dialog_change : (open_ : Bool) → Dialogs → Dialogs
unfolding on_action_change
on_dialog_change open_ s = if open_ then s else on_action_change none none s

-- From the configuration to the addition to a project.
unfoldable pub on_add_to_project : List PlatformUser → Dialogs → Dialogs
unfolding on_action_change dialogs_user
on_add_to_project users s = on_action_change (some add) (some (dialogs_user users s)) s

-- The identifier that is marked as copied, and the messages.
pub record Copies : Type 0 where
  pub copied_id : String
  pub toasts : List Toast

-- `copied` says whether the browser copied the identifier.
unfoldable pub copy_id : (copied : Bool) → String → Copies → Copies
copy_id copied id s =
    if copied
    then record s { copied_id = id }
    else record s { toasts = failure "复制失败，请手动选中" ∷ s.toasts }

-- The timeout that a copy set, when it runs, whichever identifier is marked by then.
unfoldable pub copy_id_timeout : Copies → Copies
copy_id_timeout s = record s { copied_id = "" }
