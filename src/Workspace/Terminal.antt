-- ===== src/Workspace/Terminal.antt =====
-- The terminal of a workspace: web/src/pages/workspaces/WorkspaceTerminalDialog.tsx. A Terminal is one
-- run of the effect that opens it. The events come from the browser, in any order it may send them.
pub mod Laws
pub mod Tests
use ha_cluster.Base.{
  Bool, List, Option, String, [], code, end, eqb, false, field, if◌then◌else◌, is_some, none, not,
  num, obj, pos, some, str, text_of, true, truthy, ℕ, ◌++◌, ◌∷◌, ◌≡◌, ◌≢◌,
}
use ha_cluster.Session.World.{Json}

-- `WebSocket.readyState`.
pub data Ready : Type 0 where
  connecting open_ closing closed : Ready

-- The calls on the terminal that put something on the screen or take it away.
pub data Call : Type 0 where
  reset : Call
  writeln write : String → Call
  write_bytes : List ℕ → Call

-- The frames that the socket sends.
pub data Frame : Type 0 where
  text_frame : String → Frame
  binary_frame : List ℕ → Frame

-- `waits` says that an animation frame is asked for (`raf`), `screen` lists the calls on the terminal,
-- if there is one, `observed` says that `ro` watches the host, `targets` are the addresses of the
-- sockets made; lists stand newest first.
pub record Terminal : Type 0 where
  pub waits : Bool
  pub cancelled : Bool
  pub screen : Option (List Call)
  pub disposed : Bool
  pub socket : Option Ready
  pub opened : Bool
  pub observed : Bool
  pub targets : List String
  pub sent : List Frame

-- The effect when the dialog opens.
abbrev pub at_start : Terminal
at_start = record {
  waits = true;
  cancelled = false;
  screen = none;
  disposed = false;
  socket = none;
  opened = false;
  observed = false;
  targets = [];
  sent = [];
}

abbrev is_open : Option Ready → Bool
is_open (some open_) = true
is_open _ = false

abbrev call : Call → Terminal → Terminal
call c s = record s { screen = elim s.screen [ none ↦ none | some cs ↦ some (c ∷ cs) ] }

-- `data.replace(/\n/g, "\r\n")`.
unfoldable pub with_returns : String → String
with_returns String.[] = ""
with_returns (String.◌∷◌ c s) =
    let rest = with_returns s in if eqb (code c) 10 then "\r\n" ++ rest else String.◌∷◌ c rest

abbrev pub failed_line : String
failed_line = "\r\n连接失败。"

abbrev pub ended_line : String
ended_line = "\r\n会话已结束。"

abbrev pub refused_line : String
refused_line = "\r\n无法建立终端会话（无权限或机器未运行）。"

unfoldable pub on_error : Terminal → Terminal
on_error s = call (writeln failed_line) s

unfoldable pub on_close : Terminal → Terminal
on_close s = call (writeln (if s.opened then ended_line else refused_line)) s

-- `ev.data`: a text or an array of bytes.
pub data Message : Type 0 where
  in_text : String → Message
  in_bytes : List ℕ → Message

unfoldable pub on_message : Message → Terminal → Terminal
unfolding with_returns
on_message (in_text t) s = call (write (with_returns t)) s
on_message (in_bytes bs) s = call (write_bytes bs) s

-- `ws?.close()`: a socket that is neither closing nor closed begins to close.
abbrev closed_by_page : Option Ready → Option Ready
closed_by_page none = none
closed_by_page (some closed) = some closed
closed_by_page (some _) = some closing

-- What the effect returns, when the dialog closes or changes its workspace.
unfoldable pub cleanup : Terminal → Terminal
cleanup s = record s {
  waits = false;
  cancelled = true;
  disposed = is_some s.screen;
  socket = closed_by_page s.socket;
  observed = false;
}

-- `query` is `URLSearchParams.toString`, `utf8` is `TextEncoder.encode`.
module _ (js : Json) (query : List (String × String) → String) (utf8 : String → List ℕ) where
  -- `https` says that the page came over https.
  unfoldable pub terminal_url : Bool → String → String → String → String
  terminal_url https host workspace_id token =
      (if https then "wss:" else "ws:")
      ++ ("//"
          ++ (host
              ++ ("/api/workspaces/"
                  ++ (workspace_id ++ ("/terminal?" ++ query (("access_token", token) ∷ []))))))

  abbrev pub size_frame : ℕ → ℕ → Frame
  size_frame cols rows = text_frame (
      js.stringify (
        obj (
          field "type" (str "resize")
            (field "cols" (num (pos cols)) (field "rows" (num (pos rows)) end)))))

  abbrev pub send : Frame → Terminal → Terminal
  send f s = record s { sent = f ∷ s.sent }

  -- The size that `fit` gives the terminal is an argument.
  unfoldable pub send_resize : ℕ → ℕ → Terminal → Terminal
  send_resize cols rows s = if is_open s.socket then send (size_frame cols rows) s else s

  unfoldable pub on_open : ℕ → ℕ → Terminal → Terminal
  unfolding send_resize
  on_open cols rows s = send_resize cols rows (call reset (record s { opened = true }))

  unfoldable pub on_input : String → Terminal → Terminal
  on_input typed s = if is_open s.socket then send (binary_frame (utf8 typed)) s else s

  module _ (https : Bool) (host workspace_id : String) where
    -- The callback of the animation frame. `mounted` says whether the host element is there.
    unfoldable pub start : Bool → Option String → Terminal → Terminal
    unfolding terminal_url
    start mounted stored s =
        let token = text_of stored in
        let connecting_line = writeln "正在连接…" in
        if not mounted
        then record s { waits = true }
        else if s.cancelled
        then record s { waits = false }
        else if truthy token
        then record s {
          waits = false;
          screen = some (connecting_line ∷ []);
          socket = some connecting;
          opened = false;
          observed = true;
          targets = terminal_url https host workspace_id token ∷ s.targets;
        }
        else record s {
          waits = false;
          screen = some (writeln "未登录，无法连接终端。" ∷ connecting_line ∷ []);
        }

    -- What the browser may do. It opens a socket that connects, passes on messages of an open one, and
    -- tells of errors and of the end once there is a socket.
    pub data Step (s : Terminal) : Terminal → Type 0 where
      frame :
          (mounted : Bool) (stored : Option String)
          → s.waits ≡ true
          → Step s (start mounted stored s)
      opens :
          (cols rows : ℕ)
          → s.socket ≡ some connecting
          → Step s (on_open cols rows (record s { socket = some open_ }))
      hears : (m : Message) → s.socket ≡ some open_ → Step s (on_message m s)
      fails : (r : Ready) → s.socket ≡ some r → Step s (on_error s)
      drops : s.socket ≡ some open_ → Step s (record s { socket = some closing })
      ends :
          (r : Ready)
          → s.socket ≡ some r
          → r ≢ closed
          → Step s (on_close (record s { socket = some closed }))
      types : (typed : String) → is_some s.screen ≡ true → Step s (on_input typed s)
      resizes : (cols rows : ℕ) → s.observed ≡ true → Step s (send_resize cols rows s)
      leaves : s.cancelled ≡ false → Step s (cleanup s)
