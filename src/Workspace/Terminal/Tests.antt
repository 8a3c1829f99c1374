-- ===== src/Workspace/Terminal/Tests.antt =====
-- Runs of the terminal.
use ha_cluster.Base.{
  Chain, List, String, [], code, false, is_some, no_steps, none, refl, size, some, then_step, true,
  ℕ, ◌++◌, ◌∷◌, ◌≡◌, ◌≤◌, ◌⊎◌,
}
use ha_cluster.Workspace.Sample.{js}
use ha_cluster.Workspace.Terminal.{
  Terminal, at_start, cleanup, closed, closing, ended_line, ends, frame, leaves, on_close, on_input,
  on_open, open_, opens, reset, send_resize, start, terminal_url, types, writeln,
}
use ha_cluster.Workspace.Terminal.Laws.{
  FirstIsSize, IsOver, TerminalStep, closed_terminal_is_silent, size_is_sent_first,
}

abbrev query : List (String × String) → String
query [] = ""
query ((k, v) ∷ rest) = k ++ ("=" ++ (v ++ query rest))

abbrev utf8 : String → List ℕ
utf8 String.[] = []
utf8 (String.◌∷◌ c s) = code c ∷ utf8 s

abbrev Next : Terminal → Terminal → Type 0
Next = TerminalStep js query utf8 true "ha" "w1"

abbrev dialling : Terminal
dialling =
    start js query utf8 true "ha" "w1" true (some "T")
      (start js query utf8 true "ha" "w1" false none at_start)

abbrev talking : Terminal
talking =
    on_input js query utf8 "ls"
      (on_open js query utf8 80 24 (record dialling { socket = some open_ }))

talking-Chain : Chain Next at_start talking
unfolding start on_open send_resize
talking-Chain =
    then_step
      (then_step
        (then_step (then_step no_steps (frame false none refl)) (frame true (some "T") refl))
        (opens 80 24 refl))
      (types "ls" refl)

dialling_lem : dialling.targets ≡ "wss://ha/api/workspaces/w1/terminal?access_token=T" ∷ []
unfolding start terminal_url
dialling_lem = refl

size_is_sent_first_example :
    (size talking.targets ≤ 1)
    × ((talking.opened ≡ true) ⊎ (talking.sent ≡ []))
    × FirstIsSize js query utf8 talking.sent
size_is_sent_first_example = size_is_sent_first js query utf8 true "ha" "w1" talking-Chain

abbrev left : Terminal
left = cleanup talking

abbrev over : Terminal
over = on_close (record left { socket = some closed })

left-Chain : Chain Next at_start left
unfolding start on_open send_resize on_input
left-Chain = then_step talking-Chain (leaves refl)

over-Chain : Chain Next left over
unfolding start on_open send_resize on_input cleanup
over-Chain = then_step no_steps (ends closing refl (cc))

left_cancelled : left.cancelled ≡ true
unfolding cleanup
left_cancelled = refl

closed_terminal_is_silent_example :
    (over.sent ≡ left.sent)
    × (over.targets ≡ left.targets)
    × IsOver over.socket
    × (over.waits ≡ false)
    × (over.observed ≡ false)
    × (over.disposed ≡ is_some over.screen)
closed_terminal_is_silent_example =
    closed_terminal_is_silent js query utf8 true "ha" "w1" left-Chain left_cancelled over-Chain

over_screen : over.screen ≡ some (writeln ended_line ∷ reset ∷ writeln "正在连接…" ∷ [])
unfolding start on_open send_resize on_input cleanup on_close
over_screen = refl
