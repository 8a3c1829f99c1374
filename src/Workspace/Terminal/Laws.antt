-- ===== src/Workspace/Terminal/Laws.antt =====
-- Laws of the terminal.
use ha_cluster.Base.{
  Bool, Bool-cases, Chain, Chain-keeps, List, Option, String, [], arith, false, inl, inr, is_some,
  none, refl, size, some, true, ℕ, ◌∙◌, ◌∷◌, ◌≡◌, ◌≢◌, ◌≤◌, ◌⊎◌,
}
use ha_cluster.Session.World.{Json}
use ha_cluster.Workspace.Terminal.{
  Frame, Message, Ready, Step, Terminal, at_start, binary_frame, cleanup, closed, connecting, drops,
  ends, fails, frame, hears, in_bytes, in_text, leaves, on_close, on_error, on_input, on_message,
  on_open, open_, opens, resizes, send_resize, size_frame, start, types,
}

-- The socket neither connects nor is open.
abbrev pub IsOver : Option Ready → Type 0
IsOver s = (s ≢ some connecting) × (s ≢ some open_)

module _ (js : Json) (query : List (String × String) → String) (utf8 : String → List ℕ) where
  -- The oldest of the frames tells a size.
  pub FirstIsSize : List Frame → Type 0
  FirstIsSize [] = Unit {0}
  FirstIsSize (f ∷ []) = (cols rows : ℕ) × (f ≡ size_frame js query utf8 cols rows)
  FirstIsSize (f ∷ g ∷ fs) = FirstIsSize (g ∷ fs)

  pub record IsTidy (s : Terminal) : Type 0 where
    pub before : s.opened ≡ false → s.sent ≡ []
    pub sized : FirstIsSize s.sent
    pub live : s.socket ≡ some open_ → (s.sent ≢ []) × (s.cancelled ≡ false)
    pub new : s.socket ≡ some connecting → (s.opened ≡ false) × (s.cancelled ≡ false)
    pub still :
        s.waits ≡ true
        → (s.socket ≡ none) × (s.sent ≡ []) × (s.targets ≡ []) × (s.cancelled ≡ false)
    pub watched : s.observed ≡ true → s.cancelled ≡ false
    pub bare : s.screen ≡ none → s.socket ≡ none
    pub freed : s.cancelled ≡ true → s.disposed ≡ is_some s.screen
    pub once : size s.targets ≤ 1

  gone-IsOver :
      (s : Terminal)
      → IsTidy s
      → s.cancelled ≡ true
      → IsOver s.socket × (s.waits ≡ false) × (s.observed ≡ false)
  gone-IsOver s v c = (
    (λ e. cc (c, (v.new e).1), λ e. cc (c, (v.live e).1)),
    elim (Bool-cases s.waits) [ inl e ↦ absurd (cc (c, (v.still e).3)) | inr e ↦ e ],
    elim (Bool-cases s.observed) [ inl e ↦ absurd (cc (c, v.watched e)) | inr e ↦ e ],
  )

  FirstIsSize-cons : (f : Frame) (fs : List Frame) → fs ≢ [] → FirstIsSize fs → FirstIsSize (f ∷ fs)
  unfolding FirstIsSize
  FirstIsSize-cons f [] h k = absurd (h refl)
  FirstIsSize-cons f (g ∷ fs) h k = k

  FirstIsSize-first :
      (cols rows : ℕ) (fs : List Frame)
      → fs ≡ []
      → FirstIsSize (size_frame js query utf8 cols rows ∷ fs)
  unfolding FirstIsSize
  FirstIsSize-first cols rows [] e = (cols, rows, refl)
  FirstIsSize-first cols rows (f ∷ fs) e = cc

  send_resize-IsTidy :
      (cols rows : ℕ) (s : Terminal) → IsTidy s → IsTidy (send_resize js query utf8 cols rows s)
  unfolding send_resize
  send_resize-IsTidy cols rows s v =
      ground (arith, FirstIsSize-cons (size_frame js query utf8 cols rows) s.sent)

  on_input-IsTidy :
      (typed : String) (s : Terminal) → IsTidy s → IsTidy (on_input js query utf8 typed s)
  unfolding on_input
  on_input-IsTidy typed s v = ground (arith, FirstIsSize-cons (binary_frame (utf8 typed)) s.sent)

  on_open-IsTidy :
      (cols rows : ℕ) (s : Terminal)
      → s.socket ≡ some connecting
      → IsTidy s
      → IsTidy (on_open js query utf8 cols rows (record s { socket = some open_ }))
  unfolding on_open
  on_open-IsTidy cols rows s e v = ground (arith, FirstIsSize-first cols rows s.sent)

  on_message-IsTidy :
      (m : Message) (s : Terminal) → s.socket ≡ some open_ → IsTidy s → IsTidy (on_message m s)
  unfolding on_message
  on_message-IsTidy (in_text t) s e v = ground arith
  on_message-IsTidy (in_bytes bs) s e v = ground arith

  on_error-IsTidy : (s : Terminal) → IsTidy s → IsTidy (on_error s)
  unfolding on_error
  on_error-IsTidy s v = ground arith

  on_close-IsTidy :
      (s : Terminal) (r : Ready)
      → s.socket ≡ some r
      → IsTidy s
      → IsTidy (on_close (record s { socket = some closed }))
  unfolding on_close
  on_close-IsTidy s r e v = ground arith

  cleanup-IsTidy : (s : Terminal) → IsTidy s → IsTidy (cleanup s)
  unfolding cleanup
  cleanup-IsTidy s v = ground arith

  module _ (https : Bool) (host workspace_id : String) where
    start-IsTidy :
        (mounted : Bool) (stored : Option String) (s : Terminal)
        → s.waits ≡ true
        → IsTidy s
        → IsTidy (start js query utf8 https host workspace_id mounted stored s)
    unfolding start
    start-IsTidy mounted stored s e v = ground arith

    abbrev pub TerminalStep : Terminal → Terminal → Type 0
    TerminalStep = Step js query utf8 https host workspace_id

    Step-IsTidy : (s t : Terminal) → TerminalStep s t → IsTidy s → IsTidy t
    Step-IsTidy s t (frame mounted stored e) v = start-IsTidy mounted stored s e v
    Step-IsTidy s t (opens cols rows e) v = on_open-IsTidy cols rows s e v
    Step-IsTidy s t (hears m e) v = on_message-IsTidy m s e v
    Step-IsTidy s t (fails r e) v = on_error-IsTidy s v
    Step-IsTidy s t (drops e) v = ground arith
    Step-IsTidy s t (ends r e n) v = on_close-IsTidy s r e v
    Step-IsTidy s t (types typed e) v = on_input-IsTidy typed s v
    Step-IsTidy s t (resizes cols rows e) v = send_resize-IsTidy cols rows s v
    Step-IsTidy s t (leaves e) v = cleanup-IsTidy s v

    Chain-IsTidy : {s : Terminal} → Chain TerminalStep at_start s → IsTidy s
    unfolding FirstIsSize
    Chain-IsTidy c = Chain-keeps TerminalStep IsTidy Step-IsTidy c (ground arith)

    -- Whatever the browser, the server and the user do, in whatever order: at most one socket is made,
    -- nothing is sent before it has opened, and the first frame sent is a text that tells a size.
    pub size_is_sent_first :
        {s : Terminal}
        → Chain TerminalStep at_start s
        → (size s.targets ≤ 1) × ((s.opened ≡ true) ⊎ (s.sent ≡ [])) × FirstIsSize s.sent
    size_is_sent_first {s = s} c =
        let v : IsTidy s = Chain-IsTidy c in
        (v.once, elim (Bool-cases s.opened) [ inl e ↦ inl e | inr e ↦ inr (v.before e) ], v.sized)

    -- The dialog has closed, with these frames sent and these sockets made.
    record IsLeft (frames : List Frame) (made : List String) (s : Terminal) : Type 0 where
      gone : s.cancelled ≡ true
      quiet : s.sent ≡ frames
      no_other : s.targets ≡ made
      tidy : IsTidy s

    -- A step of a dialog that has closed neither sends, nor makes a socket, nor opens it again.
    Step-quiet :
        (s t : Terminal)
        → TerminalStep s t
        → IsTidy s
        → s.cancelled ≡ true
        → (t.sent ≡ s.sent) × (t.targets ≡ s.targets) × (t.cancelled ≡ true)
    unfolding start on_open on_message on_error on_close on_input send_resize cleanup
    Step-quiet s t (frame mounted stored e) v c = absurd (cc (c, (v.still e).3))
    Step-quiet s t (opens cols rows e) v c = absurd (cc (c, (v.new e).1))
    Step-quiet s t (hears (in_text m) e) v c = ground arith
    Step-quiet s t (hears (in_bytes m) e) v c = ground arith
    Step-quiet s t (fails r e) v c = ground arith
    Step-quiet s t (drops e) v c = ground arith
    Step-quiet s t (ends r e n) v c = ground arith
    Step-quiet s t (types typed e) v c = ground arith
    Step-quiet s t (resizes cols rows e) v c = ground arith
    Step-quiet s t (leaves e) v c = ground arith

    Step-IsLeft :
        (frames : List Frame) (made : List String) (s t : Terminal)
        → TerminalStep s t
        → IsLeft frames made s
        → IsLeft frames made t
    Step-IsLeft frames made s t st v =
        let (q, n, g) = Step-quiet s t st v.tidy v.gone in
        record {
          gone = g;
          quiet = q ∙ v.quiet;
          no_other = n ∙ v.no_other;
          tidy = Step-IsTidy s t st v.tidy;
        }

    -- Once the dialog has closed, whatever follows: nothing more is sent and no other socket is made;
    -- the socket neither connects nor is open, no animation frame is asked for, the host is not watched,
    -- and the terminal, if there was one, is disposed of.
    pub closed_terminal_is_silent :
        {s t : Terminal}
        → Chain TerminalStep at_start s
        → s.cancelled ≡ true
        → Chain TerminalStep s t
        → (t.sent ≡ s.sent)
          × (t.targets ≡ s.targets)
          × IsOver t.socket
          × (t.waits ≡ false)
          × (t.observed ≡ false)
          × (t.disposed ≡ is_some t.screen)
    closed_terminal_is_silent {s = s} {t = t} c e d =
        let v : IsLeft s.sent s.targets t =
          Chain-keeps TerminalStep (IsLeft s.sent s.targets) (Step-IsLeft s.sent s.targets) d
            (record { gone = e; quiet = refl; no_other = refl; tidy = Chain-IsTidy c }) in
        let (over, waits, observed) = gone-IsOver t v.tidy v.gone in
        (v.quiet, v.no_other, over, waits, observed, v.tidy.freed v.gone)
