-- ===== src/Nav/Agent/Laws.antt =====
-- Laws of the access for agents.
use ha_cluster.Session.Auth.{type_error}
use ha_cluster.Base.{
  Bool, Bool-cases, String, Value, get, inl, inr, is_null, refl, to_text, ◌∷◌, ◌≡◌, ◌⊎◌,
}
use ha_cluster.Session.World.{Json, World, done}
use ha_cluster.Session.Handler.{Result-cases, failure, success, told}
use ha_cluster.Nav.Agent.{Agent, clipboard_error, copied_message, copy_prompt, issue_pack, run_copy}

-- One message more, and nothing else.
abbrev pub OnlyTells : Agent → Agent → Type 0
OnlyTells s s' = (m : String) × (s' ≡ record s { toasts = failure m ∷ s.toasts })

module _ (js : Json) (lower : String → String) (copies : Bool) where
  -- A copy of the access tells exactly one message. It tells a success only when the server has issued
  -- the access and its prompt is the newest text on the clipboard; else it tells a failure and leaves
  -- the clipboard alone. One request is made of the server, and nothing after its answer.
  pub run_copy-cases :
      (rotate : Bool) (s : Agent) (w : World)
      → let r = issue_pack js lower copies rotate w in
        let (s', w') = run_copy js lower copies rotate s w in
        (w' ≡ r.1)
        × (OnlyTells s s'
            ⊎ ((meta : Value) × (r.0 ≡ done meta)
                × (s' ≡ record s {
                  clipboard = to_text (get meta "prompt") ∷ s.clipboard;
                  toasts = success (copied_message rotate) ∷ s.toasts;
                })))
  unfolding run_copy copy_prompt
  run_copy-cases rotate s w = elim (Result-cases (issue_pack js lower copies rotate w).0) [
    | inr (e, f) ↦ (rw f refl, inl (told lower e, rw f refl))
    | inl (meta, f) ↦ elim (Bool-cases (is_null meta)) [
      | inl n ↦ (rw f refl, inl (told lower type_error, rw f (rw n refl)))
      | inr n ↦ elim (Bool-cases copies) [
        | inl c ↦ (rw f refl, inr (meta, f, rw f (rw (n, c) refl)))
        | inr c ↦ (rw f refl, inl (told lower clipboard_error, rw f (rw (n, c) refl)))
      ]
    ]
  ]
