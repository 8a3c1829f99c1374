-- ===== src/Audit/Open/Laws.antt =====
-- Laws of a click on an audit entry.
use ha_cluster.Base.{
  Bool, Option, String, arith, false, inl, inr, none, refl, some, true, truthy, ◌≡◌, ◌⊎◌,
}
use ha_cluster.Session.World.{ApiError, Json, World}
use ha_cluster.Audit.Link.Probe.{AuditProbe}
use ha_cluster.Audit.Open.{
  after_probe, destroyed_message, navigates, open_target, probe_error, probed, tells, told_probe,
}

answer-cases :
    (x : Bool ⊎ ApiError) → (x ≡ inl true) ⊎ (x ≡ inl false) ⊎ ((e : ApiError) × (x ≡ inr e))
answer-cases (inl true) = inl refl
answer-cases (inl false) = inr (inl refl)
answer-cases (inr e) = inr (inr (e, refl))

module _ (js : Json) (lower : String → String) where
  -- A plain click on a link goes to it exactly if the lists show the resource, or do not tell and the
  -- probe finds it; else an error is told. The server is asked only where the lists do not tell.
  pub open_target-cases :
      (to : String) (live : Option Bool) (probe : AuditProbe) (w : World)
      → truthy to ≡ true
      → let (out, w') = open_target js lower to true false live probe w in
        ((((live ≡ some true) ⊎ ((live ≡ none) × (probed js lower probe w ≡ inl true)))
            × (out ≡ navigates to))
          ⊎ (((live ≡ some false)
                ⊎ ((live ≡ none)
                    × ((probed js lower probe w ≡ inl false)
                        ⊎ ((e : ApiError) × (probed js lower probe w ≡ inr e)))))
              × ((msg : String) × (out ≡ tells msg))))
        × ((w' ≡ w) ⊎ ((live ≡ none) × (w' ≡ after_probe js lower probe w)))
  unfolding open_target told_probe
  open_target-cases to (some true) probe w h = (inl (inl refl, ground arith), inl (ground arith))
  open_target-cases to (some false) probe w h =
      (inr (inl refl, (destroyed_message, ground arith)), inl (ground arith))
  open_target-cases to none probe w h = elim (answer-cases (probed js lower probe w)) [
    | inl a ↦ (inl (inr (refl, a), ground arith), inr (refl, ground arith))
    | inr (inl a) ↦
        (inr (inr (refl, inl a), (destroyed_message, ground arith)), inr (refl, ground arith))
    | inr (inr (e, a)) ↦ (
      inr (inr (refl, inr (e, a)), (probe_error js lower e, ground arith)),
      inr (refl, ground arith),
    )
  ]
