-- ===== src/Session/Message/Strip.antt =====
-- The hint that `throwApiError` appends to a message, and `stripAttachedHint`, which takes it away.
use ha_cluster.Base.{
  Bool-cases, Char, String, ap, arith, count_points, ends_with, eq_iff, eq_refl, false, includes,
  inl, inr, is_space, refl, suc, sym, trim, trim_end, trim_start, true, truthy, truthy-append, ◌++◌,
  ◌+◌, ◌==◌, ◌∙◌, ◌≡◌, ◌≤◌,
}
use ha_cluster.Session.World.{Json, Response}
use ha_cluster.Session.Fetch.{api_error, error_texts}
use ha_cluster.Session.Message.{attached_hint, drop_suffix, error, strip_attached_hint, strip_stops}
use Prim.Native.String.append
use text.Mathlib.TextLemmas.{append_assoc}

count-append : (s t : String) → count_points (s ++ t) ≡ count_points s + count_points t
unfolding count_points
count-append String.[] t = rw append.nil (omega arith)
count-append (String.◌∷◌ c s) t = rw append.cons (omega (arith, count-append s t))

longer_ne : (c : Char) (s t : String) → String.◌∷◌ c (s ++ t) == t ≡ false
longer_ne c s t = elim (Bool-cases (String.◌∷◌ c (s ++ t) == t)) [
  | inr e ↦ e
  | inl e ↦
      let p : String.◌∷◌ c (s ++ t) ≡ t = (eq_iff (String.◌∷◌ c (s ++ t)) t).0 e in
      let q : suc (count_points (s ++ t)) ≡ count_points t =
        unfold count_points in ap count_points p in
      absurd (omega (arith, q, count-append s t))
]

ends_with-append : (s t : String) → ends_with (s ++ t) t ≡ true
unfolding ends_with
ends_with-append String.[] String.[] = refl
ends_with-append String.[] (String.◌∷◌ c t) =
    rw append.nil (ground (arith, eq_refl (String.◌∷◌ c t)))
ends_with-append (String.◌∷◌ c s) t = rw append.cons (ground (arith, ends_with-append s t))

drop_suffix-append : (s t : String) → truthy t ≡ true → drop_suffix t (s ++ t) ≡ s
unfolding drop_suffix
drop_suffix-append String.[] String.[] h = cc
drop_suffix-append String.[] (String.◌∷◌ c t) h = rw append.nil (rw (eq_refl (String.◌∷◌ c t)) refl)
drop_suffix-append (String.◌∷◌ c s) t h =
    rw append.cons (rw (longer_ne c s t) (ap (String.◌∷◌ c) (drop_suffix-append s t h)))

strip_stops-append : (s : String) → strip_stops (s ++ "。") ≡ strip_stops s
unfolding strip_stops is_space
strip_stops-append String.[] = refl
strip_stops-append (String.◌∷◌ c s) = rw append.cons (rw (strip_stops-append s) refl)

trim_end-append : (s t : String) → truthy t ≡ true → trim_end t ≡ t → trim_end (s ++ t) ≡ s ++ t
unfolding trim_end
trim_end-append String.[] t h e = rw append.nil e
trim_end-append (String.◌∷◌ c s) t h e =
    rw append.cons (ground (arith, trim_end-append s t h e, truthy-append s t))

count-trim_start : (s : String) → count_points (trim_start s) ≤ count_points s
unfolding trim_start count_points
count-trim_start String.[] = omega arith
count-trim_start (String.◌∷◌ c s) = ground (arith, count-trim_start s)

shorter :
    (c : Char) (s : String)
    → is_space c ≡ true
    → trim_start (String.◌∷◌ c s) ≡ String.◌∷◌ c s
    → count_points (trim_start s) ≡ suc (count_points s)
unfolding trim_start count_points
shorter c s space e =
    let tail : trim_start (String.◌∷◌ c s) ≡ trim_start s = rw space refl in
    ap count_points (sym tail ∙ e)

trim_start-append :
    (s t : String) → truthy s ≡ true → trim_start s ≡ s → trim_start (s ++ t) ≡ s ++ t
unfolding trim_start
trim_start-append String.[] t h e = cc
trim_start-append (String.◌∷◌ c s) t h e = elim (Bool-cases (is_space c)) [
  | inr solid ↦ rw append.cons (rw solid refl)
  | inl space ↦ absurd (omega (arith, shorter c s space e, count-trim_start s))
]

-- A text that is not empty, with no white space at its ends.
pub record IsTrimmed (s : String) : Type 0 where
  pub not_empty : truthy s ≡ true
  pub starts : trim_start s ≡ s
  pub ends : trim_end s ≡ s

trim-IsTrimmed : {s : String} → IsTrimmed s → trim s ≡ s
unfolding trim
trim-IsTrimmed v = rw v.starts v.ends

trim-attached :
    (msg hint : String)
    → IsTrimmed msg
    → IsTrimmed hint
    → trim (msg ++ ("。" ++ hint)) ≡ (msg ++ "。") ++ hint
unfolding trim
trim-attached msg hint v u =
    let rest = trim_end-append (msg ++ "。") hint u.not_empty u.ends in
    rw (trim_start-append msg ("。" ++ hint) v.not_empty v.starts, sym (append_assoc msg "。" hint))
      rest

strip-attached :
    (msg hint : String)
    → IsTrimmed msg
    → strip_stops msg ≡ msg
    → IsTrimmed hint
    → strip_attached_hint (msg ++ ("。" ++ hint)) hint ≡ msg
unfolding strip_attached_hint
strip-attached msg hint v stops u =
    rw
      (
        trim-attached msg hint v u,
        u.not_empty,
        ends_with-append (msg ++ "。") hint,
        drop_suffix-append (msg ++ "。") hint u.not_empty,
        strip_stops-append msg,
        stops,
      )
      (trim-IsTrimmed v)

module _ (js : Json) where
  -- The message of an error reply survives the hint that is appended to it: if the reply's message
  -- and hint are not empty and have no white space at their ends, and the message neither ends in a
  -- full stop nor contains the hint, then taking the hint away gives the message back.
  pub strip-api_error :
      (res : Response) (body msg hint : String)
      → error_texts js res body ≡ (msg, hint)
      → IsTrimmed msg
      → strip_stops msg ≡ msg
      → IsTrimmed hint
      → includes msg hint ≡ false
      → let e = api_error js res body in
        strip_attached_hint e.message (attached_hint (error e)) ≡ msg
  unfolding api_error attached_hint
  strip-api_error res body msg hint t v stops u apart =
      rw (t, u.not_empty, apart) (rw (trim-IsTrimmed u) (strip-attached msg hint v stops u))
