-- ===== src/Launcher/Env/Laws.antt =====
-- Laws of the search path.
use ha_cluster.Base.{
  Bool, Bool-cases, Char, String, any, arith, code, eq_refl, eqb, inl, inr, not, refl, true, ◌&&◌,
  ◌++◌, ◌==◌, ◌≡◌,
}
use ha_cluster.Launcher.Env.{parts, prepend_path, split_on}
use Prim.Native.String.append

-- The text has not got the character.
abbrev pub lacks : Char → String → Bool
lacks d String.[] = true
lacks d (String.◌∷◌ c s) = not (eqb (code c) (code d)) && lacks d s

split_on-append :
    (d : Char) (s t : String) → lacks d s ≡ true → split_on d (s ++ String.◌∷◌ d t) ≡ (s, parts d t)
unfolding split_on
split_on-append d String.[] t h = rw append.nil (ground arith)
split_on-append d (String.◌∷◌ c s) t h = elim (Bool-cases (eqb (code c) (code d))) [
  | inl e ↦ absurd (ground arith)
  | inr e ↦ rw append.cons (rw (e, split_on-append d s t (ground arith)) refl)
]

-- A directory without a delimiter is on the path afterwards, and a second call changes nothing.
pub prepend_path-twice :
    (d : Char) (dir current : String)
    → lacks d dir ≡ true
    → (any (λ p. p == dir) (parts d (prepend_path d dir current)) ≡ true)
      × (prepend_path d dir (prepend_path d dir current) ≡ prepend_path d dir current)
unfolding prepend_path
prepend_path-twice d dir current h = elim (Bool-cases (any (λ p. p == dir) (parts d current))) [
  | inl e ↦ rw (e, e) (refl, refl)
  | inr e ↦ rw (e, split_on-append d dir current h, eq_refl dir) (refl, refl)
]
