-- ===== src/Predicates/Kinds.antt =====
-- The tiers of an edge (prismpath/predicates.py): `is_deterministic`, `is_error`, `is_event` and
-- `is_semantic` split the conditions between them.
use prismpath.Base.{
  ℕ, Bool, true, false, ◌&&◌, not, [], ◌∷◌, ◌++◌, ◌≡◌, refl, arith, Bool-cases, inl, inr, ◌==◌,
  if◌then◌else◌, ◌+◌,
}
use prismpath.Base.Text.{Text, codes, starts_with, strip, lower, text_eq}
use prismpath.Predicates.Condition.{
  is_always, is_never, deterministic_text, error_text, event_text, is_deterministic, is_error,
  is_event, is_semantic,
}

-- Whether two texts agree as far as the shorter goes.
abbrev agree : Text → Text → Bool
agree [] q = true
agree (a ∷ p) [] = true
agree (a ∷ p) (b ∷ q) = (a == b) && agree p q

starts_with-agree :
    (p q c : Text) → starts_with p c ≡ true → starts_with q c ≡ true → agree p q ≡ true
starts_with-agree [] q c h k = refl
starts_with-agree (a ∷ p) [] c h k = refl
starts_with-agree (a ∷ p) (b ∷ q) [] h k = cc
starts_with-agree (a ∷ p) (b ∷ q) (d ∷ c) h k = ground (arith, starts_with-agree p q c)

-- Text that begins with `p` does not begin with a text that differs from `p`, nor is it that text.
starts_with-clash :
    (p q c : Text) → starts_with p c ≡ true → agree p q ≡ false → starts_with q c ≡ false
starts_with-clash p q c h k = ground (arith, starts_with-agree p q c)

text_eq-starts_with : (q c : Text) → text_eq q c ≡ true → starts_with q c ≡ true
text_eq-starts_with [] c h = refl
text_eq-starts_with (b ∷ q) [] h = cc
text_eq-starts_with (b ∷ q) (d ∷ c) h = ground (arith, text_eq-starts_with q c)

text_eq-clash : (p q c : Text) → starts_with p c ≡ true → agree p q ≡ false → text_eq q c ≡ false
text_eq-clash p q c h k = ground (arith, text_eq-starts_with q c, starts_with-clash p q c)

-- Text that begins with `on ` is neither a keyword nor a `when` clause.
deterministic_text-on :
    (p c : Text) → starts_with (codes "on " ++ p) c ≡ true → deterministic_text c ≡ false
unfolding is_always is_never
deterministic_text-on p c h = rw (
  starts_with-clash (codes "on " ++ p) (codes "when ") c h refl,
  text_eq-clash (codes "on " ++ p) (codes "always") c h refl,
  text_eq-clash (codes "on " ++ p) (codes "true") c h refl,
  text_eq-clash (codes "on " ++ p) (codes "else") c h refl,
  text_eq-clash (codes "on " ++ p) (codes "otherwise") c h refl,
  text_eq-clash (codes "on " ++ p) (codes "default") c h refl,
  text_eq-clash (codes "on " ++ p) (codes "_") c h refl,
  text_eq-clash (codes "on " ++ p) (codes "false") c h refl,
  text_eq-clash (codes "on " ++ p) (codes "never") c h refl,
)

error_text-event : (c : Text) → error_text c ≡ true → event_text c ≡ false
error_text-event c h = rw (
  starts_with-clash (codes "on error") (codes "on event") c h refl,
  starts_with-clash (codes "on error") (codes "on timeout") c h refl,
)

-- How many of the four tiers claim a condition.
abbrev pub count : Bool → ℕ
count b = if b then 1 else 0

exclusive :
    (d e v : Bool)
    → (e ≡ true → d ≡ false)
    → (v ≡ true → d ≡ false)
    → (e ≡ true → v ≡ false)
    → count d + count e + count v + count (not d && (not e && not v)) ≡ 1
exclusive true true v p q r = cc (p refl)
exclusive true false true p q r = cc (q refl)
exclusive true false false p q r = refl
exclusive false true true p q r = cc (r refl)
exclusive false true false p q r = refl
exclusive false false true p q r = refl
exclusive false false false p q r = refl

event_text-deterministic : (c : Text) → event_text c ≡ true → deterministic_text c ≡ false
event_text-deterministic c h = elim (Bool-cases (starts_with (codes "on event") c)) [
  | inl e ↦ deterministic_text-on (codes "event") c e
  | inr n ↦ deterministic_text-on (codes "timeout") c (rw n at h)
]

-- Every condition belongs to exactly one tier: deterministic, error, event or semantic.
pub one_tier :
    (c : Text)
    → count (is_deterministic c) + count (is_error c) + count (is_event c) + count (is_semantic c)
      ≡ 1
unfolding is_deterministic is_error is_event is_semantic
one_tier condition =
    let c = lower (strip condition) in
    exclusive (deterministic_text c) (error_text c) (event_text c)
      (deterministic_text-on (codes "error") c) (event_text-deterministic c) (error_text-event c)
