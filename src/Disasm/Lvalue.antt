-- ===== src/Disasm/Lvalue.antt =====
-- lvalue and meetLvalue of internal/disasm/dataflowarm64.go: what is known of a register.
use aotopsy.Base.{
  ℕ, ◌≡◌, refl, Bool, true, false, ◌==◌, ==_iff, Bool-cases, if◌then◌else◌, List, [], ◌∷◌, inl, inr,
  ◌⊎◌,
}
use mathlib.Core.Path.{ap, ap₂, ◌∙◌, sym}

-- A string is the list of its bytes.
unfoldable pub same_note : List ℕ → List ℕ → Bool
same_note [] [] = true
same_note [] (c ∷ cs) = false
same_note (b ∷ bs) [] = false
same_note (b ∷ bs) (c ∷ cs) = let rest = same_note bs cs in if b == c then rest else false

-- Only an lvKnown is ever made with a note.
pub data Lvalue : Type 0 where
  lv_top : Lvalue
  lv_known : List ℕ → Lvalue
  lv_bottom : Lvalue

-- The equality of two structs.
unfoldable pub same_lvalue : Lvalue → Lvalue → Bool
unfolding same_note
same_lvalue lv_top lv_top = true
same_lvalue lv_top (lv_known w) = false
same_lvalue lv_top lv_bottom = false
same_lvalue (lv_known v) lv_top = false
same_lvalue (lv_known v) (lv_known w) = same_note v w
same_lvalue (lv_known v) lv_bottom = false
same_lvalue lv_bottom lv_top = false
same_lvalue lv_bottom (lv_known w) = false
same_lvalue lv_bottom lv_bottom = true

unfoldable pub meet_lvalue : Lvalue → Lvalue → Lvalue
unfolding same_note
meet_lvalue lv_top b = b
meet_lvalue lv_bottom b = lv_bottom
meet_lvalue (lv_known v) lv_top = lv_known v
meet_lvalue (lv_known v) lv_bottom = lv_bottom
meet_lvalue (lv_known v) (lv_known w) = if same_note v w then lv_known v else lv_bottom

same_note_sound : (v w : List ℕ) → same_note v w ≡ true → v ≡ w
unfolding same_note
same_note_sound [] [] e = refl
same_note_sound [] (c ∷ cs) e = cc
same_note_sound (b ∷ bs) [] e = cc
same_note_sound (b ∷ bs) (c ∷ cs) e = elim (Bool-cases (b == c)) [
  | inl p ↦ ap₂ (λ x xs. x ∷ xs) ((==_iff b c).0 p) (same_note_sound bs cs (rw p at e))
  | inr p ↦ let clash : false ≡ true = rw p at e in cc
]

pub same_note_refl : (v : List ℕ) → same_note v v ≡ true
unfolding same_note
same_note_refl [] = refl
same_note_refl (b ∷ bs) = rw ((==_iff b b).1 refl) (same_note_refl bs)

pub same_lvalue_sound : (a b : Lvalue) → same_lvalue a b ≡ true → a ≡ b
unfolding same_lvalue
same_lvalue_sound lv_top lv_top e = refl
same_lvalue_sound lv_top (lv_known w) e = cc
same_lvalue_sound lv_top lv_bottom e = cc
same_lvalue_sound (lv_known v) lv_top e = cc
same_lvalue_sound (lv_known v) (lv_known w) e = ap lv_known (same_note_sound v w e)
same_lvalue_sound (lv_known v) lv_bottom e = cc
same_lvalue_sound lv_bottom lv_top e = cc
same_lvalue_sound lv_bottom (lv_known w) e = cc
same_lvalue_sound lv_bottom lv_bottom e = refl

-- What is known of a register that a claim about it allows: `Allows a b` where a is below b.
abbrev pub Allows : Lvalue → Lvalue → Type 0
Allows a b = (a ≡ lv_bottom) ⊎ ((b ≡ lv_top) ⊎ (a ≡ b))

pub Allows-trans : (a b c : Lvalue) → Allows a b → Allows b c → Allows a c
Allows-trans a b c (inl x) y = inl x
Allows-trans a b c (inr x) (inr (inl y)) = inr (inl y)
Allows-trans a b c (inr (inl x)) (inl y) = let clash : lv_top ≡ lv_bottom = sym x ∙ y in cc
Allows-trans a b c (inr (inl x)) (inr (inr y)) = inr (inl (sym y ∙ x))
Allows-trans a b c (inr (inr x)) (inl y) = inl (x ∙ y)
Allows-trans a b c (inr (inr x)) (inr (inr y)) = inr (inr (x ∙ y))

pub meet_lvalue-left : (a b : Lvalue) → Allows (meet_lvalue a b) a
unfolding meet_lvalue
meet_lvalue-left lv_top b = inr (inl refl)
meet_lvalue-left lv_bottom b = inl refl
meet_lvalue-left (lv_known v) lv_top = inr (inr refl)
meet_lvalue-left (lv_known v) lv_bottom = inl refl
meet_lvalue-left (lv_known v) (lv_known w) = elim (Bool-cases (same_note v w)) [
  | inl p ↦ inr (inr (rw p refl))
  | inr p ↦ inl (rw p refl)
]

pub meet_lvalue-right : (a b : Lvalue) → Allows (meet_lvalue a b) b
unfolding meet_lvalue
meet_lvalue-right lv_top b = inr (inr refl)
meet_lvalue-right lv_bottom b = inl refl
meet_lvalue-right (lv_known v) lv_top = inr (inl refl)
meet_lvalue-right (lv_known v) lv_bottom = inl refl
meet_lvalue-right (lv_known v) (lv_known w) = elim (Bool-cases (same_note v w)) [
  | inl p ↦ inr (inr (rw p (ap lv_known (same_note_sound v w p))))
  | inr p ↦ inl (rw p refl)
]
