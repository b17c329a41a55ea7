-- ===== src/Text/Laws.antt =====
-- `text_eq` decides equality, stripping twice is stripping once, and what the other modules use
-- of the remaining methods.
use scmdb_log_watcher_es.Base.{
  ◌≡◌, refl, sym, subst, ◌↔◌, ℕ, Bool, false, inl, inr, true, List, [], ◌∷◌, arith, In, Bool-cases,
}
use scmdb_log_watcher_es.Text.Defs.{Text, text_eq, contains, is_space, lstrip_if, rstrip_if, strip}

pub text_eq→≡ : (a b : Text) → text_eq a b ≡ true → a ≡ b
unfolding text_eq
text_eq→≡ [] [] h = refl
text_eq→≡ [] (_ ∷ _) h = ground arith
text_eq→≡ (_ ∷ _) [] h = ground arith
text_eq→≡ (a ∷ s) (b ∷ t) h = ground (arith, text_eq→≡ s t)

pub text_eq_refl : (a : Text) → text_eq a a ≡ true
unfolding text_eq
text_eq_refl [] = refl
text_eq_refl (a ∷ s) = ground (arith, text_eq_refl s)

pub text_eq_iff : (a b : Text) → (text_eq a b ≡ true) ↔ (a ≡ b)
text_eq_iff a b = (text_eq→≡ a b, λ e. subst (λ t. text_eq a t ≡ true) e (text_eq_refl a))

pub contains→In : (xs : List Text) (t : Text) → (contains xs t ≡ true) → In t xs
unfolding contains
contains→In [] t h = cc
contains→In (x ∷ xs) t h = elim (Bool-cases (text_eq x t)) [
  | inl e ↦ inl (sym (text_eq→≡ x t e))
  | inr n ↦ inr (contains→In xs t (rw n at h))
]

module _ (p : ℕ → Bool) where
  -- The text is empty, or begins with a code point outside the class.
  abbrev BeginsOutside : Text → Type 0
  BeginsOutside [] = Unit
  BeginsOutside (c ∷ s) = p c ≡ false

  lstrip_if-BeginsOutside : (s : Text) → BeginsOutside (lstrip_if p s)
  unfolding lstrip_if
  lstrip_if-BeginsOutside [] = tt
  lstrip_if-BeginsOutside (c ∷ s) = ground (arith, lstrip_if-BeginsOutside s)

  rstrip_if-BeginsOutside : (s : Text) → BeginsOutside s → BeginsOutside (rstrip_if p s)
  unfolding rstrip_if
  rstrip_if-BeginsOutside [] h = tt
  rstrip_if-BeginsOutside (c ∷ s) h = ground (arith, h)

  BeginsOutside-lstrip_if : (s : Text) → BeginsOutside s → lstrip_if p s ≡ s
  unfolding lstrip_if
  BeginsOutside-lstrip_if [] h = refl
  BeginsOutside-lstrip_if (c ∷ s) h = ground (arith, h)

  rstrip_if-rstrip_if : (s : Text) → rstrip_if p (rstrip_if p s) ≡ rstrip_if p s
  unfolding rstrip_if
  rstrip_if-rstrip_if [] = refl
  rstrip_if-rstrip_if (c ∷ s) = ground (arith, rstrip_if-rstrip_if s)

pub strip-strip : (s : Text) → strip (strip s) ≡ strip s
unfolding strip
strip-strip s =
    let t = lstrip_if is_space s in
    let outside = rstrip_if-BeginsOutside is_space t (lstrip_if-BeginsOutside is_space s) in
    rw (BeginsOutside-lstrip_if is_space (rstrip_if is_space t) outside)
      (rstrip_if-rstrip_if is_space t)
