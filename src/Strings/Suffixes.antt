-- ===== src/Strings/Suffixes.antt =====
-- Suffixes of texts.
use booking_venue.Base.{
  ℕ, ◌+◌, ◌≡◌, refl, ap, true, false, [], ◌∷◌, ◌++◌, arith, Bool-cases, inl, inr, length,
}
use booking_venue.Clock.HourMinute.{Text}
use booking_venue.Strings.{same_text, has_suffix, trim_suffix}
use booking_venue.Strings.Laws.{same_text_self, same_text→eq}

length-append : (s p : Text) → length (s ++ p) ≡ length s + length p
length-append [] p = omega arith
length-append (c ∷ s) p = ground (arith, length-append s p)

longer : (c : ℕ) (s p : Text) → same_text (c ∷ s ++ p) p ≡ false
longer c s p = elim (Bool-cases (same_text (c ∷ s ++ p) p)) [
  | inl same ↦
      let lengths = ap length (same_text→eq (c ∷ s ++ p) p same) in
      absurd (omega (arith, lengths, length-append s p))
  | inr other ↦ other
]

pub has_suffix-append : (s p : Text) → has_suffix (s ++ p) p ≡ true
unfolding has_suffix
has_suffix-append [] [] = refl
has_suffix-append [] (d ∷ p) = rw (same_text_self p) (ground arith)
has_suffix-append (c ∷ s) p = rw (longer c s p) (has_suffix-append s p)

pub trim_suffix-append : (s : Text) (d : ℕ) (p : Text) → trim_suffix (s ++ d ∷ p) (d ∷ p) ≡ s
unfolding trim_suffix
trim_suffix-append [] d p = rw (same_text_self p) (ground arith)
trim_suffix-append (c ∷ s) d p =
    rw (longer c s (d ∷ p)) (ap (λ t. c ∷ t) (trim_suffix-append s d p))
