-- ===== src/Strings/Laws.antt =====
-- What the tests and the parsers on texts decide.
use booking_venue.Base.{
  ℕ, ◌+◌, ◌*◌, ◌^◌, ◌<◌, ◌≡◌, ==_iff, refl, sym, ap, ◌≢◌, inl, inr, Bool, true, false, ◌&&◌, some,
  List, [], ◌∷◌, ◌++◌, ◌==◌, arith, Bool-cases,
}
use booking_venue.Clock.HourMinute.{Text, digit}
use booking_venue.Strings.{
  same_text, has_prefix, after_prefix, trim_prefix, push_byte, split, parse_digits, parse_uint,
}

pub same_text_self : (s : Text) → same_text s s ≡ true
same_text_self [] = refl
same_text_self (c ∷ s) = ground (arith, same_text_self s)

pub same_text→eq : (s t : Text) → same_text s t ≡ true → s ≡ t
same_text→eq [] [] h = refl
same_text→eq [] (d ∷ t) h = cc h
same_text→eq (c ∷ s) [] h = cc h
same_text→eq (c ∷ s) (d ∷ t) h = ground (arith, same_text→eq s t)

pub same_text-ne : (s t : Text) → same_text s t ≡ false → s ≢ t
same_text-ne s t h e = cc (h, e, same_text_self s)

pub has_prefix-append : (p s : Text) → has_prefix (p ++ s) p ≡ true
unfolding has_prefix
has_prefix-append [] s = refl
has_prefix-append (c ∷ p) s = ground (arith, has_prefix-append p s)

after_prefix-append : (p s : Text) → after_prefix (p ++ s) p ≡ s
unfolding after_prefix
after_prefix-append [] s = refl
after_prefix-append (c ∷ p) s = after_prefix-append p s

pub trim_prefix-append : (p s : Text) → trim_prefix (p ++ s) p ≡ s
unfolding trim_prefix
trim_prefix-append p s = rw (has_prefix-append p s) (after_prefix-append p s)

pub has_prefix→append : (s p : Text) → has_prefix s p ≡ true → s ≡ p ++ after_prefix s p
unfolding has_prefix after_prefix
has_prefix→append s [] h = refl
has_prefix→append [] (d ∷ p) h = cc h
has_prefix→append (c ∷ s) (d ∷ p) h = ground (arith, has_prefix→append s p)

-- A number that ParseUint accepts has the width that was asked for.
parse_digits-lt : (bits n : ℕ) (s : Text) (k : ℕ) → parse_digits bits n s ≡ some k → k < 2 ^ bits
unfolding parse_digits
parse_digits-lt bits n [] k h = ground arith
parse_digits-lt bits n (c ∷ s) k h = ground (arith, parse_digits-lt bits (10 * n + digit c) s k)

pub parse_uint-lt : (bits : ℕ) (s : Text) (k : ℕ) → parse_uint bits s ≡ some k → k < 2 ^ bits
unfolding parse_uint
parse_uint-lt bits [] k h = cc h
parse_uint-lt bits (c ∷ s) k h = parse_digits-lt bits 0 (c ∷ s) k h

-- Whether two texts agree as far as both go.
abbrev pub agree : Text → Text → Bool
agree [] q = true
agree (c ∷ p) [] = true
agree (c ∷ p) (d ∷ q) = c == d && agree p q

pub has_prefix-agree :
    (s p q : Text) → has_prefix s p ≡ true → has_prefix s q ≡ true → agree p q ≡ true
unfolding has_prefix
has_prefix-agree s [] q h k = refl
has_prefix-agree s (c ∷ p) [] h k = refl
has_prefix-agree [] (c ∷ p) (d ∷ q) h k = cc h
has_prefix-agree (x ∷ s) (c ∷ p) (d ∷ q) h k = ground (arith, has_prefix-agree s p q)

pub same_text-has_prefix : (s p : Text) → same_text s p ≡ true → has_prefix s p ≡ true
unfolding has_prefix
same_text-has_prefix [] [] h = refl
same_text-has_prefix [] (d ∷ p) h = cc
same_text-has_prefix (c ∷ s) [] h = cc
same_text-has_prefix (c ∷ s) (d ∷ p) h = ground (arith, same_text-has_prefix s p)

pub has_prefix-shorter : (s p q : Text) → has_prefix s (p ++ q) ≡ true → has_prefix s p ≡ true
unfolding has_prefix
has_prefix-shorter s [] q h = refl
has_prefix-shorter [] (d ∷ p) q h = cc h
has_prefix-shorter (c ∷ s) (d ∷ p) q h = ground (arith, has_prefix-shorter s p q)

-- The parts with the separator between them: what `split` has cut.
abbrev pub join : ℕ → List Text → Text
join sep [] = []
join sep (s ∷ []) = s
join sep (s ∷ t ∷ ts) = s ++ sep ∷ join sep (t ∷ ts)

join-push_byte :
    (sep c : ℕ) (ss : List Text) → ss ≢ [] → join sep (push_byte c ss) ≡ c ∷ join sep ss
join-push_byte sep c [] h = absurd (h refl)
join-push_byte sep c (s ∷ []) h = refl
join-push_byte sep c (s ∷ t ∷ ts) h = refl

join-nil : (sep : ℕ) (ss : List Text) → ss ≢ [] → join sep ([] ∷ ss) ≡ sep ∷ join sep ss
join-nil sep [] h = absurd (h refl)
join-nil sep (s ∷ ss) h = refl

push_byte-nonempty : (c : ℕ) (ss : List Text) → push_byte c ss ≢ []
push_byte-nonempty c [] h = cc h
push_byte-nonempty c (s ∷ ss) h = cc h

split-nonempty : (sep : ℕ) (s : Text) → split sep s ≢ []
unfolding split
split-nonempty sep [] h = cc h
split-nonempty sep (c ∷ s) h = elim (Bool-cases (c == sep)) [
  | inl cut ↦ cc (rw cut at h)
  | inr kept ↦ push_byte-nonempty c (split sep s) (rw kept at h)
]

pub join-split : (sep : ℕ) (s : Text) → join sep (split sep s) ≡ s
unfolding split
join-split sep [] = refl
join-split sep (c ∷ s) = elim (Bool-cases (c == sep)) [
  | inl cut ↦
      rw (cut, join-nil sep (split sep s) (split-nonempty sep s), join-split sep s)
        (ap (λ x. x ∷ s) (sym ((==_iff c sep).0 cut)))
  | inr kept ↦
      rw (kept, join-push_byte sep c (split sep s) (split-nonempty sep s), join-split sep s) refl
]
