-- ===== src/Text/Laws.antt =====
-- A normalised SKU is trimmed and upper case already: normalising twice changes nothing.
use mathlib.Core.List.{map}
use store_kiotviet.Base.{
  ℕ, ◌≡◌, refl, inl, inr, true, false, some, [], ◌∷◌, arith, ap, ◌∙◌, Bool-cases,
}
use store_kiotviet.Text.{
  Text, text_eq, is_space, trim_start, drop_if_blank, trim_end, trim, to_upper, normalize_sku,
}

pub text_eq_sound : (s t : Text) → text_eq s t ≡ true → s ≡ t
text_eq_sound [] [] h = refl
text_eq_sound [] (b ∷ t) h = cc
text_eq_sound (a ∷ s) [] h = cc
text_eq_sound (a ∷ s) (b ∷ t) h = ground (arith, text_eq_sound s t)

pub text_eq_refl : (s : Text) → text_eq s s ≡ true
text_eq_refl [] = refl
text_eq_refl (a ∷ s) = ground (arith, text_eq_refl s)

-- The first character, if there is one, is no white space; and so for the last.
abbrev StartsSolid : Text → Type 0
StartsSolid [] = Unit
StartsSolid (c ∷ s) = is_space c ≡ false

abbrev EndsSolid : Text → Type 0
EndsSolid [] = Unit
EndsSolid (c ∷ []) = is_space c ≡ false
EndsSolid (c ∷ d ∷ s) = EndsSolid (d ∷ s)

trim_start-StartsSolid : (s : Text) → StartsSolid (trim_start s)
unfolding trim_start
trim_start-StartsSolid [] = tt
trim_start-StartsSolid (c ∷ s) = elim (Bool-cases (is_space c)) [
  | inl e ↦ rw e (trim_start-StartsSolid s)
  | inr e ↦ rw e e
]

trim_start_of_StartsSolid : (s : Text) → StartsSolid s → trim_start s ≡ s
unfolding trim_start
trim_start_of_StartsSolid [] h = refl
trim_start_of_StartsSolid (c ∷ s) h = rw h

drop_if_blank-EndsSolid : (c : ℕ) (s : Text) → EndsSolid s → EndsSolid (drop_if_blank c s)
unfolding drop_if_blank
drop_if_blank-EndsSolid c [] h = elim (Bool-cases (is_space c)) [ inl e ↦ rw e tt | inr e ↦ rw e e ]
drop_if_blank-EndsSolid c (d ∷ s) h = elim (Bool-cases (is_space c)) [
  | inl e ↦ rw e h
  | inr e ↦ rw e h
]

trim_end-EndsSolid : (s : Text) → EndsSolid (trim_end s)
unfolding trim_end
trim_end-EndsSolid [] = tt
trim_end-EndsSolid (c ∷ s) = drop_if_blank-EndsSolid c (trim_end s) (trim_end-EndsSolid s)

drop_if_blank_cons : (c d : ℕ) (s : Text) → drop_if_blank c (d ∷ s) ≡ c ∷ d ∷ s
unfolding drop_if_blank
drop_if_blank_cons c d s = elim (Bool-cases (is_space c)) [ inl e ↦ rw e | inr e ↦ rw e ]

trim_end_of_EndsSolid : (s : Text) → EndsSolid s → trim_end s ≡ s
unfolding trim_end
trim_end_of_EndsSolid [] h = refl
trim_end_of_EndsSolid (c ∷ []) h = unfold drop_if_blank in rw h
trim_end_of_EndsSolid (c ∷ d ∷ s) h =
    ap (drop_if_blank c) (trim_end_of_EndsSolid (d ∷ s) h) ∙ drop_if_blank_cons c d s

drop_if_blank-StartsSolid :
    (c : ℕ) (s : Text) → is_space c ≡ false → StartsSolid (drop_if_blank c s)
unfolding drop_if_blank
drop_if_blank-StartsSolid c s h = rw h h

trim_end-StartsSolid : (s : Text) → StartsSolid s → StartsSolid (trim_end s)
unfolding trim_end
trim_end-StartsSolid [] h = tt
trim_end-StartsSolid (c ∷ s) h = drop_if_blank-StartsSolid c (trim_end s) h

to_upper_idem : (c : ℕ) → to_upper (to_upper c) ≡ to_upper c
unfolding to_upper
to_upper_idem c = ground arith

is_space-to_upper : (c : ℕ) → is_space (to_upper c) ≡ is_space c
unfolding is_space to_upper
is_space-to_upper c = ground arith

map-to_upper_idem : (s : Text) → map to_upper (map to_upper s) ≡ map to_upper s
map-to_upper_idem [] = refl
map-to_upper_idem (c ∷ s) = cc (to_upper_idem c, map-to_upper_idem s)

StartsSolid-map : (s : Text) → StartsSolid s → StartsSolid (map to_upper s)
StartsSolid-map [] h = tt
StartsSolid-map (c ∷ s) h = is_space-to_upper c ∙ h

EndsSolid-map : (s : Text) → EndsSolid s → EndsSolid (map to_upper s)
EndsSolid-map [] h = tt
EndsSolid-map (c ∷ []) h = is_space-to_upper c ∙ h
EndsSolid-map (c ∷ d ∷ s) h = EndsSolid-map (d ∷ s) h

trim_of_solid : (s : Text) → StartsSolid s → EndsSolid s → trim s ≡ s
unfolding trim
trim_of_solid s h k = ap trim_end (trim_start_of_StartsSolid s h) ∙ trim_end_of_EndsSolid s k

trim-StartsSolid : (s : Text) → StartsSolid (trim s)
unfolding trim
trim-StartsSolid s = trim_end-StartsSolid (trim_start s) (trim_start-StartsSolid s)

trim-EndsSolid : (s : Text) → EndsSolid (trim s)
unfolding trim
trim-EndsSolid s = trim_end-EndsSolid (trim_start s)

-- Normalising a SKU that is already normalised changes nothing.
pub normalize_sku_idem :
    (s : Text) → normalize_sku (some (normalize_sku (some s))) ≡ normalize_sku (some s)
unfolding normalize_sku
normalize_sku_idem s =
    ap (map to_upper) (
      trim_of_solid (map to_upper (trim s)) (StartsSolid-map (trim s) (trim-StartsSolid s))
        (EndsSolid-map (trim s) (trim-EndsSolid s)))
    ∙ map-to_upper_idem (trim s)
