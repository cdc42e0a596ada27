-- ===== src/Names/Lookup.antt =====
-- How the lookups of bin/utils.c by name and by value fit together.
use rcrpc.Base.{
  ℕ, ◌≡◌, ◌⊎◌, refl, subst, arith, Bool, true, false, ◌&&◌, if◌then◌else◌, List, [], ◌∷◌, leb,
  Option, some, none, ℤ, pos, neg, negsuc, eq_ℤ, map, inl, inr, Bool-cases,
}
use mathlib.Core.Option.{some-injective}
use rcrpc.Names.Tables.{
  to_lower, strcase_eq, Table, audio_state_map, mixer_input_map, true_values, false_values,
  matches_any, parse_bool, id_of_name, name_of_id, parse_mixer_input_source, parse_audio_state,
}

pub ℤ-eq : (a b : ℤ) → eq_ℤ a b ≡ true → a ≡ b
ℤ-eq (pos a) (pos b) h = ground arith
ℤ-eq (pos a) (negsuc b) h = cc
ℤ-eq (negsuc a) (pos b) h = cc
ℤ-eq (negsuc a) (negsuc b) h = ground arith

strcase_eq_refl : (s : List ℕ) → strcase_eq s s ≡ true
unfolding strcase_eq
strcase_eq_refl [] = refl
strcase_eq_refl (c ∷ cs) = ground (arith, strcase_eq_refl cs)

-- A comparison that ignores case does not tell apart strings that differ in case alone.
strcase_eq_lower :
    (s t v : List ℕ) → map to_lower s ≡ map to_lower t → strcase_eq s v ≡ strcase_eq t v
unfolding strcase_eq
strcase_eq_lower [] [] v h = refl
strcase_eq_lower [] (b ∷ t) v h = absurd (cc)
strcase_eq_lower (a ∷ s) [] v h = absurd (cc)
strcase_eq_lower (a ∷ s) (b ∷ t) [] h = refl
strcase_eq_lower (a ∷ s) (b ∷ t) (c ∷ v) h = ground (arith, strcase_eq_lower s t v)

matches_any_lower :
    (s t : List ℕ) (vs : List (List ℕ))
    → map to_lower s ≡ map to_lower t
    → matches_any s vs ≡ matches_any t vs
unfolding matches_any
matches_any_lower s t [] h = refl
matches_any_lower s t (v ∷ vs) h =
    ground (arith, strcase_eq_lower s t v h, matches_any_lower s t vs h)

-- parse_bool reads strings that differ in case alone alike.
pub parse_bool_lower :
    (s t : List ℕ) (res : Bool)
    → map to_lower s ≡ map to_lower t
    → parse_bool s res ≡ parse_bool t res
unfolding parse_bool
parse_bool_lower s t res h =
    ground (arith, matches_any_lower s t true_values h, matches_any_lower s t false_values h)

-- The names of a table: none is found under an earlier entry.
abbrev Fresh : List ℕ → Table → Type 0
Fresh n [] = Unit
Fresh n ((i, m) ∷ rest) = (strcase_eq m n ≡ false) × Fresh n rest

abbrev IsDistinct : Table → Type 0
IsDistinct [] = Unit
IsDistinct ((i, n) ∷ rest) = Fresh n rest × IsDistinct rest

Fresh-name_of_id :
    (v : ℤ) (m n : List ℕ) (t : Table)
    → Fresh m t
    → name_of_id v t ≡ some n
    → strcase_eq n m ≡ false
unfolding name_of_id
Fresh-name_of_id v m n [] f h = cc
Fresh-name_of_id v m n ((i, k) ∷ t) f h = elim (Bool-cases (eq_ℤ i v)) [
  | inl e ↦ subst (λ x. strcase_eq x m ≡ false) (some-injective _ _ (rw e at h)) f.0
  | inr e ↦ Fresh-name_of_id v m n t f.1 (rw e at h)
]

-- In a table of distinct names the name that is printed for a value parses as that value.
id_of_name-name_of_id :
    (v default : ℤ) (n : List ℕ) (t : Table)
    → IsDistinct t
    → name_of_id v t ≡ some n
    → id_of_name default n t ≡ v
unfolding name_of_id id_of_name
id_of_name-name_of_id v default n [] d h = cc
id_of_name-name_of_id v default n ((i, k) ∷ t) d h = elim (Bool-cases (eq_ℤ i v)) [
  | inl e ↦
      subst (λ x. (if strcase_eq x k then i else id_of_name default x t) ≡ v)
        (some-injective _ _ (rw e at h)) (rw (strcase_eq_refl k) (ℤ-eq i v e))
  | inr e ↦
      let h' : name_of_id v t ≡ some n = rw e at h in
      rw (Fresh-name_of_id v k n t d.0 h') (id_of_name-name_of_id v default n t d.1 h')
]

-- The source that mixer-input prints for a value is read back by it as that value.
pub parse_mixer_input_source-name :
    (v : ℤ) (n : List ℕ) → name_of_id v mixer_input_map ≡ some n → parse_mixer_input_source n ≡ v
unfolding parse_mixer_input_source
parse_mixer_input_source-name v n h =
    id_of_name-name_of_id v (pos 0) n mixer_input_map ((refl, (refl, tt)), ((refl, tt), (tt, tt))) h

-- A letter of ASCII.
abbrev IsLetter : ℕ → Type 0
IsLetter c = (leb b'A' c && leb c b'Z' ≡ true) ⊎ (leb b'a' c && leb c b'z' ≡ true)

-- What is documented of a scan for a decimal number: a string that begins with a letter holds none.
pub record IsScan (scan : List ℕ → Option ℤ) : Type 0 where
  pub letter : (c : ℕ) (s : List ℕ) → IsLetter c → scan (c ∷ s) ≡ none

parse_audio_state_letter :
    (scan : List ℕ → Option ℤ) (c : ℕ) (s : List ℕ)
    → IsScan scan
    → IsLetter c
    → parse_audio_state scan (some (c ∷ s)) ≡ neg 1
unfolding parse_audio_state
parse_audio_state_letter scan c s i l = rw (i.letter c s l, parse_audio_state)

-- The string begins with a letter.
abbrev IsLettered : List ℕ → Type 0
IsLettered [] = ⊥
IsLettered (c ∷ s) = IsLetter c

abbrev AllLettered : Table → Type 0
AllLettered [] = Unit
AllLettered ((i, n) ∷ t) = IsLettered n × AllLettered t

name_of_id-IsLettered :
    (v : ℤ) (n : List ℕ) (t : Table) → AllLettered t → name_of_id v t ≡ some n → IsLettered n
unfolding name_of_id
name_of_id-IsLettered v n [] l h = absurd (cc)
name_of_id-IsLettered v n ((i, k) ∷ t) l h = elim (Bool-cases (eq_ℤ i v)) [
  | inl e ↦ subst IsLettered (some-injective _ _ (rw e at h)) l.0
  | inr e ↦ name_of_id-IsLettered v n t l.1 (rw e at h)
]

letters : AllLettered audio_state_map
letters = (
  inl refl,
  (
    inl refl,
    (
      inl refl,
      (inl refl, (inl refl, (inl refl, (inl refl, (inl refl, (inl refl, (inl refl, tt))))))),
    ),
  ),
)

lettered_parse :
    (scan : List ℕ → Option ℤ) (n : List ℕ)
    → IsScan scan
    → IsLettered n
    → parse_audio_state scan (some n) ≡ neg 1
lettered_parse scan [] i l = absurd l
lettered_parse scan (c ∷ s) i l = parse_audio_state_letter scan c s i l

-- No audio state can be given by its name: the name that is printed for any value parses as the
-- unknown state -1.
pub parse_audio_state-name :
    (scan : List ℕ → Option ℤ) (v : ℤ) (n : List ℕ)
    → IsScan scan
    → name_of_id v audio_state_map ≡ some n
    → parse_audio_state scan (some n) ≡ neg 1
parse_audio_state-name scan v n i h =
    lettered_parse scan n i (name_of_id-IsLettered v n audio_state_map letters h)
