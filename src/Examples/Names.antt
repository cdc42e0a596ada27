-- ===== src/Examples/Names.antt =====
-- Words of bin/utils.c.
use rcrpc.Base.{
  ℕ, ◌≡◌, refl, Option, none, some, List, [], ◌∷◌, ℤ, pos, neg, leb, ◌&&◌, if◌then◌else◌, arith,
  ◌-◌,
}
use rcrpc.Names.Tables.{codes, parse_audio_state, name_of_id}
use rcrpc.Names.Lookup.{IsScan, parse_audio_state-name}

-- A scan of one digit.
abbrev scan : List ℕ → Option ℤ
scan [] = none
scan (c ∷ s) = if leb b'0' c && leb c b'9' then some (pos (c - b'0')) else none

scan-IsScan : IsScan scan
scan-IsScan = record { letter = λ c s l. ground arith }

parse_audio_state-name_example : parse_audio_state scan (some (codes "Inactive")) ≡ neg 1
unfolding name_of_id
parse_audio_state-name_example =
    parse_audio_state-name scan (pos 0) (codes "Inactive") scan-IsScan refl
