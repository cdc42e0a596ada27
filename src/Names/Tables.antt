-- ===== src/Names/Tables.antt =====
-- bin/utils.c: the tables of names, and the functions that look names and values up in them.
use rcrpc.Base.{
  ℕ, ◌+◌, ◌-◌, Bool, true, false, ◌&&◌, if◌then◌else◌, List, [], ◌∷◌, length, leb, ◌==◌, Option,
  some, none, ℤ, pos, neg, eq_ℤ, eilseq, take,
}
use Prim.Native.Char.{code}
use Prim.Native.String.{String}

-- The bytes of a text that the source writes in quotes.
abbrev pub codes : String → List ℕ
codes String.[] = []
codes (String.◌∷◌ c s) = code c ∷ codes s

-- `tolower` of ASCII, and `strcasecmp(a, b) == 0`.
unfoldable pub to_lower : ℕ → ℕ
to_lower c = if leb b'A' c && leb c b'Z' then c + 32 else c

unfoldable pub strcase_eq : List ℕ → List ℕ → Bool
unfolding to_lower
strcase_eq [] [] = true
strcase_eq (a ∷ xs) (b ∷ ys) = if to_lower a == to_lower b then strcase_eq xs ys else false
strcase_eq _ _ = false

-- A table of values and their names.
abbrev pub Table : Type 0
Table = List (ℤ × List ℕ)

-- `audio_state_map`, with the values of `enum remote_audio_state`.
abbrev pub audio_state_map : Table
audio_state_map =
    (neg 1, codes "Unknown")
    ∷ (pos 0, codes "Inactive")
    ∷ (pos 10, codes "Hifi-Playback-Speaker")
    ∷ (pos 11, codes "Hifi-Playback-Headset")
    ∷ (pos 20, codes "VoiceCall-Handset")
    ∷ (pos 21, codes "VoiceCall-Headset")
    ∷ (pos 22, codes "VoiceCall-Speaker")
    ∷ (pos 30, codes "VoiceCallIP-Handset")
    ∷ (pos 31, codes "VoiceCallIP-Headset")
    ∷ (pos 32, codes "VoiceCallIP-Speaker")
    ∷ []

-- `mixer_control_map`, with the values of `enum remote_mixer_control`.
abbrev pub mixer_control_map : Table
mixer_control_map =
    (pos 1, codes "master")
    ∷ (pos 2, codes "pcm")
    ∷ (pos 3, codes "headset")
    ∷ (pos 4, codes "speaker")
    ∷ (pos 5, codes "handset")
    ∷ (pos 6, codes "capture")
    ∷ []

-- `mixer_input_map`, with the values of `enum remote_mixer_input_source`.
abbrev pub mixer_input_map : Table
mixer_input_map = (pos 1, codes "headset") ∷ (pos 2, codes "handset") ∷ (pos 3, codes "line") ∷ []

abbrev pub true_values : List (List ℕ)
true_values = codes "true" ∷ codes "on" ∷ codes "yes" ∷ codes "enable" ∷ []

abbrev pub false_values : List (List ℕ)
false_values = codes "false" ∷ codes "off" ∷ codes "no" ∷ codes "disable" ∷ []

-- The loop that compares a string with each entry.
unfoldable pub matches_any : List ℕ → List (List ℕ) → Bool
unfolding strcase_eq
matches_any s [] = false
matches_any s (v ∷ vs) = if strcase_eq s v then true else matches_any s vs

-- The result and `*res`.
unfoldable pub parse_bool : List ℕ → Bool → ℤ × Bool
unfolding matches_any
parse_bool s res =
    if matches_any s true_values
    then (pos 0, true)
    else if matches_any s false_values
    then (pos 0, false)
    else (neg eilseq, res)

-- The loop over a table by name, as the parse functions make it; the default is given.
unfoldable pub id_of_name : ℤ → List ℕ → Table → ℤ
unfolding strcase_eq
id_of_name default s [] = default
id_of_name default s ((id, name) ∷ rest) =
    if strcase_eq s name then id else id_of_name default s rest

-- The loop over a table by value.
unfoldable pub name_of_id : ℤ → Table → Option (List ℕ)
name_of_id id [] = none
name_of_id id ((i, name) ∷ rest) = if eq_ℤ i id then some name else name_of_id id rest

unfoldable pub parse_mixer_control : List ℕ → ℤ
unfolding id_of_name
parse_mixer_control control = id_of_name (pos 0) control mixer_control_map

unfoldable pub parse_mixer_input_source : List ℕ → ℤ
unfolding id_of_name
parse_mixer_input_source source = id_of_name (pos 0) source mixer_input_map

-- The loop of `parse_audio_state` over the values.
unfoldable pub has_id : ℤ → Table → Bool
has_id v [] = false
has_id v ((i, name) ∷ rest) = if eq_ℤ i v then true else has_id v rest

-- `scan` is `sscanf(state, "%d", &value)`: the number that the string begins with, if it is one.
unfoldable pub parse_audio_state : (List ℕ → Option ℤ) → Option (List ℕ) → ℤ
unfolding has_id id_of_name
parse_audio_state scan none = neg 1
parse_audio_state scan (some state) = elim (scan state) [
  | none ↦ neg 1
  | some value ↦
      if has_id value audio_state_map then value else id_of_name (neg 1) state audio_state_map
]

-- `snprintf(buffer, size, "%s", name)`: what the buffer holds before the terminator, if there is room
-- for one, and the length of the name.
abbrev pub print_name : List ℕ → ℕ → ℤ × List ℕ
print_name name size = (pos (length name), take (size - 1) name)

-- The name of the value, or "unknown"; an empty name counts as none.
abbrev pub or_unknown : Option (List ℕ) → List ℕ
or_unknown none = codes "unknown"
or_unknown (some []) = codes "unknown"
or_unknown (some (c ∷ cs)) = c ∷ cs

unfoldable pub audio_state_name : ℤ → ℕ → ℤ × List ℕ
unfolding name_of_id
audio_state_name state size = print_name (or_unknown (name_of_id state audio_state_map)) size

unfoldable pub mixer_input_source_name : ℤ → ℕ → ℤ × List ℕ
unfolding name_of_id
mixer_input_source_name source size =
    print_name (or_unknown (name_of_id source mixer_input_map)) size
