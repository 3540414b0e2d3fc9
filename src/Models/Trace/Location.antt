-- ===== src/Models/Trace/Location.antt =====
-- The pattern of a trace location, `\$(?:\.(?:all|any)\[\d+\]|\.not)*`, as an automaton.
pub mod Laws
use Prim.Native.Char.{code}
use soc_investigation_lab.Common.{ℕ, String, Bool, true, false, eqb, if◌then◌else◌}
use soc_investigation_lab.Python.Text.Digits.{is_decimal}

-- What has been read: nothing, a whole location, or a part of the segment at hand.
pub data Scan : Type 0 where
  start at_node at_dot at_a at_al at_an at_word at_bracket in_index at_n at_no failed : Scan

abbrev expect : ℕ → ℕ → Scan → Scan
expect c wanted next = if eqb c wanted then next else failed

unfoldable pub scan : Scan → ℕ → Scan
unfolding is_decimal
scan start c = expect c b'$' at_node
scan at_node c = expect c b'.' at_dot
scan at_dot c = if eqb c b'a' then at_a else expect c b'n' at_n
scan at_a c = if eqb c b'l' then at_al else expect c b'n' at_an
scan at_al c = expect c b'l' at_word
scan at_an c = expect c b'y' at_word
scan at_word c = expect c b'[' at_bracket
scan at_bracket c = if is_decimal c then in_index else failed
scan in_index c = if is_decimal c then in_index else expect c b']' at_node
scan at_n c = expect c b'o' at_no
scan at_no c = expect c b't' at_node
scan failed c = failed

unfoldable pub scan_all : Scan → String → Scan
unfolding scan
scan_all s String.[] = s
scan_all s (String.◌∷◌ c rest) = scan_all (scan s (code c)) rest

abbrev pub is_whole : Scan → Bool
is_whole at_node = true
is_whole _ = false

-- `re.fullmatch`
unfoldable pub valid_location : String → Bool
unfolding scan_all
valid_location s = is_whole (scan_all start s)
