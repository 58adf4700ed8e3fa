-- ===== src/Files.antt =====
-- shared/persistence.py: JSON files that are read and written as a whole. A file that is missing
-- reads as the empty dictionary. What a file holds is taken with its timestamps in the runtime's
-- form, as the program writes them, so that reading changes nothing in it.
use sprint_runtime.Prelude.{◌≡◌, refl, arith, String, ◌==◌, List, [], ◌∷◌, if◌then◌else◌, eq_iff}
use sprint_runtime.Python.{Fields, end}

-- The files of one directory, by name.
abbrev pub Files : Type 0
Files = List (String × Fields)

unfoldable pub read_json : Files → String → Fields
read_json [] path = end
read_json ((k, d) ∷ files) path = if k == path then d else read_json files path

unfoldable pub write_json : Files → String → Fields → Files
write_json [] path payload = (path, payload) ∷ []
write_json ((k, d) ∷ files) path payload =
    if k == path then (k, payload) ∷ files else (k, d) ∷ write_json files path payload

pub read_json-write_json :
    (files : Files) (path other : String) (payload : Fields)
    → read_json (write_json files path payload) other
      ≡ (if path == other then payload else read_json files other)
unfolding read_json write_json
read_json-write_json [] path other payload = refl
read_json-write_json ((k, d) ∷ files) path other payload = ground (
  arith,
  read_json-write_json files path other payload,
  eq_iff k path,
  eq_iff k other,
  eq_iff path other,
)
