-- ===== src/Files.antt =====
-- The files that the program reads and writes, by their paths. A file that holds JSON stands for the
-- value that `json.load` reads from it; any other text is kept as it is, and is not JSON.
use mo_ip_checker.Base.{
  String, ◌≡◌, none, some, Text, ◌==◌, ==-self, string_eq, arith, if◌then◌else◌,
}
use mo_ip_checker.Base.Dict
use mo_ip_checker.Base.Dict.{Dict}
use mo_ip_checker.Base.Exec.{Exec, Result, ok, raised, os_error, value_error}
use mo_ip_checker.Json.{Json}
use mo_ip_checker.Json.Dumps.{dumps}

pub data Content : Type 0 where
  json : Json → Content
  plain : Text → Content

abbrev pub Files : Type 0
Files = Dict String Content

-- `open(path)` and `f.read()`. Of a JSON file this gives one of the texts of its value.
text_of : Content → Text
text_of (plain s) = s
text_of (json j) = dumps j

-- `json.load`
parse : Content → Result Json
parse (json j) = ok j
parse (plain s) = raised value_error

unfoldable pub read_text : String → Exec Files Text
unfolding text_of
read_text path fs = elim (Dict.get path fs) [
  | none ↦ (raised os_error, fs)
  | some c ↦ (ok (text_of c), fs)
]

unfoldable pub read_json : String → Exec Files Json
unfolding parse
read_json path fs = elim (Dict.get path fs) [
  | none ↦ (raised os_error, fs)
  | some c ↦ (parse c, fs)
]

-- `os.replace(source, target)`
unfoldable pub replace : String → String → Exec Files (Unit {0})
replace source target fs = elim (Dict.get source fs) [
  | none ↦ (raised os_error, fs)
  | some c ↦ (ok tt, Dict.put target c (Dict.remove source fs))
]

-- A file that was just written can be moved.
pub replace-put :
    (source target : String) (c : Content) (fs : Files)
    → replace source target (Dict.put source c fs)
      ≡ (ok tt, Dict.put target c (Dict.remove source (Dict.put source c fs)))
unfolding replace
replace-put source target c fs = rw (Dict.get-put, ==-self, replace)

pub get-replaced :
    (path source target : String) (c : Content) (fs : Files)
    → Dict.get path (Dict.put target c (Dict.remove source (Dict.put source c fs)))
      ≡ (if path == target then some c else if path == source then none else Dict.get path fs)
get-replaced path source target c fs = ground (
  arith,
  Dict.get-put path target c (Dict.remove source (Dict.put source c fs)),
  Dict.get-remove path source (Dict.put source c fs),
  Dict.get-put path source c fs,
)

pub read_json-json :
    (path : String) (fs : Files) {j : Json}
    → Dict.get path fs ≡ some (json j)
    → read_json path fs ≡ (ok j, fs)
unfolding read_json
read_json-json path fs h = rw (h, read_json)
