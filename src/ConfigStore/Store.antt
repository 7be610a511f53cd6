-- ===== src/ConfigStore/Store.antt =====
-- The functions of frontend/services/config_store.py. Each holds the module's lock over one file.
use mo_ip_checker.Base.{String, Option, none, some, [], ◌∷◌, Text, codes, string_eq, if◌then◌else◌}
use mo_ip_checker.Base.Decimal
use mo_ip_checker.Base.Dict
use mo_ip_checker.Base.Dict.{Dict}
use mo_ip_checker.Base.Exec.{
  Exec, Result, ok, raised, Error, os_error, attribute_error, raise, lift, modify, pure, ◌>>=◌,
  ◌>>◌,
}
use mo_ip_checker.Json.{Json, null, bool, num, str, obj, fields, object, subscript}
use mo_ip_checker.Files.{Content, json, plain, Files, read_text, read_json, replace}
use mo_ip_checker.ConfigStore.Template.{substitute}

abbrev pub config_path : String
config_path = "/app/config/config.json"

abbrev pub config_tmp_path : String
config_tmp_path = "/app/config/config.json.tmp"

abbrev pub template_path : String
template_path = "/app/config/ptp4l.conf.template"

abbrev pub conf_path : String
conf_path = "/app/config/ptp4l.conf"

abbrev pub conf_tmp_path : String
conf_tmp_path = "/app/config/ptp4l.conf.tmp"

unfoldable pub load_config : Exec Files Json
unfolding read_json
load_config = read_json config_path

-- How a file is written over another: all is done; `open` is refused; the write ends with an exception
-- after a part of the text; or the text is written and `os.replace` is refused.
pub data Save : Type 0 where
  completed : Save
  refused : Save
  cut : Error → Text → Save
  kept : Save

-- `open` of the temporary file for writing, the write, and `os.replace`
unfoldable pub put_file : Save → String → String → Content → Exec Files (Unit {0})
unfolding replace
put_file completed tmp path content = do modify (Dict.put tmp content); replace tmp path
put_file refused tmp path content = raise os_error
put_file (cut e part) tmp path content = do modify (Dict.put tmp (plain part)); raise e
put_file kept tmp path content = do modify (Dict.put tmp content); raise os_error

unfoldable pub save_config_on : Save → Json → Exec Files (Unit {0})
unfolding put_file
save_config_on save config = put_file save config_tmp_path config_path (json config)

abbrev pub save_config : Json → Exec Files (Unit {0})
save_config = save_config_on completed

-- `config.setdefault(section, {}).update(patch)`: both must be dicts.
unfoldable pub update_fields : Option Json → Dict String Json → Result Json
update_fields none patch = ok (object (Dict.update [] patch))
update_fields (some (obj fs)) patch = ok (object (Dict.update (fields fs) patch))
update_fields (some _) patch = raised attribute_error

put_section : String → Dict String Json → Result Json → Result Json
put_section section config (ok value) = ok (object (Dict.put section value config))
put_section section config (raised e) = raised e

unfoldable pub updated : String → Dict String Json → Json → Result Json
unfolding update_fields put_section
updated section patch (obj fs) =
    put_section section (fields fs) (update_fields (Dict.get section (fields fs)) patch)
updated section patch _ = raised attribute_error

unfoldable pub update_section_on : Save → String → Dict String Json → Exec Files Json
update_section_on save section patch = do
  config ← load_config
  changed ← lift (updated section patch config)
  save_config_on save changed
  pure changed

abbrev pub update_section : String → Dict String Json → Exec Files Json
update_section = update_section_on completed

-- The text to a temporary file, and this file in place of ptp4l.conf
unfoldable pub write_conf_on : Save → Result Text → Exec Files Text
unfolding put_file
write_conf_on save result = do
  text ← lift result
  put_file save conf_tmp_path conf_path (plain text)
  pure text

abbrev pub write_conf : Result Text → Exec Files Text
write_conf = write_conf_on completed

-- `repr` gives the text of the values that `str` formats by `repr`: floats, lists and dicts.
module _ (repr : Json → Text) where
  -- `str(value)`
  unfoldable pub str_of : Json → Text
  unfolding Decimal.str
  str_of null = codes "None"
  str_of (bool b) = if b then codes "True" else codes "False"
  str_of (num n) = Decimal.str n
  str_of (str s) = s
  str_of value = repr value

  -- `template.substitute(…)` with the values of the `ptp` section, and what follows it
  unfoldable pub fill_template_on : Save → Json → Json → Text → Exec Files Text
  unfolding write_conf_on
  fill_template_on save ptp interface template = do
    domain ← lift (subscript ptp "domain")
    priority1 ← lift (subscript ptp "priority1")
    priority2 ← lift (subscript ptp "priority2")
    sync_interval ← lift (subscript ptp "sync_interval")
    announce_interval ← lift (subscript ptp "announce_interval")
    delay_request_interval ← lift (subscript ptp "delay_request_interval")
    write_conf_on save (
        substitute
          ((codes "domain", str_of domain)
            ∷ (codes "priority1", str_of priority1)
            ∷ (codes "priority2", str_of priority2)
            ∷ (codes "sync_interval", str_of sync_interval)
            ∷ (codes "announce_interval", str_of announce_interval)
            ∷ (codes "delay_request_interval", str_of delay_request_interval)
            ∷ (codes "interface", str_of interface)
            ∷ [])
          template)

  abbrev pub fill_template : Json → Json → Text → Exec Files Text
  fill_template = fill_template_on completed

  unfoldable pub render_ptp4l_conf_on : Save → Exec Files Text
  unfolding read_text fill_template_on
  render_ptp4l_conf_on save = do
    config ← load_config
    ptp ← lift (subscript config "ptp")
    system ← lift (subscript config "system")
    interface ← lift (subscript system "media_nic_amber")
    template ← read_text template_path
    fill_template_on save ptp interface template

  abbrev pub render_ptp4l_conf : Exec Files Text
  render_ptp4l_conf = render_ptp4l_conf_on completed
