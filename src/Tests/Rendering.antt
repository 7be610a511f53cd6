-- ===== src/Tests/Rendering.antt =====
-- A template with both kinds of placeholders, filled from a configuration.
use mo_ip_checker.Base.{String, ◌≡◌, refl, List, [], ◌∷◌, Text, codes, nat_eq, string_eq, text_eq}
use mo_ip_checker.Base.Int.{pos, negsuc}
use mo_ip_checker.Base.Decimal
use mo_ip_checker.Base.Decimal.{str_ℕ}
use mo_ip_checker.Base.Dict
use mo_ip_checker.Base.Dict.{Dict}
use mo_ip_checker.Base.Exec.{ok}
use mo_ip_checker.Json.{Json, num, str, fields, of_dict, object, subscript}
use mo_ip_checker.Files.{json, plain, Files, read_text, read_json}
use mo_ip_checker.ConfigStore.Store.{
  config_path, template_path, load_config, render_ptp4l_conf, str_of,
}
use mo_ip_checker.ConfigStore.Template.Pieces.{
  Piece, literal, bare, in_braces, printed, ArePieces, filled, is_name, ends_name,
}
use mo_ip_checker.ConfigStore.Rendering.{Settings, values, render_ptp4l_conf-printed}

abbrev ptp : Dict String Json
ptp =
    ("domain", num (pos 127))
    ∷ ("priority1", num (pos 128))
    ∷ ("priority2", num (pos 128))
    ∷ ("sync_interval", num (negsuc 2))
    ∷ ("announce_interval", num (pos 0))
    ∷ ("delay_request_interval", num (negsuc 2))
    ∷ []

abbrev system : Dict String Json
system = ("media_nic_amber", str (codes "eth0")) ∷ []

abbrev config : Dict String Json
config = ("ptp", object ptp) ∷ ("system", object system) ∷ []

abbrev pieces : List Piece
pieces =
    literal (codes "[")
    ∷ bare b'i' (codes "nterface")
    ∷ literal (codes "]\ndomainNumber ")
    ∷ in_braces b'd' (codes "omain")
    ∷ literal (codes "\n")
    ∷ []

abbrev template : Text
template = codes "[$interface]\ndomainNumber ${domain}\n"

template_run : printed pieces ≡ template
unfolding printed
template_run = refl

abbrev disk : Files
disk = (config_path, json (object config)) ∷ (template_path, plain (printed pieces)) ∷ []

abbrev no_repr : Json → Text
no_repr j = []

settings : Settings disk
unfolding load_config read_json subscript fields of_dict Dict.get string_eq
settings = record {
  config = object config;
  ptp = object ptp;
  system = object system;
  domain = num (pos 127);
  priority1 = num (pos 128);
  priority2 = num (pos 128);
  sync_interval = num (negsuc 2);
  announce_interval = num (pos 0);
  delay_request_interval = num (negsuc 2);
  interface = str (codes "eth0");
  loaded = refl;
  has_ptp = refl;
  has_system = refl;
  has_interface = refl;
  has_domain = refl;
  has_priority1 = refl;
  has_priority2 = refl;
  has_sync_interval = refl;
  has_announce_interval = refl;
  has_delay_request_interval = refl;
}

pieces-ArePieces : ArePieces pieces
unfolding is_name ends_name printed nat_eq
pieces-ArePieces = (refl, (refl, refl, (refl, (refl, (refl, tt)))))

render_ptp4l_conf-printed_example :
    (render_ptp4l_conf no_repr disk).0 ≡ filled (values no_repr settings) pieces
render_ptp4l_conf-printed_example =
    render_ptp4l_conf-printed no_repr disk settings pieces pieces-ArePieces
      (unfold read_text Dict.get string_eq in refl)

filled_run : filled (values no_repr settings) pieces ≡ ok (codes "[eth0]\ndomainNumber 127\n")
unfolding filled str_of settings Decimal.str str_ℕ text_eq nat_eq
filled_run = refl
