-- ===== src/ConfigStore/Atomic.antt =====
-- What the writes of frontend/services/config_store.py leave on the disk, however they come out.
use mathlib.Core.Path.{subst}
use mo_ip_checker.Base.{
  String, ◌≡◌, refl, sym, some, none, [], ◌∷◌, Text, ◌==◌, string_eq, if◌then◌else◌, arith,
}
use mo_ip_checker.Base.Dict
use mo_ip_checker.Base.Dict.{Dict}
use mo_ip_checker.Base.Exec.{Exec, Result, ok, raised, lift, pure, bind_from, ◌>>=◌}
use mo_ip_checker.Json.{Json, subscript}
use mo_ip_checker.Files.{Content, json, plain, Files, read_text, replace-put, get-replaced}
use mo_ip_checker.ConfigStore.Store.{
  config_path, config_tmp_path, conf_path, conf_tmp_path, template_path, Save, completed, refused,
  cut, kept, put_file, load_config, updated, save_config_on, update_section_on, write_conf_on,
  fill_template_on, render_ptp4l_conf_on,
}
use mo_ip_checker.ConfigStore.Saving.{load_config-lift, read_text-lift}

-- A call that returns `a` has put `content a` in place of the file at `path`, without a temporary file,
-- and changed no other path. One that raises has changed nothing but the temporary file.
unfoldable pub Atomic :
    {A : Type 0} → String → String → (A → Content) → Files → Result A × Files → Type 0
Atomic path tmp content fs (raised e, after) = Dict.remove tmp after ≡ Dict.remove tmp fs
Atomic path tmp content fs (ok a, after) =
    (p : String)
    → Dict.get p after
      ≡ (if p == path then some (content a) else if p == tmp then none else Dict.get p fs)

remove-put :
    (k : String) (c : Content) (fs : Files) → Dict.remove k (Dict.put k c fs) ≡ Dict.remove k fs
unfolding Dict.remove Dict.put
remove-put k c [] = ground arith
remove-put k c ((j, w) ∷ fs) = ground (arith, remove-put k c fs)

module _ (path tmp : String) (fs : Files) where
  put_file-Atomic :
      (save : Save) (c : Content) → Atomic path tmp (λ _. c) fs (put_file save tmp path c fs)
  unfolding put_file Atomic
  put_file-Atomic completed c =
      subst (Atomic path tmp (λ _. c) fs) (sym (replace-put tmp path c fs))
        (λ p. get-replaced p tmp path c fs)
  put_file-Atomic refused c = refl
  put_file-Atomic (cut e part) c = remove-put tmp (plain part) fs
  put_file-Atomic kept c = remove-put tmp c fs

  -- A call that goes on to return a value
  Atomic-then :
      {A : Type 0} (content : A → Content) (a : A) (o : Result (Unit {0}) × Files)
      → Atomic path tmp (λ _. content a) fs o
      → Atomic path tmp content fs (bind_from o (λ _. pure a))
  unfolding Atomic
  Atomic-then content a (ok _, after) h = h
  Atomic-then content a (raised e, after) h = h

  Atomic-lift :
      {A B : Type 0} (content : A → Content) (r : Result B) (k : B → Exec Files A)
      → ((b : B) → Atomic path tmp content fs (k b fs))
      → Atomic path tmp content fs ((lift r >>= k) fs)
  unfolding Atomic
  Atomic-lift content (ok b) k h = h b
  Atomic-lift content (raised e) k h = refl

  -- A read changes no file.
  Atomic-read :
      {A B : Type 0} (content : A → Content) (m : Exec Files B) (k : B → Exec Files A)
      → m fs ≡ lift (m fs).0 fs
      → ((b : B) → Atomic path tmp content fs (k b fs))
      → Atomic path tmp content fs ((m >>= k) fs)
  Atomic-read content m k e h =
      subst (λ o. Atomic path tmp content fs (bind_from o k)) (sym e)
        (Atomic-lift content (m fs).0 k h)

-- However the write of config.json comes out, whether `open` is refused, the write ends with any
-- exception after any part of the text, or the replacement is refused: a call of `save_config` that
-- returns has put the whole new value in place of config.json, without a temporary file and with
-- every other path as before, and a call that raises has changed nothing but the temporary file. If
-- all is written, the call returns.
pub save_config_on-Atomic :
    (save : Save) (config : Json) (fs : Files)
    → Atomic config_path config_tmp_path (λ _. json config) fs (save_config_on save config fs)
      × ((save_config_on completed config fs).0 ≡ ok tt)
unfolding save_config_on put_file
save_config_on-Atomic save config fs =
    (put_file-Atomic config_path config_tmp_path fs save (json config), rw replace-put)

-- However the write of config.json comes out: a call of `update_section` that returns has put the
-- whole configuration that it returns in place of config.json, without a temporary file and with
-- every other path as before, and a call that raises has changed nothing but the temporary file.
pub update_section_on-Atomic :
    (save : Save) (section : String) (patch : Dict String Json) (fs : Files)
    → Atomic config_path config_tmp_path json fs (update_section_on save section patch fs)
unfolding update_section_on save_config_on
update_section_on-Atomic save section patch fs =
    Atomic-read config_path config_tmp_path fs json load_config _ (load_config-lift fs) λ config.
      Atomic-lift config_path config_tmp_path fs json (updated section patch config) _ λ new.
        Atomic-then config_path config_tmp_path fs json new _
          (put_file-Atomic config_path config_tmp_path fs save (json new))

module _ (repr : Json → Text) (save : Save) where
  write_conf_on-Atomic :
      (result : Result Text) (fs : Files)
      → Atomic conf_path conf_tmp_path plain fs (write_conf_on save result fs)
  unfolding write_conf_on
  write_conf_on-Atomic result fs = Atomic-lift conf_path conf_tmp_path fs plain result _ λ text.
      Atomic-then conf_path conf_tmp_path fs plain text _
        (put_file-Atomic conf_path conf_tmp_path fs save (plain text))

  fill_template_on-Atomic :
      (ptp interface : Json) (template : Text) (fs : Files)
      → Atomic conf_path conf_tmp_path plain fs
          (fill_template_on repr save ptp interface template fs)
  unfolding fill_template_on
  fill_template_on-Atomic ptp interface template fs =
      let needs = Atomic-lift conf_path conf_tmp_path fs plain in
      needs (subscript ptp "domain") _ λ domain. needs (subscript ptp "priority1") _ λ priority1.
        needs (subscript ptp "priority2") _ λ priority2.
          needs (subscript ptp "sync_interval") _ λ sync.
            needs (subscript ptp "announce_interval") _ λ announce.
              needs (subscript ptp "delay_request_interval") _ λ delay. write_conf_on-Atomic _ fs

  -- However the write of ptp4l.conf comes out: a call of `render_ptp4l_conf` that returns a text
  -- has put this text in place of ptp4l.conf, without a temporary file and with every other path as
  -- before, and a call that raises has changed nothing but the temporary file.
  pub render_ptp4l_conf_on-Atomic :
      (fs : Files) → Atomic conf_path conf_tmp_path plain fs (render_ptp4l_conf_on repr save fs)
  unfolding render_ptp4l_conf_on
  render_ptp4l_conf_on-Atomic fs =
      let needs = Atomic-lift conf_path conf_tmp_path fs plain in
      Atomic-read conf_path conf_tmp_path fs plain load_config _ (load_config-lift fs) λ config.
        needs (subscript config "ptp") _ λ ptp. needs (subscript config "system") _ λ system.
          needs (subscript system "media_nic_amber") _ λ interface.
            Atomic-read conf_path conf_tmp_path fs plain (read_text template_path) _
              (read_text-lift template_path fs)
              λ template. fill_template_on-Atomic ptp interface template fs
