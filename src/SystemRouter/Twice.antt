-- ===== src/SystemRouter/Twice.antt =====
-- A request that configures one interface twice, while another netplan file defines it.
use mo_ip_checker.Base.{
  ap, sym, ◌∙◌, arith, String, ◌≡◌, refl, true, some, [], ◌∷◌, ==-self, string_eq,
}
use mo_ip_checker.Base.Dict
use mo_ip_checker.Base.Dict.{Dict, get-remove}
use mo_ip_checker.Base.Exec.{ok, raised, key_error}
use mo_ip_checker.Json.{Json, obj, Fields, fields}
use mo_ip_checker.SystemRouter.Netplan.{
  Write, Disk, Yaml, File, Netplan, NicIpConfig, mentions, mentioned, delete_all, delete_from,
  ethernets_of, neutralize_file, neutralize, is_foreign, rewrite_found, rewrite_loaded,
  write_netplan, disable_cloud_init, in_files,
}
use mo_ip_checker.SystemRouter.Conflicts.{or_empty}

delete_all-twice :
    (i : String) (fs : Dict String Json) (v : Json)
    → Dict.get i fs ≡ some v
    → delete_all (i ∷ i ∷ []) fs ≡ raised key_error
unfolding delete_all
delete_all-twice i fs v h = rw (h, get-remove i i fs, ==-self, delete_all)

mentioned-twice :
    (i : String) (fs : Fields) (v : Json)
    → Dict.get i (fields fs) ≡ some v
    → mentioned (obj fs) (i ∷ i ∷ []) ≡ ok (i ∷ i ∷ [])
unfolding mentioned mentions
mentioned-twice i fs v h = rw (h, mentioned)

kept-files :
    (Y : Yaml) (D : Disk Y.Document) (n : Netplan Y.Document)
    → (disable_cloud_init Y D n).1.files ≡ n.files
unfolding disable_cloud_init
kept-files Y D n = ground arith

module _ (Y : Yaml) (i : String) (file : File Y.Document) (loaded v : Json) (fs : Fields) where
  neutralize_file-twice :
      (write : Write Y.Document)
      → Y.safe_load file.text ≡ ok loaded
      → ethernets_of (or_empty loaded) ≡ ok (obj fs)
      → Dict.get i (fields fs) ≡ some v
      → neutralize_file Y write (i ∷ i ∷ []) file ≡ raised key_error
  unfolding neutralize_file rewrite_loaded rewrite_found delete_from
  neutralize_file-twice write read eth there =
      rw
        (
          read,
          eth,
          mentioned-twice i fs v there,
          delete_all-twice i (fields fs) v there,
          neutralize_file,
          rewrite_loaded,
          rewrite_found,
          delete_from,
        )
        refl

  -- If the file for cloud-init can be written, and the first netplan file is another program's, can
  -- be loaded, and has a dict of ethernets with an interface that both of the two configurations of
  -- a request name, `_write_netplan` raises a `KeyError` after it has disabled the network
  -- configuration of cloud-init, and no netplan file has changed.
  pub write_netplan-twice :
      (D : Disk Y.Document) (n : Netplan Y.Document) (first second : NicIpConfig) (name : String)
      (rest : Dict String (File Y.Document))
      → n.files ≡ (name, file) ∷ rest
      → (disable_cloud_init Y D n).0 ≡ ok tt
      → is_foreign name ≡ true
      → Y.safe_load file.text ≡ ok loaded
      → ethernets_of (or_empty loaded) ≡ ok (obj fs)
      → Dict.get i (fields fs) ≡ some v
      → first.interface ≡ i
      → second.interface ≡ i
      → write_netplan Y D (first ∷ second ∷ []) n ≡ (raised key_error, (disable_cloud_init Y D n).1)
  unfolding write_netplan disable_cloud_init in_files neutralize
  write_netplan-twice D n first second name rest h disabled foreign read eth there one two =
      let o = disable_cloud_init Y D n in
      let done : o ≡ (ok tt, o.1) = ap (λ r. (r, o.1)) disabled in
      let same = kept-files Y D n ∙ h in
      rw
        (
          done,
          same,
          foreign,
          one,
          two,
          neutralize_file-twice (D.foreign name) read eth there,
          neutralize,
        )
        (ap (λ files. (raised key_error, record o.1 { files = files })) (sym same))
