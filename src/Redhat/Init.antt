-- ===== src/Redhat/Init.antt =====
-- drv_init, drv_close, ncf_get_aug and ncf_put_aug of src/drv_redhat.c.
use fbsd_netcf.Prelude.{ℕ, Bool, Option, none, Text, codes, ℤ, if◌then◌else◌}
use fbsd_netcf.Netcf.{Netcf, noerror}
use fbsd_netcf.Linux.{LinuxDriver}
use fbsd_netcf.Xml.{LibXml}
use fbsd_netcf.Redhat.Define.{drv_entry, drv_get_aug, drv_put_aug}
use fbsd_netcf.Posix.{SocketCalls}
use fbsd_netcf.Linux.Init
use fbsd_netcf.Linux.Init.{Opened, Resources, LibNl, init_driver}

module _ {A V D S : Type 0} (X : LibXml D S V) (nl : LibNl) (calls : SocketCalls)
    (root_ok : V → Text → Bool) (augeas_xfm_common : ℕ) where
  -- drv_init
  unfoldable pub drv_init :
      Netcf (LinuxDriver A V) → Opened → ℤ × Netcf (LinuxDriver A V) × Resources S
  drv_init =
      init_driver X nl calls root_ok augeas_xfm_common (codes "redhat-get.xsl")
        (codes "redhat-put.xsl")

module _ {A V S : Type 0} where
  -- drv_close
  unfoldable pub drv_close :
      Netcf (LinuxDriver A V) → Resources S → Netcf (LinuxDriver A V) × Resources S
  drv_close = Init.drv_close

-- API_ENTRY in the functions for tests, with drv_entry of the backend.
unfoldable pub enter_aug : {A V : Type 0} → Netcf (LinuxDriver A V) → Netcf (LinuxDriver A V)
enter_aug {A = A} {V = V} n =
    let n' : Netcf (LinuxDriver A V) = record n { errcode = noerror; errdetails = none } in
    if n'.driver then drv_entry n' else n'

module _ {A V D S : Type 0} (X : LibXml D S V) where
  -- ncf_get_aug and ncf_put_aug
  unfoldable pub ncf_get_aug :
      S → Text → Netcf (LinuxDriver A V) → Option ((ℤ × Option Text) × Netcf (LinuxDriver A V))
  ncf_get_aug get ncf_xml n = drv_get_aug X get ncf_xml (enter_aug n)

  unfoldable pub ncf_put_aug :
      S → Text → Netcf (LinuxDriver A V) → Option ((ℤ × Option Text) × Netcf (LinuxDriver A V))
  ncf_put_aug put aug_xml n = drv_put_aug X put aug_xml (enter_aug n)
