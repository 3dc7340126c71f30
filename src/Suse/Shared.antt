-- ===== src/Suse/Shared.antt =====
-- The functions of src/drv_suse.c whose text is that of src/drv_redhat.c.
use fbsd_netcf.Prelude.{ℕ, Bool, true, List, Option, Text, codes, ℤ}
use fbsd_netcf.Netcf.{Netcf, NetcfIf}
use fbsd_netcf.Posix.{Exit}
use fbsd_netcf.System.{Kernel}
use fbsd_netcf.Linux.{Augeas, AugeasPv, LinuxDriver}
use fbsd_netcf.Xml.{LibXml}
use fbsd_netcf.Redhat.Lookup
use fbsd_netcf.Redhat.Define
use fbsd_netcf.Posix.{SocketCalls}
use fbsd_netcf.Linux.Init
use fbsd_netcf.Redhat.Init.{enter_aug}
use fbsd_netcf.Linux.Kinds.{FileKind}
use fbsd_netcf.Linux.State.{Dom, LinkCaches}
use fbsd_netcf.Linux.State.Links
use fbsd_netcf.Linux.Init.{Opened, Resources, LibNl, init_driver}

abbrev pub netcf_transaction : Text
netcf_transaction = codes "/bin/false"

-- drv_entry
unfoldable pub drv_entry : {A V : Type 0} → Netcf (LinuxDriver A V) → Netcf (LinuxDriver A V)
drv_entry = Define.drv_entry

-- device_name_from_xml
unfoldable pub device_name_from_xml :
    {A V D F : Type 0}
    → Define.Documents D F
    → D
    → Netcf (LinuxDriver A V)
    → (Option Text × D) × Netcf (LinuxDriver A V)
device_name_from_xml M = Define.device_name_from_xml M

-- drv_mac_string
unfoldable pub drv_mac_string :
    {A V : Type 0}
    → Augeas A V
    → (ℕ → List AugeasPv)
    → NetcfIf
    → Netcf (LinuxDriver A V)
    → Option (NetcfIf × Netcf (LinuxDriver A V))
drv_mac_string L contents = Lookup.drv_mac_string L contents

module _ {A V D S : Type 0} (X : LibXml D S V) where
  -- drv_get_aug
  unfoldable pub drv_get_aug :
      S → Text → Netcf (LinuxDriver A V) → Option ((ℤ × Option Text) × Netcf (LinuxDriver A V))
  drv_get_aug = Define.drv_get_aug X

  -- drv_put_aug
  unfoldable pub drv_put_aug :
      S → Text → Netcf (LinuxDriver A V) → Option ((ℤ × Option Text) × Netcf (LinuxDriver A V))
  drv_put_aug = Define.drv_put_aug X

module _ {A V : Type 0} (k : Kernel (LinuxDriver A V)) where
  -- drv_if_status
  unfoldable pub drv_if_status :
      NetcfIf → Bool → Netcf (LinuxDriver A V) → (ℤ × Option ℕ) × Netcf (LinuxDriver A V)
  drv_if_status = Define.drv_if_status k

  -- drv_change_begin, drv_change_rollback and drv_change_commit. Here NETCF_TRANSACTION is set in the file.
  unfoldable pub drv_change_begin : Exit → ℕ → Netcf (LinuxDriver A V) → ℤ × Netcf (LinuxDriver A V)
  drv_change_begin stale = Define.drv_change_begin k stale netcf_transaction

  unfoldable pub drv_change_rollback :
      Exit → ℕ → Netcf (LinuxDriver A V) → ℤ × Netcf (LinuxDriver A V)
  drv_change_rollback stale = Define.drv_change_rollback k stale netcf_transaction

  unfoldable pub drv_change_commit :
      Exit → ℕ → Netcf (LinuxDriver A V) → ℤ × Netcf (LinuxDriver A V)
  drv_change_commit stale = Define.drv_change_commit k stale netcf_transaction

module _ {A V D S : Type 0} (X : LibXml D S V) (nl : LibNl) (calls : SocketCalls)
    (augeas_xfm_common : ℕ) where
  -- drv_init, which does not look at the root
  unfoldable pub drv_init :
      Netcf (LinuxDriver A V) → Opened → ℤ × Netcf (LinuxDriver A V) × Resources S
  drv_init =
      init_driver X nl calls (λ v root. true) augeas_xfm_common (codes "suse-get.xsl")
        (codes "suse-put.xsl")

module _ {A V S : Type 0} where
  -- drv_close
  unfoldable pub drv_close :
      Netcf (LinuxDriver A V) → Resources S → Netcf (LinuxDriver A V) × Resources S
  drv_close = Init.drv_close

module _ {D N W : Type 0} (dom : Dom D N) (nl : LinkCaches W) (stat : W → Text → FileKind)
    (readdir : W → Text → List Text) (decimal : ℕ → Text) where
  -- drv_xml_state
  unfoldable pub drv_xml_state :
      (D → ℤ × Option Text) → ℕ → NetcfIf → Netcf W → Option (Option Text × Netcf W)
  drv_xml_state = Links.drv_xml_state dom nl stat readdir decimal

module _ {A V D S : Type 0} (X : LibXml D S V) where
  -- ncf_get_aug and ncf_put_aug
  unfoldable pub ncf_get_aug :
      S → Text → Netcf (LinuxDriver A V) → Option ((ℤ × Option Text) × Netcf (LinuxDriver A V))
  ncf_get_aug get ncf_xml n = drv_get_aug X get ncf_xml (enter_aug n)

  unfoldable pub ncf_put_aug :
      S → Text → Netcf (LinuxDriver A V) → Option ((ℤ × Option Text) × Netcf (LinuxDriver A V))
  ncf_put_aug put aug_xml n = drv_put_aug X put aug_xml (enter_aug n)
