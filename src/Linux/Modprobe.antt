-- ===== src/Linux/Modprobe.antt =====
-- The aliases for bonding in /etc/modprobe.d: modprobed_alias_bond and modprobed_unalias_bond of src/dutil_linux.c.
use fbsd_netcf.Prelude.{
  ℕ, Bool, true, false, not, ◌&&◌, List, ◌++◌, none, some, Text, codes, if◌then◌else◌, is_neg,
  is_zero,
}
use fbsd_netcf.Netcf.{Netcf, enomem, eother, set_errcode, allocate, failed}
use fbsd_netcf.Linux.{Augeas, AugeasPv, LinuxDriver, get_augeas, holding, is_pos}
use fbsd_netcf.Linux.Format.{aug_fmt_match}

-- The paths that are formatted.
pub last_alias : Text
last_alias = codes "/files/etc/modprobe.d/netcf.conf/alias[last()]"

pub alias_of : Text → Text
alias_of name = codes "/files/etc/modprobe.d/*/alias[ . = '" ++ (name ++ codes "']")

module _ {A V : Type 0} (L : Augeas A V) (contents : ℕ → List AugeasPv) where
  open L use {aug_rm, aug_set, aug_insert, aug_match}

  -- The new node for an alias. The result of the last aug_set is not tested.
  unfoldable pub add_alias : Text → A → Netcf (LinuxDriver A V) → Bool × Netcf (LinuxDriver A V)
  add_alias name aug n =
      let (ok, n₁) = allocate n in
      let (nmatches, _) = aug_match aug last_alias in
      let (r, inserted) = aug_insert aug last_alias (codes "alias") false in
      let aug' : A = if is_pos L contents nmatches then inserted else aug in
      if not ok
      then (false, set_errcode enomem n₁)
      else if is_pos L contents nmatches && is_neg r
      then (false, set_errcode eother (holding inserted n₁))
      else (true, holding (aug_set aug' last_alias (some name)).1 n₁)

  -- The store of the module's name.
  unfoldable pub set_modulename : Text → A → Netcf (LinuxDriver A V) → Netcf (LinuxDriver A V)
  set_modulename name aug n =
      let (ok, n₁) = allocate n in
      let (r, aug') = aug_set aug (alias_of name ++ codes "/modulename") (some (codes "bonding")) in
      if not ok
      then set_errcode enomem n₁
      else if is_neg r
      then set_errcode eother (holding aug' n₁)
      else holding aug' n₁

  -- The two parts with the tree that the handle holds. It holds one, since aug_fmt_match has left no error.
  unfoldable pub alias_parts : Text → Bool → Netcf (LinuxDriver A V) → Netcf (LinuxDriver A V)
  unfolding add_alias set_modulename
  alias_parts name absent n =
      let added : Bool × Netcf (LinuxDriver A V) = elim n.world.augeas [
        | none ↦ (false, n)
        | some aug ↦ if absent then add_alias name aug n else (true, n)
      ] in
      let named : Netcf (LinuxDriver A V) = elim added.1.world.augeas [
        | none ↦ added.1
        | some aug ↦ set_modulename name aug added.1
      ] in
      if added.0 then named else added.1

  unfoldable pub modprobed_alias_bond : Text → Netcf (LinuxDriver A V) → Netcf (LinuxDriver A V)
  unfolding alias_parts
  modprobed_alias_bond name n =
      let (_, n₁) = get_augeas L contents n in
      let ((nmatches, _), n₂) = aug_fmt_match L contents (alias_of name) n₁ in
      if failed n₁ then n₁ else if failed n₂ then n₂ else alias_parts name (is_zero nmatches) n₂

  unfoldable pub modprobed_unalias_bond : Text → Netcf (LinuxDriver A V) → Netcf (LinuxDriver A V)
  modprobed_unalias_bond name n =
      let (aug, n₁) = get_augeas L contents n in
      let (ok, n₂) = allocate n₁ in
      let removed : Netcf (LinuxDriver A V) = elim aug [
        | none ↦ n₂
        | some a ↦
            let (r, a') = aug_rm a (alias_of name ++ codes "[modulename = 'bonding']") in
            if is_neg r then set_errcode eother (holding a' n₂) else holding a' n₂
      ] in
      if failed n₁ then n₁ else if not ok then set_errcode enomem n₂ else removed
