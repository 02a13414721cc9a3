-- ===== src/Fs/Permission.antt =====
-- The permission bits of kernel/src/fs/vfs.rs.
use vibra.Fs.{new_permissions, to_octal}
use vibra.Common.{ℕ, ◌<◌, ◌≡◌, refl, true, ◌==◌, ==_iff, passes, read_table}

mode_table : passes (λ m. to_octal (new_permissions m) == m) 0 512 ≡ true
unfolding passes to_octal new_permissions
mode_table = refl

-- Every mode below 0o1000 is read back by `to_octal` from the flags that `Permissions::new` makes
-- of it.
pub to_octal-new_permissions : (rwx : ℕ) → rwx < 512 → to_octal (new_permissions rwx) ≡ rwx
to_octal-new_permissions rwx h = (==_iff _ rwx).0 (read_table 512 _ mode_table rwx h)
