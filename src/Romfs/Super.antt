-- ===== src/Romfs/Super.antt =====
-- Mounting: romfs_checksum, romfs_fill_super and what is around it. ROMSB_WORD0 and ROMSB_WORD1 are
-- the texts "-rom" and "1fs-" read as big-endian words.
pub mod Laws
use linux_kernel.Prelude.{
  ℕ, zero, suc, ◌+◌, ◌-◌, ◌*◌, ◌/◌, ◌%◌, ◌^◌, min, Bool, true, false, not, ◌||◌, ◌&&◌, Option, none,
  some, List, [], ◌∷◌, if◌then◌else◌, ◌==◌, ltb, leb, drop, get_or,
}
use linux_kernel.Prelude.Words.{add32, u64_mod}
use Prim.Native.Nat.{bit_or}
use linux_kernel.Prelude.Int.{ℤ, pos, eqb_ℤ}
use linux_kernel.Prelude.Errno.{enomem, einval}
use linux_kernel.Romfs.Format.{Dev, Read, bytes, fault, mask, be32, romfh_size, romfs_maxfn}
use linux_kernel.Romfs.Inode.{Inode, Locked, Iget, inode, error, romfs_iget}

abbrev pub word0 : ℕ
word0 = 0x2d726f6d

abbrev pub word1 : ℕ
word1 = 0x3166732d

abbrev pub romfs_magic : ℕ
romfs_magic = 0x7275

-- ROMBSIZE and ROMBSBITS.
abbrev pub block_size : ℕ
block_size = 1024

-- The sum of `words` big-endian words, modulo 2^32.
unfoldable pub checksum_words : ℕ → List ℕ → ℕ → ℕ
checksum_words zero data' sum = sum
checksum_words (suc n) data' sum = checksum_words n (drop 4 data') (add32 sum (be32 data' 0))

unfoldable pub romfs_checksum : List ℕ → ℕ → ℕ
romfs_checksum data' size = checksum_words (size / 4) data' 0

-- The fields of the super block that romfs_fill_super sets. `fs_info` is what romfs_maxsize reads.
pub record Super : Type 0 where
  pub maxbytes : ℕ
  pub magic : ℕ
  pub rdonly : Bool
  pub noatime : Bool
  pub fs_info : ℕ
  pub root : Option Inode

-- What surrounds the mount: the device for each size of the image, the size of the MTD device if
-- there is one, whether kmalloc and d_make_root succeed, the inode cache, and strnlen of a text.
pub record Mount : Type 0 where
  pub dev : ℕ → Dev
  pub mtd : Option ℕ
  pub kmalloc : Bool
  pub make_root : Bool
  pub icache : ℕ → Locked
  pub strnlen : List ℕ → ℕ → ℕ
  pub links : ℕ

abbrev too_large : Option ℕ → ℕ → Bool
too_large none img = false
too_large (some size) img = ltb size img

-- The tests of the magic words and the size.
abbrev pub not_romfs : List ℕ → Bool
not_romfs rsb =
    not (be32 rsb 0 == word0) || not (be32 rsb 4 == word1) || ltb (be32 rsb 8) romfh_size

-- The root directory's header is past the image's own header and name.
abbrev pub root_at : ℕ → ℕ
root_at len = mask (romfh_size + len + 1 + 15)

-- The end of romfs_fill_super: the root inode, and d_make_root of it.
abbrev pub with_root : Bool → Super → Iget → Super × ℤ
with_root made sb (error err) = (sb, err)
with_root true sb (inode i) = (record sb { root = some i }, pos 0)
with_root false sb (inode i) = (sb, enomem)

abbrev pub rooted : Bool → Super → Option Iget → Option (Super × ℤ)
rooted made sb none = none
rooted made sb (some got) = some (with_root made sb got)

-- After the superblock was read.
unfoldable pub fill_checked : Mount → Super → List ℕ → Option (Super × ℤ)
fill_checked w sb rsb =
    let img = be32 rsb 8 in
    let sized = record sb { fs_info = img } in
    let top =
      romfs_iget (w.dev img) w.icache w.links (root_at (w.strnlen (drop 16 rsb) romfs_maxfn)) in
    if too_large w.mtd img
    then some (sb, einval)
    else if not_romfs rsb
    then some (sized, einval)
    else if not (romfs_checksum rsb (min img 512) == 0)
    then some (sized, einval)
    else rooted w.make_root sized top

-- `none` is a chain of hard links from the root that does not end.
unfoldable pub romfs_fill_super : Mount → Super → Option (Super × ℤ)
romfs_fill_super w sb =
    let start = record sb {
      maxbytes = 0xFFFFFFFF;
      magic = romfs_magic;
      rdonly = true;
      noatime = true;
    } in
    let probing = record start { fs_info = 512 } in
    if w.kmalloc
    then elim ((w.dev 512).read 0 512) [
      | fault err ↦ some (probing, err)
      | bytes rsb ↦ fill_checked w probing rsb
    ]
    else some (start, enomem)

-- romfs_get_tree: the block layer is tried when the MTD layer says -EINVAL.
abbrev pub tried : Option ℤ → ℤ → ℤ
tried none ret = ret
tried (some r) ret = r

pub romfs_get_tree : (mtd block : Option ℤ) → ℤ
romfs_get_tree mtd block =
    let by_mtd = tried mtd einval in if eqb_ℤ by_mtd einval then tried block by_mtd else by_mtd

-- romfs_reconfigure adds SB_RDONLY to the flags of the context, after it synced the file system.
pub romfs_reconfigure : ℕ → ℕ × ℤ
romfs_reconfigure sb_flags = (bit_or sb_flags 1, pos 0)

-- The fields that romfs_statfs sets. `bdev` and `sdev` are the encoded device numbers.
pub record Statfs : Type 0 where
  pub f_type : ℕ
  pub f_namelen : ℕ
  pub f_bsize : ℕ
  pub f_bfree : ℕ
  pub f_bavail : ℕ
  pub f_ffree : ℕ
  pub f_blocks : ℕ
  pub f_fsid : ℕ

pub romfs_statfs : Super → (bdev sdev : Option ℕ) → Statfs → Statfs
romfs_statfs sb bdev sdev buf = record {
  f_type = romfs_magic;
  f_namelen = romfs_maxfn;
  f_bsize = block_size;
  f_bfree = buf.f_ffree;
  f_bavail = buf.f_ffree;
  f_ffree = buf.f_ffree;
  f_blocks = (sb.fs_info + block_size - 1) % u64_mod / block_size;
  f_fsid = elim bdev [ some id ↦ id | none ↦ elim sdev [ some id ↦ id | none ↦ 0 ] ];
}

-- init_romfs_fs: the inode cache is given back when the file system cannot be registered.
pub record Module : Type 0 where
  pub cachep : Bool
  pub registered : Bool

pub init_romfs_fs : (cache : Bool) (register : ℤ) → Module → Module × ℤ
init_romfs_fs false register m = (record m { cachep = false }, enomem)
init_romfs_fs true register m =
    if eqb_ℤ register (pos 0)
    then (record { cachep = true; registered = true }, pos 0)
    else (record m { cachep = false }, register)

pub exit_romfs_fs : Module → Module
exit_romfs_fs m = record { cachep = false; registered = false }
