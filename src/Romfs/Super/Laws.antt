-- ===== src/Romfs/Super/Laws.antt =====
-- When romfs_fill_super mounts an image, and what the checksum is.
use linux_kernel.Prelude.{
  ℕ, ◌≤◌, ◌≡◌, refl, sym, ap, ◌∙◌, Bool, true, false, not, Option, none, some, List, min, arith,
  if_cases, ◌==◌, drop,
}
use linux_kernel.Prelude.Int.{ℤ, pos}
use linux_kernel.Prelude.Errno.{enomem}
use linux_kernel.Romfs.Format.{Read, bytes, fault, be32, romfh_size, romfs_maxfn}
use linux_kernel.Romfs.Inode.{Inode, Iget, inode, error, romfs_iget}
use linux_kernel.Romfs.Super.{
  Super, Mount, word0, word1, romfs_magic, romfs_checksum, romfs_fill_super, fill_checked,
  with_root, rooted, root_at, not_romfs, too_large,
}

-- A first block that is a romfs image: its magic words, a size that can hold a header and fits the
-- device, and a checksum of zero.
pub record IsImage (mtd : Option ℕ) (rsb : List ℕ) : Type 0 where
  pub first : be32 rsb 0 ≡ word0
  pub second : be32 rsb 4 ≡ word1
  pub holds : romfh_size ≤ be32 rsb 8
  pub fits : too_large mtd (be32 rsb 8) ≡ false
  pub sums : romfs_checksum rsb (min (be32 rsb 8) 512) ≡ 0

-- What romfs_iget finds at the place of the root directory.
abbrev pub root_of : Mount → List ℕ → Option Iget
root_of w rsb =
    romfs_iget (w.dev (be32 rsb 8)) w.icache w.links (root_at (w.strnlen (drop 16 rsb) romfs_maxfn))

-- The mounted file system.
pub record IsMounted (w : Mount) (s : Super) (ret : ℤ) : Type 0 where
  pub rsb : List ℕ
  pub top : Inode
  pub readable : (w.dev 512).read 0 512 ≡ bytes rsb
  pub image : IsImage w.mtd rsb
  pub got : root_of w rsb ≡ some (inode top)
  pub root : s.root ≡ some top
  pub size : s.fs_info ≡ be32 rsb 8
  pub ret_zero : ret ≡ pos 0
  pub read_only : s.rdonly ≡ true

fill_checked_mounts :
    (w : Mount) (sb : Super) (rsb : List ℕ) (top : Inode)
    → IsImage w.mtd rsb
    → root_of w rsb ≡ some (inode top)
    → fill_checked w sb rsb
      ≡ some (with_root w.make_root (record sb { fs_info = be32 rsb 8 }) (inode top))
unfolding fill_checked
fill_checked_mounts w sb rsb top i got =
    let magic : not_romfs rsb ≡ false = ground (arith, i.first, i.second, i.holds) in
    rw (i.fits, magic, i.sums) (rw (got, fill_checked) refl)

outcome : Super → ℤ → Option (Super × ℤ)
outcome s r = some (s, r)

root_after : Option (Super × ℤ) → Option Inode
root_after none = none
root_after (some (s, r)) = s.root

none_some : {C : Type 0} {i : Inode} → ◌≡◌ {A = Option Inode} none (some i) → C
none_some e = ground arith

no_root :
    {C : Type 0} (sb s : Super) (r ret : ℤ) (i : Inode)
    → sb.root ≡ none
    → outcome sb r ≡ outcome s ret
    → s.root ≡ some i
    → C
unfolding outcome root_after
no_root sb s r ret i e h k = none_some (sym e ∙ ap root_after h ∙ k)

rooted-IsMounted :
    (w : Mount) (sb s : Super) (rsb : List ℕ) (ret : ℤ) (i : Inode) (made : Bool) (m : Option Iget)
    → (w.dev 512).read 0 512 ≡ bytes rsb
    → IsImage w.mtd rsb
    → sb.root ≡ none
    → sb.rdonly ≡ true
    → sb.fs_info ≡ be32 rsb 8
    → root_of w rsb ≡ m
    → rooted made sb m ≡ some (s, ret)
    → s.root ≡ some i
    → IsMounted w s ret
unfolding outcome
rooted-IsMounted w sb s rsb ret i made none readable im e ro si g h k = absurd (ground arith)
rooted-IsMounted w sb s rsb ret i made (some (error err)) readable im e ro si g h k =
    no_root sb s err ret i e h k
rooted-IsMounted w sb s rsb ret i false (some (inode top)) readable im e ro si g h k =
    no_root sb s enomem ret i e h k
rooted-IsMounted w sb s rsb ret i true (some (inode top)) readable im e ro si g h k = record {
  rsb = rsb;
  top = top;
  readable = readable;
  image = im;
  got = g;
  root = cc;
  size = cc;
  ret_zero = cc;
  read_only = cc;
}

is_image :
    {mtd : Option ℕ} {rsb : List ℕ}
    → too_large mtd (be32 rsb 8) ≡ false
    → not_romfs rsb ≡ false
    → not (romfs_checksum rsb (min (be32 rsb 8) 512) == 0) ≡ false
    → IsImage mtd rsb
is_image f m c = record {
  first = ground arith;
  second = ground arith;
  holds = ground arith;
  fits = f;
  sums = ground arith;
}

fill_checked-IsMounted :
    (w : Mount) (sb s : Super) (rsb : List ℕ) (ret : ℤ) (i : Inode)
    → (w.dev 512).read 0 512 ≡ bytes rsb
    → sb.root ≡ none
    → sb.rdonly ≡ true
    → fill_checked w sb rsb ≡ some (s, ret)
    → s.root ≡ some i
    → IsMounted w s ret
unfolding fill_checked outcome
fill_checked-IsMounted w sb s rsb ret i readable e ro =
    if_cases P (too_large w.mtd (be32 rsb 8)) (λ _ h k. no_root _ _ _ _ _ e h k)
      (λ fits.
        if_cases P (not_romfs rsb) (λ _ h k. no_root _ _ _ _ _ e h k)
          (λ magic.
            if_cases P (not (romfs_checksum rsb (min (be32 rsb 8) 512) == 0))
              (λ _ h k. no_root _ _ _ _ _ e h k)
              (λ sums h k.
                rooted-IsMounted w _ s rsb ret i w.make_root (root_of w rsb) readable
                  (is_image fits magic sums) e ro refl refl h k)))
  where
    P : Option (Super × ℤ) → Type 0
    P x = x ≡ some (s, ret) → s.root ≡ some i → IsMounted w s ret

-- From a super block with no root: if romfs_fill_super leaves one, then the first block could be read
-- and is a romfs image, the root is what romfs_iget finds behind the image's name, the size of the
-- file system is the one in the image, the mount is read-only, and 0 was returned.
pub romfs_fill_super-IsMounted :
    (w : Mount) (sb s : Super) (ret : ℤ) (i : Inode)
    → sb.root ≡ none
    → romfs_fill_super w sb ≡ some (s, ret)
    → s.root ≡ some i
    → IsMounted w s ret
unfolding romfs_fill_super outcome
romfs_fill_super-IsMounted w sb s ret i e =
    if_cases P w.kmalloc (λ _. by_read ((w.dev 512).read 0 512) refl)
      (λ _ h k. no_root _ s enomem ret i e h k)
  where
    start : Super
    start = record sb { maxbytes = 0xFFFFFFFF; magic = romfs_magic; rdonly = true; noatime = true }

    P : Option (Super × ℤ) → Type 0
    P x = x ≡ some (s, ret) → s.root ≡ some i → IsMounted w s ret

    by_read :
        (r : Read)
        → (w.dev 512).read 0 512 ≡ r
        → P (elim r [
          | fault err ↦ some (record start { fs_info = 512 }, err)
          | bytes rsb ↦ fill_checked w (record start { fs_info = 512 }) rsb
        ])
    by_read (fault err) g h k = no_root _ s err ret i e h k
    by_read (bytes rsb) g h k = fill_checked-IsMounted w _ s rsb ret i g e refl h k

-- With memory for the block and the root, a first block that can be read and is a romfs image, and an
-- inode found behind the image's name, romfs_fill_super returns 0 with that inode as the root.
pub romfs_fill_super_mounts :
    (w : Mount) (sb : Super) (rsb : List ℕ) (top : Inode)
    → w.kmalloc ≡ true
    → w.make_root ≡ true
    → (w.dev 512).read 0 512 ≡ bytes rsb
    → IsImage w.mtd rsb
    → root_of w rsb ≡ some (inode top)
    → (s : Super) × (romfs_fill_super w sb ≡ some (s, pos 0)) × (s.root ≡ some top)
unfolding romfs_fill_super
romfs_fill_super_mounts w sb rsb top k m r i g = (
  record {
    maxbytes = 0xFFFFFFFF;
    magic = romfs_magic;
    rdonly = true;
    noatime = true;
    fs_info = be32 rsb 8;
    root = some top;
  },
  rw k (rw (r, romfs_fill_super) (fill_checked_mounts w _ rsb top i g ∙ rw m refl)),
  refl,
)
