-- ===== src/Romfs/Inode.antt =====
-- romfs_iget: from a position in the image, over a chain of hard links, to an inode.
pub mod Laws
use Prim.Native.Nat.{bit_or}
use linux_kernel.Prelude.{
  ℕ, zero, suc, ◌+◌, ◌*◌, ◌/◌, ◌%◌, ◌^◌, Bool, ◌||◌, ◌&&◌, Option, none, some, List, [], ◌∷◌,
  if◌then◌else◌, ◌==◌, get_or,
}
use linux_kernel.Prelude.Int.{ℤ, pos, negsuc}
use linux_kernel.Prelude.Errno.{enomem, eio}
use linux_kernel.Romfs.Format.{
  Dev, Read, bytes, fault, RomfsInode, decode, mask, fh_type, fh_exec, romfh_size, romfs_maxfn,
}

-- Which operations the inode gets.
pub data Ops : Type 0 where
  directory regular symlink special : Ops

pub record Inode : Type 0 where
  pub ino : ℕ
  pub mode : ℕ
  pub size : ℕ
  pub nlink : ℕ
  pub metasize : ℕ
  pub dataoffset : ℕ
  pub blocks : ℕ
  pub ops : Ops
  pub rdev : ℕ × ℕ

-- iget_locked: no memory, an inode that is in the cache, or a new one to fill in.
pub data Locked : Type 0 where
  nomem new : Locked
  cached : Inode → Locked

pub data Iget : Type 0 where
  inode : Inode → Iget
  error : ℤ → Iget

-- romfs_modemap.
abbrev pub modemap : List ℕ
modemap = 0 ∷ 0o040644 ∷ 0o100644 ∷ 0o120777 ∷ 0o060600 ∷ 0o020600 ∷ 0o140644 ∷ 0o010644 ∷ []

-- The switch over the type, and S_IXUGO and S_IRWXUGO.
abbrev pub ops_of : ℕ → Ops
ops_of next =
    if fh_type next == 1
    then directory
    else if fh_type next == 2
    then regular
    else if fh_type next == 3
    then symlink
    else special

abbrev pub mode_of : ℕ → ℕ
mode_of next =
    let mode = get_or modemap (fh_type next) 0 in
    if (fh_type next == 1 || fh_type next == 2) && fh_exec next
    then bit_or mode 0o111
    else if fh_type next == 3
    then bit_or mode 0o777
    else mode

unfoldable pub metasize_of : ℕ → ℕ
metasize_of nlen = mask (romfh_size + nlen + 1 + 15)

unfoldable pub fill_inode : ℕ → ℕ → RomfsInode → Inode
fill_inode at nlen ri =
    let meta = metasize_of nlen in
    let size = if fh_type ri.next == 1 then meta else ri.size in
    record {
      ino = at;
      mode = mode_of ri.next;
      size = size;
      nlink = 1;
      metasize = meta;
      dataoffset = at + meta;
      blocks = (size + 511) / 512;
      ops = ops_of ri.next;
      rdev =
          if 3 == fh_type ri.next || (fh_type ri.next == 1 || fh_type ri.next == 2)
          then (0, 0)
          else (ri.spec / 2 ^ 16, ri.spec % 2 ^ 16);
    }

-- What the loop over the hard links finds.
pub data Resolved : Type 0 where
  header : ℕ → RomfsInode → Resolved
  unread : ℤ → Resolved

-- The loop has no bound of its own; `none` is a loop that goes on after so many rounds.
unfoldable pub resolve : Dev → ℕ → ℕ → Option Resolved
resolve dev zero at = none
resolve dev (suc n) at = elim (dev.read at romfh_size) [
  | fault err ↦ some (unread err)
  | bytes b ↦
      let rest = resolve dev n (mask (decode b).spec) in
      if fh_type (decode b).next == 0 then rest else some (header at (decode b))
]

-- The part below the loop.
unfoldable pub finish_iget : Dev → (ℕ → Locked) → Resolved → Iget
finish_iget dev icache (unread err) = error err
finish_iget dev icache (header at ri) = elim (dev.strnlen (at + romfh_size) romfs_maxfn) [
  | negsuc _ ↦ error eio
  | pos nlen ↦ elim (icache at) [
    | nomem ↦ error enomem
    | cached i ↦ inode i
    | new ↦ inode (fill_inode at nlen ri)
  ]
]

unfoldable pub romfs_iget : Dev → (ℕ → Locked) → ℕ → ℕ → Option Iget
romfs_iget dev icache fuel at = elim (resolve dev fuel at) [
  | none ↦ none
  | some r ↦ some (finish_iget dev icache r)
]
