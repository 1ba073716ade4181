-- ===== src/Romfs/Tests.antt =====
-- A small image with a root directory and two files, "x" and "y", and the theorems at it.
use linux_kernel.Prelude.{
  same_text, ℕ, zero, suc, ◌+◌, ◌≡◌, refl, true, false, none, some, List, [], ◌∷◌, arith,
  if◌then◌else◌, ◌==◌, leb, get_or, inl,
}
use linux_kernel.Prelude.Int.{pos}
use linux_kernel.Prelude.Errno.{eio}
use linux_kernel.Romfs.Format.{Dev, bytes, fault, decode, be32}
use linux_kernel.Romfs.Page.{Page, File}
use linux_kernel.Romfs.Page.Laws.{window}
use linux_kernel.Romfs.Inode.{
  Inode, inode, new, resolve, header, fill_inode, romfs_iget, finish_iget,
}
use linux_kernel.Romfs.Inode.Laws.{Links, real, link, resolve-Links, resolve_cycle}
use linux_kernel.Romfs.Dir.{finished, romfs_readdir}
use linux_kernel.Romfs.Dir.Chain.{Item, Chain, last, entry, visible}
use linux_kernel.Romfs.Dir.Listing.{roomy, romfs_readdir_lem}
use linux_kernel.Romfs.Super.{
  Super, Mount, romfs_fill_super, fill_checked, romfs_checksum, checksum_words,
}
use linux_kernel.Romfs.Super.Laws.{IsImage, IsMounted, root_of, romfs_fill_super-IsMounted}

abbrev image : List ℕ
image =
    45 ∷ 114 ∷ 111 ∷ 109 ∷ 49 ∷ 102 ∷ 115 ∷ 45 ∷ 0 ∷ 0 ∷ 0 ∷ 128 ∷ 24 ∷ 185 ∷ 181 ∷ 37 ∷ 105 ∷ 109
    ∷ 103 ∷ 0 ∷ 0 ∷ 0 ∷ 0 ∷ 0 ∷ 0 ∷ 0 ∷ 0 ∷ 0 ∷ 0 ∷ 0 ∷ 0 ∷ 0 ∷ 0 ∷ 0 ∷ 0 ∷ 9 ∷ 0 ∷ 0 ∷ 0 ∷ 64 ∷ 0
    ∷ 0 ∷ 0 ∷ 0 ∷ 0 ∷ 0 ∷ 0 ∷ 0 ∷ 46 ∷ 0 ∷ 0 ∷ 0 ∷ 0 ∷ 0 ∷ 0 ∷ 0 ∷ 0 ∷ 0 ∷ 0 ∷ 0 ∷ 0 ∷ 0 ∷ 0 ∷ 0 ∷ 0
    ∷ 0 ∷ 0 ∷ 98 ∷ 0 ∷ 0 ∷ 0 ∷ 0 ∷ 0 ∷ 0 ∷ 0 ∷ 20 ∷ 0 ∷ 0 ∷ 0 ∷ 0 ∷ 120 ∷ 0 ∷ 0 ∷ 0 ∷ 0 ∷ 0 ∷ 0 ∷ 0
    ∷ 0 ∷ 0 ∷ 0 ∷ 0 ∷ 0 ∷ 0 ∷ 0 ∷ 0 ∷ 0 ∷ 0 ∷ 0 ∷ 2 ∷ 0 ∷ 0 ∷ 0 ∷ 0 ∷ 0 ∷ 0 ∷ 0 ∷ 0 ∷ 0 ∷ 0 ∷ 0 ∷ 0
    ∷ 121 ∷ []

abbrev disk : ℕ → ℕ
disk p = get_or image p 0

abbrev text_length : ℕ → ℕ → ℕ
text_length p zero = 0
text_length p (suc n) = if disk p == 0 then 0 else suc (text_length (p + 1) n)

-- A device of 1024 bytes with the image at its start.
abbrev device : ℕ → Dev
device size = record {
  read = λ p n. if leb (p + n) 1024 then bytes (window disk p n) else fault eio;
  strnlen = λ p n. pos (text_length p n);
  strcmp = λ p name n. pos (if same_text (window disk p (text_length p 127)) name then 1 else 0);
  maxsize = size;
}

abbrev file_x : File
file_x = record { name = some (120 ∷ []); i_size = 20; i_dataoffset = 96 }

abbrev header_at : ℕ → List ℕ
header_at p = window disk p 16

abbrev item : ℕ → List ℕ → Item
item p name = record { offset = p; header = decode (header_at p); name = name }

abbrev items : List Item
items = item 64 (120 ∷ []) ∷ item 96 (121 ∷ []) ∷ []

entries : Chain (device 128) 64 items
unfolding decode be32
entries =
    entry (omega arith) (omega arith) refl refl refl
      (entry (omega arith) (omega arith) refl refl refl (last (inl refl)))

romfs_readdir_lem_example :
    romfs_readdir (device 128) (some (121 ∷ [])) roomy 3 32 (record { at = 0; emitted = [] })
    ≡ some (finished (record { at = 128; emitted = visible (121 ∷ []) items }))
unfolding decode
romfs_readdir_lem_example =
    romfs_readdir_lem (device 128) (121 ∷ []) 3 32 {b = header_at 32} refl entries (omega arith)

-- A device with a hard link at 32 to 64, which is a regular file, and one at 16 to itself.
abbrev link_bytes : ℕ → List ℕ
link_bytes to = 0 ∷ 0 ∷ 0 ∷ 0 ∷ 0 ∷ 0 ∷ 0 ∷ to ∷ []

abbrev linked_bytes : ℕ → List ℕ
linked_bytes at =
    if at == 32 then link_bytes 64 else if at == 16 then link_bytes 16 else header_at 64

abbrev linked : Dev
linked = record (device 128) { read = λ at n. bytes (linked_bytes at) }

link_to_x : Links linked 32 64 (decode (header_at 64)) 1
unfolding decode be32
link_to_x = link refl refl (real refl (ground arith))

resolve-Links_example : resolve linked 2 32 ≡ some (header 64 (decode (header_at 64)))
resolve-Links_example = resolve-Links linked 2 link_to_x (omega arith)

resolve_cycle_example : resolve linked 1000 16 ≡ none
unfolding decode be32
resolve_cycle_example = resolve_cycle linked 1000 16 (link_bytes 16) refl refl refl

-- Mounting the image.
abbrev mount : Mount
mount = record {
  dev = device;
  mtd = none;
  kmalloc = true;
  make_root = true;
  icache = λ _. new;
  strnlen = λ text n. 3;
  links = 2;
}

abbrev no_super : Super
no_super = record {
  maxbytes = 0;
  magic = 0;
  rdonly = false;
  noatime = false;
  fs_info = 0;
  root = none;
}

abbrev block : List ℕ
block = window disk 0 512

block-IsImage : IsImage none block
unfolding be32 romfs_checksum checksum_words
block-IsImage = record {
  first = refl;
  second = refl;
  holds = omega arith;
  fits = refl;
  sums = refl;
}

abbrev top : Inode
top = fill_inode 32 1 (decode (header_at 32))

root_found : root_of mount block ≡ some (inode top)
unfolding be32 decode romfs_iget resolve finish_iget
root_found = refl

abbrev mounted : Super
mounted = record {
  maxbytes = 0xFFFFFFFF;
  magic = 0x7275;
  rdonly = true;
  noatime = true;
  fs_info = 128;
  root = some top;
}

mount_result : romfs_fill_super mount no_super ≡ some (mounted, pos 0)
unfolding romfs_fill_super fill_checked be32 decode romfs_iget resolve finish_iget romfs_checksum
    checksum_words
mount_result = refl

romfs_fill_super-IsMounted_example : IsMounted mount mounted (pos 0)
romfs_fill_super-IsMounted_example =
    romfs_fill_super-IsMounted mount no_super mounted (pos 0) top refl mount_result refl
