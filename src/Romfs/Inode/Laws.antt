-- ===== src/Romfs/Inode/Laws.antt =====
-- Where the data of a file starts, what its mode is, and the chains of hard links.
use linux_kernel.Prelude.{
  ℕ, zero, suc, ◌+◌, ◌/◌, ◌%◌, ◌^◌, ◌≤◌, ◌<◌, ◌≡◌, ◌≢◌, refl, ap, ◌∙◌, true, none, some, List,
  arith, if◌then◌else◌, ◌==◌, get_or,
}
use linux_kernel.Romfs.Format.{Dev, bytes, RomfsInode, decode, mask, fh_type, fh_exec, romfh_size}
use linux_kernel.Romfs.Inode.{
  directory, regular, symlink, header, resolve, fill_inode, metasize_of, mode_of, ops_of, modemap,
}

-- For a header at a multiple of 16 with a name of `nlen` bytes, the data starts at a multiple of 16,
-- past the header, the name and its zero, and within 15 bytes of their end.
pub fill_inode_dataoffset :
    (at nlen : ℕ) (ri : RomfsInode)
    → at % 16 ≡ 0
    → let i = fill_inode at nlen ri in
      (i.dataoffset % 16 ≡ 0)
      × (at + 16 + nlen + 1 ≤ i.dataoffset)
      × (i.dataoffset ≤ at + 16 + nlen + 1 + 15)
unfolding fill_inode metasize_of
fill_inode_dataoffset at nlen ri h = omega arith

-- The type of a header gives the file type bits of the mode, and only directories and regular files
-- get execute permission from the flag ROMFH_EXEC; symbolic links always have it.
pub mode_of_lem :
    (next : ℕ)
    → (mode_of next / 2 ^ 12 ≡ get_or modemap (fh_type next) 0 / 2 ^ 12)
      × (ops_of next ≡ directory → mode_of next ≡ (if fh_exec next then 0o040755 else 0o040644))
      × (ops_of next ≡ regular → mode_of next ≡ (if fh_exec next then 0o100755 else 0o100644))
      × (ops_of next ≡ symlink → mode_of next ≡ 0o120777)
mode_of_lem next = (ground arith, λ h. ground arith, λ h. ground arith, λ h. ground arith)

-- A chain of `n` hard links from one header position to a header that is none.
pub data Links (dev : Dev) : ℕ → ℕ → RomfsInode → ℕ → Type 0 where
  real :
      {at : ℕ} {b : List ℕ}
      → dev.read at romfh_size ≡ bytes b
      → fh_type (decode b).next ≢ 0
      → Links dev at at (decode b) 0
  link :
      {at target : ℕ} {b : List ℕ} {ri : RomfsInode} {n : ℕ}
      → dev.read at romfh_size ≡ bytes b
      → fh_type (decode b).next ≡ 0
      → Links dev (mask (decode b).spec) target ri n
      → Links dev at target ri (suc n)

-- With more rounds than links in the chain, romfs_iget's loop ends at the header that the chain of
-- hard links leads to.
pub resolve-Links :
    (dev : Dev) (fuel : ℕ) {at target : ℕ} {ri : RomfsInode} {n : ℕ}
    → Links dev at target ri n
    → n < fuel
    → resolve dev fuel at ≡ some (header target ri)
unfolding resolve
resolve-Links dev zero l h = elim h [ ]
resolve-Links dev (suc k) (real e t) h = rw (e, resolve) (ground arith)
resolve-Links dev (suc k) (link {b = b} e t l) h =
    rw (e, resolve) (ground (arith, resolve-Links dev k l (omega arith)))

resolve_link :
    (dev : Dev) (n at : ℕ) (b : List ℕ)
    → dev.read at romfh_size ≡ bytes b
    → fh_type (decode b).next ≡ 0
    → resolve dev (suc n) at ≡ resolve dev n (mask (decode b).spec)
unfolding resolve
resolve_link dev n at b e t =
    let zero_type : (fh_type (decode b).next == 0) ≡ true = ground arith in
    rw (e, resolve) (rw zero_type refl)

-- A hard link to itself is followed for ever: no number of rounds ends romfs_iget's loop.
pub resolve_cycle :
    (dev : Dev) (fuel at : ℕ) (b : List ℕ)
    → dev.read at romfh_size ≡ bytes b
    → fh_type (decode b).next ≡ 0
    → mask (decode b).spec ≡ at
    → resolve dev fuel at ≡ none
resolve_cycle dev zero at b e t s = unfold resolve in refl
resolve_cycle dev (suc n) at b e t s =
    resolve_link dev n at b e t ∙ ap (resolve dev n) s ∙ resolve_cycle dev n at b e t s
