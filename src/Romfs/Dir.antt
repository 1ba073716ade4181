-- ===== src/Romfs/Dir.antt =====
-- romfs_readdir and romfs_lookup.
pub mod Chain
pub mod Listing
pub mod Finding
use Prim.Native.Nat.{bit_or}
use linux_kernel.Prelude.{
  ℕ, zero, suc, ◌+◌, ◌%◌, ◌^◌, Bool, true, false, ◌||◌, Option, none, some, List, [], ◌∷◌, ◌++◌,
  if◌then◌else◌, ◌==◌, leb, get_or, length,
}
use linux_kernel.Prelude.Int.{ℤ, pos, negsuc, ltb_ℤ, eqb_ℤ}
use linux_kernel.Romfs.Format.{
  Dev, Read, bytes, fault, RomfsInode, decode, mask, fh_type, romfh_size, sign_extend, is_param,
}
use linux_kernel.Romfs.Inode.{Inode, Locked, Iget, inode, error, romfs_iget}

-- An entry that is handed to dir_emit.
pub record Entry : Type 0 where
  pub name : List ℕ
  pub ino : ℕ
  pub dtype : ℕ

-- The directory context: its position, and what dir_emit has taken.
pub record DirContext : Type 0 where
  pub at : ℕ
  pub emitted : List Entry

-- romfs_readdir returns 0 always; `oops` is strcmp with a NULL parameter.
pub data Readdir : Type 0 where
  finished : DirContext → Readdir
  oops : Readdir

-- romfs_dtype_table, with the DT_ numbers of directory entries.
abbrev pub dtype_table : List ℕ
dtype_table = 0 ∷ 4 ∷ 8 ∷ 10 ∷ 6 ∷ 2 ∷ 12 ∷ 1 ∷ []

-- `ino` is an int, converted to the u64 that dir_emit takes.
abbrev pub entry_of : ℕ → RomfsInode → List ℕ → Entry
entry_of offset ri name = record {
  name = name;
  ino = sign_extend (if fh_type ri.next == 0 then ri.spec else offset % 2 ^ 32);
  dtype = get_or dtype_table (fh_type ri.next) 0;
}

-- The offset of the next entry; `nextfh` is an int.
abbrev pub next_offset : RomfsInode → ℕ
next_offset ri = sign_extend (mask ri.next)

-- dir_emit(ctx, …) says whether it took the entry.
abbrev pub emit :
    (List Entry → Entry → Bool)
    → DirContext
    → Entry
    → ℕ
    → (DirContext → ℕ → Option Readdir)
    → Option Readdir
emit room ctx e next go =
    let taken = go (record ctx { emitted = ctx.emitted ++ (e ∷ []) }) next in
    if room ctx.emitted e then taken else some (finished ctx)

-- An entry whose name has been read, and compared with the hidden name: skipped if it is that one.
abbrev pub list_entry :
    Option Bool
    → (List Entry → Entry → Bool)
    → DirContext
    → ℕ
    → RomfsInode
    → List ℕ
    → (DirContext → ℕ → Option Readdir)
    → Option Readdir
list_entry none room ctx offset ri name go = some oops
list_entry (some true) room ctx offset ri name go = go ctx (next_offset ri)
list_entry (some false) room ctx offset ri name go =
    emit room ctx (entry_of offset ri name) (next_offset ri) go

-- One round of the loop at an offset inside the image; `go` goes on with the next round.
pub visit :
    Dev
    → Option (List ℕ)
    → (List Entry → Entry → Bool)
    → DirContext
    → ℕ
    → (DirContext → ℕ → Option Readdir)
    → Option Readdir
visit dev hidden room ctx offset go =
    let here = record ctx { at = offset } in
    elim (dev.read offset romfh_size) [
      | fault err ↦ some (finished here)
      | bytes b ↦ elim (dev.strnlen (offset + romfh_size) 127) [
        | negsuc _ ↦ some (finished here)
        | pos j ↦ elim (dev.read (offset + romfh_size) j) [
          | fault err ↦ some (finished here)
          | bytes name ↦ list_entry (is_param name hidden) room here offset (decode b) name go
        ]
      ]
    ]

-- The loop, which has no bound of its own; `none` is a loop that goes on.
pub readdir_loop :
    Dev → Option (List ℕ) → (List Entry → Entry → Bool) → ℕ → DirContext → ℕ → Option Readdir
readdir_loop dev hidden room zero ctx offset = none
readdir_loop dev hidden room (suc n) ctx offset =
    let rest = visit dev hidden room ctx offset (readdir_loop dev hidden room n) in
    if offset == 0 || leb dev.maxsize offset
    then some (finished (record ctx { at = dev.maxsize }))
    else rest

-- At position 0 the loop starts at the first entry of the directory `dir_ino`.
pub romfs_readdir :
    Dev → Option (List ℕ) → (List Entry → Entry → Bool) → ℕ → ℕ → DirContext → Option Readdir
romfs_readdir dev hidden room fuel dir_ino ctx =
    if ctx.at == 0
    then elim (dev.read (mask dir_ino) romfh_size) [
      | fault err ↦ some (finished ctx)
      | bytes b ↦ readdir_loop dev hidden room fuel ctx (mask (decode b).spec)
    ]
    else readdir_loop dev hidden room fuel ctx ctx.at

-- What romfs_lookup makes of the dentry: d_splice_alias with an inode, with none or with an error
-- pointer; `crash` is an access through a NULL parameter or an error pointer.
pub data Lookup : Type 0 where
  found : Inode → Lookup
  negative crash : Lookup
  failed : ℤ → Lookup

-- inode->i_mode |= S_IXUGO, after the name was compared with the parameter exec_file_name.
abbrev pub make_exec : Option Bool → Iget → Lookup
make_exec none got = crash
make_exec (some true) (inode i) = found (record i { mode = bit_or i.mode 0o111 })
make_exec (some true) (error err) = crash
make_exec (some false) (inode i) = found i
make_exec (some false) (error err) = failed err

-- The entry at `offset` has the name.
pub matched : Dev → Option (List ℕ) → (ℕ → Locked) → ℕ → List ℕ → ℕ → RomfsInode → Option Lookup
matched dev exec icache fuel name offset ri =
    let target = if fh_type ri.next == 0 then mask ri.spec else offset in
    elim (romfs_iget dev icache fuel target) [
      | none ↦ none
      | some got ↦ some (make_exec (is_param name exec) got)
    ]

pub lookup_loop : Dev → Option (List ℕ) → (ℕ → Locked) → ℕ → List ℕ → ℕ → ℕ → Option Lookup
lookup_loop dev exec icache fuel name zero offset = none
lookup_loop dev exec icache fuel name (suc n) offset =
    let step : Option Lookup = elim (dev.read offset romfh_size) [
      | fault err ↦ some (failed err)
      | bytes b ↦
          let ret = dev.strcmp (offset + romfh_size) name (length name) in
          let rest = lookup_loop dev exec icache fuel name n (mask (decode b).next) in
          let hit = matched dev exec icache fuel name offset (decode b) in
          if ltb_ℤ ret (pos 0) then some (failed ret) else if eqb_ℤ ret (pos 1) then hit else rest
    ] in
    if offset == 0 || leb dev.maxsize offset then some negative else step

pub romfs_lookup : Dev → Option (List ℕ) → (ℕ → Locked) → ℕ → ℕ → List ℕ → Option Lookup
romfs_lookup dev exec icache fuel dir_ino name = elim (dev.read (mask dir_ino) romfh_size) [
  | fault err ↦ some (failed err)
  | bytes b ↦ lookup_loop dev exec icache fuel name fuel (mask (decode b).spec)
]
