-- ===== src/Romfs/Dir/Finding.antt =====
-- romfs_lookup finds the first entry of a name in the chain, hidden from romfs_readdir or not.
use linux_kernel.Prelude.{
  same_text, ℕ, ◌+◌, ◌<◌, ◌≡◌, List, [], ◌∷◌, Option, none, some, if◌then◌else◌, ◌==◌, length,
}
use linux_kernel.Prelude.Int.{pos}
use linux_kernel.Romfs.Format.{Dev, RomfsInode, fh_type, romfh_size, mask}
use linux_kernel.Romfs.Inode.{Locked, header}
use linux_kernel.Romfs.Inode.Laws.{Links}
use linux_kernel.Romfs.Dir.{Lookup, negative, matched}
use linux_kernel.Romfs.Dir.Chain.{Item, Chain}

-- romfs_dev_strcmp says 1 for the entries that have the name, and 0 for the others.
pub data Compares (dev : Dev) (name : List ℕ) : List Item → Type 0 where
  none_left : Compares dev name []
  compare_with :
      {x : Item} {xs : List Item}
      → dev.strcmp (x.offset + romfh_size) name (length name)
        ≡ pos (if same_text x.name name then 1 else 0)
      → Compares dev name xs
      → Compares dev name (x ∷ xs)

-- What is made of the entry that was found.
abbrev pub answer : Dev → Option (List ℕ) → (ℕ → Locked) → ℕ → List ℕ → Option Item → Option Lookup
answer dev exec icache links name none = some negative
answer dev exec icache links name (some x) = matched dev exec icache links name x.offset x.header

-- The position that romfs_lookup gives to romfs_iget for an entry.
abbrev pub link_target : Item → ℕ
link_target x = if fh_type x.header.next == 0 then mask x.header.spec else x.offset

-- From that position fewer than `links` hard links lead to a header that is none.
abbrev pub Resolves : Dev → ℕ → Option Item → Type 0
Resolves dev links none = Unit {0}
Resolves dev links (some x) =
    (target : ℕ) × (ri : RomfsInode) × (n : ℕ) × Links dev (link_target x) target ri n × (n < links)
