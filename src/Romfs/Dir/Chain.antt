-- ===== src/Romfs/Dir/Chain.antt =====
-- The entries of a directory as they are linked in the image.
use linux_kernel.Prelude.{
  same_text, ℕ, ◌+◌, ◌≤◌, ◌<◌, ◌≡◌, List, [], ◌∷◌, ◌⊎◌, if◌then◌else◌, Option, none, some,
}
use linux_kernel.Prelude.Int.{pos}
use linux_kernel.Romfs.Format.{Dev, bytes, RomfsInode, decode, romfh_size}
use linux_kernel.Romfs.Dir.{Entry, entry_of, next_offset}

pub record Item : Type 0 where
  pub offset : ℕ
  pub header : RomfsInode
  pub name : List ℕ

-- The chain from an offset on: it ends at 0 or past the image, and each entry can be read.
pub data Chain (dev : Dev) : ℕ → List Item → Type 0 where
  last : {offset : ℕ} → (offset ≡ 0) ⊎ (dev.maxsize ≤ offset) → Chain dev offset []
  entry :
      {offset j : ℕ} {b name : List ℕ} {items : List Item}
      → 0 < offset
      → offset < dev.maxsize
      → dev.read offset romfh_size ≡ bytes b
      → dev.strnlen (offset + romfh_size) 127 ≡ pos j
      → dev.read (offset + romfh_size) j ≡ bytes name
      → Chain dev (next_offset (decode b)) items
      → Chain dev offset (record { offset = offset; header = decode b; name = name } ∷ items)

-- The listing of a chain: every entry but those of the hidden name, in order.
unfoldable pub visible : List ℕ → List Item → List Entry
visible hidden [] = []
visible hidden (x ∷ xs) =
    let rest = visible hidden xs in
    if same_text x.name hidden then rest else entry_of x.offset x.header x.name ∷ rest

-- The first entry of a name.
unfoldable pub find : List ℕ → List Item → Option Item
find name [] = none
find name (x ∷ xs) = if same_text x.name name then some x else find name xs
