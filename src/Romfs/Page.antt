-- ===== src/Romfs/Page.antt =====
-- romfs_readpage. kmap is taken to succeed unless it is said to fail.
pub mod Laws
use linux_kernel.Prelude.{
  ℕ, ◌+◌, ◌-◌, ◌*◌, ◌%◌, Bool, true, false, ◌&&◌, not, Option, none, some, List, [], ◌∷◌, ◌++◌, map,
  if◌then◌else◌, ltb, ◌==◌, replicate, length,
}
use linux_kernel.Prelude.Int.{ℤ, pos}
use linux_kernel.Prelude.Errno.{enomem, eio}
use linux_kernel.Romfs.Format.{Dev, Read, bytes, fault, page_size, is_param}

-- The page and its flags when it is unlocked, and the value returned.
pub record Page : Type 0 where
  pub contents : List ℕ
  pub uptodate : Bool
  pub error : Bool
  pub ret : ℤ

-- The file as romfs_readpage sees it: the name of its dentry, and its inode. There is no name where
-- `file` is NULL, as it is when the page of a symbolic link is read.
pub record File : Type 0 where
  pub name : Option (List ℕ)
  pub i_size : ℕ
  pub i_dataoffset : ℕ

-- tmp_buf[tmp] += 1 on a char.
abbrev pub encrypt : ℕ → ℕ
encrypt b = (b + 1) % 256

-- memset of the rest of the page; the buffer's old contents are gone.
abbrev pub padded : List ℕ → List ℕ
padded data' = data' ++ replicate (page_size - length data') 0

abbrev pub failed_page : Page
failed_page = record { contents = padded []; uptodate = false; error = true; ret = eio }

abbrev pub good_page : List ℕ → Page
good_page b = record { contents = padded b; uptodate = true; error = false; ret = pos 0 }

-- The test of the file's name and the loop after it.
abbrev pub maybe_encrypt : Bool → List ℕ → List ℕ
maybe_encrypt e b = if e then map encrypt b else b

abbrev pub fill_size : File → ℕ → ℕ
fill_size f offset = if ltb page_size (f.i_size - offset) then page_size else f.i_size - offset

-- The comparison of the file's name. A NULL `file` is a fault.
unfoldable pub is_file_param : Option (List ℕ) → Option (List ℕ) → Option Bool
is_file_param none param = none
is_file_param (some name) param = is_param name param

-- After romfs_dev_read. The name is compared whether or not the read failed.
pub fill_page : Option (List ℕ) → File → Read → Option Page
fill_page param f (fault err) = elim (is_file_param f.name param) [
  | none ↦ none
  | some e ↦ some failed_page
]
fill_page param f (bytes b) = elim (is_file_param f.name param) [
  | none ↦ none
  | some e ↦ some (good_page (maybe_encrypt e b))
]

-- `none` is a fault of the kernel, by a NULL file or by strcmp with a NULL parameter. `index` is the page's number.
pub romfs_readpage : Dev → Option (List ℕ) → File → Bool → ℕ → List ℕ → Option Page
romfs_readpage dev param f mapped index old =
    let offset = index * page_size in
    if not mapped
    then some (record { contents = old; uptodate = false; error = false; ret = enomem })
    else if ltb offset f.i_size
    then fill_page param f (dev.read (f.i_dataoffset + offset) (fill_size f offset))
    else some (good_page [])
